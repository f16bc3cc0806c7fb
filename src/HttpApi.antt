-- ===== src/HttpApi.antt =====
-- internal/httpapi: what a response makes public of an error (errors.go), and the authentication of a
-- request (auth.go). huma is not part of the program: a response is its status, its message, its headers and
-- what else its body holds, which is nothing where the program makes the response.
pub mod Statuses
pub mod Auth
use go_starter_kit.Base.{
  ℕ, ◌+◌, ◌-◌, ◌/◌, Str, Bool, true, false, ◌&&◌, ◌||◌, List, [], ◌∷◌, Option, none, some, codes,
  str_eq, ◌==◌, not, if◌then◌else◌,
}
pub use go_starter_kit.AppError.{
  Response, Header, retry_after_seconds, www_authenticate_bearer, cache_no_store, other_header,
}
use go_starter_kit.AppError.{
  GoError, AppError, Kind, not_found, conflict, invalid, unauthenticated, unavailable, forbidden,
  rate_limited, unlisted, errors_as, errors_is, as_business, as_status, is_deadline, is_plain,
}
use go_starter_kit.AppError.Retry.{retry_after, second}

abbrev pub plainly : ℕ → Str → Response
plainly code detail = record { code = code; detail = detail; headers = []; others = [] }

-- `InternalError`; the flag says whether the context of the request has passed its deadline.
unfoldable pub internal_error : Bool → GoError → Response
internal_error late e =
    if errors_is is_deadline e || late
    then plainly 504 (codes "request deadline exceeded")
    else plainly 500 (codes "internal server error")

-- The seconds of a delay, rounded up.
abbrev pub ceil_seconds : ℕ → ℕ
ceil_seconds delay = (delay + (second - 1)) / second

abbrev pub limited : AppError → Option ℕ → Response
limited b none = plainly 429 b.message
limited b (some delay) = record {
  code = 429;
  detail = b.message;
  headers = retry_after_seconds (ceil_seconds delay) ∷ [];
  others = [];
}

-- The switch on the kind of a business error.
unfoldable pub from_kind : Bool → GoError → AppError → Kind → Response
unfolding internal_error retry_after
from_kind late e b not_found = plainly 404 b.message
from_kind late e b conflict = plainly 409 b.message
from_kind late e b invalid = plainly 422 b.message
from_kind late e b unauthenticated = plainly 401 b.message
from_kind late e b forbidden = plainly 403 b.message
from_kind late e b rate_limited = limited b (retry_after e)
from_kind late e b unavailable = plainly 503 b.message
from_kind late e b (unlisted n) = internal_error late e

-- A status error is passed on as it is.
abbrev pub from_status : Bool → GoError → Option Response → Response
unfolding internal_error
from_status late e (some response) = response
from_status late e none = internal_error late e

abbrev pub from_business : Bool → GoError → Option AppError → Response
unfolding from_kind
from_business late e (some b) = from_kind late e b b.kind
from_business late e none = from_status late e (errors_as as_status e)

-- `FromError` on an error that is not nil.
unfoldable pub from_error : Bool → GoError → Response
unfolding from_business errors_as
from_error late e = from_business late e (errors_as as_business e)
