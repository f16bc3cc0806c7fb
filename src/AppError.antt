-- ===== src/AppError.antt =====
-- internal/apperror/error.go, and the errors of Go: a chain is a tree, whose leaves are the sentinel
-- errors of the packages and whose nodes wrap one error or two.
pub mod Retry
pub mod Diagnostic
pub mod Chain
use go_starter_kit.Base.{
  ℕ, Str, Bool, true, false, ◌||◌, List, Option, none, some, codes, ◌==◌, or_else, is_some,
}

-- `Kind`, a uint8; `unlisted` stands for the values that no constant names.
pub data Kind : Type 0 where
  not_found conflict invalid unauthenticated unavailable forbidden rate_limited : Kind
  unlisted : ℕ → Kind

-- `*Error`. The pointer is what `errors.Is` compares, so it is a field.
pub record AppError : Type 0 where
  pub address : ℕ
  pub kind : Kind
  pub message : Str

-- A header of a response and its value: those that the program sets, where the one value that it computes
-- is a number of seconds, and any other.
pub data Header : Type 0 where
  retry_after_seconds : ℕ → Header
  www_authenticate_bearer : Header
  cache_no_store : Header
  other_header : Str → Str → Header

-- A response to an error: what the program sets, and what else a body may hold.
pub record Response : Type 0 where
  pub code : ℕ
  pub detail : Str
  pub headers : List Header
  pub others : Str

pub data GoError : Type 0 where
  -- context.Canceled, context.DeadlineExceeded
  canceled deadline_exceeded : GoError
  -- pgx.ErrNoRows, io.EOF, io.ErrUnexpectedEOF
  no_rows eof unexpected_eof : GoError
  -- *pgconn.PgError: SQLSTATE and constraint name
  pg : Str → Str → GoError
  -- net.Error: whether it is a timeout
  net : Bool → GoError
  business : AppError → GoError
  -- huma.StatusError, which is a response
  status : Response → GoError
  -- any other `errors.New`, told apart by its address
  plain : ℕ → GoError
  -- a prefix and `%w`
  prefixed : Str → GoError → GoError
  -- two `%w`, or `Unwrap() []error`, or `errors.Join`
  joined : GoError → GoError → GoError
  -- *retryError: the delay in nanoseconds
  retry : ℕ → GoError → GoError
  -- *stageError: stage, message, attempt
  stage : Str → Str → ℕ → GoError → GoError

-- The first error of the chain, in pre-order, that `f` recognises: `errors.As`.
unfoldable pub errors_as {ℓ} : {A : Type ℓ} → (GoError → Option A) → GoError → Option A
errors_as f (prefixed s e) = or_else (f (prefixed s e)) (errors_as f e)
errors_as f (joined a b) = or_else (f (joined a b)) (or_else (errors_as f a) (errors_as f b))
errors_as f (retry d e) = or_else (f (retry d e)) (errors_as f e)
errors_as f (stage s m n e) = or_else (f (stage s m n e)) (errors_as f e)
errors_as f e = f e

-- `errors.Is`, for a target that a test recognises.
unfoldable pub errors_is : (GoError → Bool) → GoError → Bool
errors_is p (prefixed s e) = p (prefixed s e) || errors_is p e
errors_is p (joined a b) = p (joined a b) || (errors_is p a || errors_is p b)
errors_is p (retry d e) = p (retry d e) || errors_is p e
errors_is p (stage s m n e) = p (stage s m n e) || errors_is p e
errors_is p e = p e

-- The targets that the program looks for.
abbrev pub is_canceled : GoError → Bool
is_canceled canceled = true
is_canceled _ = false

abbrev pub is_deadline : GoError → Bool
is_deadline deadline_exceeded = true
is_deadline _ = false

abbrev pub is_no_rows : GoError → Bool
is_no_rows no_rows = true
is_no_rows _ = false

abbrev pub is_eof : GoError → Bool
is_eof eof = true
is_eof unexpected_eof = true
is_eof _ = false

abbrev pub is_business : AppError → GoError → Bool
is_business a (business b) = a.address == b.address
is_business a _ = false

abbrev pub is_plain : ℕ → GoError → Bool
is_plain n (plain m) = n == m
is_plain n _ = false

abbrev pub as_business : GoError → Option AppError
as_business (business a) = some a
as_business _ = none

abbrev pub as_pg : GoError → Option record { code : Str; constraint : Str }
as_pg (pg c n) = some (record { code = c; constraint = n })
as_pg _ = none

abbrev pub as_net : GoError → Option Bool
as_net (net timeout) = some timeout
as_net _ = none

abbrev pub as_status : GoError → Option Response
as_status (status s) = some s
as_status _ = none

-- `ErrUnauthenticated`; the addresses are those of the package's variables.
abbrev pub err_unauthenticated : AppError
err_unauthenticated = record {
  address = 1;
  kind = unauthenticated;
  message = codes "authenticated subject required";
}

-- `Wrap` on errors that are there: a nil business error or a nil cause gives the other.
unfoldable pub wrap : Option AppError → Option GoError → Option GoError
wrap none cause = cause
wrap (some b) none = some (business b)
wrap (some b) (some cause) = some (joined (business b) cause)
