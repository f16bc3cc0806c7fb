-- ===== src/Identity.antt =====
-- internal/identity/validation.go: the subject of a request, checked at the entry of a service.
pub mod Tokens
use go_starter_kit.Base.{Str, Option, none, some, if◌then◌else◌}
use go_starter_kit.AppError.{GoError, business, plain, err_unauthenticated}
use go_starter_kit.Validation.{identifier}

-- `ErrUnauthorized`
abbrev pub err_unauthorized : GoError
err_unauthorized = plain 60

abbrev pub err_invalid_subject : GoError
err_invalid_subject = plain 20

-- `ValidateSubject`; none is a nil error.
unfoldable pub validate_subject : Str → Option GoError
validate_subject subject = if identifier subject then none else some err_invalid_subject

-- `RequireSubject`
unfoldable pub require_subject : Str → Option GoError
unfolding validate_subject
require_subject subject = elim (validate_subject subject) [
  | some _ ↦ some (business err_unauthenticated)
  | none ↦ none
]
