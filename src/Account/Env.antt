-- ===== src/Account/Env.antt =====
-- What the methods of the service share: the request, what they take from outside the module, the errors
-- of model.go, and the mapping of errors of errors.go.
use go_starter_kit.Base.{
  ℕ, ◌/◌, Str, Bool, true, false, not, ◌&&◌, ◌||◌, List, [], ◌∷◌, Option, none, some, codes, utf8,
  str_eq, leb, length, any_by, ◌==◌, if◌then◌else◌,
}
use go_starter_kit.AppError.{
  GoError, AppError, business, joined, not_found, conflict, invalid, unauthenticated, unavailable,
  forbidden, rate_limited, errors_is, is_business, is_no_rows,
}
use go_starter_kit.AppError.Retry.{second}
use go_starter_kit.Db.{Result, ok, err, ErrorPolicy, Action, pure, fail}
use go_starter_kit.Validation.{trim_space, valid_string, has_nul, identifier}
use go_starter_kit.Account.Tables.{Tables}

-- `Request`, with its `Subject`
pub record Request : Type 0 where
  pub user_id : Str
  pub session_id : Str
  pub request_id : Str
  pub client_ip : Str

-- `VerifiedIdentity`
pub record VerifiedIdentity : Type 0 where
  pub namespace : Str
  pub subject : Str
  pub name : Str

-- The metadata of an audit event: none, a status, a provider or a method.
pub data Metadata : Type 0 where
  no_metadata : Metadata
  of_status of_provider of_method : Str → Metadata

pub record Verified : Type 0 where
  pub matches : Bool
  pub needs_upgrade : Bool

pub record FlowStart : Type 0 where
  pub authorization_url : Str
  pub config_version : Str

-- What a call takes from outside: `net/mail` and `strings.ToLower`, the hash function, JSON, the text of
-- a mail (none if the address of the front end does not parse), the interfaces `Passwords` and
-- `Federation`, the options with their durations in nanoseconds, the database's order of texts, the
-- clock of the process, and the new identifiers and random bytes in the order of their use.
pub record Env : Type 0 where
  pub parse_address : Str → Option Str
  pub lower : Str → Str
  pub digest : Str → Str
  pub marshal : Metadata → Str
  pub is_object : Str → Bool
  pub protocol_of : Str → Str
  pub verifier_of : Option Str → Option Str
  pub verification_body : Str → Str → Option Str
  pub notification_body : Str → Str
  pub validate_password : Str → Bool
  pub hash_password : Str → Result Str
  pub verify_password : Str → Str → Result Verified
  pub enabled : Str → Bool
  pub version : Str → Str
  pub start : Str → Str → Str → Result FlowStart
  pub verify : Str → Str → Str → Str → Result VerifiedIdentity
  pub idle_ttl : ℕ
  pub max_ttl : ℕ
  pub frontend_url : Str
  pub id_le : Str → Str → Bool
  pub clock : ℕ
  pub new_id : ℕ → Str
  pub random : ℕ → List ℕ

abbrev pub err_verification : AppError
err_verification = record { address = 80; kind = invalid; message = codes "verification_invalid" }

abbrev pub err_flow : AppError
err_flow = record { address = 81; kind = invalid; message = codes "flow_invalid" }

abbrev pub err_reauthentication : AppError
err_reauthentication = record {
  address = 82;
  kind = invalid;
  message = codes "reauthentication_invalid";
}

abbrev pub err_invalid : AppError
err_invalid = record { address = 83; kind = invalid; message = utf8 "认证参数无效" }

abbrev pub err_credentials : AppError
err_credentials = record { address = 84; kind = unauthenticated; message = utf8 "登录凭据或验证证明无效" }

abbrev pub err_not_found : AppError
err_not_found = record { address = 85; kind = not_found; message = utf8 "资源不存在" }

abbrev pub err_conflict : AppError
err_conflict = record { address = 86; kind = conflict; message = utf8 "账号或邮箱已被使用" }

abbrev pub err_last_account : AppError
err_last_account = record { address = 87; kind = conflict; message = utf8 "必须保留并验证至少一个可用登录账号" }

abbrev pub err_forbidden : AppError
err_forbidden = record { address = 88; kind = forbidden; message = utf8 "无权执行此操作" }

abbrev pub err_rate_limited : AppError
err_rate_limited = record { address = 89; kind = rate_limited; message = utf8 "请求过于频繁，请稍后再试" }

abbrev pub err_unavailable : AppError
err_unavailable = record { address = 90; kind = unavailable; message = utf8 "认证依赖暂不可用" }

abbrev pub err_registration_required : AppError
err_registration_required = record {
  address = 91;
  kind = conflict;
  message = codes "registration_required";
}

abbrev pub session_prefix : Str
session_prefix = codes "tk_"

abbrev pub flow_prefix : Str
flow_prefix = codes "flow_"

abbrev pub challenge_prefix : Str
challenge_prefix = codes "verify_"

-- `storageErrors`
unfoldable pub storage_errors : ErrorPolicy
storage_errors = record {
  resource = codes "account";
  not_found = some err_not_found;
  unique_constraints =
      (codes "users_email_normalized_key", err_conflict)
      ∷ (codes "accounts_provider_identity_key", err_conflict)
      ∷ (codes "accounts_namespace_identity_key", err_conflict)
      ∷ (codes "accounts_user_credential_key", err_conflict)
      ∷ [];
}

-- `proofError`, on an error that is not nil
unfoldable pub proof_error : AppError → GoError → GoError
proof_error kind e =
    if errors_is (is_business err_credentials) e then joined (business kind) e else e

-- `credentialLookupError`
unfoldable pub credential_lookup_error : GoError → GoError
credential_lookup_error e = if errors_is is_no_rows e then business err_credentials else e

-- `errors.Is(err, pgx.ErrNoRows)` is answered by another error.
abbrev pub missing_as : AppError → GoError → GoError
missing_as b e = if errors_is is_no_rows e then business b else e

module _ {A : Type 0} where
  -- The error of an action, changed.
  abbrev recast_result : (GoError → GoError) → Result A → Result A
  recast_result f (ok a) = ok a
  recast_result f (err e) = err (f e)

  abbrev pub recast : (GoError → GoError) → Action Tables A → Action Tables A
  recast f m s = let (r, s') = m s in (recast_result f r, s')

  -- A lookup whose missing row is an answer.
  abbrev pub found_result : Result A → Result (Option A)
  found_result (ok a) = ok (some a)
  found_result (err e) = if errors_is is_no_rows e then ok none else err e

  abbrev pub found : Action Tables A → Action Tables (Option A)
  found m s = let (r, s') = m s in (found_result r, s')

-- A guard with an early return.
abbrev pub require : Bool → GoError → Action Tables (Unit {0})
require true e = pure tt
require false e = fail e

abbrev pub need : {A : Type 0} → Option A → GoError → Action Tables A
need none e = fail e
need (some a) e = pure a

abbrev pub max_email_bytes : ℕ
max_email_bytes = 254

abbrev pub max_display_name_runes : ℕ
max_display_name_runes = 100

abbrev pub max_provider_id_runes : ℕ
max_provider_id_runes = 64

abbrev pub max_provider_subject_bytes : ℕ
max_provider_subject_bytes = 1024

abbrev pub max_provider_namespace_bytes : ℕ
max_provider_namespace_bytes = 2048

abbrev pub is_address : Str → Option Str → Bool
is_address value none = false
is_address value (some address) = str_eq address value

-- `validation.Email`
unfoldable pub valid_email : Env → Str → Bool
valid_email env value =
    if str_eq value []
      || not (valid_string value)
      || any_by (λ c. c == 13 || (c == 10 || c == 0)) value
    then false
    else is_address value (env.parse_address value) && any_by (λ c. c == 64) value

-- `normalizeEmail`; none is `ErrInvalid`
unfoldable pub normalize_email : Env → Str → Option Str
unfolding valid_email
normalize_email env value =
    let trimmed = trim_space value in
    if not (leb (length trimmed) max_email_bytes) || not (valid_email env trimmed)
    then none
    else some (env.lower trimmed)

-- `validBytes`
unfoldable pub valid_bytes : Str → ℕ → Bool
valid_bytes value max =
    (not (str_eq value []) && leb (length value) max) && (valid_string value && not (has_nul value))

-- `validOptionalIdentifier`
unfoldable pub valid_optional_identifier : List (Option Str) → Bool
valid_optional_identifier [] = true
valid_optional_identifier (none ∷ rest) = valid_optional_identifier rest
valid_optional_identifier (some id ∷ rest) = identifier id && valid_optional_identifier rest

-- `text`
abbrev pub text : Option Str → Str
text none = []
text (some s) = s

-- A duration in whole seconds.
abbrev pub whole_seconds : ℕ → ℕ
whole_seconds d = d / second
