-- ===== src/Account/Audit.antt =====
-- internal/modules/account/audit.go and rate_limit.go: what is written about a call, and what holds a
-- caller back.
use go_starter_kit.Base.{
  ℕ, ◌*◌, Str, [], ◌∷◌, ◌++◌, Option, none, some, codes, str_eq, ltb, if◌then◌else◌,
}
use go_starter_kit.AppError.{GoError, business, joined, errors_is, is_business}
use go_starter_kit.AppError.Retry.{second, with_retry_after}
use go_starter_kit.Db.{Result, ok, err, Session, Action, pure, fail, ◌>>=◌, ◌>>◌}
use go_starter_kit.Validation.{identifier}
use go_starter_kit.Account.Tables.{Tables}
use go_starter_kit.Account.Records
use go_starter_kit.Account.Enums.{
  actor_user, actor_anonymous, audit_success, audit_failure, audit_denied,
}
use go_starter_kit.Account.Env.{
  Env, Request, Metadata, no_metadata, of_status, of_provider, of_method, err_credentials,
  err_forbidden, err_rate_limited, err_unavailable, recast, whole_seconds,
}
use go_starter_kit.Account.Store

-- `auditEvent`
pub record Event : Type 0 where
  pub action : Str
  pub outcome : Str
  pub resource_type : Str
  pub resource_id : Str
  pub scope_subject : Str
  pub reason : Str
  pub metadata : Metadata

-- An empty text is NULL.
abbrev pub optional : Str → Option Str
optional v = if str_eq v [] then none else some v

abbrev pub audit_metadata : Env → Metadata → Str
audit_metadata env no_metadata = codes "{}"
audit_metadata env (of_status s) = env.marshal (of_status s)
audit_metadata env (of_provider s) = env.marshal (of_provider s)
audit_metadata env (of_method s) = env.marshal (of_method s)

-- `audit`; `id` is the new identifier.
unfoldable pub audit : Env → Str → Request → Event → Action Tables (Unit {0})
audit env id r event = Store.append_audit env (record {
  id = id;
  action = event.action;
  outcome = event.outcome;
  actor_type = if str_eq r.user_id [] then actor_anonymous else actor_user;
  actor_id = optional r.user_id;
  resource_type = event.resource_type;
  resource_id = optional event.resource_id;
  scope_subject = optional event.scope_subject;
  session_id = if identifier r.session_id then some r.session_id else none;
  request_id = optional r.request_id;
  reason_code = optional event.reason;
  metadata = audit_metadata env event.metadata;
})

-- An event of a success, without a reason.
abbrev pub success : Str → Str → Str → Str → Metadata → Event
success action resource_type resource_id scope metadata = record {
  action = action;
  outcome = audit_success;
  resource_type = resource_type;
  resource_id = resource_id;
  scope_subject = scope;
  reason = [];
  metadata = metadata;
}

abbrev pub failure_outcome : GoError → Str
failure_outcome e = if errors_is (is_business err_forbidden) e then audit_denied else audit_failure

abbrev pub failure_reason : GoError → Str
failure_reason e =
    if errors_is (is_business err_forbidden) e
    then codes "permission_denied"
    else if errors_is (is_business err_credentials) e
    then codes "invalid_credentials"
    else codes "operation_failed"

-- An action whose error is dropped.
abbrev pub quietly : Action Tables (Unit {0}) → Action Tables (Unit {0})
quietly m s = let (_, s') = m s in (ok tt, s')

-- `recordFailure` on an error that is not nil
unfoldable pub record_failure : Env → Request → Str → GoError → Action Tables (Unit {0})
record_failure env r action e =
    if errors_is (is_business err_rate_limited) e
    then pure tt
    else quietly (
        audit env (env.new_id 9) r (record {
          action = action;
          outcome = failure_outcome e;
          resource_type = codes "user";
          resource_id = [];
          scope_subject = r.user_id;
          reason = failure_reason e;
          metadata = no_metadata;
        }))

module _ {A : Type 0} where
  abbrev pub noted : Env → Request → Str → Result A × Session Tables → Result A × Session Tables
  noted env r action (ok a, s) = (ok a, s)
  noted env r action (err e, s) = (err e, (record_failure env r action e s).1)

  -- A method with `defer s.recordFailureOnReturn(...)`
  unfoldable pub audited : Env → Request → Str → Action Tables A → Action Tables A
  audited env r action m s = noted env r action (m s)

abbrev pub ip_request_limit : ℕ
ip_request_limit = 60

abbrev pub ip_rate_window : ℕ
ip_rate_window = 60 * second

abbrev pub subject_request_limit : ℕ
subject_request_limit = 10

abbrev pub subject_rate_window : ℕ
subject_rate_window = 900 * second

abbrev pub fail_with : Option GoError → Action Tables (Unit {0})
fail_with none = pure tt
fail_with (some e) = fail e

-- `sha256.Sum256([]byte(category + "\x00" + key))`
abbrev pub bucket_key : Env → Str → Str → Str
bucket_key env category key = env.digest (category ++ 0 ∷ key)

-- The end of `limit`: the count of this window against its maximum.
abbrev pub within : ℕ → Records.RateLimitRow → Action Tables (Unit {0})
within max bucket =
    if ltb max bucket.count
    then fail_with
        (with_retry_after (some (business err_rate_limited)) (bucket.retry_after_seconds * second))
    else pure tt

-- `limit`
unfoldable pub limit : Env → Str → Str → ℕ → ℕ → Action Tables (Unit {0})
limit env category key max window =
    recast (joined (business err_unavailable))
      (Store.rate_limit (bucket_key env category key) (whole_seconds window))
    >>= within max

abbrev pub of_ip : Str → Str
of_ip category = category ++ codes ".ip"

abbrev pub of_subject : Str → Str
of_subject category = category ++ codes ".subject"

-- `entryLimit`
unfoldable pub entry_limit : Env → Request → Str → Str → Action Tables (Unit {0})
entry_limit env r category key =
    limit env (of_ip category) r.client_ip ip_request_limit ip_rate_window
    >> limit env (of_subject category) key subject_request_limit subject_rate_window
