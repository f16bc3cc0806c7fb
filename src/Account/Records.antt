-- ===== src/Account/Records.antt =====
-- auth_verifications.sql.go, auth_rate_limits.sql.go and audit_events.sql.go of internal/db/sqlc, and
-- EnqueueMail on the tables of the module.
use go_starter_kit.Base.{
  ℕ, ◌+◌, ◌-◌, ◌*◌, ◌/◌, min, max, Str, Bool, ◌&&◌, ◌∷◌, Option, none, some, codes, str_eq, leb,
  ltb, find_by, any_by, count_by, update_by, if◌then◌else◌, is_some,
}
use go_starter_kit.AppError.{pg, no_rows}
use go_starter_kit.Db.{Result, ok, err, Statement, unique_violation}
use go_starter_kit.MailOutbox.Queries.{EnqueueParams, enqueue_mail}
use go_starter_kit.Account.Tables.{
  AuthVerification, AuditEvent, Bucket, Tables, user_of, is_open, foreign_key_violation,
}

abbrev pub is_unconsumed : Str → Str → ℕ → AuthVerification → Bool
is_unconsumed id user now v =
    (str_eq v.id id && str_eq v.user_id user) && (is_open v.consumed_at && ltb now v.expires_at)

abbrev pub spent : ℕ → AuthVerification → AuthVerification
spent now v = record v { consumed_at = some now }

-- ConsumeVerification
unfoldable pub consume_verification : Str → Str → Statement Tables ℕ
consume_verification id user now t = (
  ok (count_by (is_unconsumed id user now) t.verifications),
  record t { verifications = update_by (is_unconsumed id user now) (spent now) t.verifications },
)

pub record CreateVerificationParams : Type 0 where
  pub id : Str
  pub user_id : Str
  pub purpose : Str
  pub token_hash : Str
  pub email : Str
  pub auth_version : ℕ
  pub session_id : Option Str
  pub reauthentication_id : Option Str
  pub ttl_seconds : ℕ

abbrev pub new_verification : CreateVerificationParams → ℕ → AuthVerification
new_verification p now = record {
  id = p.id;
  user_id = p.user_id;
  purpose = p.purpose;
  token_hash = p.token_hash;
  email = p.email;
  auth_version = p.auth_version;
  session_id = p.session_id;
  reauthentication_id = p.reauthentication_id;
  created_at = now;
  expires_at = now + p.ttl_seconds * 1000000;
  consumed_at = none;
}

-- CreateVerification
unfoldable pub create_verification : CreateVerificationParams → Statement Tables AuthVerification
create_verification p now t =
    if any_by (λ v. str_eq v.id p.id) t.verifications
    then (err (pg unique_violation (codes "auth_verifications_pkey")), t)
    else if any_by (λ v. str_eq v.token_hash p.token_hash) t.verifications
    then (err (pg unique_violation (codes "auth_verifications_token_hash_key")), t)
    else if is_some (user_of p.user_id t.users)
    then (
      ok (new_verification p now),
      record t { verifications = new_verification p now ∷ t.verifications },
    )
    else (err (pg foreign_key_violation (codes "auth_verifications_user_id_fkey")), t)

abbrev pub one_verification : Option AuthVerification → Result AuthVerification
one_verification none = err no_rows
one_verification (some v) = ok v

-- FindVerification
unfoldable pub find_verification : Str → Statement Tables AuthVerification
find_verification hash now t = (
  one_verification (
      find_by (λ v. str_eq v.token_hash hash && (is_open v.consumed_at && ltb now v.expires_at))
        t.verifications),
  t,
)

-- `RateLimitRow`
pub record RateLimitRow : Type 0 where
  pub count : ℕ
  pub retry_after_seconds : ℕ

abbrev pub max_count : ℕ
max_count = 1000000

-- GREATEST(1, ceil(extract(epoch FROM (expires_at - now()))))
abbrev pub retry_after_seconds : ℕ → ℕ → ℕ
retry_after_seconds expires now = max 1 ((expires - now + 999999) / 1000000)

-- The bucket after another request: a new window if the old one is over.
unfoldable pub bumped_bucket : ℕ → ℕ → Bucket → Bucket
bumped_bucket window now b =
    if leb b.expires_at now
    then record b { count = 1; expires_at = now + window * 1000000 }
    else record b { count = min (b.count + 1) max_count }

abbrev pub limit_row : ℕ → Bucket → RateLimitRow
limit_row now b = record {
  count = b.count;
  retry_after_seconds = retry_after_seconds b.expires_at now;
}

abbrev pub hit : Str → ℕ → ℕ → Tables → Option Bucket → Result RateLimitRow × Tables
hit key window now t none =
    let b : Bucket = record { bucket_key = key; count = 1; expires_at = now + window * 1000000 } in
    (ok (limit_row now b), record t { buckets = b ∷ t.buckets })
hit key window now t (some b) = (
  ok (limit_row now (bumped_bucket window now b)),
  record t {
    buckets = update_by (λ x. str_eq x.bucket_key key) (bumped_bucket window now) t.buckets;
  },
)

-- RateLimit
unfoldable pub rate_limit : Str → ℕ → Statement Tables RateLimitRow
rate_limit key window now t =
    hit key window now t (find_by (λ b. str_eq b.bucket_key key) t.buckets)

pub record AppendAuditParams : Type 0 where
  pub id : Str
  pub action : Str
  pub outcome : Str
  pub actor_type : Str
  pub actor_id : Option Str
  pub resource_type : Str
  pub resource_id : Option Str
  pub scope_subject : Option Str
  pub session_id : Option Str
  pub request_id : Option Str
  pub reason_code : Option Str
  pub metadata : Str

abbrev pub new_audit : AppendAuditParams → ℕ → AuditEvent
new_audit p now = record {
  id = p.id;
  occurred_at = now;
  action = p.action;
  outcome = p.outcome;
  actor_type = p.actor_type;
  actor_id = p.actor_id;
  resource_type = p.resource_type;
  resource_id = p.resource_id;
  scope_subject = p.scope_subject;
  session_id = p.session_id;
  request_id = p.request_id;
  reason_code = p.reason_code;
  metadata = p.metadata;
}

-- AppendAudit
unfoldable pub append_audit : AppendAuditParams → Statement Tables (Unit {0})
append_audit p now t =
    if any_by (λ (e : AuditEvent). str_eq e.id p.id) t.audits
    then (err (pg unique_violation (codes "audit_events_pkey")), t)
    else (ok tt, record t { audits = new_audit p now ∷ t.audits })

-- EnqueueMail, in the transaction of the account.
unfoldable pub enqueue : EnqueueParams → Statement Tables (Unit {0})
unfolding enqueue_mail
enqueue p now t = let (r, mails) = enqueue_mail p now t.mails in (r, record t { mails = mails })
