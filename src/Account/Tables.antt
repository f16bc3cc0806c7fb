-- ===== src/Account/Tables.antt =====
-- The tables of the account module, with the generated models of internal/db/sqlc/models.go. A version
-- is a bigint; the model does not bound it.
use go_starter_kit.Base.{
  ℕ, Str, Bool, true, false, ◌&&◌, List, [], Option, none, some, codes, str_eq, ltb, ◌==◌,
  lookup_by,
}
use go_starter_kit.MailOutbox.Queries.{Mail}

-- `User`
pub record User : Type 0 where
  pub id : Str
  pub display_name : Str
  pub email : Option Str
  pub email_normalized : Option Str
  pub email_verified_at : Option ℕ
  pub recovery_enabled : Bool
  pub status : Str
  pub role : Str
  pub auth_version : ℕ
  pub created_at : ℕ
  pub updated_at : ℕ

-- `UserSession`
pub record UserSession : Type 0 where
  pub id : Str
  pub user_id : Str
  pub token_hash : Str
  pub auth_method : Str
  pub auth_source_id : Str
  pub authenticated_at : ℕ
  pub auth_version : ℕ
  pub created_at : ℕ
  pub last_seen_at : ℕ
  pub idle_expires_at : ℕ
  pub absolute_expires_at : ℕ
  pub revoked_at : Option ℕ

-- `Account`
pub record Account : Type 0 where
  pub id : Str
  pub user_id : Str
  pub provider_id : Str
  pub provider_account_id : Str
  pub provider_namespace : Str
  pub password_hash : Option Str
  pub version : ℕ
  pub created_at : ℕ
  pub updated_at : ℕ
  pub last_used_at : Option ℕ
  pub revoked_at : Option ℕ

-- `AuthFlow`
pub record AuthFlow : Type 0 where
  pub id : Str
  pub purpose : Str
  pub token_hash : Option Str
  pub provider_id : Str
  pub config_version : Str
  pub user_id : Option Str
  pub session_id : Option Str
  pub auth_version : ℕ
  pub account_id : Option Str
  pub account_version : ℕ
  pub operation : Str
  pub target : Str
  pub reauthentication_id : Option Str
  pub claimed_by : Option Str
  pub state_hash : Option Str
  pub protocol_state : Option Str
  pub verified_namespace : Str
  pub verified_subject : Str
  pub verified_name : Str
  pub authenticated_at : Option ℕ
  pub status : Str
  pub created_at : ℕ
  pub expires_at : ℕ

-- `AuthVerification`
pub record AuthVerification : Type 0 where
  pub id : Str
  pub user_id : Str
  pub purpose : Str
  pub token_hash : Str
  pub email : Str
  pub auth_version : ℕ
  pub session_id : Option Str
  pub reauthentication_id : Option Str
  pub created_at : ℕ
  pub expires_at : ℕ
  pub consumed_at : Option ℕ

-- A row of audit_events.
pub record AuditEvent : Type 0 where
  pub id : Str
  pub occurred_at : ℕ
  pub action : Str
  pub outcome : Str
  pub actor_type : Str
  pub actor_id : Option Str
  pub resource_type : Str
  pub resource_id : Option Str
  pub scope_subject : Option Str
  pub session_id : Option Str
  pub request_id : Option Str
  pub reason_code : Option Str
  pub metadata : Str

-- A row of auth_rate_limits.
pub record Bucket : Type 0 where
  pub bucket_key : Str
  pub count : ℕ
  pub expires_at : ℕ

pub record Tables : Type 0 where
  pub users : List User
  pub accounts : List Account
  pub sessions : List UserSession
  pub flows : List AuthFlow
  pub verifications : List AuthVerification
  pub audits : List AuditEvent
  pub buckets : List Bucket
  pub mails : List Mail

abbrev pub no_rows_at_all : Tables
no_rows_at_all = record {
  users = [];
  accounts = [];
  sessions = [];
  flows = [];
  verifications = [];
  audits = [];
  buckets = [];
  mails = [];
}

abbrev pub active : Str
active = codes "active"

abbrev pub pending : Str
pending = codes "pending"

abbrev pub user_of : Str → List User → Option User
user_of id users = lookup_by (λ u. u.id) id users

-- A foreign key on a column that is not null.
abbrev pub foreign_key_violation : Str
foreign_key_violation = codes "23503"

-- s.revoked_at IS NULL
abbrev pub is_open : Option ℕ → Bool
is_open none = true
is_open (some _) = false

-- s.revoked_at IS NULL AND s.idle_expires_at > now() AND s.absolute_expires_at > now()
abbrev pub is_live : ℕ → UserSession → Bool
is_live now s = is_open s.revoked_at && (ltb now s.idle_expires_at && ltb now s.absolute_expires_at)

-- u.auth_version = s.auth_version, on the user that the join finds
abbrev pub is_current : Option User → UserSession → Bool
is_current none s = false
is_current (some u) s = u.auth_version == s.auth_version

-- u.status = 'active' AND u.auth_version = s.auth_version, on the user that the join finds
abbrev pub is_backed : Option User → UserSession → Bool
is_backed none s = false
is_backed (some u) s = str_eq u.status active && u.auth_version == s.auth_version

-- The session is live and its user active, in the version that the session was made for.
unfoldable pub is_usable : ℕ → List User → UserSession → Bool
is_usable now users s = is_live now s && is_backed (user_of s.user_id users) s
