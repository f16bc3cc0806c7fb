-- ===== src/Account/Login.antt =====
-- internal/modules/account/session.go: the sessions of the callers.
use go_starter_kit.Base.{
  ℕ, ◌-◌, ◌*◌, ◌/◌, min, Str, Bool, true, false, not, ◌&&◌, ◌||◌, [], Option, none, some, codes,
  str_eq, leb, ◌==◌, is_some, if◌then◌else◌,
}
use go_starter_kit.AppError.{GoError, business, errors_is, is_no_rows}
use go_starter_kit.AppError.Retry.{second}
use go_starter_kit.Db.{Action, query, pure, lift, mapped, ◌>>=◌, ◌>>◌}
use go_starter_kit.Db.Transaction.{with_transaction}
use go_starter_kit.Validation.{identifier}
use go_starter_kit.Pagination.{
  err_pagination, Params, Page, validate as validate_page, fetch_limit, build,
}
use go_starter_kit.Identity.{err_unauthorized}
use go_starter_kit.Identity.Tokens.{new_token, token_digest}
use go_starter_kit.Account.Tables.{User, UserSession, Account, Tables, is_open}
use go_starter_kit.Account.Users
use go_starter_kit.Account.Sessions
use go_starter_kit.Account.Accounts
use go_starter_kit.Account.Enums.{user_active, method_password}
use go_starter_kit.Account.Env.{
  Env, Request, no_metadata, of_method, storage_errors, err_invalid, err_credentials, err_not_found,
  credential_lookup_error, recast, found, require, need, normalize_email, text, whole_seconds,
  session_prefix,
}
use go_starter_kit.Account.Audit.{audit, audited, entry_limit, success}
use go_starter_kit.Account.Self.{lock_self, read_self, invalidate}
use go_starter_kit.Account.Store

-- min(time.Minute, s.options.IdleTTL/2)
abbrev pub renewal_interval : Env → ℕ
renewal_interval env = min (60 * second) (env.idle_ttl / 2)

-- `time.Since` in nanoseconds; the clock of the process and the times of the rows are in microseconds.
abbrev pub since : Env → ℕ → ℕ
since env at = (env.clock - at) * 1000

unfoldable pub renew : Env → UserSession → Action Tables (Unit {0})
renew env session =
    if leb (renewal_interval env) (since env session.last_seen_at)
    then query (
        Sessions.touch_session (whole_seconds env.idle_ttl) session.id session.user_id
          (renewal_interval env / 1000000))
    else pure tt

abbrev pub unauthorized : GoError → GoError
unauthorized e = if errors_is is_no_rows e then err_unauthorized else e

-- `AuthenticateSession`
unfoldable pub authenticate_session : Env → Str → Action Tables (Str × Str)
authenticate_session env token = do
  hash ← need (token_digest env.digest token session_prefix) err_unauthorized
  session ← recast unauthorized (query (Sessions.find_session hash))
  renew env session
  pure (session.user_id, session.id)

-- `SessionCredentials`
pub record SessionCredentials : Type 0 where
  pub token : Str
  pub id : Str
  pub idle_expires_at : ℕ
  pub absolute_expires_at : ℕ

abbrev pub session_token : Env → Str
session_token env = new_token session_prefix (env.random 0)

abbrev pub session_params : Env → User → Account → Str → Sessions.CreateSessionParams
session_params env user account method = record {
  id = env.new_id 2;
  user_id = user.id;
  token_hash = env.digest (session_token env);
  auth_method = method;
  auth_source_id = account.id;
  auth_version = user.auth_version;
  idle_seconds = whole_seconds env.idle_ttl;
  max_seconds = whole_seconds env.max_ttl;
}

-- Who may have a session.
unfoldable pub may_enter : User → Account → Bool
may_enter user account =
    str_eq user.status user_active && (str_eq account.user_id user.id && is_open account.revoked_at)

-- `newSession`
unfoldable pub new_session : Env → Request → User → Account → Str → Action Tables SessionCredentials
new_session env r user account method = do
  require (may_enter user account) (business err_credentials)
  row ← Store.create_session (session_params env user account method)
  query (Accounts.touch_account account.id user.id)
  audit env (env.new_id 8) (record r { user_id = user.id; session_id = row.id })
      (success (codes "auth.login") (codes "session") row.id user.id (of_method method))
  pure (record {
    token = session_token env;
    id = row.id;
    idle_expires_at = row.idle_expires_at;
    absolute_expires_at = row.absolute_expires_at;
  })

abbrev pub id_of : Option User → Str
id_of none = []
id_of (some u) = u.id

abbrev pub hash_of : Option Account → Option Str
hash_of none = none
hash_of (some a) = a.password_hash

-- The user and the account of a login that is not refused.
unfoldable pub admitted : Option User → Option Account → Bool → Option (User × Account)
admitted (some u) (some a) valid =
    if valid && (str_eq u.status user_active && is_some u.email_verified_at)
    then some (u, a)
    else none
admitted _ _ valid = none

-- The new hash of a password, empty if it needs none.
unfoldable pub upgraded : Env → Bool → Str → Action Tables Str
upgraded env false password = pure []
upgraded env true password = lift (env.hash_password password)

unfoldable pub store_upgrade : User → Account → Str → Action Tables (Unit {0})
store_upgrade user account hash =
    if str_eq hash []
    then pure tt
    else Store.upgrade_password_hash account.id user.id (some hash) account.password_hash

-- The transaction of `Login`: neither version has changed since the password was compared.
unfoldable pub sign_in : Env → Request → User → Account → Str → Action Tables SessionCredentials
sign_in env r user account hash = do
  now_user ← query (Users.lock_user user.id)
  now_account ← recast credential_lookup_error (query (Accounts.get_account account.id user.id))
  require
      (now_user.auth_version == user.auth_version
        && (now_account.version == account.version && str_eq now_user.status user_active))
      (business err_credentials)
  store_upgrade user account hash
  new_session env r now_user now_account method_password

-- The body of `Login`, behind the deferred audit.
unfoldable pub log_in : Env → Request → Str → Str → Action Tables SessionCredentials
log_in env r address password = do
  email ← need (normalize_email env address) (business err_credentials)
  entry_limit env r (codes "login") email
  user ← mapped storage_errors (found (query (Users.find_user_by_email (some email))))
  account ← mapped storage_errors (found (query (Accounts.get_password_account (id_of user))))
  verified ← lift (env.verify_password (text (hash_of account)) password)
  (user, account) ← need (admitted user account verified.matches) (business err_credentials)
  hash ← upgraded env verified.needs_upgrade password
  with_transaction storage_errors (sign_in env r user account hash)

-- `Login`
unfoldable pub login : Env → Request → Str → Str → Action Tables SessionCredentials
login env r address password = audited env r (codes "auth.login") (log_in env r address password)

-- `SessionRecord`
pub record SessionRecord : Type 0 where
  pub id : Str
  pub method : Str
  pub authenticated_at : ℕ
  pub created_at : ℕ
  pub last_seen_at : ℕ
  pub idle_expires_at : ℕ
  pub absolute_expires_at : ℕ

-- `sessionRecord`
unfoldable pub session_record : UserSession → SessionRecord
session_record s = record {
  id = s.id;
  method = s.auth_method;
  authenticated_at = s.authenticated_at;
  created_at = s.created_at;
  last_seen_at = s.last_seen_at;
  idle_expires_at = s.idle_expires_at;
  absolute_expires_at = s.absolute_expires_at;
}

-- `Sessions`
unfoldable pub sessions : Env → Request → Params → Action Tables (Page SessionRecord)
sessions env r p = do
  require (validate_page p) (business err_invalid)
  (user, session) ← mapped storage_errors (read_self r)
  rows ←
      mapped storage_errors
        (query (Sessions.list_sessions env.id_le user.id (fetch_limit p) p.offset))
  need (build rows p session_record) err_pagination

abbrev pub counted : ℕ → Action Tables (Unit {0})
counted count = require (not (count == 0)) (business err_not_found)

-- What `RevokeSession` closes: all sessions, or one of the caller's.
unfoldable pub close_sessions : Str → Str → Bool → Action Tables (Unit {0})
close_sessions user id true = invalidate user
close_sessions user id false = query (Sessions.revoke_session id user) >>= counted

abbrev pub revocation : Str → Str → Bool → Str × Str
revocation user id true = (codes "user", user)
revocation user id false = (codes "session", id)

-- The transaction of `RevokeSession`
unfoldable pub close_own : Env → Request → Str → Bool → Action Tables (Unit {0})
close_own env r id all = do
  (user, session) ← lock_self r
  close_sessions user.id id all
  audit env (env.new_id 7) r (
      success (codes "session.revoke") (revocation user.id id all).0 (revocation user.id id all).1
        user.id no_metadata)

-- `RevokeSession`
unfoldable pub revoke_session : Env → Request → Str → Bool → Action Tables (Unit {0})
revoke_session env r id all =
    require (all || identifier id) (business err_invalid)
    >> with_transaction storage_errors (close_own env r id all)
