-- ===== src/Account/Admin.antt =====
-- internal/modules/account/admin.go, profile.go and mapping.go: what an administrator does to users, and
-- a user to the own profile.
use go_starter_kit.Base.{ℕ, Str, Bool, not, ◌&&◌, List, map, Option, codes, str_eq, is_some}
use go_starter_kit.AppError.{business, err_unauthenticated}
use go_starter_kit.Db.{Action, query, pure, mapped, ◌>>=◌, ◌>>◌}
use go_starter_kit.Db.Transaction.{with_transaction}
use go_starter_kit.Validation.{identifier, required_text}
use go_starter_kit.Pagination.{
  err_pagination, Params, Page, validate as validate_page, fetch_limit, build,
}
use go_starter_kit.Account.Tables.{User, Account, Tables}
use go_starter_kit.Account.Users
use go_starter_kit.Account.Sessions
use go_starter_kit.Account.Accounts
use go_starter_kit.Account.Enums.{settable, user_pending}
use go_starter_kit.Account.Env.{
  Env, Request, no_metadata, of_status, storage_errors, err_invalid, recast, missing_as, require,
  need, max_display_name_runes,
}
use go_starter_kit.Account.Audit.{audit, audited, success}
use go_starter_kit.Account.Self.{read_self, invalidate, require_admin}
use go_starter_kit.Account.Proofs.{account_enabled}
use go_starter_kit.Account.Store

-- `UserRecord`
pub record UserRecord : Type 0 where
  pub id : Str
  pub display_name : Str
  pub email : Option Str
  pub email_verified : Bool
  pub status : Str
  pub role : Str
  pub created_at : ℕ

-- `userRecord`
unfoldable pub user_record : User → UserRecord
user_record u = record {
  id = u.id;
  display_name = u.display_name;
  email = u.email;
  email_verified = is_some u.email_verified_at;
  status = u.status;
  role = u.role;
  created_at = u.created_at;
}

-- `AccountRecord`
pub record AccountRecord : Type 0 where
  pub id : Str
  pub provider : Str
  pub created_at : ℕ
  pub last_used_at : Option ℕ
  pub enabled : Bool

abbrev pub account_record : Env → Account → AccountRecord
account_record env a = record {
  id = a.id;
  provider = a.provider_id;
  created_at = a.created_at;
  last_used_at = a.last_used_at;
  enabled = account_enabled env a;
}

-- `accountRecords`
unfoldable pub account_records : Env → List Account → List AccountRecord
account_records env rows = map (account_record env) rows

-- `Profile`
pub record Profile : Type 0 where
  pub user : UserRecord
  pub accounts : List AccountRecord
  pub session_id : Str

-- `Me`
unfoldable pub me : Env → Request → Action Tables Profile
me env r = do
  (user, session) ← mapped storage_errors (read_self r)
  accounts ← mapped storage_errors (query (Accounts.list_accounts env.id_le user.id))
  pure (record {
    user = user_record user;
    accounts = account_records env accounts;
    session_id = session.id;
  })

-- The transaction of `UpdateProfile`
unfoldable pub rename : Env → Request → Str → Action Tables UserRecord
rename env r name = do
  (user, session) ← read_self r
  renamed ←
      recast (missing_as err_unauthenticated) (Store.update_user_profile name user.id session.id)
  audit env (env.new_id 7) r
      (success (codes "user.update") (codes "user") renamed.id renamed.id no_metadata)
  pure (user_record renamed)

-- `UpdateProfile`
unfoldable pub update_profile : Env → Request → Str → Action Tables UserRecord
update_profile env r name =
    let (trimmed, valid) = required_text name max_display_name_runes in
    require valid (business err_invalid) >> with_transaction storage_errors (rename env r trimmed)

-- `Users`
unfoldable pub users : Env → Request → Params → Action Tables (Page UserRecord)
users env r p = audited env r (codes "user.list") do
  require (validate_page p) (business err_invalid)
  require_admin r
  rows ← mapped storage_errors (query (Users.list_users env.id_le (fetch_limit p) p.offset))
  need (build rows p user_record) err_pagination

-- The transaction of `SetStatus`
unfoldable pub put_status : Env → Request → Str → Str → Action Tables UserRecord
put_status env r id status = do
  before ← query (Users.get_user id)
  require (not (str_eq before.status user_pending)) (business err_invalid)
  user ← Store.set_user_status id status
  query (Sessions.revoke_user_sessions id)
  audit env (env.new_id 7) r
      (success (codes "user.status_change") (codes "user") id id (of_status status))
  pure (user_record user)

-- `SetStatus`
unfoldable pub set_status : Env → Request → Str → Str → Action Tables UserRecord
set_status env r id status = audited env r (codes "user.status_change") do
  require (identifier id && settable status) (business err_invalid)
  require_admin r
  with_transaction storage_errors (put_status env r id status)

-- The transaction of `RevokeUserSessions`
unfoldable pub close_all : Env → Request → Str → Action Tables (Unit {0})
close_all env r id = do
  user ← query (Users.get_user id)
  invalidate id
  audit env (env.new_id 7) r (success (codes "session.revoke_all") (codes "user") id id no_metadata)

-- `RevokeUserSessions`
unfoldable pub revoke_user_sessions : Env → Request → Str → Action Tables (Unit {0})
revoke_user_sessions env r id = audited env r (codes "session.revoke_all") do
  require (identifier id) (business err_invalid)
  require_admin r
  with_transaction storage_errors (close_all env r id)
