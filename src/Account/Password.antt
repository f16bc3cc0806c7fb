-- ===== src/Account/Password.antt =====
-- internal/modules/account/password.go: `SetPassword`.
use go_starter_kit.Base.{
  ℕ, Str, not, ◌&&◌, ◌||◌, [], Option, none, some, codes, str_eq, ltb, ◌==◌, length, is_some,
}
use go_starter_kit.AppError.{business}
use go_starter_kit.Db.{Action, query, pure, lift, mapped, ◌>>=◌, ◌>>◌}
use go_starter_kit.Db.Transaction.{with_transaction}
use go_starter_kit.Validation.{identifier}
use go_starter_kit.Account.Tables.{User, Account, Tables}
use go_starter_kit.Account.Accounts
use go_starter_kit.Account.Enums.{operation_set_password}
use go_starter_kit.Account.Env.{
  Env, Request, no_metadata, storage_errors, err_invalid, err_conflict, err_reauthentication, found,
  require, text,
}
use go_starter_kit.Account.Audit.{audit, audited, entry_limit, success}
use go_starter_kit.Account.Self.{
  lock_self, read_self, invalidate, enqueue_security_notification, password_changed_notification,
}
use go_starter_kit.Account.Proofs.{authorization, finish_authorization, proof_lookup}
use go_starter_kit.Account.Challenges.{password_params}
use go_starter_kit.Account.Store

-- linked_accounts.go: `maxLoginAccounts`
abbrev pub max_login_accounts : ℕ
max_login_accounts = 10

-- The caller proves the old password, or has none and names a proof.
unfoldable pub check_current : Env → Option Account → Str → Str → Action Tables (Unit {0})
check_current env (some account) password reauth_id = do
  verified ← lift (env.verify_password (text account.password_hash) password)
  require verified.matches (business err_reauthentication)
check_current env none password reauth_id =
    require (str_eq password [] && not (str_eq reauth_id [])) (business err_invalid)

-- Another password for the account that was compared.
unfoldable pub replace_password : User → Account → Str → Action Tables (Unit {0})
replace_password user before hash = do
  account ← proof_lookup (query (Accounts.get_password_account user.id))
  require (str_eq account.id before.id && account.version == before.version)
      (business err_reauthentication)
  count ← Store.change_password before.id user.id (some hash)
  pure tt

-- A first password, for the proof `reauth_id`.
unfoldable pub add_password : Env → Request → User → Str → Str → Action Tables (Unit {0})
add_password env r user reauth_id hash = do
  account ← found (query (Accounts.get_password_account user.id))
  require (not (is_some account)) (business err_conflict)
  require (is_some user.email_verified_at) (business err_invalid)
  proof ← authorization env r reauth_id operation_set_password Accounts.credential none
  accounts ← query (Accounts.list_accounts env.id_le user.id)
  require (ltb (length accounts) max_login_accounts) (business err_conflict)
  created ← Store.create_account (password_params env user.id hash)
  finish_authorization proof

abbrev pub store_password :
    Env → Request → User → Option Account → Str → Str → Action Tables (Unit {0})
store_password env r user none reauth_id hash = add_password env r user reauth_id hash
store_password env r user (some before) reauth_id hash = replace_password user before hash

-- The transaction of `SetPassword`
unfoldable pub put_password :
    Env → Request → User → Option Account → Str → Str → Action Tables (Unit {0})
put_password env r before account reauth_id hash = do
  (user, session) ← lock_self r
  require (user.auth_version == before.auth_version) (business err_reauthentication)
  store_password env r user account reauth_id hash
  invalidate user.id
  enqueue_security_notification env user password_changed_notification
  audit env (env.new_id 7) r
      (success (codes "account.password_change") (codes "user") user.id user.id no_metadata)

-- `SetPassword`
unfoldable pub set_password : Env → Request → Str → Str → Str → Action Tables (Unit {0})
set_password env r current_password new_password reauth_id =
    audited env r (codes "account.password_change") do
      require (str_eq reauth_id [] || identifier reauth_id) (business err_invalid)
      require (env.validate_password new_password) (business err_invalid)
      entry_limit env r (codes "password") r.user_id
      (user, session) ← mapped storage_errors (read_self r)
      account ← found (query (Accounts.get_password_account user.id))
      check_current env account current_password reauth_id
      hash ← lift (env.hash_password new_password)
      with_transaction storage_errors (put_password env r user account reauth_id hash)
