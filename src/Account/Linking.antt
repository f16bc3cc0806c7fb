-- ===== src/Account/Linking.antt =====
-- internal/modules/account/linked_accounts.go: another login, and one less.
use go_starter_kit.Base.{
  Str, Bool, not, ◌&&◌, Option, none, some, codes, str_eq, opt_is, ltb, ◌==◌, length, any_by,
  is_some, if◌then◌else◌,
}
use go_starter_kit.AppError.{business}
use go_starter_kit.Db.{Action, query, pure, ◌>>=◌, ◌>>◌}
use go_starter_kit.Db.Transaction.{with_transaction}
use go_starter_kit.Validation.{identifier}
use go_starter_kit.Account.Tables.{User, UserSession, Account, AuthFlow, Tables}
use go_starter_kit.Account.Accounts
use go_starter_kit.Account.Flows
use go_starter_kit.Account.Enums.{purpose_link, operation_link, operation_unlink}
use go_starter_kit.Account.Env.{
  Env, Request, of_provider, storage_errors, err_invalid, err_conflict, err_credentials, err_flow,
  err_last_account, proof_error, credential_lookup_error, recast, found, require, text,
}
use go_starter_kit.Account.Audit.{audit, audited, success}
use go_starter_kit.Account.Self.{
  lock_self, invalidate, enqueue_security_notification, account_linked_notification,
  account_unlinked_notification,
}
use go_starter_kit.Account.Proofs.{account_enabled, authorization, finish_authorization}
use go_starter_kit.Account.Password.{max_login_accounts}
use go_starter_kit.Account.Store

-- The flow is a link of this user, in this session and the user's version.
unfoldable pub links : User → UserSession → AuthFlow → Bool
links user session flow =
    (str_eq flow.purpose purpose_link && is_some flow.reauthentication_id)
    && ((opt_is flow.user_id user.id && opt_is flow.session_id session.id)
        && flow.auth_version == user.auth_version)

-- A provider's account of a user.
abbrev pub provider_params : Env → Str → Str → Str → Str → Accounts.CreateAccountParams
provider_params env user provider namespace subject = record {
  id = env.new_id 1;
  user_id = user;
  provider_id = provider;
  provider_account_id = subject;
  provider_namespace = namespace;
  password_hash = none;
}

-- The flow has been consumed: the same link once more succeeds if it is the user's.
unfoldable pub linked_before : User → AuthFlow → Action Tables (Unit {0})
linked_before user flow = do
  account ←
      recast credential_lookup_error
        (query (Accounts.find_provider_account flow.verified_namespace flow.verified_subject))
  require (str_eq account.user_id user.id) (business err_credentials)

-- The account that the flow has verified: the user's own, or a new one.
unfoldable pub link_account : Env → User → AuthFlow → Option Account → Action Tables Account
link_account env user flow (some account) =
    require (str_eq account.user_id user.id) (business err_conflict) >> pure account
link_account env user flow none = do
  rows ← query (Accounts.list_accounts env.id_le user.id)
  require (ltb (length rows) max_login_accounts) (business err_conflict)
  Store.create_account
      (provider_params env user.id flow.provider_id flow.verified_namespace flow.verified_subject)

-- A verified flow, with the proof that is claimed by it.
unfoldable pub link_now : Env → Request → User → AuthFlow → Action Tables (Unit {0})
link_now env r user flow = do
  require
      (str_eq flow.status Flows.flow_verified
        && str_eq (env.version flow.provider_id) flow.config_version)
      (business err_credentials)
  proof ←
      authorization env r (text flow.reauthentication_id) operation_link flow.provider_id
        (some flow.id)
  before ←
      found (query (Accounts.find_provider_account flow.verified_namespace flow.verified_subject))
  account ← link_account env user flow before
  finish_authorization proof
  finish_authorization flow
  enqueue_security_notification env user account_linked_notification
  audit env (env.new_id 7) r (
      success (codes "account.link") (codes "account") account.id user.id
        (of_provider flow.provider_id))

-- The transaction of `ConfirmLink`
unfoldable pub link : Env → Request → Str → Action Tables (Unit {0})
link env r flow_id = do
  (user, session) ← lock_self r
  flow ← recast credential_lookup_error (query (Flows.get_flow flow_id))
  require (links user session flow) (business err_credentials)
  if str_eq flow.status Flows.flow_consumed
      then linked_before user flow
      else link_now env r user flow

-- `ConfirmLink`
unfoldable pub confirm_link : Env → Request → Str → Action Tables (Unit {0})
confirm_link env r flow_id = audited env r (codes "account.link") (
    recast (proof_error err_flow) (
      require (identifier flow_id) (business err_flow)
      >> with_transaction storage_errors (link env r flow_id)))

-- Another account of the list, by which the user can still log in.
abbrev pub remains : Env → Str → Account → Bool
remains env id a = not (str_eq a.id id) && account_enabled env a

-- The transaction of `Unlink`, up to the change
unfoldable pub check_unlink : Env → Request → User → Str → Str → Action Tables (Account × AuthFlow)
check_unlink env r user id reauth_id = do
  account ← query (Accounts.get_account id user.id)
  proof ← authorization env r reauth_id operation_unlink id none
  require (is_some proof.account_id && not (opt_is proof.account_id id)) (business err_last_account)
  rows ← query (Accounts.list_accounts env.id_le user.id)
  require (any_by (remains env id) rows) (business err_last_account)
  pure (account, proof)

-- The transaction of `Unlink`
unfoldable pub unlink_account : Env → Request → Str → Str → Action Tables (Unit {0})
unlink_account env r id reauth_id = do
  (user, session) ← lock_self r
  (account, proof) ← check_unlink env r user id reauth_id
  count ← query (Accounts.revoke_account id user.id)
  finish_authorization proof
  invalidate user.id
  enqueue_security_notification env user account_unlinked_notification
  audit env (env.new_id 7) r (
      success (codes "account.unlink") (codes "account") id user.id
        (of_provider account.provider_id))

-- `Unlink`
unfoldable pub unlink : Env → Request → Str → Str → Action Tables (Unit {0})
unlink env r id reauth_id = audited env r (codes "account.unlink") (
    require (identifier id) (business err_invalid)
    >> with_transaction storage_errors (unlink_account env r id reauth_id))
