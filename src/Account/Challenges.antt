-- ===== src/Account/Challenges.antt =====
-- internal/modules/account/challenges.go: `VerifyChallenge`, with what it completes in registration.go
-- and email.go.
use go_starter_kit.Base.{
  Str, Bool, not, ◌&&◌, ◌||◌, [], ◌++◌, some, codes, str_eq, ◌==◌, if◌then◌else◌,
}
use go_starter_kit.AppError.{business}
use go_starter_kit.Db.{Action, query, pure, fail, lift, ◌>>=◌, ◌>>◌}
use go_starter_kit.Db.Transaction.{with_transaction}
use go_starter_kit.Identity.Tokens.{token_digest}
use go_starter_kit.Account.Tables.{User, AuthVerification, Tables}
use go_starter_kit.Account.Users
use go_starter_kit.Account.Sessions
use go_starter_kit.Account.Accounts
use go_starter_kit.Account.Records
use go_starter_kit.Account.Enums.{
  user_pending, user_disabled, verify_register, verify_reset_password, verify_change_email,
  operation_change_email, local_namespace,
}
use go_starter_kit.Account.Env.{
  Env, Request, no_metadata, storage_errors, err_invalid, err_credentials, err_verification,
  proof_error, credential_lookup_error, recast, missing_as, require, need, text, challenge_prefix,
}
use go_starter_kit.Account.Audit.{
  audit, audited, limit, ip_request_limit, ip_rate_window, of_ip, success,
}
use go_starter_kit.Account.Self.{
  invalidate, enqueue_security_notification, registration_completed_notification,
  password_reset_notification, email_changed_notification,
}
use go_starter_kit.Account.Proofs.{authorization, finish_authorization}
use go_starter_kit.Account.Register.{recoverable}
use go_starter_kit.Account.Store

-- The password account of a user.
abbrev pub password_params : Env → Str → Str → Accounts.CreateAccountParams
password_params env user hash = record {
  id = env.new_id 1;
  user_id = user;
  provider_id = Accounts.credential;
  provider_account_id = user;
  provider_namespace = local_namespace;
  password_hash = some hash;
}

-- `completeRegistration`
unfoldable pub complete_registration : Env → User → AuthVerification → Str → Action Tables User
complete_registration env user verification hash = do
  require
      (str_eq user.status user_pending && str_eq (text user.email_normalized) verification.email)
      (business err_credentials)
  account ← Store.create_account (password_params env user.id hash)
  Store.activate_user env user.id

-- `completePasswordReset`
unfoldable pub complete_password_reset : User → AuthVerification → Str → Action Tables (Unit {0})
complete_password_reset user verification hash = do
  require (recoverable user && str_eq (text user.email_normalized) verification.email)
      (business err_credentials)
  account ← recast credential_lookup_error (query (Accounts.get_password_account user.id))
  count ← Store.change_password account.id user.id (some hash)
  invalidate user.id

-- The request that `completeEmailChange` makes from its challenge.
abbrev pub challenged : User → Str → Request
challenged user session = record {
  user_id = user.id;
  session_id = session;
  request_id = [];
  client_ip = [];
}

-- The new address, once the proof is used up.
unfoldable pub store_email : Env → User → AuthVerification → Action Tables (Unit {0})
store_email env user verification = do
  Store.release_pending_email env verification.email
  now_user ← Store.update_user_email env user.id (some verification.email) (some verification.email)
  query (Sessions.revoke_user_sessions user.id)
  enqueue_security_notification env user email_changed_notification

-- `completeEmailChange`
unfoldable pub complete_email_change : Env → User → AuthVerification → Action Tables (Unit {0})
complete_email_change env user verification = do
  session ← need verification.session_id (business err_credentials)
  reauth ← need verification.reauthentication_id (business err_credentials)
  valid ← recast credential_lookup_error (query (Sessions.get_valid_session session user.id))
  proof ←
      authorization env (challenged user session) reauth operation_change_email verification.email
        (some verification.id)
  finish_authorization proof
  store_email env user verification

-- `Verification`
pub record Verification : Type 0 where
  pub purpose : Str
  pub new_password : Str

abbrev pub sets_password : Str → Bool
sets_password purpose = str_eq purpose verify_register || str_eq purpose verify_reset_password

-- The hash of the new password, empty for a change of address.
unfoldable pub new_hash : Env → Verification → Action Tables Str
new_hash env input =
    if sets_password input.purpose
    then require (env.validate_password input.new_password) (business err_invalid)
      >> lift (env.hash_password input.new_password)
    else if str_eq input.purpose verify_change_email && str_eq input.new_password []
    then pure []
    else fail (business err_invalid)

-- What the challenge was for; the user as it then is, with the text of the notification.
unfoldable pub complete :
    Env → Verification → User → AuthVerification → Str → Action Tables (User × Str)
complete env input user verification hash =
    if str_eq input.purpose verify_register
    then complete_registration env user verification hash
      >>= (λ now_user. pure (now_user, registration_completed_notification))
    else if str_eq input.purpose verify_reset_password
    then complete_password_reset user verification hash >> pure (user, password_reset_notification)
    else if str_eq input.purpose verify_change_email
    then complete_email_change env user verification >> pure (user, [])
    else fail (business err_invalid)

unfoldable pub notify : Env → User → Str → Action Tables (Unit {0})
notify env user body =
    if str_eq body [] then pure tt else enqueue_security_notification env user body

-- The transaction of `VerifyChallenge`
unfoldable pub solve :
    Env → Request → Verification → AuthVerification → Str → Action Tables (Unit {0})
solve env r input verification hash = do
  user ← query (Users.lock_user verification.user_id)
  require (user.auth_version == verification.auth_version && not (str_eq user.status user_disabled))
      (business err_credentials)
  (now_user, notification) ← complete env input user verification hash
  Store.consume_verification verification.id now_user.id
  notify env now_user notification
  audit env (env.new_id 7) (record r { user_id = now_user.id })
      (success (codes "auth." ++ input.purpose) (codes "user") now_user.id now_user.id no_metadata)

-- `VerifyChallenge`, behind its deferred functions
unfoldable pub check_challenge : Env → Request → Str → Verification → Action Tables (Unit {0})
check_challenge env r token input = do
  limit env (of_ip (codes "verify")) r.client_ip ip_request_limit ip_rate_window
  hash ← need (token_digest env.digest token challenge_prefix) (business err_credentials)
  verification ← recast (missing_as err_credentials) (query (Records.find_verification hash))
  require (str_eq verification.purpose input.purpose) (business err_credentials)
  password_hash ← new_hash env input
  with_transaction storage_errors (solve env r input verification password_hash)

-- `VerifyChallenge`
unfoldable pub verify_challenge : Env → Request → Str → Verification → Action Tables (Unit {0})
verify_challenge env r token input =
    audited env r (codes "auth.verify")
      (recast (proof_error err_verification) (check_challenge env r token input))
