-- ===== src/Account/Register.antt =====
-- internal/modules/account/registration.go, challenges.go and email.go: the challenges that are sent by
-- mail, and what a solved one completes.
use go_starter_kit.Base.{
  ℕ, ◌*◌, Str, Bool, not, ◌&&◌, [], Option, none, some, codes, str_eq, is_some, if◌then◌else◌,
}
use go_starter_kit.AppError.{business}
use go_starter_kit.AppError.Retry.{second}
use go_starter_kit.Db.{Action, query, pure, ◌>>=◌, ◌>>◌}
use go_starter_kit.Db.Transaction.{with_transaction}
use go_starter_kit.Identity.Tokens.{new_token}
use go_starter_kit.Account.Tables.{User, Account, AuthVerification, Tables}
use go_starter_kit.Account.Users
use go_starter_kit.Account.Accounts
use go_starter_kit.Account.Records
use go_starter_kit.Account.Enums.{
  user_pending, user_active, verify_register, verify_reset_password, verify_change_email,
  operation_change_email,
}
use go_starter_kit.Account.Env.{
  Env, Request, storage_errors, err_invalid, err_reauthentication, err_unavailable, proof_error,
  recast, found, require, need, normalize_email, text, whole_seconds, challenge_prefix,
}
use go_starter_kit.Account.Audit.{audited, entry_limit}
use go_starter_kit.Account.Self.{read_self, enqueue_verification_mail}
use go_starter_kit.Account.Proofs.{authorization}
use go_starter_kit.Account.Store

abbrev pub registration_challenge_ttl : ℕ
registration_challenge_ttl = 86400 * second

abbrev pub password_reset_challenge_ttl : ℕ
password_reset_challenge_ttl = 900 * second

abbrev pub email_change_challenge_ttl : ℕ
email_change_challenge_ttl = 300 * second

abbrev pub challenge_token : Env → Str
challenge_token env = new_token challenge_prefix (env.random 4)

abbrev pub challenge_params :
    Env → User → Str → Str → ℕ → Option Str → Option Str → Records.CreateVerificationParams
challenge_params env user purpose email ttl session reauth = record {
  id = env.new_id 4;
  user_id = user.id;
  purpose = purpose;
  token_hash = env.digest (challenge_token env);
  email = email;
  auth_version = user.auth_version;
  session_id = session;
  reauthentication_id = reauth;
  ttl_seconds = whole_seconds ttl;
}

-- `createChallenge`
unfoldable pub create_challenge :
    Env → User → Str → Str → ℕ → Option Str → Option Str → Action Tables AuthVerification
create_challenge env user purpose email ttl session reauth = do
  verification ←
      Store.create_verification env (challenge_params env user purpose email ttl session reauth)
  enqueue_verification_mail env verification (challenge_token env)
  pure verification

-- A challenge whose row the caller does not need.
abbrev pub challenge : Env → User → Str → Str → ℕ → Action Tables (Unit {0})
challenge env user purpose email ttl =
    create_challenge env user purpose email ttl none none >>= λ _. pure tt

-- The transaction of `Register`
unfoldable pub open_registration : Env → Str → Action Tables (Unit {0})
open_registration env email = do
  user ← Store.create_pending_user env (env.new_id 0) (some email) (some email)
  if str_eq user.status user_pending
      then challenge env user verify_register email registration_challenge_ttl
      else pure tt

-- `Register`
unfoldable pub register : Env → Request → Str → Action Tables (Unit {0})
register env r address = do
  email ← need (normalize_email env address) (business err_invalid)
  require (not (str_eq env.frontend_url [])) (business err_unavailable)
  entry_limit env r (codes "register") email
  with_transaction storage_errors (open_registration env email)

-- A user whose password may be reset.
unfoldable pub recoverable : User → Bool
recoverable u = str_eq u.status user_active && (u.recovery_enabled && is_some u.email_verified_at)

abbrev pub reset_challenge : Env → User → Option Account → Action Tables (Unit {0})
reset_challenge env user none = pure tt
reset_challenge env user (some _) =
    challenge env user verify_reset_password (text user.email_normalized)
      password_reset_challenge_ttl

abbrev pub reset_for : Env → Option User → Action Tables (Unit {0})
reset_for env none = pure tt
reset_for env (some user) =
    if recoverable user
    then found (query (Accounts.get_password_account user.id)) >>= reset_challenge env user
    else pure tt

-- The transaction of `ForgotPassword`
unfoldable pub open_reset : Env → Str → Action Tables (Unit {0})
open_reset env email = found (query (Users.find_user_by_email (some email))) >>= reset_for env

-- `ForgotPassword`
unfoldable pub forgot_password : Env → Request → Str → Action Tables (Unit {0})
forgot_password env r address = do
  email ← need (normalize_email env address) (business err_invalid)
  require (not (str_eq env.frontend_url [])) (business err_unavailable)
  entry_limit env r (codes "forgot") email
  with_transaction storage_errors (open_reset env email)

-- The transaction of `ChangeEmail`
unfoldable pub open_email_change : Env → Request → Str → Str → Action Tables (Unit {0})
open_email_change env r email reauth_id = do
  (user, session) ← read_self r
  proof ← authorization env r reauth_id operation_change_email email none
  verification ←
      create_challenge env user verify_change_email email email_change_challenge_ttl
        (some session.id) (some reauth_id)
  recast (proof_error err_reauthentication) (Store.claim_authorization reauth_id verification.id)

-- `ChangeEmail`
unfoldable pub change_email : Env → Request → Str → Str → Action Tables (Unit {0})
change_email env r address reauth_id = audited env r (codes "user.email_change") do
  email ← need (normalize_email env address) (business err_invalid)
  require (not (str_eq env.frontend_url [])) (business err_unavailable)
  entry_limit env r (codes "email") r.user_id
  with_transaction storage_errors (open_email_change env r email reauth_id)
