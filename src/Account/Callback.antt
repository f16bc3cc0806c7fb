-- ===== src/Account/Callback.antt =====
-- internal/modules/account/federation.go: the answer of a provider.
use go_starter_kit.Base.{
  ℕ, ◌+◌, ◌*◌, Str, Bool, not, ◌&&◌, ◌||◌, List, [], ◌∷◌, Option, none, some, codes, str_eq, opt_is,
  leb, ◌==◌, length, take, is_some, if◌then◌else◌,
}
use go_starter_kit.AppError.{GoError, business, err_unauthenticated, errors_is, is_business}
use go_starter_kit.Db.{Result, ok, err, Session, Action, query, pure, fail, lift, ◌>>=◌, ◌>>◌}
use go_starter_kit.Db.Transaction.{with_transaction}
use go_starter_kit.Validation.{Rune, runes, valid_string, trim_space}
use go_starter_kit.Identity.Tokens.{token_digest}
use go_starter_kit.Account.Tables.{User, Account, AuthFlow, Tables}
use go_starter_kit.Account.Users
use go_starter_kit.Account.Accounts
use go_starter_kit.Account.Flows
use go_starter_kit.Account.Enums.{
  user_active, method_oauth, purpose_login, purpose_register, purpose_reauthenticate, purpose_link,
  operation_link,
}
use go_starter_kit.Account.Env.{
  Env, Request, VerifiedIdentity, no_metadata, storage_errors, err_credentials, err_flow,
  err_registration_required, proof_error, credential_lookup_error, recast, missing_as, found,
  require, need, flow_prefix, max_display_name_runes, max_provider_subject_bytes,
  max_provider_namespace_bytes,
}
use go_starter_kit.Account.Audit.{
  audit, audited, limit, ip_request_limit, ip_rate_window, of_ip, success, quietly,
}
use go_starter_kit.Account.Self.{read_self}
use go_starter_kit.Account.Proofs.{account_enabled, authorization}
use go_starter_kit.Account.Login.{SessionCredentials, new_session}
use go_starter_kit.Account.Linking.{provider_params}
use go_starter_kit.Account.Store

-- 8 KiB
abbrev pub max_oauth_code_bytes : ℕ
max_oauth_code_bytes = 8 * 1024

abbrev pub max_oauth_state_bytes : ℕ
max_oauth_state_bytes = 128

-- `CallbackResult`, with its three contents of authentication_result.go
pub data CallbackResult : Type 0 where
  logged_in : SessionCredentials → CallbackResult
  reauthenticated : Str → CallbackResult
  link_pending : (flow_id provider name : Str) → CallbackResult

abbrev pub width_of : List Rune → ℕ
width_of [] = 0
width_of (r ∷ rest) = r.width + width_of rest

-- The first `n` runes of a text that is valid.
unfoldable pub cut_runes : ℕ → Str → Str
cut_runes n s = take (width_of (take n (runes s))) s

-- The name of an identity, as the program uses it.
unfoldable pub clean_name : Str → Str
clean_name name =
    if valid_string name then cut_runes max_display_name_runes (trim_space name) else []

-- The identity may be used.
unfoldable pub is_bounded : VerifiedIdentity → Bool
is_bounded v =
    (not (str_eq v.subject []) && leb (length v.subject) max_provider_subject_bytes)
    && (not (str_eq v.namespace []) && leb (length v.namespace) max_provider_namespace_bytes)

-- `completeReauthentication`
unfoldable pub complete_reauthentication :
    Env → User → AuthFlow → VerifiedIdentity → Action Tables CallbackResult
complete_reauthentication env user flow verified = do
  account_id ← need flow.account_id (business err_credentials)
  account ← recast credential_lookup_error (query (Accounts.get_account account_id user.id))
  require
      ((account.version == flow.account_version
          && str_eq account.provider_namespace verified.namespace)
        && (str_eq account.provider_account_id verified.subject && account_enabled env account))
      (business err_credentials)
  Store.verify_flow env flow.id Flows.flow_authorized verified
  pure (reauthenticated flow.id)

-- `completeLinkProof`
unfoldable pub complete_link_proof :
    Env → Request → AuthFlow → VerifiedIdentity → Action Tables CallbackResult
complete_link_proof env bound flow verified = do
  reauth_id ← need flow.reauthentication_id (business err_credentials)
  proof ← authorization env bound reauth_id operation_link flow.provider_id (some flow.id)
  Store.verify_flow env flow.id Flows.flow_verified verified
  pure (link_pending flow.id flow.provider_id verified.name)

-- The session of the flow has ended.
abbrev pub session_error : GoError → GoError
session_error e = if errors_is (is_business err_unauthenticated) e then business err_flow else e

abbrev pub bound_request : Request → Str → Str → Request
bound_request r user session = record {
  user_id = user;
  session_id = session;
  request_id = r.request_id;
  client_ip = [];
}

-- The transaction of `completeBoundFlow`
unfoldable pub finish_bound :
    Env → Request → AuthFlow → VerifiedIdentity → Action Tables CallbackResult
finish_bound env r flow verified = do
  user_id ← need flow.user_id (business err_credentials)
  session_id ← need flow.session_id (business err_credentials)
  (user, session) ← recast session_error (read_self (bound_request r user_id session_id))
  require (user.auth_version == flow.auth_version) (business err_credentials)
  if str_eq flow.purpose purpose_reauthenticate
      then complete_reauthentication env user flow verified
      else if str_eq flow.purpose purpose_link
      then complete_link_proof env (bound_request r user_id session_id) flow verified
      else fail (business err_credentials)

-- `completeBoundFlow`
unfoldable pub complete_bound_flow :
    Env → Request → AuthFlow → VerifiedIdentity → Action Tables CallbackResult
complete_bound_flow env r flow verified =
    with_transaction storage_errors (finish_bound env r flow verified)

-- The account that was found, as it now is, with its user.
unfoldable pub known_account : Env → Account → Action Tables (User × Account)
known_account env account = do
  user ← query (Users.lock_user account.user_id)
  current ← recast credential_lookup_error (query (Accounts.get_account account.id account.user_id))
  require
      (current.version == account.version
        && (str_eq user.status user_active && account_enabled env current))
      (business err_credentials)
  pure (user, current)

-- A new user with a provider's account.
unfoldable pub register_account :
    Env → Request → AuthFlow → VerifiedIdentity → Action Tables (User × Account)
register_account env r flow verified = do
  user ← Store.create_federated_user (env.new_id 0) verified.name
  account ←
      Store.create_account
        (provider_params env user.id flow.provider_id verified.namespace verified.subject)
  audit env (env.new_id 7) (bound_request r user.id [])
      (success (codes "auth.register") (codes "user") user.id user.id no_metadata)
  pure (user, account)

abbrev pub login_account :
    Env → Request → AuthFlow → VerifiedIdentity → Option Account → Action Tables (User × Account)
login_account env r flow verified (some account) = known_account env account
login_account env r flow verified none = register_account env r flow verified

-- The transaction of `completeLogin`
unfoldable pub finish_login :
    Env → Request → AuthFlow → VerifiedIdentity → Option Account → Action Tables CallbackResult
finish_login env r flow verified account = do
  (user, account) ← login_account env r flow verified account
  Store.consume_flow flow.id Flows.flow_processing
  session ← new_session env r user account method_oauth
  pure (logged_in session)

-- `completeLogin`
unfoldable pub complete_login :
    Env → Request → AuthFlow → VerifiedIdentity → Action Tables CallbackResult
complete_login env r flow verified = do
  account ← found (query (Accounts.find_provider_account verified.namespace verified.subject))
  require (is_some account || str_eq flow.purpose purpose_register)
      (business err_registration_required)
  with_transaction storage_errors (finish_login env r flow verified account)

unfoldable pub complete_flow :
    Env → Request → AuthFlow → VerifiedIdentity → Action Tables CallbackResult
complete_flow env r flow verified =
    if str_eq flow.purpose purpose_login || str_eq flow.purpose purpose_register
    then complete_login env r flow verified
    else if str_eq flow.purpose purpose_reauthenticate || str_eq flow.purpose purpose_link
    then complete_bound_flow env r flow verified
    else fail (business err_credentials)

-- What follows once the flow is claimed.
unfoldable pub exchange : Env → Request → AuthFlow → Str → Action Tables CallbackResult
exchange env r flow code = do
  verifier ← need (env.verifier_of flow.protocol_state) (business err_credentials)
  verified ← lift (env.verify flow.provider_id flow.config_version code verifier)
  require (is_bounded verified) (business err_credentials)
  complete_flow env r flow (record verified { name = clean_name verified.name })

module _ {A : Type 0} where
  abbrev pub or_fail_flow : Str → Result A × Session Tables → Result A × Session Tables
  or_fail_flow id (ok a, s) = (ok a, s)
  or_fail_flow id (err e, s) = (err e, (quietly (query (Flows.fail_flow id)) s).1)

  -- The deferred `FailFlow` of a flow that is not completed
  unfoldable pub failing_flow : Str → Action Tables A → Action Tables A
  failing_flow id m s = or_fail_flow id (m s)

-- What `Callback` checks before it claims the flow.
unfoldable pub answers : Env → AuthFlow → Str → Str → Bool
answers env flow code state =
    ((str_eq flow.status Flows.flow_pending && not (str_eq code []))
      && (leb (length code) max_oauth_code_bytes && leb (length state) max_oauth_state_bytes))
    && (opt_is flow.state_hash (env.digest state)
        && str_eq (env.version flow.provider_id) flow.config_version)

-- `Callback`, behind its deferred functions
unfoldable pub receive : Env → Request → Str → Str → Str → Action Tables CallbackResult
receive env r token code state = do
  limit env (of_ip (codes "callback")) r.client_ip ip_request_limit ip_rate_window
  hash ← need (token_digest env.digest token flow_prefix) (business err_credentials)
  flow ← recast (missing_as err_credentials) (query (Flows.find_flow hash))
  require (answers env flow code state) (business err_credentials)
  Store.claim_pending_flow flow.id
  failing_flow flow.id (exchange env r flow code)

-- `Callback`
unfoldable pub callback : Env → Request → Str → Str → Str → Action Tables CallbackResult
callback env r token code state =
    audited env r (codes "auth.oauth_callback")
      (recast (proof_error err_flow) (receive env r token code state))
