-- ===== src/Account/Proofs.antt =====
-- internal/modules/account/reauthentication.go and oauth_start.go: the proof that a sensitive operation
-- needs, and the flows that start at a provider.
use go_starter_kit.Base.{
  ℕ, Str, Bool, false, ◌&&◌, ◌||◌, [], Option, none, some, codes, str_eq, opt_is, ◌==◌, is_some,
  if◌then◌else◌,
}
use go_starter_kit.AppError.{business}
use go_starter_kit.Db.{Action, query, pure, lift, ◌>>=◌, ◌>>◌}
use go_starter_kit.Db.Transaction.{with_transaction}
use go_starter_kit.Validation.{identifier}
use go_starter_kit.Identity.Tokens.{new_token}
use go_starter_kit.Account.Tables.{User, UserSession, Account, AuthFlow, Tables}
use go_starter_kit.Account.Users
use go_starter_kit.Account.Sessions
use go_starter_kit.Account.Accounts
use go_starter_kit.Account.Flows
use go_starter_kit.Account.Enums.{
  user_active, purpose_reauthenticate, purpose_link, public_start, operation_link, operation_unlink,
  operation_set_password, operation_change_email,
}
use go_starter_kit.Account.Env.{
  Env, Request, storage_errors, err_invalid, err_credentials, err_reauthentication, proof_error,
  credential_lookup_error, recast, missing_as, require, normalize_email, text, flow_prefix,
}
use go_starter_kit.Account.Audit.{limit, entry_limit, ip_request_limit, ip_rate_window, of_ip}
use go_starter_kit.Account.Self.{read_self}
use go_starter_kit.Account.Store

-- `accountEnabled`
unfoldable pub account_enabled : Env → Account → Bool
account_enabled env a = str_eq a.provider_id Accounts.credential || env.enabled a.provider_id

-- `validateOperation`; true is a nil error.
unfoldable pub validate_operation : Env → Str → Str → Bool
validate_operation env operation target =
    if str_eq operation operation_link
    then env.enabled target
    else if str_eq operation operation_unlink
    then identifier target
    else if str_eq operation operation_set_password
    then str_eq target Accounts.credential
    else if str_eq operation operation_change_email
    then opt_is (normalize_email env target) target
    else false

-- The proof is not claimed, or it is claimed by this flow or verification.
abbrev pub is_held : Option Str → AuthFlow → Bool
is_held none proof = str_eq proof.status Flows.flow_authorized
is_held (some by) proof = str_eq proof.status Flows.flow_claimed && opt_is proof.claimed_by by

-- A lookup behind a proof.
abbrev pub proof_lookup : {A : Type 0} → Action Tables A → Action Tables A
proof_lookup = recast λ e. proof_error err_reauthentication (credential_lookup_error e)

abbrev pub refuse : {A : Type 0} → Bool → Action Tables A → Action Tables A
refuse ok? rest = require ok? (business err_reauthentication) >> rest

-- What a proof must be before its user, account and session are read.
unfoldable pub proves : Request → Str → Str → Option Str → AuthFlow → Bool
proves r operation target claim proof =
    (str_eq proof.purpose purpose_reauthenticate && is_some proof.account_id)
    && ((opt_is proof.user_id r.user_id && opt_is proof.session_id r.session_id)
        && ((str_eq proof.operation operation && str_eq proof.target target)
            && is_held claim proof))

-- The rest of `authorization`: the user, the account and the session of the proof, as they now are.
unfoldable pub proof_stands : Env → Request → AuthFlow → Action Tables AuthFlow
proof_stands env r proof = do
  user ← proof_lookup (query (Users.get_user r.user_id))
  require (str_eq user.status user_active && user.auth_version == proof.auth_version)
      (business err_reauthentication)
  account ← proof_lookup (query (Accounts.get_account (text proof.account_id) user.id))
  require (account.version == proof.account_version && account_enabled env account)
      (business err_reauthentication)
  session ← proof_lookup (query (Sessions.get_valid_session r.session_id user.id))
  pure proof

-- `authorization`
unfoldable pub authorization : Env → Request → Str → Str → Str → Option Str → Action Tables AuthFlow
authorization env r id operation target claim = do
  require (identifier id) (business err_reauthentication)
  proof ← recast (missing_as err_reauthentication) (query (Flows.get_flow id))
  require (proves r operation target claim proof) (business err_reauthentication)
  proof_stands env r proof

-- `finishAuthorization`
unfoldable pub finish_authorization : AuthFlow → Action Tables (Unit {0})
finish_authorization proof =
    recast (proof_error err_reauthentication) (Store.consume_flow proof.id proof.status)

-- `FlowResult`
pub record FlowResult : Type 0 where
  pub id : Str
  pub token : Str
  pub authorization_url : Str
  pub expires_at : ℕ

-- `oauthFlowStart`
pub record FlowDraft : Type 0 where
  pub params : Flows.CreateFlowParams
  pub token : Str
  pub authorization_url : Str

abbrev pub flow_token : Env → Str
flow_token env = new_token flow_prefix (env.random 1)

abbrev pub state_token : Env → Str
state_token env = new_token [] (env.random 2)

abbrev pub verifier_token : Env → Str
verifier_token env = new_token [] (env.random 3)

-- `prepareOAuthFlow`
unfoldable pub prepare_oauth_flow : Env → Str → Action Tables FlowDraft
prepare_oauth_flow env provider = do
  require (env.enabled provider) (business err_invalid)
  start ← lift (env.start provider (state_token env) (verifier_token env))
  pure (record {
    params = record {
      id = env.new_id 3;
      purpose = [];
      token_hash = some (env.digest (flow_token env));
      provider_id = provider;
      config_version = start.config_version;
      user_id = none;
      session_id = none;
      auth_version = 0;
      account_id = none;
      account_version = 0;
      operation = [];
      target = [];
      reauthentication_id = none;
      state_hash = some (env.digest (state_token env));
      protocol_state = some (env.protocol_of (verifier_token env));
      status = Flows.flow_pending;
      authenticated_at = none;
    };
    token = flow_token env;
    authorization_url = start.authorization_url;
  })

-- `persist`
unfoldable pub persist : FlowDraft → Flows.CreateFlowParams → Action Tables FlowResult
persist start params = do
  row ← Store.create_flow params
  pure (record {
    id = row.id;
    token = start.token;
    authorization_url = start.authorization_url;
    expires_at = row.expires_at;
  })

-- `startLoginFlow`
unfoldable pub start_login_flow : Env → Str → Str → Action Tables FlowResult
start_login_flow env provider purpose = do
  start ← prepare_oauth_flow env provider
  with_transaction storage_errors
      (persist start (let params = start.params in record params { purpose = purpose }))

-- `StartLogin`
unfoldable pub start_login : Env → Request → Str → Str → Action Tables FlowResult
start_login env r provider purpose = do
  require (public_start purpose) (business err_invalid)
  limit env (of_ip (codes "oauth")) r.client_ip ip_request_limit ip_rate_window
  start_login_flow env provider purpose

-- The flow of a link, in the version of its user.
abbrev pub link_params : FlowDraft → User → UserSession → Str → Str → Flows.CreateFlowParams
link_params start user session provider reauth_id =
    let params = start.params in
    record params {
      purpose = purpose_link;
      user_id = some user.id;
      session_id = some session.id;
      auth_version = user.auth_version;
      operation = operation_link;
      target = provider;
      reauthentication_id = some reauth_id;
    }

-- The transaction of `startLinkFlow`
unfoldable pub open_link : Env → Request → Str → Str → FlowDraft → Action Tables FlowResult
open_link env r provider reauth_id start = do
  (user, session) ← read_self r
  proof ← authorization env r reauth_id operation_link provider none
  flow ← persist start (link_params start user session provider reauth_id)
  recast (proof_error err_reauthentication) (Store.claim_authorization reauth_id flow.id)
  pure flow

-- `startLinkFlow`
unfoldable pub start_link_flow : Env → Request → Str → Str → Action Tables FlowResult
start_link_flow env r provider reauth_id = do
  start ← prepare_oauth_flow env provider
  with_transaction storage_errors (open_link env r provider reauth_id start)

-- `StartLink`
unfoldable pub start_link : Env → Request → Str → Str → Action Tables FlowResult
start_link env r provider reauth_id =
    entry_limit env r (codes "link") r.user_id >> start_link_flow env r provider reauth_id

-- The flow of a proof, in the versions of its user and account.
abbrev pub reauthentication_params :
    FlowDraft → User → UserSession → Account → Str → Str → Flows.CreateFlowParams
reauthentication_params start user session account operation target =
    let params = start.params in
    record params {
      purpose = purpose_reauthenticate;
      user_id = some user.id;
      session_id = some session.id;
      auth_version = user.auth_version;
      account_id = some account.id;
      account_version = account.version;
      operation = operation;
      target = target;
    }

-- The transaction of `startReauthenticationFlow`
unfoldable pub open_reauthentication :
    Env → Request → Account → Str → Str → FlowDraft → Action Tables FlowResult
open_reauthentication env r account operation target start = do
  (user, session) ← read_self r
  current ← recast credential_lookup_error (query (Accounts.get_account account.id user.id))
  require (current.version == account.version && account_enabled env current)
      (business err_credentials)
  persist start (reauthentication_params start user session account operation target)

-- `startReauthenticationFlow`
unfoldable pub start_reauthentication_flow :
    Env → Request → Account → Str → Str → Action Tables FlowResult
start_reauthentication_flow env r account operation target = do
  start ← prepare_oauth_flow env account.provider_id
  with_transaction storage_errors (open_reauthentication env r account operation target start)
