-- ===== src/Account/Reauth.antt =====
-- internal/modules/account/reauthentication.go: `Reauthenticate`.
use go_starter_kit.Base.{Str, not, ◌&&◌, [], none, some, codes, str_eq, ◌==◌, if◌then◌else◌}
use go_starter_kit.AppError.{business}
use go_starter_kit.Db.{Action, query, pure, fail, lift, mapped, ◌>>=◌, ◌>>◌}
use go_starter_kit.Db.Transaction.{with_transaction}
use go_starter_kit.Validation.{identifier}
use go_starter_kit.Account.Tables.{User, UserSession, Account, Tables}
use go_starter_kit.Account.Accounts
use go_starter_kit.Account.Flows
use go_starter_kit.Account.Enums.{
  method_password, method_oauth, purpose_reauthenticate, operation_unlink,
}
use go_starter_kit.Account.Env.{
  Env, Request, storage_errors, err_invalid, err_reauthentication, err_last_account, recast,
  missing_as, require, text,
}
use go_starter_kit.Account.Audit.{audited, entry_limit}
use go_starter_kit.Account.Self.{read_self}
use go_starter_kit.Account.Proofs.{
  FlowResult, account_enabled, validate_operation, proof_lookup, start_reauthentication_flow,
}
use go_starter_kit.Account.Store

-- `Reauthentication`
pub record Reauthentication : Type 0 where
  pub method : Str
  pub operation : Str
  pub password : Str
  pub target : Str
  pub account_id : Str

-- `ReauthenticationResult`: a redirection to a provider, or the proof itself.
pub data ReauthenticationResult : Type 0 where
  redirected : FlowResult → ReauthenticationResult
  completed : Str → ReauthenticationResult

-- The account that the caller proves.
unfoldable pub proved_account : Reauthentication → User → Action Tables Account
proved_account input user =
    if str_eq input.method method_password
    then recast (missing_as err_reauthentication) (query (Accounts.get_password_account user.id))
    else if str_eq input.method method_oauth && identifier input.account_id
    then recast (missing_as err_reauthentication)
        (query (Accounts.get_account input.account_id user.id))
    else fail (business err_invalid)

abbrev pub authorized_params :
    Env → Reauthentication → User → UserSession → Account → Flows.CreateFlowParams
authorized_params env input user session account = record {
  id = env.new_id 3;
  purpose = purpose_reauthenticate;
  token_hash = none;
  provider_id = [];
  config_version = [];
  user_id = some user.id;
  session_id = some session.id;
  auth_version = user.auth_version;
  account_id = some account.id;
  account_version = account.version;
  operation = input.operation;
  target = input.target;
  reauthentication_id = none;
  state_hash = none;
  protocol_state = none;
  status = Flows.flow_authorized;
  authenticated_at = some env.clock;
}

-- The transaction that makes the proof, where neither version has changed.
unfoldable pub make_proof :
    Env → Request → Reauthentication → User → Account → Action Tables ReauthenticationResult
make_proof env r input user account = do
  (now_user, session) ← read_self r
  now_account ← proof_lookup (query (Accounts.get_account account.id user.id))
  require (now_account.version == account.version && now_user.auth_version == user.auth_version)
      (business err_reauthentication)
  flow ← Store.create_flow (authorized_params env input user session account)
  pure (completed (env.new_id 3))

-- With a password
unfoldable pub prove_password :
    Env → Request → Reauthentication → User → Account → Action Tables ReauthenticationResult
prove_password env r input user account = do
  verified ← lift (env.verify_password (text account.password_hash) input.password)
  require verified.matches (business err_reauthentication)
  with_transaction storage_errors (make_proof env r input user account)

-- With a provider
unfoldable pub prove_oauth :
    Env → Request → Reauthentication → Account → Action Tables ReauthenticationResult
prove_oauth env r input account = do
  require (not (str_eq account.provider_id Accounts.credential) && account_enabled env account)
      (business err_invalid)
  flow ← start_reauthentication_flow env r account input.operation input.target
  pure (redirected flow)

-- `Reauthenticate`
unfoldable pub reauthenticate :
    Env → Request → Reauthentication → Action Tables ReauthenticationResult
reauthenticate env r input = audited env r (codes "auth.reauthenticate") do
  require (validate_operation env input.operation input.target) (business err_invalid)
  entry_limit env r (codes "reauth") r.user_id
  (user, session) ← mapped storage_errors (read_self r)
  account ← proved_account input user
  require (not (str_eq input.operation operation_unlink && str_eq account.id input.target))
      (business err_last_account)
  if str_eq input.method method_oauth
      then prove_oauth env r input account
      else prove_password env r input user account
