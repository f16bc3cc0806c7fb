-- ===== src/Account/Flows.antt =====
-- internal/db/sqlc/auth_flows.sql.go: the statements on the table auth_flows.
use go_starter_kit.Base.{
  ℕ, ◌+◌, ◌*◌, Str, Bool, true, not, ◌&&◌, ◌||◌, [], ◌∷◌, Option, none, some, codes, str_eq, opt_is,
  ltb, find_by, any_by, count_by, update_by, if◌then◌else◌, is_some,
}
use go_starter_kit.AppError.{pg, no_rows}
use go_starter_kit.Db.{Result, ok, err, Statement, unique_violation}
use go_starter_kit.Account.Tables.{AuthFlow, UserSession, Tables, user_of, foreign_key_violation}
use go_starter_kit.Account.Accounts.{is_same}

-- The states of a flow, as the column spells them.
abbrev pub flow_pending : Str
flow_pending = codes "pending"

abbrev pub flow_processing : Str
flow_processing = codes "processing"

abbrev pub flow_verified : Str
flow_verified = codes "verified"

abbrev pub flow_authorized : Str
flow_authorized = codes "authorized"

abbrev pub flow_claimed : Str
flow_claimed = codes "claimed"

abbrev pub flow_consumed : Str
flow_consumed = codes "consumed"

abbrev pub flow_failed : Str
flow_failed = codes "failed"

-- WHERE id = $1 AND status = … AND expires_at > now()
abbrev pub is_flow_in : Str → Str → ℕ → AuthFlow → Bool
is_flow_in id status now f = str_eq f.id id && (str_eq f.status status && ltb now f.expires_at)

-- An UPDATE that counts its rows.
abbrev pub moved : (AuthFlow → Bool) → (AuthFlow → AuthFlow) → Tables → Result ℕ × Tables
moved p f t = (ok (count_by p t.flows), record t { flows = update_by p f t.flows })

abbrev pub claimed : Str → AuthFlow → AuthFlow
claimed by f = record f { status = flow_claimed; claimed_by = some by }

-- ClaimAuthorization; the program always passes an identifier.
unfoldable pub claim_authorization : Str → Str → Statement Tables ℕ
claim_authorization id by now t = moved (is_flow_in id flow_authorized now) (claimed by) t

abbrev pub processing : AuthFlow → AuthFlow
processing f = record f { status = flow_processing }

-- ClaimFlow
unfoldable pub claim_flow : Str → Statement Tables ℕ
claim_flow id now t = moved (is_flow_in id flow_pending now) processing t

pub record CreateFlowParams : Type 0 where
  pub id : Str
  pub purpose : Str
  pub token_hash : Option Str
  pub provider_id : Str
  pub config_version : Str
  pub user_id : Option Str
  pub session_id : Option Str
  pub auth_version : ℕ
  pub account_id : Option Str
  pub account_version : ℕ
  pub operation : Str
  pub target : Str
  pub reauthentication_id : Option Str
  pub state_hash : Option Str
  pub protocol_state : Option Str
  pub status : Str
  pub authenticated_at : Option ℕ

-- Five minutes, in microseconds.
abbrev pub flow_lifetime : ℕ
flow_lifetime = 300 * 1000000

abbrev pub new_flow : CreateFlowParams → ℕ → AuthFlow
new_flow p now = record {
  id = p.id;
  purpose = p.purpose;
  token_hash = p.token_hash;
  provider_id = p.provider_id;
  config_version = p.config_version;
  user_id = p.user_id;
  session_id = p.session_id;
  auth_version = p.auth_version;
  account_id = p.account_id;
  account_version = p.account_version;
  operation = p.operation;
  target = p.target;
  reauthentication_id = p.reauthentication_id;
  claimed_by = none;
  state_hash = p.state_hash;
  protocol_state = p.protocol_state;
  verified_namespace = [];
  verified_subject = [];
  verified_name = [];
  authenticated_at = p.authenticated_at;
  status = p.status;
  created_at = now;
  expires_at = now + flow_lifetime;
}

-- A nullable reference to a user or a session.
abbrev pub user_exists : Option Str → Tables → Bool
user_exists none t = true
user_exists (some id) t = is_some (user_of id t.users)

abbrev pub session_exists : Option Str → Tables → Bool
session_exists none t = true
session_exists (some id) t = any_by (λ (s : UserSession). str_eq s.id id) t.sessions

-- CreateFlow
unfoldable pub create_flow : CreateFlowParams → Statement Tables AuthFlow
create_flow p now t =
    if any_by (λ f. str_eq f.id p.id) t.flows
    then (err (pg unique_violation (codes "auth_flows_pkey")), t)
    else if any_by (λ f. is_same f.token_hash p.token_hash) t.flows
    then (err (pg unique_violation (codes "auth_flows_token_hash_key")), t)
    else if not (user_exists p.user_id t)
    then (err (pg foreign_key_violation (codes "auth_flows_user_id_fkey")), t)
    else if not (session_exists p.session_id t)
    then (err (pg foreign_key_violation (codes "auth_flows_session_id_fkey")), t)
    else (ok (new_flow p now), record t { flows = new_flow p now ∷ t.flows })

abbrev pub failed : AuthFlow → AuthFlow
failed f = record f { status = flow_failed; protocol_state = none }

abbrev pub is_failing : Str → AuthFlow → Bool
is_failing id f =
    str_eq f.id id && (str_eq f.status flow_pending || str_eq f.status flow_processing)

-- FailFlow
unfoldable pub fail_flow : Str → Statement Tables (Unit {0})
fail_flow id now t = (ok tt, record t { flows = update_by (is_failing id) failed t.flows })

abbrev pub one_flow : Option AuthFlow → Result AuthFlow
one_flow none = err no_rows
one_flow (some f) = ok f

-- FindFlow
unfoldable pub find_flow : Str → Statement Tables AuthFlow
find_flow hash now t =
    (one_flow (find_by (λ f. opt_is f.token_hash hash && ltb now f.expires_at) t.flows), t)

abbrev pub consumed : AuthFlow → AuthFlow
consumed f = record f { status = flow_consumed; protocol_state = none }

-- FinishFlow
unfoldable pub finish_flow : Str → Str → Statement Tables ℕ
finish_flow id status now t = moved (is_flow_in id status now) consumed t

-- GetFlow
unfoldable pub get_flow : Str → Statement Tables AuthFlow
get_flow id now t = (one_flow (find_by (λ f. str_eq f.id id && ltb now f.expires_at) t.flows), t)

pub record VerifyFlowParams : Type 0 where
  pub id : Str
  pub status : Str
  pub verified_namespace : Str
  pub verified_subject : Str
  pub verified_name : Str
  pub authenticated_at : Option ℕ

abbrev pub proven : VerifyFlowParams → AuthFlow → AuthFlow
proven p f = record f {
  status = p.status;
  verified_namespace = p.verified_namespace;
  verified_subject = p.verified_subject;
  verified_name = p.verified_name;
  authenticated_at = p.authenticated_at;
  protocol_state = none;
}

-- VerifyFlow
unfoldable pub verify_flow : VerifyFlowParams → Statement Tables ℕ
verify_flow p now t = moved (is_flow_in p.id flow_processing now) (proven p) t
