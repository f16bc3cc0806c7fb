-- ===== src/Account/Calls.antt =====
-- The methods of the account service as one type, and histories of calls.
use go_starter_kit.Base.{Str, Bool, List, [], ◌∷◌}
use go_starter_kit.Db.{Session}
use go_starter_kit.Db.Keeps.{Holds}
use go_starter_kit.Pagination.{Params}
use go_starter_kit.Account.Tables.{Tables}
use go_starter_kit.Account.Env.{Env, Request}
use go_starter_kit.Account.Login
use go_starter_kit.Account.Register
use go_starter_kit.Account.Challenges
use go_starter_kit.Account.Password
use go_starter_kit.Account.Linking
use go_starter_kit.Account.Admin
use go_starter_kit.Account.Proofs
use go_starter_kit.Account.Reauth
use go_starter_kit.Account.Callback
use go_starter_kit.Account.Challenges.{Verification}
use go_starter_kit.Account.Reauth.{Reauthentication}
use go_starter_kit.Account.Kept.{IsKept}
use go_starter_kit.Account.Keeping.Callers
use go_starter_kit.Account.Keeping.Proving
use go_starter_kit.Account.Keeping.Changes
use go_starter_kit.Account.Keeping.Answers

-- A method with its arguments.
pub data Call : Type 0 where
  authenticate : (token : Str) → Call
  log_in : (r : Request) (address password : Str) → Call
  list_sessions : (r : Request) (p : Params) → Call
  end_session : (r : Request) (id : Str) (all : Bool) → Call
  register : (r : Request) (address : Str) → Call
  forgot : (r : Request) (address : Str) → Call
  change_email : (r : Request) (address reauth_id : Str) → Call
  verify : (r : Request) (token : Str) (input : Verification) → Call
  set_password : (r : Request) (current new reauth_id : Str) → Call
  confirm_link : (r : Request) (flow_id : Str) → Call
  unlink : (r : Request) (id reauth_id : Str) → Call
  me : (r : Request) → Call
  update_profile : (r : Request) (name : Str) → Call
  list_users : (r : Request) (p : Params) → Call
  set_status : (r : Request) (id status : Str) → Call
  end_sessions : (r : Request) (id : Str) → Call
  start_login : (r : Request) (provider purpose : Str) → Call
  start_link : (r : Request) (provider reauth_id : Str) → Call
  reauthenticate : (r : Request) (input : Reauthentication) → Call
  call_back : (r : Request) (token code state : Str) → Call

-- The tables behind a call.
unfoldable pub run : Env → Call → Session Tables → Session Tables
run env (Call.authenticate token) s = (Login.authenticate_session env token s).1
run env (Call.log_in r address password) s = (Login.login env r address password s).1
run env (Call.list_sessions r p) s = (Login.sessions env r p s).1
run env (Call.end_session r id all) s = (Login.revoke_session env r id all s).1
run env (Call.register r address) s = (Register.register env r address s).1
run env (Call.forgot r address) s = (Register.forgot_password env r address s).1
run env (Call.change_email r address reauth_id) s =
    (Register.change_email env r address reauth_id s).1
run env (Call.verify r token input) s = (Challenges.verify_challenge env r token input s).1
run env (Call.set_password r current new reauth_id) s =
    (Password.set_password env r current new reauth_id s).1
run env (Call.confirm_link r flow_id) s = (Linking.confirm_link env r flow_id s).1
run env (Call.unlink r id reauth_id) s = (Linking.unlink env r id reauth_id s).1
run env (Call.me r) s = (Admin.me env r s).1
run env (Call.update_profile r name) s = (Admin.update_profile env r name s).1
run env (Call.list_users r p) s = (Admin.users env r p s).1
run env (Call.set_status r id status) s = (Admin.set_status env r id status s).1
run env (Call.end_sessions r id) s = (Admin.revoke_user_sessions env r id s).1
run env (Call.start_login r provider purpose) s = (Proofs.start_login env r provider purpose s).1
run env (Call.start_link r provider reauth_id) s = (Proofs.start_link env r provider reauth_id s).1
run env (Call.reauthenticate r input) s = (Reauth.reauthenticate env r input s).1
run env (Call.call_back r token code state) s = (Callback.callback env r token code state s).1

-- The tables behind calls one after the other, each with what it takes from outside.
unfoldable pub runs : List (Env × Call) → Session Tables → Session Tables
unfolding run
runs [] s = s
runs ((env, call) ∷ rest) s = runs rest (run env call s)

module _ (P : Tables → Type 0) (k : IsKept P) where
  pub run-Holds :
      (env : Env) (call : Call) (s : Session Tables) → Holds P s → Holds P (run env call s)
  unfolding run
  run-Holds env (Call.authenticate token) s h =
      (Callers.authenticate_session-Keeps P k env token).at s h
  run-Holds env (Call.log_in r address password) s h =
      (Callers.login-Keeps P k env r address password).at s h
  run-Holds env (Call.list_sessions r p) s h = (Callers.sessions-Keeps P k env r p).at s h
  run-Holds env (Call.end_session r id all) s h =
      (Callers.revoke_session-Keeps P k env r id all).at s h
  run-Holds env (Call.register r address) s h = (Changes.register-Keeps P k env r address).at s h
  run-Holds env (Call.forgot r address) s h =
      (Changes.forgot_password-Keeps P k env r address).at s h
  run-Holds env (Call.change_email r address reauth_id) s h =
      (Changes.change_email-Keeps P k env r address reauth_id).at s h
  run-Holds env (Call.verify r token input) s h =
      (Changes.verify_challenge-Keeps P k env r token input).at s h
  run-Holds env (Call.set_password r current new reauth_id) s h =
      (Changes.set_password-Keeps P k env r current new reauth_id).at s h
  run-Holds env (Call.confirm_link r flow_id) s h =
      (Changes.confirm_link-Keeps P k env r flow_id).at s h
  run-Holds env (Call.unlink r id reauth_id) s h =
      (Changes.unlink-Keeps P k env r id reauth_id).at s h
  run-Holds env (Call.me r) s h = (Callers.me-Keeps P k env r).at s h
  run-Holds env (Call.update_profile r name) s h =
      (Callers.update_profile-Keeps P k env r name).at s h
  run-Holds env (Call.list_users r p) s h = (Callers.users-Keeps P k env r p).at s h
  run-Holds env (Call.set_status r id status) s h =
      (Callers.set_status-Keeps P k env r id status).at s h
  run-Holds env (Call.end_sessions r id) s h =
      (Callers.revoke_user_sessions-Keeps P k env r id).at s h
  run-Holds env (Call.start_login r provider purpose) s h =
      (Proving.start_login-Keeps P k env r provider purpose).at s h
  run-Holds env (Call.start_link r provider reauth_id) s h =
      (Proving.start_link-Keeps P k env r provider reauth_id).at s h
  run-Holds env (Call.reauthenticate r input) s h =
      (Proving.reauthenticate-Keeps P k env r input).at s h
  run-Holds env (Call.call_back r token code state) s h =
      (Answers.callback-Keeps P k env r token code state).at s h

  pub runs-Holds :
      (calls : List (Env × Call)) (s : Session Tables) → Holds P s → Holds P (runs calls s)
  unfolding runs
  runs-Holds [] s h = h
  runs-Holds ((env, call) ∷ rest) s h = runs-Holds rest (run env call s) (run-Holds env call s h)
