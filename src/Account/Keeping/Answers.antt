-- ===== src/Account/Keeping/Answers.antt =====
-- What the methods of federation.go keep.
use go_starter_kit.Base.{Str, Option, none, some}
use go_starter_kit.Db.{Result, ok, err, Session, Action}
use go_starter_kit.Db.Keeps.{Holds, Keeps}
use go_starter_kit.Account.Tables.{User, Account, AuthFlow, Tables}
use go_starter_kit.Account.Env.{Env, Request, VerifiedIdentity}
use go_starter_kit.Account.Callback
use go_starter_kit.Account.Callback.{CallbackResult, failing_flow, or_fail_flow}
use go_starter_kit.Account.Kept.{IsKept}
use go_starter_kit.Account.Keeping.{flow_rules, read_rules}
use go_starter_kit.Account.Keeping.Writes.{write_rules, fail_flow-quietly-Keeps}
use go_starter_kit.Account.Keeping.Callers.{callers_rules}
use go_starter_kit.Account.Keeping.Proving.{proving_rules}
use go_starter_kit.Account.Keeping.Changes.{changes_rules}

ruleset rules = (flow_rules, read_rules, write_rules, callers_rules, proving_rules, changes_rules)

module _ (P : Tables → Type 0) (k : IsKept P) where
  pub complete_reauthentication-Keeps :
      (env : Env) (user : User) (flow : AuthFlow) (verified : VerifiedIdentity)
      → Keeps P (Callback.complete_reauthentication env user flow verified)
  unfolding Callback.complete_reauthentication
  complete_reauthentication-Keeps env user flow verified = search rules depth 40 fits 4000

  pub complete_link_proof-Keeps :
      (env : Env) (r : Request) (flow : AuthFlow) (verified : VerifiedIdentity)
      → Keeps P (Callback.complete_link_proof env r flow verified)
  unfolding Callback.complete_link_proof
  complete_link_proof-Keeps env r flow verified = search rules depth 40 fits 4000

  pub finish_bound-Keeps :
      (env : Env) (r : Request) (flow : AuthFlow) (verified : VerifiedIdentity)
      → Keeps P (Callback.finish_bound env r flow verified)
  unfolding Callback.finish_bound
  finish_bound-Keeps env r flow verified =
      search (rules, complete_reauthentication-Keeps, complete_link_proof-Keeps) depth 40 fits 4000

  pub complete_bound_flow-Keeps :
      (env : Env) (r : Request) (flow : AuthFlow) (verified : VerifiedIdentity)
      → Keeps P (Callback.complete_bound_flow env r flow verified)
  unfolding Callback.complete_bound_flow
  complete_bound_flow-Keeps env r flow verified =
      search (rules, finish_bound-Keeps) depth 40 fits 4000

  pub known_account-Keeps :
      (env : Env) (account : Account) → Keeps P (Callback.known_account env account)
  unfolding Callback.known_account
  known_account-Keeps env account = search rules depth 40 fits 4000

  pub register_account-Keeps :
      (env : Env) (r : Request) (flow : AuthFlow) (verified : VerifiedIdentity)
      → Keeps P (Callback.register_account env r flow verified)
  unfolding Callback.register_account
  register_account-Keeps env r flow verified = search rules depth 40 fits 4000

  pub login_account-Keeps :
      (env : Env) (r : Request) (flow : AuthFlow) (verified : VerifiedIdentity)
      (account : Option Account)
      → Keeps P (Callback.login_account env r flow verified account)
  login_account-Keeps env r flow verified (some account) =
      search (rules, known_account-Keeps) depth 40 fits 4000
  login_account-Keeps env r flow verified none =
      search (rules, register_account-Keeps) depth 40 fits 4000

  pub finish_login-Keeps :
      (env : Env) (r : Request) (flow : AuthFlow) (verified : VerifiedIdentity)
      (account : Option Account)
      → Keeps P (Callback.finish_login env r flow verified account)
  unfolding Callback.finish_login
  finish_login-Keeps env r flow verified account =
      search (rules, login_account-Keeps) depth 40 fits 4000

  pub complete_login-Keeps :
      (env : Env) (r : Request) (flow : AuthFlow) (verified : VerifiedIdentity)
      → Keeps P (Callback.complete_login env r flow verified)
  unfolding Callback.complete_login
  complete_login-Keeps env r flow verified = search (rules, finish_login-Keeps) depth 40 fits 4000

  pub complete_flow-Keeps :
      (env : Env) (r : Request) (flow : AuthFlow) (verified : VerifiedIdentity)
      → Keeps P (Callback.complete_flow env r flow verified)
  unfolding Callback.complete_flow
  complete_flow-Keeps env r flow verified =
      search (rules, complete_bound_flow-Keeps, complete_login-Keeps) depth 40 fits 4000

  pub failing_flow-Keeps :
      (id : Str) (m : Action Tables CallbackResult) → Keeps P m → Keeps P (failing_flow id m)
  unfolding failing_flow
  failing_flow-Keeps id m l = record { at = λ s h. let (x, s') = m s in go x s' (l.at s h) }
    where
      go :
          (x : Result CallbackResult) (s : Session Tables)
          → Holds P s
          → Holds P (or_fail_flow id (x, s)).1
      go (ok a) s h = h
      go (err e) s h = (fail_flow-quietly-Keeps P k id).at s h

  pub exchange-Keeps :
      (env : Env) (r : Request) (flow : AuthFlow) (code : Str)
      → Keeps P (Callback.exchange env r flow code)
  unfolding Callback.exchange
  exchange-Keeps env r flow code = search (rules, complete_flow-Keeps) depth 40 fits 4000

  pub receive-Keeps :
      (env : Env) (r : Request) (token code state : Str)
      → Keeps P (Callback.receive env r token code state)
  unfolding Callback.receive
  receive-Keeps env r token code state =
      search (rules, failing_flow-Keeps, exchange-Keeps) depth 40 fits 4000

  pub callback-Keeps :
      (env : Env) (r : Request) (token code state : Str)
      → Keeps P (Callback.callback env r token code state)
  unfolding Callback.callback
  callback-Keeps env r token code state = search (rules, receive-Keeps) depth 40 fits 4000

pub ruleset answers_rules = (
  complete_reauthentication-Keeps, complete_link_proof-Keeps, finish_bound-Keeps,
  complete_bound_flow-Keeps, known_account-Keeps, register_account-Keeps, login_account-Keeps,
  finish_login-Keeps, complete_login-Keeps, complete_flow-Keeps, failing_flow-Keeps, exchange-Keeps,
  receive-Keeps, callback-Keeps,
)
