-- ===== src/Account/Keeping/Proving.antt =====
-- What the methods of reauthentication.go and oauth_start.go keep.
use go_starter_kit.Base.{Str, Option}
use go_starter_kit.Db.Keeps.{Keeps}
use go_starter_kit.Account.Tables.{User, Account, AuthFlow, Tables}
use go_starter_kit.Account.Flows
use go_starter_kit.Account.Env.{Env, Request}
use go_starter_kit.Account.Proofs
use go_starter_kit.Account.Reauth
use go_starter_kit.Account.Proofs.{FlowDraft}
use go_starter_kit.Account.Reauth.{Reauthentication}
use go_starter_kit.Account.Kept.{IsKept}
use go_starter_kit.Account.Keeping.{flow_rules, read_rules}
use go_starter_kit.Account.Keeping.Writes.{write_rules}
use go_starter_kit.Account.Keeping.Callers.{callers_rules}

ruleset rules = (flow_rules, read_rules, write_rules, callers_rules)

module _ (P : Tables → Type 0) (k : IsKept P) where
  pub proof_stands-Keeps :
      (env : Env) (r : Request) (proof : AuthFlow) → Keeps P (Proofs.proof_stands env r proof)
  unfolding Proofs.proof_stands
  proof_stands-Keeps env r proof = search rules depth 40 fits 4000

  pub authorization-Keeps :
      (env : Env) (r : Request) (id operation target : Str) (claim : Option Str)
      → Keeps P (Proofs.authorization env r id operation target claim)
  unfolding Proofs.authorization
  authorization-Keeps env r id operation target claim =
      search (rules, proof_stands-Keeps) depth 40 fits 4000

  pub finish_authorization-Keeps : (proof : AuthFlow) → Keeps P (Proofs.finish_authorization proof)
  unfolding Proofs.finish_authorization
  finish_authorization-Keeps proof = search rules depth 40 fits 4000

  pub prepare_oauth_flow-Keeps :
      (env : Env) (provider : Str) → Keeps P (Proofs.prepare_oauth_flow env provider)
  unfolding Proofs.prepare_oauth_flow
  prepare_oauth_flow-Keeps env provider = search rules depth 40 fits 4000

  pub persist-Keeps :
      (start : FlowDraft) (params : Flows.CreateFlowParams) → Keeps P (Proofs.persist start params)
  unfolding Proofs.persist
  persist-Keeps start params = search rules depth 40 fits 4000

  pub start_login_flow-Keeps :
      (env : Env) (provider purpose : Str) → Keeps P (Proofs.start_login_flow env provider purpose)
  unfolding Proofs.start_login_flow
  start_login_flow-Keeps env provider purpose =
      search (rules, prepare_oauth_flow-Keeps, persist-Keeps) depth 40 fits 4000

  pub start_login-Keeps :
      (env : Env) (r : Request) (provider purpose : Str)
      → Keeps P (Proofs.start_login env r provider purpose)
  unfolding Proofs.start_login
  start_login-Keeps env r provider purpose =
      search (rules, start_login_flow-Keeps) depth 40 fits 4000

  pub open_link-Keeps :
      (env : Env) (r : Request) (provider reauth_id : Str) (start : FlowDraft)
      → Keeps P (Proofs.open_link env r provider reauth_id start)
  unfolding Proofs.open_link
  open_link-Keeps env r provider reauth_id start =
      search (rules, authorization-Keeps, persist-Keeps) depth 40 fits 4000

  pub start_link_flow-Keeps :
      (env : Env) (r : Request) (provider reauth_id : Str)
      → Keeps P (Proofs.start_link_flow env r provider reauth_id)
  unfolding Proofs.start_link_flow
  start_link_flow-Keeps env r provider reauth_id =
      search (rules, prepare_oauth_flow-Keeps, open_link-Keeps) depth 40 fits 4000

  pub start_link-Keeps :
      (env : Env) (r : Request) (provider reauth_id : Str)
      → Keeps P (Proofs.start_link env r provider reauth_id)
  unfolding Proofs.start_link
  start_link-Keeps env r provider reauth_id =
      search (rules, start_link_flow-Keeps) depth 40 fits 4000

  pub open_reauthentication-Keeps :
      (env : Env) (r : Request) (account : Account) (operation target : Str) (start : FlowDraft)
      → Keeps P (Proofs.open_reauthentication env r account operation target start)
  unfolding Proofs.open_reauthentication
  open_reauthentication-Keeps env r account operation target start =
      search (rules, persist-Keeps) depth 40 fits 4000

  pub start_reauthentication_flow-Keeps :
      (env : Env) (r : Request) (account : Account) (operation target : Str)
      → Keeps P (Proofs.start_reauthentication_flow env r account operation target)
  unfolding Proofs.start_reauthentication_flow
  start_reauthentication_flow-Keeps env r account operation target =
      search (rules, prepare_oauth_flow-Keeps, open_reauthentication-Keeps) depth 40 fits 4000

  pub proved_account-Keeps :
      (input : Reauthentication) (user : User) → Keeps P (Reauth.proved_account input user)
  unfolding Reauth.proved_account
  proved_account-Keeps input user = search rules depth 40 fits 4000

  pub make_proof-Keeps :
      (env : Env) (r : Request) (input : Reauthentication) (user : User) (account : Account)
      → Keeps P (Reauth.make_proof env r input user account)
  unfolding Reauth.make_proof
  make_proof-Keeps env r input user account = search rules depth 40 fits 4000

  pub prove_password-Keeps :
      (env : Env) (r : Request) (input : Reauthentication) (user : User) (account : Account)
      → Keeps P (Reauth.prove_password env r input user account)
  unfolding Reauth.prove_password
  prove_password-Keeps env r input user account =
      search (rules, make_proof-Keeps) depth 40 fits 4000

  pub prove_oauth-Keeps :
      (env : Env) (r : Request) (input : Reauthentication) (account : Account)
      → Keeps P (Reauth.prove_oauth env r input account)
  unfolding Reauth.prove_oauth
  prove_oauth-Keeps env r input account =
      search (rules, start_reauthentication_flow-Keeps) depth 40 fits 4000

  pub reauthenticate-Keeps :
      (env : Env) (r : Request) (input : Reauthentication)
      → Keeps P (Reauth.reauthenticate env r input)
  unfolding Reauth.reauthenticate
  reauthenticate-Keeps env r input =
      search (rules, proved_account-Keeps, prove_password-Keeps, prove_oauth-Keeps) depth 40 fits
        4000

pub ruleset proving_rules = (
  proof_stands-Keeps, authorization-Keeps, finish_authorization-Keeps, prepare_oauth_flow-Keeps,
  persist-Keeps, start_login_flow-Keeps, start_login-Keeps, open_link-Keeps, start_link_flow-Keeps,
  start_link-Keeps, open_reauthentication-Keeps, start_reauthentication_flow-Keeps,
  proved_account-Keeps, make_proof-Keeps, prove_password-Keeps, prove_oauth-Keeps,
  reauthenticate-Keeps,
)
