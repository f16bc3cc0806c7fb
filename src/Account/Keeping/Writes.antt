-- ===== src/Account/Keeping/Writes.antt =====
-- What the guarded statements of store.go and store_flows.go keep, and the audit and limits of a call.
use go_starter_kit.Base.{ℕ, Str, true, Option, ◌≡◌}
use go_starter_kit.AppError.{GoError}
use go_starter_kit.Db.{Result, ok, err, Session, Action, query}
use go_starter_kit.Db.Keeps.{Holds, Keeps, query-Keeps, bind-Keeps}
use go_starter_kit.MailOutbox.Queries.{EnqueueParams}
use go_starter_kit.Account.Tables.{Tables}
use go_starter_kit.Account.Users
use go_starter_kit.Account.Sessions
use go_starter_kit.Account.Accounts
use go_starter_kit.Account.Flows
use go_starter_kit.Account.Records
use go_starter_kit.Account.Enums.{settable}
use go_starter_kit.Account.Env.{Env, Request, VerifiedIdentity}
use go_starter_kit.Account.Store
use go_starter_kit.Account.Audit.{
  Event, audit, quietly, record_failure, audited, noted, limit, within, entry_limit,
}
use go_starter_kit.Account.Kept.{IsKept}
use go_starter_kit.Account.Keeping.{
  flow_rules, get_user-Keeps, get_account-Keeps, recast-Keeps, then-Keeps, pure-Keeps, if-Keeps,
}

module _ (P : Tables → Type 0) (k : IsKept P) where
  query-create_pending_user-Keeps :
      (id : Str) (email normalized : Option Str)
      → Keeps P (query (Users.create_pending_user id email normalized))
  query-create_pending_user-Keeps id email normalized =
      query-Keeps P _ (k.users.pending id email normalized)

  query-create_federated_user-Keeps :
      (id name : Str) → Keeps P (query (Users.create_federated_user id name))
  query-create_federated_user-Keeps id name = query-Keeps P _ (k.users.federated id name)

  query-activate_user-Keeps : (id : Str) → Keeps P (query (Users.activate_user id))
  query-activate_user-Keeps id = query-Keeps P _ (k.users.activates id)

  query-update_user_email-Keeps :
      (id : Str) (email normalized : Option Str)
      → Keeps P (query (Users.update_user_email id email normalized))
  query-update_user_email-Keeps id email normalized =
      query-Keeps P _ (k.users.emails id email normalized)

  query-release_pending_email-Keeps :
      (email : Option Str) → Keeps P (query (Users.release_pending_email email))
  query-release_pending_email-Keeps email = query-Keeps P _ (k.users.releases email)

  query-update_user_profile-Keeps :
      (name id session : Str) → Keeps P (query (Users.update_user_profile name id session))
  query-update_user_profile-Keeps name id session =
      query-Keeps P _ (k.users.profiles name id session)

  query-set_user_status-Keeps :
      (id status : Str) → settable status ≡ true → Keeps P (query (Users.set_user_status id status))
  query-set_user_status-Keeps id status fits =
      query-Keeps P _ λ n t. k.users.statuses id status n t fits

  query-create_account-Keeps :
      (p : Accounts.CreateAccountParams)
      → Store.valid_account p ≡ true
      → Keeps P (query (Accounts.create_account p))
  query-create_account-Keeps p fits = query-Keeps P _ λ n t. k.accounts.creates p n t fits

  query-change_password-Keeps :
      (id user : Str) (hash : Option Str)
      → Store.has_text hash ≡ true
      → Keeps P (query (Accounts.change_password id user hash))
  query-change_password-Keeps id user hash fits =
      query-Keeps P _ λ n t. k.accounts.changes id user hash n t fits

  query-upgrade_password_hash-Keeps :
      (id user : Str) (hash old : Option Str)
      → Store.has_text hash ≡ true
      → Keeps P (query (Accounts.upgrade_password_hash id user hash old))
  query-upgrade_password_hash-Keeps id user hash old fits =
      query-Keeps P _ λ n t. k.accounts.upgrades id user hash old n t fits

  query-create_session-Keeps :
      (p : Sessions.CreateSessionParams)
      → Store.valid_session p ≡ true
      → Keeps P (query (Sessions.create_session p))
  query-create_session-Keeps p fits = query-Keeps P _ λ n t. k.sessions.creates p n t fits

  query-create_flow-Keeps :
      (p : Flows.CreateFlowParams)
      → Store.valid_flow p ≡ true
      → Keeps P (query (Flows.create_flow p))
  query-create_flow-Keeps p fits = query-Keeps P _ λ n t. k.flows.creates p n t fits

  query-claim_flow-Keeps : (id : Str) → Keeps P (query (Flows.claim_flow id))
  query-claim_flow-Keeps id = query-Keeps P _ (k.flows.claims id)

  query-claim_authorization-Keeps :
      (id by : Str) → Keeps P (query (Flows.claim_authorization id by))
  query-claim_authorization-Keeps id by = query-Keeps P _ (k.flows.authorizes id by)

  query-finish_flow-Keeps :
      (id status : Str)
      → Store.consumable status ≡ true
      → Keeps P (query (Flows.finish_flow id status))
  query-finish_flow-Keeps id status fits =
      query-Keeps P _ λ n t. k.flows.finishes id status n t fits

  query-verify_flow-Keeps :
      (p : Flows.VerifyFlowParams) (v : VerifiedIdentity)
      → Store.valid_proof p.status v ≡ true
      → Keeps P (query (Flows.verify_flow p))
  query-verify_flow-Keeps p v fits = query-Keeps P _ λ n t. k.flows.verifies p v n t fits

  query-create_verification-Keeps :
      (p : Records.CreateVerificationParams) → Keeps P (query (Records.create_verification p))
  query-create_verification-Keeps p = query-Keeps P _ (k.verifications.creates p)

  query-consume_verification-Keeps :
      (id user : Str) → Keeps P (query (Records.consume_verification id user))
  query-consume_verification-Keeps id user = query-Keeps P _ (k.verifications.consumes id user)

  query-rate_limit-Keeps :
      (key : Str) (window : ℕ) → Keeps P (query (Records.rate_limit key window))
  query-rate_limit-Keeps key window = query-Keeps P _ (k.rest.limits key window)

  query-append_audit-Keeps :
      (p : Records.AppendAuditParams) → Keeps P (query (Records.append_audit p))
  query-append_audit-Keeps p = query-Keeps P _ (k.rest.audits p)

  query-enqueue-Keeps : (p : EnqueueParams) → Keeps P (query (Records.enqueue p))
  query-enqueue-Keeps p = query-Keeps P _ (k.rest.mails p)

ruleset row_rules = (
  flow_rules, get_user-Keeps, get_account-Keeps, query-create_pending_user-Keeps,
  query-create_federated_user-Keeps, query-activate_user-Keeps, query-update_user_email-Keeps,
  query-release_pending_email-Keeps, query-update_user_profile-Keeps, query-set_user_status-Keeps,
  query-create_account-Keeps, query-change_password-Keeps, query-upgrade_password_hash-Keeps,
  query-create_session-Keeps, query-create_flow-Keeps, query-claim_flow-Keeps,
  query-claim_authorization-Keeps, query-finish_flow-Keeps, query-verify_flow-Keeps,
  query-create_verification-Keeps, query-consume_verification-Keeps, query-rate_limit-Keeps,
  query-append_audit-Keeps, query-enqueue-Keeps,
)

module _ (P : Tables → Type 0) (k : IsKept P) where
  pub create_pending_user-Keeps :
      (env : Env) (id : Str) (email normalized : Option Str)
      → Keeps P (Store.create_pending_user env id email normalized)
  unfolding Store.create_pending_user
  create_pending_user-Keeps env id email normalized = search row_rules depth 12

  pub create_federated_user-Keeps : (id name : Str) → Keeps P (Store.create_federated_user id name)
  unfolding Store.create_federated_user
  create_federated_user-Keeps id name = search row_rules depth 12

  pub activate_user-Keeps : (env : Env) (id : Str) → Keeps P (Store.activate_user env id)
  unfolding Store.activate_user
  activate_user-Keeps env id = search row_rules depth 12

  pub update_user_email-Keeps :
      (env : Env) (id : Str) (email normalized : Option Str)
      → Keeps P (Store.update_user_email env id email normalized)
  unfolding Store.update_user_email
  update_user_email-Keeps env id email normalized = search row_rules depth 12

  pub release_pending_email-Keeps :
      (env : Env) (email : Str) → Keeps P (Store.release_pending_email env email)
  unfolding Store.release_pending_email
  release_pending_email-Keeps env email = search row_rules depth 12

  pub update_user_profile-Keeps :
      (name id session : Str) → Keeps P (Store.update_user_profile name id session)
  unfolding Store.update_user_profile
  update_user_profile-Keeps name id session = search row_rules depth 12

  pub set_user_status-Keeps : (id status : Str) → Keeps P (Store.set_user_status id status)
  unfolding Store.set_user_status
  set_user_status-Keeps id status = search row_rules depth 12

  pub bump_user_version-Keeps : (id : Str) → Keeps P (query (Users.bump_user_version id))
  bump_user_version-Keeps id = query-Keeps P _ (k.users.bumps id)

  pub create_account-Keeps : (p : Accounts.CreateAccountParams) → Keeps P (Store.create_account p)
  unfolding Store.create_account
  create_account-Keeps p = search row_rules depth 12

  pub change_password-Keeps :
      (id user : Str) (hash : Option Str) → Keeps P (Store.change_password id user hash)
  unfolding Store.change_password
  change_password-Keeps id user hash = search row_rules depth 12

  pub upgrade_password_hash-Keeps :
      (id user : Str) (hash old : Option Str)
      → Keeps P (Store.upgrade_password_hash id user hash old)
  unfolding Store.upgrade_password_hash
  upgrade_password_hash-Keeps id user hash old = search row_rules depth 12

  pub touch_account-Keeps : (id user : Str) → Keeps P (query (Accounts.touch_account id user))
  touch_account-Keeps id user = query-Keeps P _ (k.accounts.touches id user)

  pub revoke_account-Keeps : (id user : Str) → Keeps P (query (Accounts.revoke_account id user))
  revoke_account-Keeps id user = query-Keeps P _ (k.accounts.revokes id user)

  pub create_session-Keeps : (p : Sessions.CreateSessionParams) → Keeps P (Store.create_session p)
  unfolding Store.create_session
  create_session-Keeps p = search row_rules depth 12

  pub touch_session-Keeps :
      (idle : ℕ) (id user : Str) (renewal : ℕ)
      → Keeps P (query (Sessions.touch_session idle id user renewal))
  touch_session-Keeps idle id user renewal =
      query-Keeps P _ (k.sessions.touches idle id user renewal)

  pub revoke_session-Keeps : (id user : Str) → Keeps P (query (Sessions.revoke_session id user))
  revoke_session-Keeps id user = query-Keeps P _ (k.sessions.revokes id user)

  pub revoke_user_sessions-Keeps :
      (user : Str) → Keeps P (query (Sessions.revoke_user_sessions user))
  revoke_user_sessions-Keeps user = query-Keeps P _ (k.sessions.revokes_all user)

  pub create_flow-Keeps : (p : Flows.CreateFlowParams) → Keeps P (Store.create_flow p)
  unfolding Store.create_flow
  create_flow-Keeps p = search row_rules depth 12

  counted_one-Keeps : (count : ℕ) → Keeps P (Store.counted_one count)
  counted_one-Keeps count = search flow_rules

  pub claim_pending_flow-Keeps : (id : Str) → Keeps P (Store.claim_pending_flow id)
  unfolding Store.claim_pending_flow
  claim_pending_flow-Keeps id = search row_rules depth 12

  pub claim_authorization-Keeps : (id by : Str) → Keeps P (Store.claim_authorization id by)
  unfolding Store.claim_authorization
  claim_authorization-Keeps id by = search row_rules depth 12

  pub consume_flow-Keeps : (id expected : Str) → Keeps P (Store.consume_flow id expected)
  unfolding Store.consume_flow
  consume_flow-Keeps id expected = search row_rules depth 12

  pub fail_flow-Keeps : (id : Str) → Keeps P (query (Flows.fail_flow id))
  fail_flow-Keeps id = query-Keeps P _ (k.flows.fails id)

  pub verify_flow-Keeps :
      (env : Env) (id status : Str) (v : VerifiedIdentity)
      → Keeps P (Store.verify_flow env id status v)
  unfolding Store.verify_flow
  verify_flow-Keeps env id status v = search row_rules depth 12

  pub create_verification-Keeps :
      (env : Env) (p : Records.CreateVerificationParams) → Keeps P (Store.create_verification env p)
  unfolding Store.create_verification
  create_verification-Keeps env p = search row_rules depth 12

  pub consume_verification-Keeps : (id user : Str) → Keeps P (Store.consume_verification id user)
  unfolding Store.consume_verification
  consume_verification-Keeps id user = search row_rules depth 12

  pub rate_limit-Keeps : (key : Str) (window : ℕ) → Keeps P (Store.rate_limit key window)
  unfolding Store.rate_limit
  rate_limit-Keeps key window = search row_rules depth 12

  pub append_audit-Keeps :
      (env : Env) (p : Records.AppendAuditParams) → Keeps P (Store.append_audit env p)
  unfolding Store.append_audit
  append_audit-Keeps env p = search row_rules depth 12

  pub enqueue_mail-Keeps : (env : Env) (p : EnqueueParams) → Keeps P (Store.enqueue_mail env p)
  unfolding Store.enqueue_mail
  enqueue_mail-Keeps env p = search row_rules depth 12

  pub audit-Keeps :
      (env : Env) (id : Str) (r : Request) (event : Event) → Keeps P (audit env id r event)
  unfolding audit
  audit-Keeps env id r event = append_audit-Keeps env _

  quietly-Keeps : (m : Action Tables (Unit {0})) → Keeps P m → Keeps P (quietly m)
  quietly-Keeps m l = record { at = λ s h. l.at s h }

  pub record_failure-Keeps :
      (env : Env) (r : Request) (action : Str) (e : GoError)
      → Keeps P (record_failure env r action e)
  unfolding record_failure
  record_failure-Keeps env r action e =
      if-Keeps P _ _ _ (pure-Keeps P tt) (quietly-Keeps _ (audit-Keeps env _ r _))

  pub fail_flow-quietly-Keeps : (id : Str) → Keeps P (quietly (query (Flows.fail_flow id)))
  fail_flow-quietly-Keeps id = quietly-Keeps _ (fail_flow-Keeps id)

  within-Keeps : (max : ℕ) (row : Records.RateLimitRow) → Keeps P (within max row)
  within-Keeps max row = search flow_rules

  pub limit-Keeps :
      (env : Env) (category key : Str) (max window : ℕ)
      → Keeps P (limit env category key max window)
  unfolding limit
  limit-Keeps env category key max window =
      bind-Keeps P _ _ (recast-Keeps P _ _ (rate_limit-Keeps _ _)) λ row. within-Keeps max row

  pub entry_limit-Keeps :
      (env : Env) (r : Request) (category key : Str) → Keeps P (entry_limit env r category key)
  unfolding entry_limit
  entry_limit-Keeps env r category key =
      then-Keeps P _ _ (limit-Keeps env _ _ _ _) (limit-Keeps env _ _ _ _)

module _ {A : Type 0} (P : Tables → Type 0) (k : IsKept P) where
  pub audited-Keeps :
      (env : Env) (r : Request) (action : Str) (m : Action Tables A)
      → Keeps P m
      → Keeps P (audited env r action m)
  unfolding audited
  audited-Keeps env r action m l = record { at = λ s h. let (x, s') = m s in go x s' (l.at s h) }
    where
      go : (x : Result A) (s : Session Tables) → Holds P s → Holds P (noted env r action (x, s)).1
      go (ok a) s h = h
      go (err e) s h = (record_failure-Keeps P k env r action e).at s h

pub ruleset write_rules = (
  create_pending_user-Keeps, create_federated_user-Keeps, activate_user-Keeps,
  update_user_email-Keeps, release_pending_email-Keeps, update_user_profile-Keeps,
  set_user_status-Keeps, bump_user_version-Keeps, create_account-Keeps, change_password-Keeps,
  upgrade_password_hash-Keeps, touch_account-Keeps, revoke_account-Keeps, create_session-Keeps,
  touch_session-Keeps, revoke_session-Keeps, revoke_user_sessions-Keeps, create_flow-Keeps,
  claim_pending_flow-Keeps, claim_authorization-Keeps, consume_flow-Keeps, verify_flow-Keeps,
  create_verification-Keeps, consume_verification-Keeps, enqueue_mail-Keeps, audit-Keeps,
  limit-Keeps, entry_limit-Keeps, audited-Keeps,
)
