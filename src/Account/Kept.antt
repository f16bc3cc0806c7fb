-- ===== src/Account/Kept.antt =====
-- What the statements of internal/db/sqlc keep true of the tables, once the guards of store.go have let
-- them pass; and what they cannot touch.
use go_starter_kit.Base.{ℕ, Str, true, List, Option, ◌≡◌, arith}
use go_starter_kit.MailOutbox.Queries.{Mail, EnqueueParams}
use go_starter_kit.Account.Tables.{
  User, UserSession, Account, AuthFlow, AuthVerification, AuditEvent, Bucket, Tables,
}
use go_starter_kit.Account.Users
use go_starter_kit.Account.Sessions
use go_starter_kit.Account.Accounts
use go_starter_kit.Account.Flows
use go_starter_kit.Account.Records
use go_starter_kit.Account.Enums.{settable}
use go_starter_kit.Account.Env.{VerifiedIdentity}
use go_starter_kit.Account.Store.{
  has_text, valid_account, valid_session, valid_flow, valid_proof, consumable,
}

module _ (P : Tables → Type 0) where
  pub record KeptUsers : Type 0 where
    pub pending :
        (id : Str) (email normalized : Option Str) (now : ℕ) (t : Tables)
        → P t
        → P (Users.create_pending_user id email normalized now t).1
    pub federated :
        (id name : Str) (now : ℕ) (t : Tables)
        → P t
        → P (Users.create_federated_user id name now t).1
    pub activates : (id : Str) (now : ℕ) (t : Tables) → P t → P (Users.activate_user id now t).1
    pub emails :
        (id : Str) (email normalized : Option Str) (now : ℕ) (t : Tables)
        → P t
        → P (Users.update_user_email id email normalized now t).1
    pub releases :
        (email : Option Str) (now : ℕ) (t : Tables)
        → P t
        → P (Users.release_pending_email email now t).1
    pub profiles :
        (name id session : Str) (now : ℕ) (t : Tables)
        → P t
        → P (Users.update_user_profile name id session now t).1
    pub statuses :
        (id status : Str) (now : ℕ) (t : Tables)
        → settable status ≡ true
        → P t
        → P (Users.set_user_status id status now t).1
    pub bumps : (id : Str) (now : ℕ) (t : Tables) → P t → P (Users.bump_user_version id now t).1

  pub record KeptAccounts : Type 0 where
    pub creates :
        (p : Accounts.CreateAccountParams) (now : ℕ) (t : Tables)
        → valid_account p ≡ true
        → P t
        → P (Accounts.create_account p now t).1
    pub changes :
        (id user : Str) (hash : Option Str) (now : ℕ) (t : Tables)
        → has_text hash ≡ true
        → P t
        → P (Accounts.change_password id user hash now t).1
    pub upgrades :
        (id user : Str) (hash old : Option Str) (now : ℕ) (t : Tables)
        → has_text hash ≡ true
        → P t
        → P (Accounts.upgrade_password_hash id user hash old now t).1
    pub touches :
        (id user : Str) (now : ℕ) (t : Tables) → P t → P (Accounts.touch_account id user now t).1
    pub revokes :
        (id user : Str) (now : ℕ) (t : Tables) → P t → P (Accounts.revoke_account id user now t).1

  pub record KeptSessions : Type 0 where
    pub creates :
        (p : Sessions.CreateSessionParams) (now : ℕ) (t : Tables)
        → valid_session p ≡ true
        → P t
        → P (Sessions.create_session p now t).1
    pub touches :
        (idle : ℕ) (id user : Str) (renewal : ℕ) (now : ℕ) (t : Tables)
        → P t
        → P (Sessions.touch_session idle id user renewal now t).1
    pub revokes :
        (id user : Str) (now : ℕ) (t : Tables) → P t → P (Sessions.revoke_session id user now t).1
    pub revokes_all :
        (user : Str) (now : ℕ) (t : Tables) → P t → P (Sessions.revoke_user_sessions user now t).1

  pub record KeptFlows : Type 0 where
    pub creates :
        (p : Flows.CreateFlowParams) (now : ℕ) (t : Tables)
        → valid_flow p ≡ true
        → P t
        → P (Flows.create_flow p now t).1
    pub claims : (id : Str) (now : ℕ) (t : Tables) → P t → P (Flows.claim_flow id now t).1
    pub authorizes :
        (id by : Str) (now : ℕ) (t : Tables) → P t → P (Flows.claim_authorization id by now t).1
    pub finishes :
        (id status : Str) (now : ℕ) (t : Tables)
        → consumable status ≡ true
        → P t
        → P (Flows.finish_flow id status now t).1
    pub fails : (id : Str) (now : ℕ) (t : Tables) → P t → P (Flows.fail_flow id now t).1
    pub verifies :
        (p : Flows.VerifyFlowParams) (v : VerifiedIdentity) (now : ℕ) (t : Tables)
        → valid_proof p.status v ≡ true
        → P t
        → P (Flows.verify_flow p now t).1

  pub record KeptRecords : Type 0 where
    pub creates :
        (p : Records.CreateVerificationParams) (now : ℕ) (t : Tables)
        → P t
        → P (Records.create_verification p now t).1
    pub consumes :
        (id user : Str) (now : ℕ) (t : Tables)
        → P t
        → P (Records.consume_verification id user now t).1

  pub record KeptRest : Type 0 where
    pub limits :
        (key : Str) (window : ℕ) (now : ℕ) (t : Tables)
        → P t
        → P (Records.rate_limit key window now t).1
    pub audits :
        (p : Records.AppendAuditParams) (now : ℕ) (t : Tables)
        → P t
        → P (Records.append_audit p now t).1
    pub mails : (p : EnqueueParams) (now : ℕ) (t : Tables) → P t → P (Records.enqueue p now t).1

  -- Every statement that the module sends keeps `P`.
  pub record IsKept : Type 0 where
    pub users : KeptUsers
    pub accounts : KeptAccounts
    pub sessions : KeptSessions
    pub flows : KeptFlows
    pub verifications : KeptRecords
    pub rest : KeptRest

  module _ (free : (l : List User) (t : Tables) → P t → P (record t { users = l })) where
    only_users : (t t' : Tables) → t' ≡ record t { users = t'.users } → P t → P t'
    only_users t t' same h = rw same (free t'.users t h)

    pub free_users : KeptUsers
    unfolding Users.create_pending_user Users.create_federated_user Users.activate_user
        Users.update_user_email Users.release_pending_email Users.update_user_profile
        Users.set_user_status Users.bump_user_version
    free_users = record {
      pending = λ id email normalized now t h.
          only_users t (Users.create_pending_user id email normalized now t).1 (ground arith) h;
      federated = λ id name now t h.
          only_users t (Users.create_federated_user id name now t).1 (ground arith) h;
      activates = λ id now t h. only_users t (Users.activate_user id now t).1 (ground arith) h;
      emails = λ id email normalized now t h.
          only_users t (Users.update_user_email id email normalized now t).1 (ground arith) h;
      releases = λ email now t h.
          only_users t (Users.release_pending_email email now t).1 (ground arith) h;
      profiles = λ name id session now t h.
          only_users t (Users.update_user_profile name id session now t).1 (ground arith) h;
      statuses = λ id status now t fits h.
          only_users t (Users.set_user_status id status now t).1 (ground arith) h;
      bumps = λ id now t h. only_users t (Users.bump_user_version id now t).1 (ground arith) h;
    }

  module _ (free : (l : List Account) (t : Tables) → P t → P (record t { accounts = l })) where
    only_accounts : (t t' : Tables) → t' ≡ record t { accounts = t'.accounts } → P t → P t'
    only_accounts t t' same h = rw same (free t'.accounts t h)

    pub free_accounts : KeptAccounts
    unfolding Accounts.create_account Accounts.change_password Accounts.upgrade_password_hash
        Accounts.touch_account Accounts.revoke_account
    free_accounts = record {
      creates =
          λ p now t fits h. only_accounts t (Accounts.create_account p now t).1 (ground arith) h;
      changes = λ id user hash now t fits h.
          only_accounts t (Accounts.change_password id user hash now t).1 (ground arith) h;
      upgrades = λ id user hash old now t fits h.
          only_accounts t (Accounts.upgrade_password_hash id user hash old now t).1 (ground arith)
            h;
      touches = λ id user now t h.
          only_accounts t (Accounts.touch_account id user now t).1 (ground arith) h;
      revokes = λ id user now t h.
          only_accounts t (Accounts.revoke_account id user now t).1 (ground arith) h;
    }

  module _ (free : (l : List UserSession) (t : Tables) → P t → P (record t { sessions = l })) where
    only_sessions : (t t' : Tables) → t' ≡ record t { sessions = t'.sessions } → P t → P t'
    only_sessions t t' same h = rw same (free t'.sessions t h)

    pub free_sessions : KeptSessions
    unfolding Sessions.create_session Sessions.touch_session Sessions.revoke_session
        Sessions.revoke_user_sessions
    free_sessions = record {
      creates =
          λ p now t fits h. only_sessions t (Sessions.create_session p now t).1 (ground arith) h;
      touches = λ idle id user renewal now t h.
          only_sessions t (Sessions.touch_session idle id user renewal now t).1 (ground arith) h;
      revokes = λ id user now t h.
          only_sessions t (Sessions.revoke_session id user now t).1 (ground arith) h;
      revokes_all = λ user now t h.
          only_sessions t (Sessions.revoke_user_sessions user now t).1 (ground arith) h;
    }

  module _ (free : (l : List AuthFlow) (t : Tables) → P t → P (record t { flows = l })) where
    only_flows : (t t' : Tables) → t' ≡ record t { flows = t'.flows } → P t → P t'
    only_flows t t' same h = rw same (free t'.flows t h)

    pub free_flows : KeptFlows
    unfolding Flows.create_flow Flows.claim_flow Flows.claim_authorization Flows.finish_flow
        Flows.fail_flow Flows.verify_flow
    free_flows = record {
      creates = λ p now t fits h. only_flows t (Flows.create_flow p now t).1 (ground arith) h;
      claims = λ id now t h. only_flows t (Flows.claim_flow id now t).1 (ground arith) h;
      authorizes =
          λ id by now t h. only_flows t (Flows.claim_authorization id by now t).1 (ground arith) h;
      finishes = λ id status now t fits h.
          only_flows t (Flows.finish_flow id status now t).1 (ground arith) h;
      fails = λ id now t h. only_flows t (Flows.fail_flow id now t).1 (ground arith) h;
      verifies = λ p v now t fits h. only_flows t (Flows.verify_flow p now t).1 (ground arith) h;
    }

  module _
      (free : (l : List AuthVerification) (t : Tables)
        → P t
        → P (record t { verifications = l })) where
    only_verifications :
        (t t' : Tables) → t' ≡ record t { verifications = t'.verifications } → P t → P t'
    only_verifications t t' same h = rw same (free t'.verifications t h)

    pub free_verifications : KeptRecords
    unfolding Records.create_verification Records.consume_verification
    free_verifications = record {
      creates = λ p now t h.
          only_verifications t (Records.create_verification p now t).1 (ground arith) h;
      consumes = λ id user now t h.
          only_verifications t (Records.consume_verification id user now t).1 (ground arith) h;
    }

  module _
      (free : (a : List AuditEvent) (b : List Bucket) (m : List Mail) (t : Tables)
        → P t
        → P (record t { audits = a; buckets = b; mails = m })) where
    only_rest :
        (t t' : Tables)
        → t' ≡ record t { audits = t'.audits; buckets = t'.buckets; mails = t'.mails }
        → P t
        → P t'
    only_rest t t' same h = rw same (free t'.audits t'.buckets t'.mails t h)

    pub free_rest : KeptRest
    unfolding Records.rate_limit Records.append_audit Records.enqueue
    free_rest = record {
      limits = λ key window now t h.
          only_rest t (Records.rate_limit key window now t).1 (ground arith) h;
      audits = λ p now t h. only_rest t (Records.append_audit p now t).1 (ground arith) h;
      mails = λ p now t h. free _ _ _ t h;
    }
