-- ===== src/Account/Both.antt =====
-- Two properties that are kept are kept together.
use go_starter_kit.Account.Tables.{Tables}
use go_starter_kit.Account.Kept.{
  KeptUsers, KeptAccounts, KeptSessions, KeptFlows, KeptRecords, KeptRest, IsKept,
}

module _ (P Q : Tables → Type 0) where
  both_users : KeptUsers P → KeptUsers Q → KeptUsers (λ t. P t × Q t)
  both_users a b = record {
    pending = λ id email normalized now t h.
        (a.pending id email normalized now t h.0, b.pending id email normalized now t h.1);
    federated = λ id name now t h. (a.federated id name now t h.0, b.federated id name now t h.1);
    activates = λ id now t h. (a.activates id now t h.0, b.activates id now t h.1);
    emails = λ id email normalized now t h.
        (a.emails id email normalized now t h.0, b.emails id email normalized now t h.1);
    releases = λ email now t h. (a.releases email now t h.0, b.releases email now t h.1);
    profiles = λ name id session now t h.
        (a.profiles name id session now t h.0, b.profiles name id session now t h.1);
    statuses = λ id status now t fits h.
        (a.statuses id status now t fits h.0, b.statuses id status now t fits h.1);
    bumps = λ id now t h. (a.bumps id now t h.0, b.bumps id now t h.1);
  }

  both_accounts : KeptAccounts P → KeptAccounts Q → KeptAccounts (λ t. P t × Q t)
  both_accounts a b = record {
    creates = λ p now t fits h. (a.creates p now t fits h.0, b.creates p now t fits h.1);
    changes = λ id user hash now t fits h.
        (a.changes id user hash now t fits h.0, b.changes id user hash now t fits h.1);
    upgrades = λ id user hash old now t fits h.
        (a.upgrades id user hash old now t fits h.0, b.upgrades id user hash old now t fits h.1);
    touches = λ id user now t h. (a.touches id user now t h.0, b.touches id user now t h.1);
    revokes = λ id user now t h. (a.revokes id user now t h.0, b.revokes id user now t h.1);
  }

  both_sessions : KeptSessions P → KeptSessions Q → KeptSessions (λ t. P t × Q t)
  both_sessions a b = record {
    creates = λ p now t fits h. (a.creates p now t fits h.0, b.creates p now t fits h.1);
    touches = λ idle id user renewal now t h.
        (a.touches idle id user renewal now t h.0, b.touches idle id user renewal now t h.1);
    revokes = λ id user now t h. (a.revokes id user now t h.0, b.revokes id user now t h.1);
    revokes_all = λ user now t h. (a.revokes_all user now t h.0, b.revokes_all user now t h.1);
  }

  both_flows : KeptFlows P → KeptFlows Q → KeptFlows (λ t. P t × Q t)
  both_flows a b = record {
    creates = λ p now t fits h. (a.creates p now t fits h.0, b.creates p now t fits h.1);
    claims = λ id now t h. (a.claims id now t h.0, b.claims id now t h.1);
    authorizes = λ id by now t h. (a.authorizes id by now t h.0, b.authorizes id by now t h.1);
    finishes = λ id status now t fits h.
        (a.finishes id status now t fits h.0, b.finishes id status now t fits h.1);
    fails = λ id now t h. (a.fails id now t h.0, b.fails id now t h.1);
    verifies = λ p v now t fits h. (a.verifies p v now t fits h.0, b.verifies p v now t fits h.1);
  }

  both_verifications : KeptRecords P → KeptRecords Q → KeptRecords (λ t. P t × Q t)
  both_verifications a b = record {
    creates = λ p now t h. (a.creates p now t h.0, b.creates p now t h.1);
    consumes = λ id user now t h. (a.consumes id user now t h.0, b.consumes id user now t h.1);
  }

  both_rest : KeptRest P → KeptRest Q → KeptRest (λ t. P t × Q t)
  both_rest a b = record {
    limits = λ key window now t h. (a.limits key window now t h.0, b.limits key window now t h.1);
    audits = λ p now t h. (a.audits p now t h.0, b.audits p now t h.1);
    mails = λ p now t h. (a.mails p now t h.0, b.mails p now t h.1);
  }

  pub IsKept-both : IsKept P → IsKept Q → IsKept (λ t. P t × Q t)
  IsKept-both a b = record {
    users = both_users a.users b.users;
    accounts = both_accounts a.accounts b.accounts;
    sessions = both_sessions a.sessions b.sessions;
    flows = both_flows a.flows b.flows;
    verifications = both_verifications a.verifications b.verifications;
    rest = both_rest a.rest b.rest;
  }
