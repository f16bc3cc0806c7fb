-- ===== src/MailOutbox/Processing.antt =====
-- `ProcessOne` from its first statement to its last.
use go_starter_kit.Base.{
  ℕ, ◌+◌, ◌<◌, true, Option, none, some, [], ◌∷◌, ◌≡◌, refl, str_eq, str_eq_refl, update_by,
}
use go_starter_kit.AppError.{GoError}
use go_starter_kit.Db.{ok, Turn, fine, Session}
use go_starter_kit.MailOutbox.Queries.{
  Mail, Rows, candidate, leased, completed, retried, claim_mail, expire_mail, seconds,
  complete_mail, retry_mail,
}
use go_starter_kit.MailOutbox.Delivery.{
  Env, deliver, process_one, finish_delivery, retry_delay_seconds, max_delivery_attempts,
  lease_duration, expired_mail_batch_size,
}
use go_starter_kit.MailOutbox.Invariant.{IsValid, expire_mail-IsValid}
use go_starter_kit.MailOutbox.Claim.{claim_mail-candidate}
use go_starter_kit.MailOutbox.History.{History, run, row_of}
use go_starter_kit.MailOutbox.Lease.{AreEarlier, lease_exclusive}

-- A statement that runs at a time, after what the others sent before it.
abbrev pub turn : ℕ → History → Turn Rows
turn now h = record { now = now; meanwhile = run h; fault = fine }

abbrev pub start : Rows → ℕ → ℕ → ℕ → History → Session Rows
start rows t₁ t₂ t₃ h = record {
  table = rows;
  clock = 0;
  script = turn t₁ [] ∷ turn t₂ [] ∷ turn t₃ h ∷ [];
}

abbrev pub swept : Env → ℕ → Rows → Rows
swept env t₁ rows =
    (expire_mail env.locked_expire max_delivery_attempts expired_mail_batch_size t₁ rows).1

-- The row as the outcome of its delivery leaves it.
abbrev pub recorded : Env → ℕ → Option GoError → Mail → Mail
recorded env now none r = completed now r
recorded env now (some e) r =
    retried max_delivery_attempts (retry_delay_seconds r.attempts env.jitter) now r

-- The table after the report.
abbrev reported : Env → Mail → ℕ → Option GoError → Rows → Rows
reported env r now none rows = (complete_mail r.id env.lease now rows).1
reported env r now (some e) rows =
    (retry_mail r.id env.lease (retry_delay_seconds r.attempts env.jitter) max_delivery_attempts now
      rows).1

module _ (env : Env) (rows rows' : Rows) (t₂ t₃ : ℕ) (h : History) (r : Mail) (v : IsValid rows)
    (e : claim_mail env.locked_claim env.lease max_delivery_attempts lease_duration t₂ rows
      ≡ (ok r, rows'))
    (early : AreEarlier (t₂ + seconds lease_duration) r.id env.lease h)
    (soon : t₃ < t₂ + seconds lease_duration) where
  heard :
      (error : Option GoError)
      → finish_delivery env r env.lease error
          (record { table = rows'; clock = t₂; script = turn t₃ h ∷ [] })
        ≡ (none, record { table = reported env r t₃ error (run h rows'); clock = t₃; script = [] })
  unfolding finish_delivery
  heard none =
      rw (lease_exclusive env.locked_claim env.lease t₂ t₃ 0 rows h v e early soon).0.0 refl
  heard (some x) =
      rw
        (lease_exclusive env.locked_claim env.lease t₂ t₃
          (retry_delay_seconds r.attempts env.jitter) rows h v e early soon).1.0
        refl

  recorded_row :
      (error : Option GoError)
      → row_of r.id (reported env r t₃ error (run h rows')) ≡ some (recorded env t₃ error r)
  recorded_row none = (lease_exclusive env.locked_claim env.lease t₂ t₃ 0 rows h v e early soon).0.1
  recorded_row (some x) =
      (lease_exclusive env.locked_claim env.lease t₂ t₃ (retry_delay_seconds r.attempts env.jitter)
        rows h v e early soon).1.1

-- On a valid table where a mail is ready and not locked, when the database answers and the
-- report is sent before the lease ends: whatever statements are sent while the mail is being
-- sent, before that end too, that do not themselves report this mail under this lease, the call
-- returns with no error, the sender was called as `deliver` says, and the row of the mail
-- records the outcome: sent, or to be tried again, or failed.
pub process_one_reports :
    (env : Env) (rows : Rows) (t₁ t₂ t₃ : ℕ) (h : History) {c : Mail}
    → IsValid rows
    → candidate env.locked_claim max_delivery_attempts t₂ (swept env t₁ rows) ≡ some c
    → AreEarlier (t₂ + seconds lease_duration) c.id env.lease h
    → t₃ < t₂ + seconds lease_duration
    → let r = leased env.lease lease_duration t₂ c in
      let d = deliver env r (t₂ + seconds lease_duration) in
      let (outcome, s) = process_one env (start rows t₁ t₂ t₃ h) in
      (outcome ≡ record { worked = true; error = none; called = d.called })
      × (row_of c.id s.table ≡ some (recorded env t₃ d.error r))
unfolding process_one run expire_mail
process_one_reports env rows t₁ t₂ t₃ h {c} v found early soon =
    let r = leased env.lease lease_duration t₂ c in
    let d = deliver env r (t₂ + seconds lease_duration) in
    let w = expire_mail-IsValid env.locked_expire expired_mail_batch_size t₁ rows v in
    let e =
      claim_mail-candidate env.locked_claim env.lease lease_duration t₂ (swept env t₁ rows) found in
    let rows' =
      update_by (λ x. str_eq x.id c.id) (leased env.lease lease_duration t₂) (swept env t₁ rows) in
    rw e (
      rw (str_eq_refl env.lease) (
        rw (heard env (swept env t₁ rows) rows' t₂ t₃ h r w e early soon d.error)
          (refl, recorded_row env (swept env t₁ rows) rows' t₂ t₃ h r w e early soon d.error)))
