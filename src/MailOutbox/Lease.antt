-- ===== src/MailOutbox/Lease.antt =====
-- What a lease is worth: nobody else touches the row before it ends, and nobody writes with it
-- afterwards.
use go_starter_kit.Base.{
  ℕ, ◌+◌, ◌<◌, Str, Bool, true, false, some, [], ◌∷◌, ◌≡◌, refl, arith, All, inl, inr, ◌⊎◌, str_eq,
  str_eq_refl, str_eq_comm, opt_is, opt_is-eq, count_by_zero, count_by-key, hits,
  lookup_by-update_by, update_by_none, count_by, Bool-cases, if◌then◌else◌, ◌∙◌, ap, ap₂, subst,
}
use go_starter_kit.Db.{Result, ok}
use go_starter_kit.MailOutbox.Queries.{
  is_ahead, Mail, Rows, processing, held, ready, expired, claim_mail, complete_mail, retry_mail,
  completed, retried, seconds,
}
use go_starter_kit.MailOutbox.Delivery.{max_delivery_attempts, lease_duration}
use go_starter_kit.MailOutbox.Invariant.{IsValid, claim_mail-IsValid}
use go_starter_kit.MailOutbox.Claim.{claim_mail-ok}
use go_starter_kit.MailOutbox.History.{
  Op, enqueue, expire, claim, complete, retry, History, apply, run, run_from-IsValid, apply-IsValid,
  apply-Spares, row_of, Spares,
}

-- The operation is not the outcome of the delivery that has this lease on this mail.
abbrev pub IsForeign : Str → Str → Op → Type 0
IsForeign id lease (complete i l) = (str_eq i id ≡ false) ⊎ (str_eq l lease ≡ false)
IsForeign id lease (retry i l delay) = (str_eq i id ≡ false) ⊎ (str_eq l lease ≡ false)
IsForeign id lease _ = Unit

-- The row is claimed under the lease until then.
pub record IsLeased (r : Mail) (lease : Str) (until : ℕ) : Type 0 where
  pub claimed : r.status ≡ processing
  pub holder : r.lease_id ≡ some lease
  pub end : r.leased_until ≡ some until

leased-Spares :
    (op : Op) (now until : ℕ) (lease : Str) (r : Mail)
    → IsLeased r lease until
    → now < until
    → IsForeign r.id lease op
    → Spares op now r
unfolding expired ready held
leased-Spares (enqueue p) now until lease r l early foreign = tt
leased-Spares (expire locked) now until lease r l early foreign = ground arith
leased-Spares (claim locked other) now until lease r l early foreign = ground arith
leased-Spares (complete i other) now until lease r l early foreign =
    ground (arith, str_eq_comm i r.id, str_eq_comm other lease)
leased-Spares (retry i other delay) now until lease r l early foreign =
    ground (arith, str_eq_comm i r.id, str_eq_comm other lease)

abbrev pub AreEarlier : ℕ → Str → Str → History → Type 0
AreEarlier until id lease h = All (λ e. (e.0 < until) × IsForeign id lease e.1) h

-- Before its lease ends, whatever statements the others send and whatever else the holder does, a
-- claimed row stays as it was claimed.
pub lease_protects :
    (h : History) (rows : Rows) (r : Mail) (lease : Str) (until : ℕ)
    → IsValid rows
    → row_of r.id rows ≡ some r
    → IsLeased r lease until
    → AreEarlier until r.id lease h
    → row_of r.id (run h rows) ≡ some r
unfolding run
lease_protects [] rows r lease until v e l early = e
lease_protects ((now, op) ∷ rest) rows r lease until v e l early =
    lease_protects rest (apply op now rows) r lease until (apply-IsValid op now rows v)
      (apply-Spares op now r.id rows v e (leased-Spares op now until lease r l early.0.0 early.0.1))
      l early.1

held_key :
    (id lease : Str) (now : ℕ) (x : Mail) → held id lease now x ≡ true → str_eq x.id id ≡ true
unfolding held
held_key id lease now x h = ground arith

held_of_lease :
    (r : Mail) (lease : Str) (until now : ℕ)
    → IsLeased r lease until
    → now < until
    → held r.id lease now r ≡ true
unfolding held
held_of_lease r lease until now l early = ground (arith, str_eq_refl r.id, str_eq_refl lease)

held_count :
    (id lease : Str) (now : ℕ) (rows : Rows) {r : Mail}
    → IsValid rows
    → row_of id rows ≡ some r
    → count_by (held id lease now) rows ≡ (if held id lease now r then 1 else 0)
held_count id lease now rows v e =
    count_by-key (λ r. r.id) id (held id lease now) (held_key id lease now) rows v.keyed
    ∙ ap (hits (held id lease now)) e

-- The holder's report, in time: it changes one row, its own.
pub complete_held :
    (id lease : Str) (now : ℕ) (rows : Rows) {r : Mail}
    → IsValid rows
    → row_of id rows ≡ some r
    → held id lease now r ≡ true
    → ((complete_mail id lease now rows).0 ≡ ok 1)
      × (row_of id (complete_mail id lease now rows).1 ≡ some (completed now r))
unfolding complete_mail
complete_held id lease now rows {r} v e h = (
  ap ok (held_count id lease now rows v e ∙ rw h refl),
  lookup_by-update_by (λ x. x.id) id (held id lease now) (completed now) rows (λ _. refl)
      ∙ rw e (rw h refl),
)

pub retry_held :
    (id lease : Str) (delay now : ℕ) (rows : Rows) {r : Mail}
    → IsValid rows
    → row_of id rows ≡ some r
    → held id lease now r ≡ true
    → ((retry_mail id lease delay max_delivery_attempts now rows).0 ≡ ok 1)
      × (row_of id (retry_mail id lease delay max_delivery_attempts now rows).1
          ≡ some (retried max_delivery_attempts delay now r))
unfolding retry_mail
retry_held id lease delay now rows {r} v e h = (
  ap ok (held_count id lease now rows v e ∙ rw h refl),
  lookup_by-update_by (λ x. x.id) id (held id lease now) (retried max_delivery_attempts delay now)
        rows (λ _. refl)
      ∙ rw e (rw h refl),
)

-- The lease is not, or no longer, this row's.
abbrev pub IsStale : Str → ℕ → Mail → Type 0
IsStale lease now r =
    (¬ (r.status ≡ processing))
    ⊎ ((¬ (r.lease_id ≡ some lease)) ⊎ (is_ahead r.leased_until now ≡ false))

held_facts :
    (id lease : Str) (now : ℕ) (r : Mail)
    → held id lease now r ≡ true
    → (r.status ≡ processing)
      × (opt_is r.lease_id lease ≡ true)
      × (is_ahead r.leased_until now ≡ true)
unfolding held
held_facts id lease now r h = ground arith

stale_held :
    (id lease : Str) (now : ℕ) (r : Mail) → IsStale lease now r → held id lease now r ≡ false
stale_held id lease now r stale = elim (Bool-cases (held id lease now r)) [
  | inr no_hit ↦ no_hit
  | inl h ↦
      let (working, holder, ahead) = held_facts id lease now r h in
      elim stale [
        | inl idle ↦ absurd (idle working)
        | inr (inl other) ↦ absurd (other (opt_is-eq r.lease_id lease holder))
        | inr (inr past) ↦ cc
      ]
]

-- On a valid table with the mail: a report under a lease that has ended, or that is not the
-- row's, or on a mail that is not claimed, changes no row at all and says so by a count of 0.
pub stale_writes_nothing :
    (id lease : Str) (delay now : ℕ) (rows : Rows) {r : Mail}
    → IsValid rows
    → row_of id rows ≡ some r
    → IsStale lease now r
    → (complete_mail id lease now rows ≡ (ok 0, rows))
      × (retry_mail id lease delay max_delivery_attempts now rows ≡ (ok 0, rows))
unfolding complete_mail retry_mail
stale_writes_nothing id lease delay now rows {r} v e stale =
    let none_held : count_by (held id lease now) rows ≡ 0 =
      held_count id lease now rows v e ∙ rw (stale_held id lease now r stale) refl in
    let spared = count_by_zero (held id lease now) rows none_held in
    (
      ap₂ (λ (n : ℕ) (rows : Rows). (ok n, rows)) none_held
          (update_by_none (held id lease now) (completed now) rows spared),
      ap₂ (λ (n : ℕ) (rows : Rows). (ok n, rows)) none_held
          (update_by_none (held id lease now) (retried max_delivery_attempts delay now) rows
            spared),
    )

claimed-IsValid :
    (locked : Str → Bool) (lease : Str) (now : ℕ) (rows : Rows) {r : Mail} {rows' : Rows}
    → IsValid rows
    → claim_mail locked lease max_delivery_attempts lease_duration now rows ≡ (ok r, rows')
    → IsValid rows'
claimed-IsValid locked lease now rows v e =
    subst (λ (p : Result Mail × Rows). IsValid p.1) e
      (claim_mail-IsValid locked lease lease_duration now rows v)

-- The worker that claimed a mail and reports before its lease ends is heard, whatever statements are
-- sent in between, before that end too, that do not themselves report this mail under this lease: the
-- report changes the row as it was claimed, and counts one.
pub lease_exclusive :
    (locked : Str → Bool) (lease : Str) (start now delay : ℕ) (rows : Rows) (h : History) {r : Mail}
    {rows' : Rows}
    → IsValid rows
    → claim_mail locked lease max_delivery_attempts lease_duration start rows ≡ (ok r, rows')
    → AreEarlier (start + seconds lease_duration) r.id lease h
    → now < start + seconds lease_duration
    → let later = run h rows' in
      let (done, sent_rows) = complete_mail r.id lease now later in
      let (kept, retry_rows) = retry_mail r.id lease delay max_delivery_attempts now later in
      ((done ≡ ok 1) × (row_of r.id sent_rows ≡ some (completed now r)))
      × ((kept ≡ ok 1)
          × (row_of r.id retry_rows ≡ some (retried max_delivery_attempts delay now r)))
lease_exclusive locked lease start now delay rows h {r} {rows'} v e early soon =
    let until = start + seconds lease_duration in
    let (c, _, shape, here) = claim_mail-ok locked lease lease_duration start rows v e in
    let l : IsLeased r lease until =
      rw shape (record { claimed = refl; holder = refl; end = refl }) in
    let v' = claimed-IsValid locked lease start rows v e in
    let still = lease_protects h rows' r lease until v' here l early in
    let w = run_from-IsValid h rows' v' in
    let mine = held_of_lease r lease until now l soon in
    (
      complete_held r.id lease now (run h rows') w still mine,
      retry_held r.id lease delay now (run h rows') w still mine,
    )
