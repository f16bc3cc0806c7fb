-- ===== src/MailOutbox/Attempts.antt =====
-- How often a mail is handed out, and that a final state is final.
use go_starter_kit.Base.{
  ℕ, ◌+◌, ◌≤◌, Str, Bool, true, false, Option, none, some, [], ◌∷◌, ◌≡◌, refl, ap, subst, IsIn,
  str_eq_comm, ◌∙◌, arith, str_eq, str_eq_refl, str_eq-eq, update_by, any_by, lookup_by_self,
  lookup_by-none, lookup_by-update_by, lookup_by-some, All-at, Option-cases, Bool-cases, inl, inr,
  if◌then◌else◌,
}
use mathlib.Core.Option
use go_starter_kit.MailOutbox.Queries.{
  Mail, Rows, EnqueueParams, ready, expired, held, terminal, candidate, leased, completed, retried,
  dropped, is_among, expiring, enqueue_mail, claim_mail, complete_mail, retry_mail, expire_mail,
}
use go_starter_kit.MailOutbox.Delivery.{
  max_delivery_attempts, lease_duration, expired_mail_batch_size,
}
use go_starter_kit.MailOutbox.Invariant.{IsValid, RowOk, candidate-some}
use go_starter_kit.MailOutbox.History.{
  Op, enqueue, expire, claim, complete, retry, History, apply, run, run-IsValid, apply-IsValid,
  apply-Spares, row_of, Spares,
}

abbrev pub attempts_of : Option Mail → ℕ
attempts_of none = 0
attempts_of (some r) = r.attempts

-- 1 if the candidate of a claim is this mail.
abbrev pub taken : Str → Option Mail → ℕ
taken id none = 0
taken id (some c) = if str_eq c.id id then 1 else 0

-- How often the operation hands the mail out.
abbrev pub handed : Str → Op → ℕ → Rows → ℕ
handed id (claim locked lease) now rows = taken id (candidate locked max_delivery_attempts now rows)
handed id _ now rows = 0

-- How often a history hands the mail out.
unfoldable pub deliveries : Str → History → Rows → ℕ
deliveries id [] rows = 0
deliveries id ((now, op) ∷ rest) rows =
    handed id op now rows + deliveries id rest (apply op now rows)

-- An update that keeps the identifiers and the counts.
update_attempts :
    (id : Str) (p : Mail → Bool) (f : Mail → Mail) (rows : Rows)
    → ((x : Mail) → (f x).id ≡ x.id)
    → ((x : Mail) → (f x).attempts ≡ x.attempts)
    → attempts_of (row_of id (update_by p f rows)) ≡ attempts_of (row_of id rows)
update_attempts id p f rows same keep =
    ap attempts_of (lookup_by-update_by (λ r. r.id) id p f rows same) ∙ go (row_of id rows)
  where
    go :
        (o : Option Mail) → attempts_of (Option.map (λ r. if p r then f r else r) o) ≡ attempts_of o
    go none = refl
    go (some r) = ground (arith, keep r)

enqueue_attempts :
    (p : EnqueueParams) (id : Str) (now : ℕ) (rows : Rows)
    → attempts_of (row_of id (enqueue_mail p now rows).1) ≡ attempts_of (row_of id rows)
unfolding enqueue_mail
enqueue_attempts p id now rows = elim (Bool-cases (any_by (λ r. str_eq r.id p.id) rows)) [
  | inl known ↦ rw known
  | inr fresh ↦ rw fresh (elim (Bool-cases (str_eq p.id id)) [
    | inr other ↦ rw other
    | inl same ↦
        let gone : row_of id rows ≡ none =
          subst (λ k. row_of k rows ≡ none) (str_eq-eq p.id id same)
            (lookup_by-none (λ r. r.id) p.id rows fresh) in
        ground arith
  ])
]

-- The update of a claim, on the row under an identifier.
leased_attempts :
    (lease : Str) (id : Str) (now : ℕ) (rows : Rows) (c : Mail)
    → IsValid rows
    → IsIn c rows
    → attempts_of
        (row_of id (update_by (λ r. str_eq r.id c.id) (leased lease lease_duration now) rows))
      ≡ taken id (some c) + attempts_of (row_of id rows)
leased_attempts lease id now rows c v here =
    let f = leased lease lease_duration now in
    let after = lookup_by-update_by (λ r. r.id) id (λ r. str_eq r.id c.id) f rows (λ _. refl) in
    elim (Bool-cases (str_eq c.id id)) [
      | inl same ↦
          let mine : row_of id rows ≡ some c =
            subst (λ k. row_of k rows ≡ some c) (str_eq-eq c.id id same)
              (lookup_by_self (λ r. r.id) rows v.keyed here) in
          rw (after, mine, same, str_eq_refl c.id) (omega arith)
      | inr other ↦ rw (after, other) (go (row_of id rows) refl other)
    ]
  where
    go :
        (o : Option Mail)
        → row_of id rows ≡ o
        → str_eq c.id id ≡ false
        → attempts_of
            (Option.map (λ r. if str_eq r.id c.id then leased lease lease_duration now r else r) o)
          ≡ 0 + attempts_of o
    go none e other = omega arith
    go (some r) e other =
        let at_id = str_eq-eq r.id id (lookup_by-some (λ x. x.id) id rows e).0 in
        rw (str_eq_comm r.id c.id, at_id, other) (omega arith)

claim_attempts :
    (locked : Str → Bool) (lease : Str) (id : Str) (now : ℕ) (rows : Rows)
    → IsValid rows
    → attempts_of
        (row_of id (claim_mail locked lease max_delivery_attempts lease_duration now rows).1)
      ≡ taken id (candidate locked max_delivery_attempts now rows) + attempts_of (row_of id rows)
unfolding claim_mail
claim_attempts locked lease id now rows v =
    elim (Option-cases (candidate locked max_delivery_attempts now rows)) [
      | inl nobody ↦ rw nobody (omega arith)
      | inr (c, found) ↦
          rw found (leased_attempts lease id now rows c v (candidate-some locked now rows found).0)
    ]

apply_attempts :
    (op : Op) (id : Str) (now : ℕ) (rows : Rows)
    → IsValid rows
    → attempts_of (row_of id (apply op now rows))
      ≡ handed id op now rows + attempts_of (row_of id rows)
unfolding apply complete_mail retry_mail expire_mail
apply_attempts (enqueue p) id now rows v = omega (arith, enqueue_attempts p id now rows)
apply_attempts (claim locked lease) id now rows v = claim_attempts locked lease id now rows v
apply_attempts (expire locked) id now rows v = omega (
  arith,
  update_attempts id
      (is_among (expiring locked max_delivery_attempts expired_mail_batch_size now rows))
      (dropped now) rows (λ _. refl) (λ _. refl),
)
apply_attempts (complete i lease) id now rows v =
    omega
      (arith, update_attempts id (held i lease now) (completed now) rows (λ _. refl) (λ _. refl))
apply_attempts (retry i lease delay) id now rows v = omega (
  arith,
  update_attempts id (held i lease now) (retried max_delivery_attempts delay now) rows (λ _. refl)
      (λ _. refl),
)

-- From a valid table on, the count of attempts of a mail (0 while there is none) grows by the
-- number of times that a history hands it out.
run_attempts :
    (id : Str) (h : History) (rows : Rows)
    → IsValid rows
    → attempts_of (row_of id (run h rows)) ≡ deliveries id h rows + attempts_of (row_of id rows)
unfolding run deliveries
run_attempts id [] rows v = omega arith
run_attempts id ((now, op) ∷ rest) rows v = omega (
  arith,
  run_attempts id rest (apply op now rows) (apply-IsValid op now rows v),
  apply_attempts op id now rows v,
)

attempts_of_valid :
    (id : Str) (rows : Rows) → IsValid rows → attempts_of (row_of id rows) ≤ max_delivery_attempts
attempts_of_valid id rows v = elim (Option-cases (row_of id rows)) [
  | inl missing ↦ rw missing (omega arith)
  | inr (r, e) ↦ rw e (All-at RowOk rows v.each (lookup_by-some (λ x. x.id) id rows e).1).counted
]

-- From an empty table on, however many workers claim at whatever times, and however their deliveries
-- end, no mail is handed out more than five times.
pub delivered_at_most_five : (id : Str) (h : History) → deliveries id h [] ≤ 5
delivered_at_most_five id h = omega (
  arith,
  run_attempts id h [] (record { each = tt; keyed = tt }),
  attempts_of_valid id (run h []) (run-IsValid h),
)

finished-Spares : (op : Op) (now : ℕ) (r : Mail) → terminal r.status ≡ true → Spares op now r
unfolding terminal ready expired held
finished-Spares (enqueue p) now r t = tt
finished-Spares (expire locked) now r t = ground arith
finished-Spares (claim locked lease) now r t = ground arith
finished-Spares (complete i lease) now r t = ground arith
finished-Spares (retry i lease delay) now r t = ground arith

-- On a valid table, a mail that was sent or has failed stays exactly so, whatever statements are
-- sent to the table afterwards, at whatever times.
pub finished_forever :
    (h : History) (id : Str) (rows : Rows) {r : Mail}
    → IsValid rows
    → row_of id rows ≡ some r
    → terminal r.status ≡ true
    → row_of id (run h rows) ≡ some r
unfolding run
finished_forever [] id rows v e t = e
finished_forever ((now, op) ∷ rest) id rows {r} v e t =
    finished_forever rest id (apply op now rows) (apply-IsValid op now rows v)
      (apply-Spares op now id rows v e (finished-Spares op now r t)) t
