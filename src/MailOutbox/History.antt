-- ===== src/MailOutbox/History.antt =====
-- What the workers and the rest of the program send to the table: any statements, of any number of
-- workers, in any order and at any times.
use go_starter_kit.Base.{
  ℕ, Str, Bool, true, false, Option, some, List, [], ◌∷◌, ◌≡◌, refl, ◌∙◌, arith, str_eq, lookup_by,
  lookup_by-some, lookup_by-update_by, IsIn, All, any_by, update_by, inl, inr, Bool-cases,
  Option-cases, AreDistinct, fresh-ne, tested-ne, unique_match, All-at, subst, All-filter_by,
  All-filter_by_self, All-sort_by, All-take, All-zip, All-self, filter_by, sort_by, not, ◌&&◌,
}
use go_starter_kit.MailOutbox.Queries.{
  Mail, Rows, EnqueueParams, enqueue_mail, claim_mail, complete_mail, retry_mail, expire_mail,
  ready, candidate, held, expired, expiring, is_among, leased, completed, retried, dropped,
  created_le,
}
use go_starter_kit.MailOutbox.Delivery.{
  max_delivery_attempts, lease_duration, expired_mail_batch_size,
}
use go_starter_kit.MailOutbox.Invariant.{
  IsValid, ids, candidate-some, enqueue_mail-IsValid, claim_mail-IsValid, complete_mail-IsValid,
  retry_mail-IsValid, expire_mail-IsValid,
}

-- The statements that the program issues, with the constants that it passes.
pub data Op : Type 0 where
  enqueue : EnqueueParams → Op
  expire : (Str → Bool) → Op
  claim : (Str → Bool) → Str → Op
  complete : Str → Str → Op
  retry : Str → Str → ℕ → Op

unfoldable pub apply : Op → ℕ → Rows → Rows
apply (enqueue p) now rows = (enqueue_mail p now rows).1
apply (expire locked) now rows =
    (expire_mail locked max_delivery_attempts expired_mail_batch_size now rows).1
apply (claim locked lease) now rows =
    (claim_mail locked lease max_delivery_attempts lease_duration now rows).1
apply (complete id lease) now rows = (complete_mail id lease now rows).1
apply (retry id lease delay) now rows = (retry_mail id lease delay max_delivery_attempts now rows).1

abbrev pub History : Type 0
History = List (ℕ × Op)

unfoldable pub run : History → Rows → Rows
run [] rows = rows
run ((now, op) ∷ rest) rows = run rest (apply op now rows)

pub apply-IsValid : (op : Op) (now : ℕ) (rows : Rows) → IsValid rows → IsValid (apply op now rows)
unfolding apply
apply-IsValid (enqueue p) now rows v = enqueue_mail-IsValid p now rows v
apply-IsValid (expire locked) now rows v =
    expire_mail-IsValid locked expired_mail_batch_size now rows v
apply-IsValid (claim locked lease) now rows v =
    claim_mail-IsValid locked lease lease_duration now rows v
apply-IsValid (complete id lease) now rows v = complete_mail-IsValid id lease now rows v
apply-IsValid (retry id lease delay) now rows v = retry_mail-IsValid id lease delay now rows v

pub run_from-IsValid : (h : History) (rows : Rows) → IsValid rows → IsValid (run h rows)
unfolding run
run_from-IsValid [] rows v = v
run_from-IsValid ((now, op) ∷ rest) rows v =
    run_from-IsValid rest (apply op now rows) (apply-IsValid op now rows v)

-- After any history of statements on an empty table, in any order and at any times, every row is in
-- one of the four states with the columns that belong to it, has been claimed at most five times,
-- and no identifier stands twice.
pub run-IsValid : (h : History) → IsValid (run h [])
run-IsValid h = run_from-IsValid h [] (record { each = tt; keyed = tt })

abbrev pub row_of : Str → Rows → Option Mail
row_of id rows = lookup_by (λ r. r.id) id rows

-- The statement's WHERE clause does not take the row.
abbrev pub Spares : Op → ℕ → Mail → Type 0
Spares (enqueue p) now r = Unit
Spares (expire locked) now r = expired max_delivery_attempts now r ≡ false
Spares (claim locked lease) now r = ready max_delivery_attempts now r ≡ false
Spares (complete id lease) now r = held id lease now r ≡ false
Spares (retry id lease delay) now r = held id lease now r ≡ false

expiring-each :
    (locked : Str → Bool) (now : ℕ) (rows : Rows)
    → All
        (λ x. (expired max_delivery_attempts now x ≡ true) × IsIn x rows)
        (expiring locked max_delivery_attempts expired_mail_batch_size now rows)
unfolding expiring
expiring-each locked now rows =
    let p = λ (r : Mail). expired max_delivery_attempts now r && not (locked r.id) in
    let P = λ (x : Mail). (expired max_delivery_attempts now x ≡ true) × IsIn x rows in
    All-take P expired_mail_batch_size (sort_by created_le (filter_by p rows)) (
      All-sort_by P created_le (filter_by p rows) (
        All-zip (λ x. p x ≡ true) (λ x. IsIn x rows) P (λ x a b. (ground arith, b))
          (filter_by p rows) (All-filter_by_self p rows)
          (All-filter_by (λ x. IsIn x rows) p rows (All-self rows))))

-- A row that stands in a batch of rows of the table, each of which passes a test, passes it.
is_among_test :
    (q : Mail → Bool) (rows batch : Rows) (r : Mail)
    → AreDistinct (ids rows)
    → IsIn r rows
    → All (λ x. (q x ≡ true) × IsIn x rows) batch
    → is_among batch r ≡ true
    → q r ≡ true
is_among_test q rows [] r v here h e = cc
is_among_test q rows (x ∷ xs) r v here h e = elim (Bool-cases (str_eq x.id r.id)) [
  | inl same ↦
      subst (λ y. q y ≡ true)
        (All-at (λ y. str_eq y.id r.id ≡ true → y ≡ r) rows (unique_match (λ y. y.id) rows r v here)
          h.0.1 same)
        h.0.0
  | inr other ↦ is_among_test q rows xs r v here h.1 (ground arith)
]

-- An update that keeps the identifiers and does not take the row leaves it under its identifier.
update_spares :
    (id : Str) (p : Mail → Bool) (f : Mail → Mail) (rows : Rows) {r : Mail}
    → ((x : Mail) → (f x).id ≡ x.id)
    → row_of id rows ≡ some r
    → p r ≡ false
    → row_of id (update_by p f rows) ≡ some r
update_spares id p f rows same e spared =
    lookup_by-update_by (λ r. r.id) id p f rows same ∙ rw e (rw spared)

enqueue_spares :
    (p : EnqueueParams) (now : ℕ) (id : Str) (rows : Rows) {r : Mail}
    → row_of id rows ≡ some r
    → row_of id (enqueue_mail p now rows).1 ≡ some r
unfolding enqueue_mail
enqueue_spares p now id rows {r} e = elim (Bool-cases (any_by (λ x. str_eq x.id p.id) rows)) [
  | inl taken ↦ rw taken e
  | inr fresh ↦ rw (fresh, fresh-ne (λ x. x.id) p.id id rows r fresh e) e
]

claim_spares :
    (locked : Str → Bool) (lease : Str) (now : ℕ) (id : Str) (rows : Rows) {r : Mail}
    → IsValid rows
    → row_of id rows ≡ some r
    → ready max_delivery_attempts now r ≡ false
    → row_of id (claim_mail locked lease max_delivery_attempts lease_duration now rows).1 ≡ some r
unfolding claim_mail
claim_spares locked lease now id rows {r} v e spared =
    elim (Option-cases (candidate locked max_delivery_attempts now rows)) [
      | inl nobody ↦ rw nobody e
      | inr (c, found) ↦
          let (here, can, _) = candidate-some locked now rows found in
          rw found (
            update_spares id (λ x. str_eq x.id c.id) (leased lease lease_duration now) rows
              (λ _. refl) e
              (tested-ne (λ x. x.id) (ready max_delivery_attempts now) rows r c v.keyed
                (lookup_by-some (λ x. x.id) id rows e).1 here spared can))
    ]

expire_spares :
    (locked : Str → Bool) (now : ℕ) (id : Str) (rows : Rows) {r : Mail}
    → IsValid rows
    → row_of id rows ≡ some r
    → expired max_delivery_attempts now r ≡ false
    → row_of id (expire_mail locked max_delivery_attempts expired_mail_batch_size now rows).1
      ≡ some r
unfolding expire_mail
expire_spares locked now id rows {r} v e spared =
    let batch = expiring locked max_delivery_attempts expired_mail_batch_size now rows in
    update_spares id (is_among batch) (dropped now) rows (λ _. refl) e
      (elim (Bool-cases (is_among batch r)) [
        | inl among ↦ cc (
            is_among_test (expired max_delivery_attempts now) rows batch r v.keyed
              (lookup_by-some (λ x. x.id) id rows e).1 (expiring-each locked now rows) among)
        | inr other ↦ other
      ])

-- A statement leaves alone every row that its WHERE clause does not take.
pub apply-Spares :
    (op : Op) (now : ℕ) (id : Str) (rows : Rows) {r : Mail}
    → IsValid rows
    → row_of id rows ≡ some r
    → Spares op now r
    → row_of id (apply op now rows) ≡ some r
unfolding apply complete_mail retry_mail
apply-Spares (enqueue p) now id rows v e spared = enqueue_spares p now id rows e
apply-Spares (expire locked) now id rows v e spared = expire_spares locked now id rows v e spared
apply-Spares (claim locked lease) now id rows v e spared =
    claim_spares locked lease now id rows v e spared
apply-Spares (complete i lease) now id rows v e spared =
    update_spares id (held i lease now) (completed now) rows (λ _. refl) e spared
apply-Spares (retry i lease delay) now id rows v e spared =
    update_spares id (held i lease now) (retried max_delivery_attempts delay now) rows (λ _. refl) e
      spared
