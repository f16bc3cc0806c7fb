-- ===== src/MailOutbox/Invariant.antt =====
-- What holds of every row of the queue between two statements, and of the table as a whole.
use go_starter_kit.Base.{
  All-head, All-zip, All-update_by_each, All-filter_by_self, Bool-cases, Option-cases, inl, inr, ap,
  ◌∙◌, ℕ, ◌≤◌, ◌<◌, Str, Bool, true, false, none, some, List, [], ◌∷◌, map, ◌≡◌, refl, arith,
  is_some, str_eq, All, All-update_by, AreDistinct, unique_match, map-update_by, update_by, IsIn,
  All-self, All-filter_by, All-sort_by, filter_by, sort_by, any_by, ◌&&◌, not,
}
use go_starter_kit.MailOutbox.Queries.{
  Mail, Rows, pending, processing, valid, terminal, ready, candidate, held, expiring, leased,
  completed, retried, dropped, enqueued, EnqueueParams, enqueue_mail, claim_mail, claim_row,
  complete_mail, retry_mail, expire_mail, is_among, queue_le,
}
use go_starter_kit.MailOutbox.Delivery.{max_delivery_attempts}

-- A row in one of the four states: a waiting row has attempts left, no lease and no end; a claimed row
-- has a lease with its end; a row in a final state has neither, and no payload.
pub record RowOk (r : Mail) : Type 0 where
  pub known : valid r.status ≡ true
  pub counted : r.attempts ≤ max_delivery_attempts
  pub waiting :
      r.status ≡ pending
      → (r.attempts < max_delivery_attempts)
        × (r.lease_id ≡ none)
        × (r.leased_until ≡ none)
        × (r.completed_at ≡ none)
  pub claimed :
      r.status ≡ processing
      → (1 ≤ r.attempts)
        × (is_some r.lease_id ≡ true)
        × (is_some r.leased_until ≡ true)
        × (r.completed_at ≡ none)
  pub finished :
      terminal r.status ≡ true
      → (r.recipient ≡ [])
        × (r.subject ≡ [])
        × (r.body ≡ [])
        × (r.lease_id ≡ none)
        × (r.leased_until ≡ none)
        × (is_some r.completed_at ≡ true)

abbrev pub ids : Rows → List Str
ids rows = map (λ r. r.id) rows

pub record IsValid (rows : Rows) : Type 0 where
  pub each : All RowOk rows
  pub keyed : AreDistinct (ids rows)

enqueued-RowOk : (p : EnqueueParams) (now : ℕ) → RowOk (enqueued p now)
unfolding valid terminal
enqueued-RowOk p now = ground arith

leased-RowOk :
    (r : Mail) (lease : Str) (secs now : ℕ)
    → ready max_delivery_attempts now r ≡ true
    → RowOk r
    → RowOk (leased lease secs now r)
unfolding valid terminal ready
leased-RowOk r lease secs now h v = ground arith

completed-RowOk : (r : Mail) (now : ℕ) → RowOk r → RowOk (completed now r)
unfolding valid terminal
completed-RowOk r now v = ground arith

retried-RowOk :
    (r : Mail) (delay now : ℕ) → RowOk r → RowOk (retried max_delivery_attempts delay now r)
unfolding valid terminal
retried-RowOk r delay now v = ground arith

dropped-RowOk : (r : Mail) (now : ℕ) → RowOk r → RowOk (dropped now r)
unfolding valid terminal
dropped-RowOk r now v = ground arith

any_by-ids :
    (id : Str) (rows : Rows)
    → any_by (λ r. str_eq r.id id) rows ≡ false
    → All (λ j. str_eq j id ≡ false) (ids rows)
any_by-ids id [] h = tt
any_by-ids id (r ∷ rows) h = (ground arith, any_by-ids id rows (ground arith))

-- The candidate is a row of the table that is ready and that nobody holds locked.
pub candidate-some :
    (locked : Str → Bool) (now : ℕ) (rows : Rows) {c : Mail}
    → candidate locked max_delivery_attempts now rows ≡ some c
    → IsIn c rows × (ready max_delivery_attempts now c ≡ true) × (locked c.id ≡ false)
unfolding candidate
candidate-some locked now rows {c} e =
    let p = λ (r : Mail). ready max_delivery_attempts now r && not (locked r.id) in
    let (test, here) =
      All-head (λ x. (p x ≡ true) × IsIn x rows) (sort_by queue_le (filter_by p rows))
        (All-sort_by (λ x. (p x ≡ true) × IsIn x rows) queue_le (filter_by p rows)
          (All-zip (λ x. p x ≡ true) (λ x. IsIn x rows) (λ x. (p x ≡ true) × IsIn x rows)
            (λ x a b. (a, b)) (filter_by p rows) (All-filter_by_self p rows)
            (All-filter_by (λ x. IsIn x rows) p rows (All-self rows))))
        e in
    (here, ground arith, ground arith)

claim_row-each :
    (lease : Str) (secs now : ℕ) (rows : Rows) (c : Mail)
    → IsValid rows
    → IsIn c rows
    → ready max_delivery_attempts now c ≡ true
    → All RowOk (claim_row lease secs now rows (some c)).1
claim_row-each lease secs now rows c v here can =
    All-update_by_each RowOk (λ r. str_eq r.id c.id) (leased lease secs now) rows
      (All-zip RowOk (λ x. str_eq x.id c.id ≡ true → x ≡ c) _
        (λ x okay same. (
          λ e.
              leased-RowOk x lease secs now (ap (ready max_delivery_attempts now) (same e) ∙ can)
                okay,
          λ _. okay,
        ))
        rows v.each (unique_match (λ r. r.id) rows c v.keyed here))

pub enqueue_mail-IsValid :
    (p : EnqueueParams) (now : ℕ) (rows : Rows) → IsValid rows → IsValid (enqueue_mail p now rows).1
unfolding enqueue_mail
enqueue_mail-IsValid p now rows v = elim (Bool-cases (any_by (λ r. str_eq r.id p.id) rows)) [
  | inl taken ↦ rw taken v
  | inr fresh ↦ rw fresh (record {
    each = (enqueued-RowOk p now, v.each);
    keyed = (any_by-ids p.id rows fresh, v.keyed);
  })
]

pub claim_mail-IsValid :
    (locked : Str → Bool) (lease : Str) (secs now : ℕ) (rows : Rows)
    → IsValid rows
    → IsValid (claim_mail locked lease max_delivery_attempts secs now rows).1
unfolding claim_mail
claim_mail-IsValid locked lease secs now rows v =
    elim (Option-cases (candidate locked max_delivery_attempts now rows)) [
      | inl nobody ↦ rw nobody v
      | inr (c, e) ↦
          let (here, can, _) = candidate-some locked now rows e in
          rw e (record {
            each = claim_row-each lease secs now rows c v here can;
            keyed =
                rw
                  (map-update_by (λ r. r.id) (λ r. str_eq r.id c.id) (leased lease secs now)
                    (λ _. refl) rows)
                  v.keyed;
          })
    ]

-- An update that keeps the identifiers and each row's invariant keeps the table's.
update_by-IsValid :
    (p : Mail → Bool) (f : Mail → Mail) (rows : Rows)
    → ((r : Mail) → (f r).id ≡ r.id)
    → ((r : Mail) → RowOk r → RowOk (f r))
    → IsValid rows
    → IsValid (update_by p f rows)
update_by-IsValid p f rows same keep v = record {
  each = All-update_by RowOk p f (λ r _. keep r) rows v.each;
  keyed = rw (map-update_by (λ r. r.id) p f same rows) v.keyed;
}

pub complete_mail-IsValid :
    (id lease : Str) (now : ℕ) (rows : Rows)
    → IsValid rows
    → IsValid (complete_mail id lease now rows).1
unfolding complete_mail
complete_mail-IsValid id lease now rows =
    update_by-IsValid (held id lease now) (completed now) rows (λ _. refl)
      (λ r. completed-RowOk r now)

pub retry_mail-IsValid :
    (id lease : Str) (delay now : ℕ) (rows : Rows)
    → IsValid rows
    → IsValid (retry_mail id lease delay max_delivery_attempts now rows).1
unfolding retry_mail
retry_mail-IsValid id lease delay now rows =
    update_by-IsValid (held id lease now) (retried max_delivery_attempts delay now) rows (λ _. refl)
      (λ r. retried-RowOk r delay now)

pub expire_mail-IsValid :
    (locked : Str → Bool) (batch now : ℕ) (rows : Rows)
    → IsValid rows
    → IsValid (expire_mail locked max_delivery_attempts batch now rows).1
unfolding expire_mail
expire_mail-IsValid locked batch now rows =
    update_by-IsValid (is_among (expiring locked max_delivery_attempts batch now rows))
      (dropped now) rows (λ _. refl) (λ r. dropped-RowOk r now)
