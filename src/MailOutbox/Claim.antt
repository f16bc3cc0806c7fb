-- ===== src/MailOutbox/Claim.antt =====
-- Which mail a claim takes, and what it leaves in the table.
use go_starter_kit.Base.{
  ℕ, Str, Bool, true, false, not, ◌&&◌, some, ◌≡◌, refl, ap, ◌∙◌, arith, IsIn, str_eq, str_eq_refl,
  update_by, lookup_by, lookup_by_self, lookup_by-update_by, Option-cases, inl, inr, Bool-cases,
  ltb, ◌<◌, ◌≤◌, ◌⊎◌, filter_by, sort_by, head_of_sorted, IsIn-filter_by, IsIn-sort_by,
  sort_by-IsSorted,
}
use go_starter_kit.Db.{ok}
use go_starter_kit.MailOutbox.Queries.{
  Mail, Rows, ready, candidate, leased, claim_row, claim_mail, queue_le,
}
use go_starter_kit.MailOutbox.Delivery.{max_delivery_attempts}
use go_starter_kit.MailOutbox.Invariant.{IsValid, candidate-some}

queue_le_total : (a b : Mail) → queue_le a b ≡ false → queue_le b a ≡ true
queue_le_total a b h = ground arith

queue_le_trans : (a b c : Mail) → queue_le a b ≡ true → queue_le b c ≡ true → queue_le a c ≡ true
queue_le_trans a b c h k = ground arith

queue_le_refl : (a : Mail) → queue_le a a ≡ true
queue_le_refl a = ground arith

-- `queue_le`, in numbers
queue_le-order :
    (a b : Mail)
    → queue_le a b ≡ true
    → (a.available_at < b.available_at)
      ⊎ ((a.available_at ≡ b.available_at) × (a.created_at ≤ b.created_at))
queue_le-order a b h = elim (Bool-cases (ltb a.available_at b.available_at)) [
  | inl before ↦ inl (ground arith)
  | inr not_before ↦ inr (ground arith, ground arith)
]

-- The mail that is claimed is ready and nobody holds it locked. Every other such mail became available
-- later, or at the same time and is not older.
pub candidate_first :
    (locked : Str → Bool) (now : ℕ) (rows : Rows) {c : Mail}
    → candidate locked max_delivery_attempts now rows ≡ some c
    → (IsIn c rows × (ready max_delivery_attempts now c ≡ true) × (locked c.id ≡ false))
      × ((x : Mail)
          → IsIn x rows
          → ready max_delivery_attempts now x ≡ true
          → locked x.id ≡ false
          → (c.available_at < x.available_at)
            ⊎ ((c.available_at ≡ x.available_at) × (c.created_at ≤ x.created_at)))
unfolding candidate
candidate_first locked now rows {c} e =
    let p = λ (r : Mail). ready max_delivery_attempts now r && not (locked r.id) in
    (
      candidate-some locked now rows e,
      λ x here can free. queue_le-order c x (
          head_of_sorted queue_le queue_le_refl (sort_by queue_le (filter_by p rows)) c x
            (sort_by-IsSorted queue_le queue_le_total queue_le_trans (filter_by p rows)) e
            (IsIn-sort_by p queue_le (filter_by p rows) x
              (IsIn-filter_by p queue_le rows x here (ground arith)))),
    )

claim_row-row :
    (lease : Str) (secs now : ℕ) (rows : Rows) (c : Mail) {r : Mail} {rows' : Rows}
    → IsValid rows
    → IsIn c rows
    → claim_row lease secs now rows (some c) ≡ (ok r, rows')
    → lookup_by (λ x. x.id) r.id rows' ≡ some r
claim_row-row lease secs now rows c {r} {rows'} v here e =
    let same : leased lease secs now c ≡ r = ground arith in
    let left : update_by (λ x. str_eq x.id c.id) (leased lease secs now) rows ≡ rows' =
      ground arith in
    rw (← left, ← same)
      (lookup_by-update_by (λ x. x.id) c.id (λ x. str_eq x.id c.id) (leased lease secs now) rows
          (λ _. refl)
        ∙ rw (lookup_by_self (λ x. x.id) rows v.keyed here, str_eq_refl c.id) refl)

-- A claim that succeeds took the candidate, and what it returned now stands in the table.
pub claim_mail-ok :
    (locked : Str → Bool) (lease : Str) (secs now : ℕ) (rows : Rows) {r : Mail} {rows' : Rows}
    → IsValid rows
    → claim_mail locked lease max_delivery_attempts secs now rows ≡ (ok r, rows')
    → (c : Mail) × (candidate locked max_delivery_attempts now rows ≡ some c)
      × (r ≡ leased lease secs now c)
      × (lookup_by (λ x. x.id) r.id rows' ≡ some r)
unfolding claim_mail
claim_mail-ok locked lease secs now rows {r} {rows'} v e =
    elim (Option-cases (candidate locked max_delivery_attempts now rows)) [
      | inl nobody ↦ ground arith
      | inr (c, found) ↦ (
        c,
        found,
        ground arith,
        claim_row-row lease secs now rows c v (candidate-some locked now rows found).0
            (rw found at e),
      )
    ]

-- A claim with a candidate returns it under the new lease and updates its row.
pub claim_mail-candidate :
    (locked : Str → Bool) (lease : Str) (secs now : ℕ) (rows : Rows) {c : Mail}
    → candidate locked max_delivery_attempts now rows ≡ some c
    → claim_mail locked lease max_delivery_attempts secs now rows ≡ (
      ok (leased lease secs now c),
      update_by (λ r. str_eq r.id c.id) (leased lease secs now) rows,
    )
unfolding claim_mail
claim_mail-candidate locked lease secs now rows found = ap (claim_row lease secs now rows) found
