-- ===== src/Project/Isolation.antt =====
-- No caller touches or sees the projects of another.
use go_starter_kit.Base.{
  Str, Bool, true, false, ◌≡◌, refl, ◌∙◌, [], filter_by-update_by, filter_by-remove_by, str_eq,
  str_eq-eq, arith, any_by, find_by, Bool-cases, Option-cases, inl, inr, ℕ,
}
use go_starter_kit.Db.{Session}
use go_starter_kit.Db.Keeps.{OthersKeep}
use go_starter_kit.Project.Queries.{
  Project, Rows, owned, edited, is_at, is_named, is_rival, create_project, update_project,
  delete_project,
}
use go_starter_kit.Project.Calls.{Call, caller, perform, perform-Holds}

-- The other owner's projects are these.
abbrev Shows : Str → Rows → Rows → Type 0
Shows other before t = owned other t ≡ before

module _ (other owner : Str) (apart : str_eq owner other ≡ false) (before : Rows) where
  creates_apart :
      (id name description : Str) (now : ℕ) (t : Rows)
      → Shows other before t
      → Shows other before (create_project id owner name description now t).1
  unfolding create_project
  creates_apart id name description now t h = elim (Bool-cases (any_by (λ r. str_eq r.id id) t)) [
    | inl taken ↦ rw taken h
    | inr fresh ↦ elim (Bool-cases (any_by (is_named owner name) t)) [
      | inl named ↦ rw (fresh, named) h
      | inr unnamed ↦ rw (fresh, unnamed) (rw apart h)
    ]
  ]

  at_apart :
      (id name description : Str) (now : ℕ) (r : Project)
      → is_at id owner r ≡ true
      → (str_eq r.owner_id other ≡ false)
        × (str_eq (edited name description now r).owner_id other ≡ false)
  at_apart id name description now r h =
      let mine : r.owner_id ≡ owner = str_eq-eq r.owner_id owner (ground arith) in
      (rw mine apart, rw mine apart)

  updates_apart :
      (id name description : Str) (now : ℕ) (t : Rows)
      → Shows other before t
      → Shows other before (update_project id owner name description now t).1
  unfolding update_project
  updates_apart id name description now t h = elim (Option-cases (find_by (is_at id owner) t)) [
    | inl missing ↦ rw missing h
    | inr (r, found) ↦ elim (Bool-cases (any_by (is_rival id owner name) t)) [
      | inl rival ↦ rw (found, rival) h
      | inr free ↦
          rw (found, free)
            (filter_by-update_by (λ r. str_eq r.owner_id other) (is_at id owner)
                (edited name description now) (λ r. at_apart id name description now r) t
              ∙ h)
    ]
  ]

  deletes_apart :
      (id : Str) (now : ℕ) (t : Rows)
      → Shows other before t
      → Shows other before (delete_project id owner now t).1
  unfolding delete_project
  deletes_apart id now t h =
      filter_by-remove_by (λ r. str_eq r.owner_id other) (is_at id owner)
        (λ r e. (at_apart id [] [] now r e).0) t
      ∙ h

-- Whatever one owner calls, with whatever identifiers, and whether or not the database fails, the
-- projects of every other owner are the same before and after, if nobody else changes them.
pub isolated :
    (id_le : Str → Str → Bool) (c : Call) (other : Str) (s : Session Rows)
    → str_eq (caller c) other ≡ false
    → OthersKeep (λ t. owned other t ≡ owned other s.table) s
    → owned other (perform id_le c s).table ≡ owned other s.table
isolated id_le c other s apart quiet =
    let before = owned other s.table in
    (perform-Holds (Shows other before) id_le c s
      (record {
        creates = λ id name given description now t _ _.
            creates_apart other (caller c) apart before id name description now t;
        updates = λ id name given description now t _ _.
            updates_apart other (caller c) apart before id name description now t;
        deletes = deletes_apart other (caller c) apart before;
      })
      (record { now = refl; later = quiet })).now
