-- ===== src/Task/Isolation.antt =====
-- No caller touches the tasks of another.
use go_starter_kit.Base.{
  Str, Bool, true, false, ◌≡◌, refl, ◌∙◌, filter_by-update_by, filter_by-remove_by, str_eq,
  str_eq-eq, arith, any_by, find_by, Bool-cases, Option-cases, inl, inr, ℕ,
}
use go_starter_kit.Db.{Session}
use go_starter_kit.Db.Keeps.{OthersKeep}
use go_starter_kit.Task.Queries.{
  Task, Rows, owned, edited, is_at, create_task, update_task, delete_task,
}
use go_starter_kit.Task.Calls.{Call, caller, perform, perform-Holds}

-- The other owner's tasks are these.
abbrev Shows : Str → Rows → Rows → Type 0
Shows other before t = owned other t ≡ before

module _ (other owner : Str) (apart : str_eq owner other ≡ false) (before : Rows) where
  creates_apart :
      (id title description status : Str) (now : ℕ) (t : Rows)
      → Shows other before t
      → Shows other before (create_task id owner title description status now t).1
  unfolding create_task
  creates_apart id title description status now t h =
      elim (Bool-cases (any_by (λ r. str_eq r.id id) t)) [
        | inl taken ↦ rw taken h
        | inr fresh ↦ rw fresh (rw apart h)
      ]

  at_apart : (id : Str) (r : Task) → is_at id owner r ≡ true → str_eq r.owner_id other ≡ false
  at_apart id r here = rw (str_eq-eq r.owner_id owner (ground arith)) apart

  updates_apart :
      (id title description status : Str) (now : ℕ) (t : Rows)
      → Shows other before t
      → Shows other before (update_task id owner title description status now t).1
  unfolding update_task
  updates_apart id title description status now t h =
      elim (Option-cases (find_by (is_at id owner) t)) [
        | inl missing ↦ rw missing h
        | inr (r, found) ↦ rw found (
            filter_by-update_by (λ r. str_eq r.owner_id other) (is_at id owner)
              (edited title description status now) (λ r e. (at_apart id r e, at_apart id r e)) t
            ∙ h)
      ]

  deletes_apart :
      (id : Str) (now : ℕ) (t : Rows)
      → Shows other before t
      → Shows other before (delete_task id owner now t).1
  unfolding delete_task
  deletes_apart id now t h =
      filter_by-remove_by (λ r. str_eq r.owner_id other) (is_at id owner) (at_apart id) t ∙ h

-- Whatever one owner calls, with whatever identifiers, and whether or not the database fails, the
-- tasks of every other owner are the same before and after, if nobody else changes them.
pub tasks_isolated :
    (id_le : Str → Str → Bool) (c : Call) (other : Str) (s : Session Rows)
    → str_eq (caller c) other ≡ false
    → OthersKeep (λ t. owned other t ≡ owned other s.table) s
    → owned other (perform id_le c s).table ≡ owned other s.table
tasks_isolated id_le c other s apart quiet =
    let before = owned other s.table in
    (perform-Holds (Shows other before) id_le c s
      (record {
        creates = λ id given d now t _ _.
            creates_apart other (caller c) apart before id d.title d.description d.status now t;
        updates = λ id given d now t _ _.
            updates_apart other (caller c) apart before id d.title d.description d.status now t;
        deletes = deletes_apart other (caller c) apart before;
      })
      (record { now = refl; later = quiet })).now
