-- ===== src/Task/Invariant.antt =====
-- What holds of the table of tasks between two statements.
use go_starter_kit.Base.{
  Str, Bool, true, false, none, some, ◌≡◌, refl, [], map, All, map-All, All-update_by,
  All-remove_by, AreDistinct, remove_by-AreDistinct, map-update_by, none_by, str_eq, arith, any_by,
  find_by, Bool-cases, Option-cases, inl, inr, ℕ,
}
use go_starter_kit.Db.{Session}
use go_starter_kit.Db.Keeps.{Holds}
use go_starter_kit.Validation.{text_within, required_text}
use go_starter_kit.Identity.{require_subject}
use go_starter_kit.Task.{Details, valid, validate, max_title_runes, max_description_runes}
use go_starter_kit.Task.Queries.{Task, Rows, edited, is_at, create_task, update_task, delete_task}
use go_starter_kit.Task.Calls.{Call, caller, perform, perform-Holds}

-- A row that the service could have written.
pub record RowOk (r : Task) : Type 0 where
  pub owned_by : require_subject r.owner_id ≡ none
  pub titled : str_eq r.title [] ≡ false
  pub fits : text_within r.title max_title_runes ≡ true
  pub described : text_within r.description max_description_runes ≡ true
  pub known : valid r.status ≡ true

pub record IsValid (t : Rows) : Type 0 where
  pub each : All RowOk t
  pub keyed : AreDistinct (map (λ r. r.id) t)

validate-some :
    (given d : Details)
    → validate given ≡ some d
    → (str_eq d.title [] ≡ false)
      × (text_within d.title max_title_runes ≡ true)
      × (text_within d.description max_description_runes ≡ true)
      × (valid d.status ≡ true)
unfolding validate required_text
validate-some given d e = ground arith

module _ (owner : Str) (known : require_subject owner ≡ none) (given d : Details)
    (e : validate given ≡ some d) where
  create-IsValid :
      (id : Str) (now : ℕ) (t : Rows)
      → IsValid t
      → IsValid (create_task id owner d.title d.description d.status now t).1
  unfolding create_task
  create-IsValid id now t v = elim (Bool-cases (any_by (λ r. str_eq r.id id) t)) [
    | inl taken ↦ rw taken v
    | inr fresh ↦
        let (title, fit, desc, state) = validate-some given d e in
        rw fresh (record {
          each = (
            record {
              owned_by = known;
              titled = title;
              fits = fit;
              described = desc;
              known = state;
            },
            v.each,
          );
          keyed = (
            map-All (λ r. r.id) (λ j. str_eq j id ≡ false) t
                (none_by (λ r. str_eq r.id id) t fresh),
            v.keyed,
          );
        })
  ]

  update-IsValid :
      (id : Str) (now : ℕ) (t : Rows)
      → IsValid t
      → IsValid (update_task id owner d.title d.description d.status now t).1
  unfolding update_task
  update-IsValid id now t v = elim (Option-cases (find_by (is_at id owner) t)) [
    | inl missing ↦ rw missing v
    | inr (r, found) ↦
        let (title, fit, desc, state) = validate-some given d e in
        let edit = edited d.title d.description d.status now in
        rw found (record {
          each =
              All-update_by RowOk (is_at id owner) edit
                (λ x _ okay. record {
                  owned_by = okay.owned_by;
                  titled = title;
                  fits = fit;
                  described = desc;
                  known = state;
                })
                t v.each;
          keyed = rw (map-update_by (λ r. r.id) (is_at id owner) edit (λ _. refl) t) v.keyed;
        })
  ]

delete-IsValid :
    (id owner : Str) (now : ℕ) (t : Rows) → IsValid t → IsValid (delete_task id owner now t).1
unfolding delete_task
delete-IsValid id owner now t v = record {
  each = All-remove_by RowOk (is_at id owner) t v.each;
  keyed = remove_by-AreDistinct (λ r. r.id) (is_at id owner) t v.keyed;
}

-- Every call, with any input and also when the database fails, leaves a table in which each task has
-- an owner that is a proper subject, a title that is not empty and fits, a description that fits and
-- one of the three states, and in which no identifier stands twice, if it was so before and the
-- others keep it so.
pub tasks-IsValid :
    (id_le : Str → Str → Bool) (c : Call) (s : Session Rows)
    → Holds IsValid s
    → Holds IsValid (perform id_le c s)
tasks-IsValid id_le c s = perform-Holds IsValid id_le c s (record {
  creates = λ id given d now t known e. create-IsValid (caller c) known given d e id now t;
  updates = λ id given d now t known e. update-IsValid (caller c) known given d e id now t;
  deletes = λ id now t. delete-IsValid id (caller c) now t;
})
