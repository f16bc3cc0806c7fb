-- ===== src/Project/Invariant.antt =====
-- What holds of the table of projects between two statements.
use go_starter_kit.Base.{
  Str, Bool, true, false, none, some, ◌≡◌, refl, [], ◌∷◌, map, All, All-map, map-All, All-zip,
  All-update_by_each, All-update_by, All-remove_by, AreDistinct, remove_by-AreDistinct,
  map-update_by, update_by, remove_by, str_eq, str_eq_comm, str_eq-eq, arith, any_by, none_by,
  find_by, Bool-cases, Option-cases, inl, inr, ℕ, if_cases,
}
use go_starter_kit.Db.{Session}
use go_starter_kit.Db.Keeps.{Holds}
use go_starter_kit.Validation.{text_within, required_text}
use go_starter_kit.Identity.{require_subject}
use go_starter_kit.Project.{validate, max_name_runes, max_description_runes}
use go_starter_kit.Project.Queries.{
  Project, Rows, edited, is_at, is_named, is_rival, create_project, update_project, delete_project,
}
use go_starter_kit.Project.Calls.{Call, caller, perform, perform-Holds}

-- A row that the service could have written.
pub record RowOk (r : Project) : Type 0 where
  pub owned_by : require_subject r.owner_id ≡ none
  pub titled : str_eq r.name [] ≡ false
  pub fits : text_within r.name max_name_runes ≡ true
  pub described : text_within r.description max_description_runes ≡ true

-- No two projects of one owner have one name.
abbrev pub AreNamedApart : Rows → Type 0
AreNamedApart [] = Unit
AreNamedApart (x ∷ xs) = All (λ y. is_named x.owner_id x.name y ≡ false) xs × AreNamedApart xs

pub record IsValid (t : Rows) : Type 0 where
  pub each : All RowOk t
  pub keyed : AreDistinct (map (λ r. r.id) t)
  pub named : AreNamedApart t

validate-some :
    (given description : Str) {name : Str}
    → validate given description ≡ some name
    → (str_eq name [] ≡ false)
      × (text_within name max_name_runes ≡ true)
      × (text_within description max_description_runes ≡ true)
unfolding validate required_text
validate-some given description e = ground arith

create-IsValid :
    (id owner name given description : Str) (now : ℕ) (t : Rows)
    → require_subject owner ≡ none
    → validate given description ≡ some name
    → IsValid t
    → IsValid (create_project id owner name description now t).1
unfolding create_project
create-IsValid id owner name given description now t known e v =
    elim (Bool-cases (any_by (λ r. str_eq r.id id) t)) [
      | inl taken ↦ rw taken v
      | inr fresh ↦ elim (Bool-cases (any_by (is_named owner name) t)) [
        | inl named ↦ rw (fresh, named) v
        | inr unnamed ↦
            let (title, fit, desc) = validate-some given description e in
            rw (fresh, unnamed)
              (record {
                each = (
                  record { owned_by = known; titled = title; fits = fit; described = desc },
                  v.each,
                );
                keyed = (
                  map-All (λ r. r.id) (λ j. str_eq j id ≡ false) t
                      (none_by (λ r. str_eq r.id id) t fresh),
                  v.keyed,
                );
                named = (none_by (is_named owner name) t unnamed, v.named);
              })
      ]
    ]

delete-named : (p : Project → Bool) (t : Rows) → AreNamedApart t → AreNamedApart (remove_by p t)
delete-named p [] h = tt
delete-named p (x ∷ xs) h =
    if_cases AreNamedApart (p x) (λ _. delete-named p xs h.1)
      (λ _.
        (All-remove_by (λ y. is_named x.owner_id x.name y ≡ false) p xs h.0, delete-named p xs h.1))

delete-IsValid :
    (id owner : Str) (now : ℕ) (t : Rows) → IsValid t → IsValid (delete_project id owner now t).1
unfolding delete_project
delete-IsValid id owner now t v = record {
  each = All-remove_by RowOk (is_at id owner) t v.each;
  keyed = remove_by-AreDistinct (λ r. r.id) (is_at id owner) t v.keyed;
  named = delete-named (is_at id owner) t v.named;
}

-- Renaming one row to a name that no other row of the owner has keeps the names apart.
module _ (id owner name description : Str) (now : ℕ) where
  abbrev renamed : Rows → Rows
  renamed = update_by (is_at id owner) (edited name description now)

  row_apart :
      (x y : Project)
      → is_at id owner x ≡ false
      → is_rival id owner name x ≡ false
      → is_at id owner y ≡ true
      → is_named x.owner_id x.name (edited name description now y) ≡ false
  row_apart x y no_at no_rival here =
      let same : y.owner_id ≡ owner = str_eq-eq y.owner_id owner (ground arith) in
      rw same (ground (arith, str_eq_comm x.owner_id owner, str_eq_comm x.name name))

  later_apart :
      (x : Project) (xs : Rows)
      → is_at id owner x ≡ false
      → is_rival id owner name x ≡ false
      → All (λ y. is_named x.owner_id x.name y ≡ false) xs
      → All (λ y. is_named x.owner_id x.name y ≡ false) (renamed xs)
  later_apart x xs no_at no_rival =
      All-update_by (λ y. is_named x.owner_id x.name y ≡ false) (is_at id owner)
        (edited name description now) (λ y here _. row_apart x y no_at no_rival here) xs

  -- The rows behind the renamed one have other identifiers, so that none has the new name.
  behind :
      (x : Project) (xs : Rows)
      → is_at id owner x ≡ true
      → All (λ y. str_eq y.id x.id ≡ false) xs
      → All (λ r. is_rival id owner name r ≡ false) xs
      → All (λ y. is_named x.owner_id name y ≡ false) (renamed xs)
  behind x xs here d free =
      let at_id : x.id ≡ id = str_eq-eq x.id id (ground arith) in
      let mine : x.owner_id ≡ owner = str_eq-eq x.owner_id owner (ground arith) in
      All-update_by_each (λ y. is_named x.owner_id name y ≡ false) (is_at id owner)
        (edited name description now) xs
        (All-zip (λ y. str_eq y.id x.id ≡ false) (λ r. is_rival id owner name r ≡ false)
          (λ y.
            (is_at id owner y ≡ true
              → is_named x.owner_id name (edited name description now y) ≡ false)
            × (is_at id owner y ≡ false → is_named x.owner_id name y ≡ false))
          (λ y ne r.
            (λ at. other_id y (rw at_id at ne) at, λ _. rw mine (unrivalled y (rw at_id at ne) r)))
          xs d free)
    where
      other_id :
          (y : Project)
          → str_eq y.id id ≡ false
          → is_at id owner y ≡ true
          → is_named x.owner_id name (edited name description now y) ≡ false
      other_id y ne at = absurd (ground arith)

      unrivalled :
          (y : Project)
          → str_eq y.id id ≡ false
          → is_rival id owner name y ≡ false
          → is_named owner name y ≡ false
      unrivalled y ne r = ground arith

  update-named :
      (t : Rows)
      → AreDistinct (map (λ r. r.id) t)
      → All (λ r. is_rival id owner name r ≡ false) t
      → AreNamedApart t
      → AreNamedApart (renamed t)
  update-named [] d free h = tt
  update-named (x ∷ xs) d free h = elim (Bool-cases (is_at id owner x)) [
    | inl here ↦ rw here (
      behind x xs here (All-map (λ r. r.id) (λ j. str_eq j x.id ≡ false) xs d.0) free.1,
      update-named xs d.1 free.1 h.1,
    )
    | inr other ↦ rw other (later_apart x xs other free.0 h.0, update-named xs d.1 free.1 h.1)
  ]

update-IsValid :
    (id owner name given description : Str) (now : ℕ) (t : Rows)
    → require_subject owner ≡ none
    → validate given description ≡ some name
    → IsValid t
    → IsValid (update_project id owner name description now t).1
unfolding update_project
update-IsValid id owner name given description now t known e v =
    elim (Option-cases (find_by (is_at id owner) t)) [
      | inl missing ↦ rw missing v
      | inr (r, found) ↦ elim (Bool-cases (any_by (is_rival id owner name) t)) [
        | inl rival ↦ rw (found, rival) v
        | inr free ↦
            let (title, fit, desc) = validate-some given description e in
            rw (found, free)
              (record {
                each =
                    All-update_by RowOk (is_at id owner) (edited name description now)
                      (λ x _ okay. record {
                        owned_by = okay.owned_by;
                        titled = title;
                        fits = fit;
                        described = desc;
                      })
                      t v.each;
                keyed =
                    rw
                      (map-update_by (λ r. r.id) (is_at id owner) (edited name description now)
                        (λ _. refl) t)
                      v.keyed;
                named =
                    update-named id owner name description now t v.keyed
                      (none_by (is_rival id owner name) t free) v.named;
              })
      ]
    ]

-- Every call, with any input and also when the database fails, leaves a table in which each project
-- has an owner that is a proper subject, a name that is not empty and fits, and a description that
-- fits, and in which no identifier and no owner's project name stands twice, if it was so before
-- and the others keep it so.
pub perform-IsValid :
    (id_le : Str → Str → Bool) (c : Call) (s : Session Rows)
    → Holds IsValid s
    → Holds IsValid (perform id_le c s)
perform-IsValid id_le c s = perform-Holds IsValid id_le c s (record {
  creates =
      λ id name given description now t. create-IsValid id (caller c) name given description now t;
  updates =
      λ id name given description now t. update-IsValid id (caller c) name given description now t;
  deletes = λ id now t. delete-IsValid id (caller c) now t;
})
