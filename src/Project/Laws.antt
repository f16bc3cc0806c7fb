-- ===== src/Project/Laws.antt =====
-- What the calls of the service return, one after the other.
use go_starter_kit.Base.{
  Str, Bool, true, false, none, some, ◌≡◌, refl, str_eq, str_eq_refl, arith, any_by, inl, inr, ℕ,
  sort_by, ap, ◌∙◌, List, [], ◌∷◌, All, All-mono, ◌<◌, ◌⊎◌, ltb, Bool-cases, filter_by, IsSorted,
  sort_by-IsSorted, perm-sort_by,
}
use mathlib.Core.List.{Perm}
use go_starter_kit.AppError.{business, joined, pg}
use go_starter_kit.Db.{ok, err, Session, query, unique_violation}
use go_starter_kit.Db.Rest.{at_rest, mapped_err}
use go_starter_kit.Db.Mapping.{map_error_unique}
use go_starter_kit.Validation.{identifier}
use go_starter_kit.Identity.{require_subject}
use go_starter_kit.Pagination.{Params, Page, validate as validate_page}
use go_starter_kit.Pagination.Pages.{build-window, window_page}
use go_starter_kit.Project.{
  Item, item_of, create, get, list, validate, from_row, err_conflict, storage_errors,
}
use go_starter_kit.Project.Queries.{
  Project, Rows, is_named, owned, newest_first, owner_name_key, create_project, get_project,
  list_projects,
}

-- On a database where nothing else happens: a project that was created under a proper identifier
-- is found under it, as it was returned.
pub get-create :
    (id owner name description : Str) (now : ℕ) (t : Rows) {item : Item} {s : Session Rows}
    → identifier id ≡ true
    → create id owner name description (at_rest t now) ≡ (ok item, s)
    → get owner id s ≡ (ok item, s)
unfolding create create_project get get_project query
get-create id owner name description now t known e =
    ground (arith, str_eq_refl id, str_eq_refl owner)

refused :
    (id owner name description : Str) (now : ℕ) (t : Rows)
    → any_by (λ r. str_eq r.id id) t ≡ false
    → any_by (is_named owner name) t ≡ true
    → create_project id owner name description now t ≡ (err (pg unique_violation owner_name_key), t)
unfolding create_project
refused id owner name description now t fresh taken = rw (fresh, taken) refl

-- On a database where nothing else happens: a name that the caller already uses is refused with
-- the service's conflict error, whose cause is the violated unique constraint, and nothing is
-- stored, if the input is valid and the new identifier is a fresh one.
pub create_duplicate :
    (id owner given description name : Str) (now : ℕ) (t : Rows)
    → require_subject owner ≡ none
    → validate given description ≡ some name
    → any_by (λ r. str_eq r.id id) t ≡ false
    → any_by (is_named owner name) t ≡ true
    → create id owner given description (at_rest t now)
      ≡ (err (joined (business err_conflict) (pg unique_violation owner_name_key)), at_rest t now)
unfolding create storage_errors
create_duplicate id owner given description name now t known e fresh taken =
    let named = map_error_unique storage_errors err_conflict owner_name_key refl in
    rw (known, e)
      (mapped_err storage_errors (create_project id owner name description) item_of now t
          (pg unique_violation owner_name_key) (refused id owner name description now t fresh taken)
        ∙ ap (λ x. (err x, at_rest t now)) named)

-- An order of texts.
pub record IsOrder (id_le : Str → Str → Bool) : Type 0 where
  pub total : (a b : Str) → id_le a b ≡ false → id_le b a ≡ true
  pub transitive : (a b c : Str) → id_le a b ≡ true → id_le b c ≡ true → id_le a c ≡ true

-- The first project is the newer one, or as old and not before the second by its identifier.
abbrev pub IsBefore : (Str → Str → Bool) → Project → Project → Type 0
IsBefore id_le a b =
    (b.created_at < a.created_at) ⊎ ((a.created_at ≡ b.created_at) × (id_le b.id a.id ≡ true))

-- From the newest project to the oldest one
abbrev pub AreNewestFirst : (Str → Str → Bool) → List Project → Type 0
AreNewestFirst id_le [] = Unit {0}
AreNewestFirst id_le (r ∷ rest) = All (IsBefore id_le r) rest × AreNewestFirst id_le rest

module _ (id_le : Str → Str → Bool) where
  newest_first-IsBefore : (a b : Project) → newest_first id_le a b ≡ true → IsBefore id_le a b
  newest_first-IsBefore a b h = elim (Bool-cases (ltb b.created_at a.created_at)) [
    | inl newer ↦ inl (ground arith)
    | inr not_newer ↦ inr (ground arith, ground arith)
  ]

  AreNewestFirst-sorted :
      (rows : List Project) → IsSorted (newest_first id_le) rows → AreNewestFirst id_le rows
  AreNewestFirst-sorted [] h = tt
  AreNewestFirst-sorted (r ∷ rest) h = (
    All-mono (λ x. newest_first id_le r x ≡ true) (IsBefore id_le r)
        (λ x. newest_first-IsBefore r x) rest h.0,
    AreNewestFirst-sorted rest h.1,
  )

  module _ (order : IsOrder id_le) where
    newest_first_total :
        (a b : Project) → newest_first id_le a b ≡ false → newest_first id_le b a ≡ true
    newest_first_total a b h = elim (Bool-cases (id_le b.id a.id)) [
      | inl le ↦ ground arith
      | inr other ↦ ground (arith, order.total b.id a.id other)
    ]

    newest_first_trans :
        (a b c : Project)
        → newest_first id_le a b ≡ true
        → newest_first id_le b c ≡ true
        → newest_first id_le a c ≡ true
    newest_first_trans a b c h k = elim (Bool-cases (id_le c.id b.id)) [
      | inl le ↦ elim (Bool-cases (id_le b.id a.id)) [
        | inl le' ↦ ground (arith, order.transitive c.id b.id a.id le le')
        | inr other ↦ ground arith
      ]
      | inr other ↦ ground arith
    ]

-- What listing amounts to: all projects of the caller, and no others, each once, from the newest to the
-- oldest, of which the page shows its window.
pub record IsListed (id_le : Str → Str → Bool) (owner : Str) (params : Params) (t : Rows)
    (page : Page Item) : Type 0 where
  pub all : List Project
  pub whole : Perm all (filter_by (λ (r : Project). str_eq r.owner_id owner) t)
  pub ordered : AreNewestFirst id_le all
  pub shown : page ≡ window_page all from_row params

-- On a database where nothing else happens: listing for a proper subject with valid parameters gives the
-- page that the window stands for, of all the projects of the caller and of no others, from the newest to
-- the oldest and equally old ones by their identifiers, if the database orders texts; and it changes
-- nothing.
pub list_window :
    (id_le : Str → Str → Bool) (owner : Str) (params : Params) (now : ℕ) (t : Rows)
    → IsOrder id_le
    → require_subject owner ≡ none
    → validate_page params ≡ true
    → (page : Page Item) × (list id_le owner params (at_rest t now) ≡ (ok page, at_rest t now))
      × IsListed id_le owner params t page
unfolding list list_projects query
list_window id_le owner params now t order known good =
    let all = sort_by (newest_first id_le) (owned owner t) in
    (
      window_page all from_row params,
      rw (known, good, build-window all from_row params good) refl,
      record {
        all = all;
        whole = perm-sort_by (newest_first id_le) (owned owner t);
        ordered = AreNewestFirst-sorted id_le all (
            sort_by-IsSorted (newest_first id_le) (newest_first_total id_le order)
              (newest_first_trans id_le order) (owned owner t));
        shown = refl;
      },
    )
