-- ===== src/Project.antt =====
-- internal/modules/project: the service (service.go) and its errors (model.go). The table and its
-- statements are in Queries.
pub mod Queries
pub mod Calls
pub mod Isolation
pub mod Invariant
pub mod Laws
use go_starter_kit.Base.{
  ℕ, ℤ, Str, Bool, true, false, not, ◌&&◌, ◌||◌, List, [], ◌∷◌, Option, none, some, codes, ◌==◌,
  if◌then◌else◌,
}
use go_starter_kit.AppError.{GoError, AppError, business, plain, not_found, conflict, invalid}
use go_starter_kit.Db.{
  Result, ok, err, ErrorPolicy, Action, Session, query, pure, fail, mapped, ◌>>=◌,
}
use go_starter_kit.Validation.{identifier, text_within, required_text}
use go_starter_kit.Identity.{require_subject}
use go_starter_kit.Pagination.{
  err_pagination, Params, Page, validate as validate_page, fetch_limit, build,
}
use go_starter_kit.Project.Queries.{
  Project, Rows, create_project, get_project, list_projects, update_project, delete_project,
  owner_name_key,
}

abbrev pub err_not_found : AppError
err_not_found = record { address = 30; kind = not_found; message = codes "project not found" }

abbrev pub err_conflict : AppError
err_conflict = record {
  address = 31;
  kind = conflict;
  message = codes "a project with this name already exists";
}

abbrev pub err_invalid : AppError
err_invalid = record { address = 32; kind = invalid; message = codes "invalid project input" }

-- `Record`: what a caller sees of a row.
pub record Item : Type 0 where
  pub id : Str
  pub name : Str
  pub description : Str
  pub created_at : ℕ
  pub updated_at : ℕ

abbrev pub max_name_runes : ℕ
max_name_runes = 100

abbrev pub max_description_runes : ℕ
max_description_runes = 2000

unfoldable pub storage_errors : ErrorPolicy
storage_errors = record {
  resource = codes "project";
  not_found = some err_not_found;
  unique_constraints = (owner_name_key, err_conflict) ∷ [];
}

unfoldable pub from_row : Project → Item
from_row row = record {
  id = row.id;
  name = row.name;
  description = row.description;
  created_at = row.created_at;
  updated_at = row.updated_at;
}

-- `validate`: the trimmed name, or none for `ErrInvalid`.
unfoldable pub validate : Str → Str → Option Str
validate name description =
    let (trimmed, valid) = required_text name max_name_runes in
    if not valid || not (text_within description max_description_runes) then none else some trimmed

-- The entry of each method: an error, or the rest.
abbrev pub guarded : {A : Type 0} → Option GoError → Action Rows A → Action Rows A
guarded none rest = rest
guarded (some e) rest = fail e

abbrev pub check : Bool → Option GoError
check true = none
check false = some (business err_invalid)

abbrev with_name : {A : Type 0} → Option Str → (Str → Action Rows A) → Action Rows A
with_name none rest = fail (business err_invalid)
with_name (some name) rest = rest name

abbrev item_of : Project → Action Rows Item
item_of row = pure (from_row row)

-- `Create`; `id` is the new identifier.
unfoldable pub create : Str → Str → Str → Str → Action Rows Item
create id owner name description = guarded (require_subject owner) (
    with_name (validate name description) λ trimmed.
      mapped storage_errors (query (create_project id owner trimmed description) >>= item_of))

-- `Get`
unfoldable pub get : Str → Str → Action Rows Item
get owner id = guarded (require_subject owner) (
    guarded (check (identifier id))
      (mapped storage_errors (query (get_project id owner) >>= item_of)))

abbrev pub paged : Option (Page Item) → Action Rows (Page Item)
paged none = fail err_pagination
paged (some page) = pure page

abbrev pub page_of : Params → List Project → Action Rows (Page Item)
page_of params rows = paged (build rows params from_row)

-- `List`; `id_le` is the database's order of texts.
unfoldable pub list : (Str → Str → Bool) → Str → Params → Action Rows (Page Item)
list id_le owner params = guarded (require_subject owner) (
    guarded (check (validate_page params)) (
      mapped storage_errors (query (list_projects id_le owner (fetch_limit params) params.offset))
      >>= page_of params))

-- `Update`
unfoldable pub update : Str → Str → Str → Str → Action Rows Item
update owner id name description = guarded (require_subject owner) (
    guarded (check (identifier id)) (
      with_name (validate name description) λ trimmed.
        mapped storage_errors (query (update_project id owner trimmed description) >>= item_of)))

abbrev found_some : ℕ → Action Rows (Unit {0})
found_some count = if count == 0 then fail (business err_not_found) else pure tt

-- `Delete`
unfoldable pub delete : Str → Str → Action Rows (Unit {0})
delete owner id = guarded (require_subject owner) (
    guarded (check (identifier id))
      (mapped storage_errors (query (delete_project id owner)) >>= found_some))
