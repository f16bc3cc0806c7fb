-- ===== src/Task.antt =====
-- internal/modules/task: the service (service.go), its errors and its states (model.go). The table
-- and its statements are in Queries.
pub mod Queries
pub mod Calls
pub mod Isolation
pub mod Invariant
use go_starter_kit.Base.{
  ℕ, Str, Bool, true, false, not, ◌&&◌, ◌||◌, List, [], Option, none, some, codes, str_eq, ◌==◌,
  if◌then◌else◌,
}
use go_starter_kit.AppError.{GoError, AppError, business, plain, not_found, invalid}
use go_starter_kit.Db.{ErrorPolicy, Action, query, pure, fail, mapped, ◌>>=◌}
use go_starter_kit.Validation.{identifier, text_within, required_text}
use go_starter_kit.Identity.{require_subject}
use go_starter_kit.Pagination.{
  err_pagination, Params, Page, validate as validate_page, fetch_limit, build,
}
use go_starter_kit.Task.Queries.{
  Task, Rows, create_task, get_task, list_tasks, update_task, delete_task,
}

abbrev pub err_not_found : AppError
err_not_found = record { address = 50; kind = not_found; message = codes "task not found" }

abbrev pub err_invalid : AppError
err_invalid = record { address = 51; kind = invalid; message = codes "invalid task input" }

-- `Status` is a string; these are its constants.
abbrev pub todo : Str
todo = codes "todo"

abbrev pub in_progress : Str
in_progress = codes "in_progress"

abbrev pub done : Str
done = codes "done"

-- `Status.Valid`
unfoldable pub valid : Str → Bool
valid s = str_eq s todo || str_eq s in_progress || str_eq s done

-- `Record`: what a caller sees of a row.
pub record Item : Type 0 where
  pub id : Str
  pub title : Str
  pub description : Str
  pub status : Str
  pub created_at : ℕ
  pub updated_at : ℕ

pub record Details : Type 0 where
  pub title : Str
  pub description : Str
  pub status : Str

abbrev pub max_title_runes : ℕ
max_title_runes = 200

abbrev pub max_description_runes : ℕ
max_description_runes = 2000

unfoldable pub storage_errors : ErrorPolicy
storage_errors = record {
  resource = codes "task";
  not_found = some err_not_found;
  unique_constraints = [];
}

unfoldable pub from_row : Task → Item
from_row row = record {
  id = row.id;
  title = row.title;
  description = row.description;
  status = row.status;
  created_at = row.created_at;
  updated_at = row.updated_at;
}

-- `validate`: the input with its title trimmed, or none for `ErrInvalid`.
unfoldable pub validate : Details → Option Details
unfolding valid
validate input =
    let (title, good) = required_text input.title max_title_runes in
    if not good
      || not (text_within input.description max_description_runes)
      || not (valid input.status)
    then none
    else some (record input { title = title })

-- The status that an empty one of `Create` stands for.
unfoldable pub defaulted : Details → Details
defaulted input = if str_eq input.status [] then record input { status = todo } else input

-- The entry of each method: an error, or the rest.
abbrev pub guarded : {A : Type 0} → Option GoError → Action Rows A → Action Rows A
guarded none rest = rest
guarded (some e) rest = fail e

abbrev pub check : Bool → Option GoError
check true = none
check false = some (business err_invalid)

abbrev with_details : {A : Type 0} → Option Details → (Details → Action Rows A) → Action Rows A
with_details none rest = fail (business err_invalid)
with_details (some input) rest = rest input

abbrev item_of : Task → Action Rows Item
item_of row = pure (from_row row)

-- `Create`; `id` is the new identifier.
unfoldable pub create : Str → Str → Details → Action Rows Item
unfolding defaulted
create id owner input = guarded (require_subject owner) (
    with_details (validate (defaulted input)) λ d.
      mapped storage_errors
        (query (create_task id owner d.title d.description d.status) >>= item_of))

-- `Get`
unfoldable pub get : Str → Str → Action Rows Item
get owner id = guarded (require_subject owner) (
    guarded (check (identifier id)) (mapped storage_errors (query (get_task id owner) >>= item_of)))

abbrev pub paged : Option (Page Item) → Action Rows (Page Item)
paged none = fail err_pagination
paged (some page) = pure page

abbrev pub page_of : Params → List Task → Action Rows (Page Item)
page_of params rows = paged (build rows params from_row)

-- `List`; `id_le` is the database's order of texts, and an empty status asks for all.
unfoldable pub list : (Str → Str → Bool) → Str → Str → Params → Action Rows (Page Item)
unfolding valid
list id_le owner status params = guarded (require_subject owner) (
    guarded (check ((str_eq status [] || valid status) && validate_page params)) (
      mapped storage_errors
        (query (list_tasks id_le owner status (fetch_limit params) params.offset))
      >>= page_of params))

-- `Update`
unfoldable pub update : Str → Str → Details → Action Rows Item
update owner id input = guarded (require_subject owner) (
    guarded (check (identifier id)) (
      with_details (validate input) λ d.
        mapped storage_errors
          (query (update_task id owner d.title d.description d.status) >>= item_of)))

abbrev found_some : ℕ → Action Rows (Unit {0})
found_some count = if count == 0 then fail (business err_not_found) else pure tt

-- `Delete`
unfoldable pub delete : Str → Str → Action Rows (Unit {0})
delete owner id = guarded (require_subject owner) (
    guarded (check (identifier id))
      (mapped storage_errors (query (delete_task id owner)) >>= found_some))
