-- ===== src/Project/Calls.antt =====
-- The five calls of the service as one type, and what keeps a property of the table true over them.
use go_starter_kit.Base.{
  Str, Bool, true, false, Option, none, some, ◌≡◌, refl, ℕ, if◌then◌else◌, ◌==◌,
}
use go_starter_kit.AppError.{GoError, business}
use go_starter_kit.Validation.{identifier}
use go_starter_kit.Identity.{require_subject}
use go_starter_kit.Pagination.{
  err_pagination, Params, Page, validate as validate_page, fetch_limit, build,
}
use go_starter_kit.Db.{ok, err, Action, Session, fail, pure, query, mapped}
use go_starter_kit.Db.Keeps.{Holds, Keeps, query-Keeps, mapped-Keeps, still-Keeps, bind-Keeps}
use go_starter_kit.Project.Queries.{
  Rows, create_project, get_project, list_projects, update_project, delete_project,
}
use go_starter_kit.Project.{
  Item, create as create_item, get as get_item, list as list_items, update as update_item,
  delete as delete_item, validate, guarded, with_name, check, page_of, paged, storage_errors,
  from_row, err_not_found,
}

-- A call with its caller; the first text of `create` is the new identifier.
pub data Call : Type 0 where
  create : Str → Str → Str → Str → Call
  get : Str → Str → Call
  list : Str → Params → Call
  update : Str → Str → Str → Str → Call
  delete : Str → Str → Call

abbrev pub caller : Call → Str
caller (Call.create id owner name description) = owner
caller (Call.get owner id) = owner
caller (Call.list owner params) = owner
caller (Call.update owner id name description) = owner
caller (Call.delete owner id) = owner

-- The tables behind a call.
unfoldable pub perform : (Str → Str → Bool) → Call → Session Rows → Session Rows
perform id_le (Call.create id owner name description) s =
    (create_item id owner name description s).1
perform id_le (Call.get owner id) s = (get_item owner id s).1
perform id_le (Call.list owner params) s = (list_items id_le owner params s).1
perform id_le (Call.update owner id name description) s =
    (update_item owner id name description s).1
perform id_le (Call.delete owner id) s = (delete_item owner id s).1

module _ {A : Type 0} (P : Rows → Type 0) where
  guarded-Keeps :
      (o : Option GoError) (rest : Action Rows A)
      → (o ≡ none → Keeps P rest)
      → Keeps P (guarded o rest)
  guarded-Keeps none rest k = k refl
  guarded-Keeps (some e) rest k = still-Keeps P (err e)

  with_name-Keeps :
      (o : Option Str) (rest : Str → Action Rows A)
      → ((name : Str) → o ≡ some name → Keeps P (rest name))
      → Keeps P (with_name o rest)
  with_name-Keeps none rest k = still-Keeps P (err _)
  with_name-Keeps (some name) rest k = k name refl

-- A property that the three statements that write keep, for a caller whose input the service has
-- accepted.
pub record IsKept (P : Rows → Type 0) (owner : Str) : Type 0 where
  pub creates :
      (id name given description : Str) (now : ℕ) (t : Rows)
      → require_subject owner ≡ none
      → validate given description ≡ some name
      → P t
      → P (create_project id owner name description now t).1
  pub updates :
      (id name given description : Str) (now : ℕ) (t : Rows)
      → require_subject owner ≡ none
      → validate given description ≡ some name
      → P t
      → P (update_project id owner name description now t).1
  pub deletes : (id : Str) (now : ℕ) (t : Rows) → P t → P (delete_project id owner now t).1

module _ (P : Rows → Type 0) (owner : Str) (k : IsKept P owner) where
  create-Keeps : (id name description : Str) → Keeps P (create_item id owner name description)
  unfolding create_item
  create-Keeps id name description = guarded-Keeps P (require_subject owner) _ λ known.
      with_name-Keeps P (validate name description) _ λ n e. mapped-Keeps P storage_errors _ (
        bind-Keeps P _ _ (query-Keeps P _ λ now t. k.creates id n name description now t known e)
          λ row. still-Keeps P (ok (from_row row)))

  get-Keeps : (id : Str) → Keeps P (get_item owner id)
  unfolding get_item get_project
  get-Keeps id = guarded-Keeps P (require_subject owner) _ λ _.
      guarded-Keeps P (check (identifier id)) _ λ _.
        mapped-Keeps P storage_errors _
          (bind-Keeps P _ _ (query-Keeps P _ λ now t h. h) λ row. still-Keeps P (ok (from_row row)))

  paged-Keeps : (o : Option (Page Item)) → Keeps P (paged o)
  paged-Keeps none = still-Keeps P (err err_pagination)
  paged-Keeps (some page) = still-Keeps P (ok page)

  list-Keeps :
      (id_le : Str → Str → Bool) (params : Params) → Keeps P (list_items id_le owner params)
  unfolding list_items list_projects
  list-Keeps id_le params = guarded-Keeps P (require_subject owner) _ λ _.
      guarded-Keeps P (check (validate_page params)) _ λ _.
        bind-Keeps P
          (mapped storage_errors
            (query (list_projects id_le owner (fetch_limit params) params.offset)))
          (page_of params) (mapped-Keeps P storage_errors _ (query-Keeps P _ λ now t h. h))
          λ rows. paged-Keeps (build rows params from_row)

  update-Keeps : (id name description : Str) → Keeps P (update_item owner id name description)
  unfolding update_item
  update-Keeps id name description = guarded-Keeps P (require_subject owner) _ λ known.
      guarded-Keeps P (check (identifier id)) _ λ _.
        with_name-Keeps P (validate name description) _ λ n e. mapped-Keeps P storage_errors _ (
          bind-Keeps P _ _ (query-Keeps P _ λ now t. k.updates id n name description now t known e)
            λ row. still-Keeps P (ok (from_row row)))

  delete-Keeps : (id : Str) → Keeps P (delete_item owner id)
  unfolding delete_item
  delete-Keeps id = guarded-Keeps P (require_subject owner) _ λ _.
      guarded-Keeps P (check (identifier id)) _ λ _.
        bind-Keeps P _ _ (mapped-Keeps P storage_errors _ (query-Keeps P _ (k.deletes id)))
          λ count. counted (count == 0)
    where
      counted : (b : Bool) → Keeps P (if b then fail (business err_not_found) else pure tt)
      counted true = still-Keeps P (err (business err_not_found))
      counted false = still-Keeps P (ok tt)

-- Every call keeps what the statements of its caller keep, also when the database fails.
pub perform-Holds :
    (P : Rows → Type 0) (id_le : Str → Str → Bool) (c : Call) (s : Session Rows)
    → IsKept P (caller c)
    → Holds P s
    → Holds P (perform id_le c s)
unfolding perform
perform-Holds P id_le (Call.create id owner name description) s k h =
    (create-Keeps P owner k id name description).at s h
perform-Holds P id_le (Call.get owner id) s k h = (get-Keeps P owner k id).at s h
perform-Holds P id_le (Call.list owner params) s k h = (list-Keeps P owner k id_le params).at s h
perform-Holds P id_le (Call.update owner id name description) s k h =
    (update-Keeps P owner k id name description).at s h
perform-Holds P id_le (Call.delete owner id) s k h = (delete-Keeps P owner k id).at s h
