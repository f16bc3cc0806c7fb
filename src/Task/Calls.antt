-- ===== src/Task/Calls.antt =====
-- The five calls of the service as one type, and what keeps a property of the table true over them.
use go_starter_kit.Base.{
  Str, Bool, true, false, Option, none, some, ◌≡◌, refl, ℕ, ◌==◌, if◌then◌else◌,
}
use go_starter_kit.AppError.{GoError, business}
use go_starter_kit.Validation.{identifier}
use go_starter_kit.Identity.{require_subject}
use go_starter_kit.Pagination.{err_pagination, Params, Page, fetch_limit, build}
use go_starter_kit.Db.{ok, err, Action, Session, fail, pure, query, mapped}
use go_starter_kit.Db.Keeps.{Holds, Keeps, query-Keeps, mapped-Keeps, still-Keeps, bind-Keeps}
use go_starter_kit.Task.Queries.{Rows, create_task, get_task, list_tasks, update_task, delete_task}
use go_starter_kit.Task.{
  Item, Details, create as create_item, get as get_item, list as list_items, update as update_item,
  delete as delete_item, validate, defaulted, guarded, with_details, check, page_of, paged,
  storage_errors, from_row, err_not_found,
}

-- A call with its caller; the first text of `create` is the new identifier.
pub data Call : Type 0 where
  create : Str → Str → Details → Call
  get : Str → Str → Call
  list : Str → Str → Params → Call
  update : Str → Str → Details → Call
  delete : Str → Str → Call

abbrev pub caller : Call → Str
caller (Call.create id owner input) = owner
caller (Call.get owner id) = owner
caller (Call.list owner status params) = owner
caller (Call.update owner id input) = owner
caller (Call.delete owner id) = owner

-- The tables behind a call.
unfoldable pub perform : (Str → Str → Bool) → Call → Session Rows → Session Rows
perform id_le (Call.create id owner input) s = (create_item id owner input s).1
perform id_le (Call.get owner id) s = (get_item owner id s).1
perform id_le (Call.list owner status params) s = (list_items id_le owner status params s).1
perform id_le (Call.update owner id input) s = (update_item owner id input s).1
perform id_le (Call.delete owner id) s = (delete_item owner id s).1

module _ {A : Type 0} (P : Rows → Type 0) where
  guarded-Keeps :
      (o : Option GoError) (rest : Action Rows A)
      → (o ≡ none → Keeps P rest)
      → Keeps P (guarded o rest)
  guarded-Keeps none rest k = k refl
  guarded-Keeps (some e) rest k = still-Keeps P (err e)

  with_details-Keeps :
      (o : Option Details) (rest : Details → Action Rows A)
      → ((d : Details) → o ≡ some d → Keeps P (rest d))
      → Keeps P (with_details o rest)
  with_details-Keeps none rest k = still-Keeps P (err _)
  with_details-Keeps (some d) rest k = k d refl

-- A property that the three statements that write keep, for a caller whose input the service has
-- accepted.
pub record IsKept (P : Rows → Type 0) (owner : Str) : Type 0 where
  pub creates :
      (id : Str) (given d : Details) (now : ℕ) (t : Rows)
      → require_subject owner ≡ none
      → validate given ≡ some d
      → P t
      → P (create_task id owner d.title d.description d.status now t).1
  pub updates :
      (id : Str) (given d : Details) (now : ℕ) (t : Rows)
      → require_subject owner ≡ none
      → validate given ≡ some d
      → P t
      → P (update_task id owner d.title d.description d.status now t).1
  pub deletes : (id : Str) (now : ℕ) (t : Rows) → P t → P (delete_task id owner now t).1

module _ (P : Rows → Type 0) (owner : Str) (k : IsKept P owner) where
  create-Keeps : (id : Str) (input : Details) → Keeps P (create_item id owner input)
  unfolding create_item
  create-Keeps id input = guarded-Keeps P (require_subject owner) _ λ known.
      with_details-Keeps P (validate (defaulted input)) _ λ d e. mapped-Keeps P storage_errors _ (
        bind-Keeps P _ _ (query-Keeps P _ λ now t. k.creates id (defaulted input) d now t known e)
          λ row. still-Keeps P (ok (from_row row)))

  get-Keeps : (id : Str) → Keeps P (get_item owner id)
  unfolding get_item get_task
  get-Keeps id = guarded-Keeps P (require_subject owner) _ λ _.
      guarded-Keeps P (check (identifier id)) _ λ _.
        mapped-Keeps P storage_errors _
          (bind-Keeps P _ _ (query-Keeps P _ λ now t h. h) λ row. still-Keeps P (ok (from_row row)))

  paged-Keeps : (o : Option (Page Item)) → Keeps P (paged o)
  paged-Keeps none = still-Keeps P (err err_pagination)
  paged-Keeps (some page) = still-Keeps P (ok page)

  list-Keeps :
      (id_le : Str → Str → Bool) (status : Str) (params : Params)
      → Keeps P (list_items id_le owner status params)
  unfolding list_items list_tasks
  list-Keeps id_le status params = guarded-Keeps P (require_subject owner) _ λ _.
      guarded-Keeps P (check _) _ λ _.
        bind-Keeps P
          (mapped storage_errors
            (query (list_tasks id_le owner status (fetch_limit params) params.offset)))
          (page_of params) (mapped-Keeps P storage_errors _ (query-Keeps P _ λ now t h. h))
          λ rows. paged-Keeps (build rows params from_row)

  update-Keeps : (id : Str) (input : Details) → Keeps P (update_item owner id input)
  unfolding update_item
  update-Keeps id input = guarded-Keeps P (require_subject owner) _ λ known.
      guarded-Keeps P (check (identifier id)) _ λ _. with_details-Keeps P (validate input) _ λ d e.
        mapped-Keeps P storage_errors _ (
          bind-Keeps P _ _ (query-Keeps P _ λ now t. k.updates id input d now t known e)
            λ row. still-Keeps P (ok (from_row row)))

  delete-Keeps : (id : Str) → Keeps P (delete_item owner id)
  unfolding delete_item
  delete-Keeps id = guarded-Keeps P (require_subject owner) _ λ _.
      guarded-Keeps P (check (identifier id)) _ λ _.
        bind-Keeps P _ _ (mapped-Keeps P storage_errors _ (query-Keeps P _ (k.deletes id)))
          λ count. counted (count == 0)
    where
      counted : (b : Bool) → Keeps P (if b then fail (business err_not_found) else pure tt)
      counted true = still-Keeps P (err (business err_not_found))
      counted false = still-Keeps P (ok tt)

-- Every call keeps what the statements of its caller keep, also when the database fails.
pub perform-Holds :
    (P : Rows → Type 0) (id_le : Str → Str → Bool) (c : Call) (s : Session Rows)
    → IsKept P (caller c)
    → Holds P s
    → Holds P (perform id_le c s)
unfolding perform
perform-Holds P id_le (Call.create id owner input) s k h = (create-Keeps P owner k id input).at s h
perform-Holds P id_le (Call.get owner id) s k h = (get-Keeps P owner k id).at s h
perform-Holds P id_le (Call.list owner status params) s k h =
    (list-Keeps P owner k id_le status params).at s h
perform-Holds P id_le (Call.update owner id input) s k h = (update-Keeps P owner k id input).at s h
perform-Holds P id_le (Call.delete owner id) s k h = (delete-Keeps P owner k id).at s h
