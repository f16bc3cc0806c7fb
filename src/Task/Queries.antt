-- ===== src/Task/Queries.antt =====
-- internal/db/sqlc/tasks.sql.go: the statements on the table tasks.
use go_starter_kit.Base.{
  ℕ, ℤ, pos_part, Str, Bool, ◌&&◌, ◌||◌, List, [], ◌∷◌, Option, none, some, codes, str_eq, ltb,
  ◌==◌, filter_by, find_by, any_by, count_by, update_by, remove_by, sort_by, take, drop,
  if◌then◌else◌,
}
use go_starter_kit.AppError.{pg, no_rows}
use go_starter_kit.Db.{Result, ok, err, Statement, unique_violation}

-- `Task` of the generated models.
pub record Task : Type 0 where
  pub id : Str
  pub owner_id : Str
  pub title : Str
  pub description : Str
  pub status : Str
  pub created_at : ℕ
  pub updated_at : ℕ

abbrev pub Rows : Type 0
Rows = List Task

abbrev pub primary_key : Str
primary_key = codes "tasks_pkey"

-- WHERE id = $1 AND owner_id = $2
abbrev pub is_at : Str → Str → Task → Bool
is_at id owner r = str_eq r.id id && str_eq r.owner_id owner

abbrev pub created : Str → Str → Str → Str → Str → ℕ → Task
created id owner title description status now = record {
  id = id;
  owner_id = owner;
  title = title;
  description = description;
  status = status;
  created_at = now;
  updated_at = now;
}

-- CreateTask
unfoldable pub create_task : Str → Str → Str → Str → Str → Statement Rows Task
create_task id owner title description status now rows =
    if any_by (λ r. str_eq r.id id) rows then (err (pg unique_violation primary_key), rows) else (
      ok (created id owner title description status now),
      created id owner title description status now ∷ rows,
    )

abbrev pub one_row : Option Task → Result Task
one_row none = err no_rows
one_row (some r) = ok r

-- GetTask
unfoldable pub get_task : Str → Str → Statement Rows Task
get_task id owner now rows = (one_row (find_by (is_at id owner) rows), rows)

-- ORDER BY created_at DESC, id DESC
abbrev pub newest_first : (Str → Str → Bool) → Task → Task → Bool
newest_first id_le a b =
    ltb b.created_at a.created_at || (a.created_at == b.created_at && id_le b.id a.id)

abbrev pub owned : Str → Rows → Rows
owned owner rows = filter_by (λ r. str_eq r.owner_id owner) rows

-- WHERE owner_id = $1 AND ($2::text = '' OR status = $2::text)
unfoldable pub listed : Str → Str → Task → Bool
listed owner status r = str_eq r.owner_id owner && (str_eq status [] || str_eq r.status status)

-- ListTasks
unfoldable pub list_tasks : (Str → Str → Bool) → Str → Str → ℤ → ℤ → Statement Rows (List Task)
unfolding listed
list_tasks id_le owner status limit offset now rows = (
  ok (
      take (pos_part limit) (
        drop (pos_part offset)
          (sort_by (newest_first id_le) (filter_by (listed owner status) rows)))),
  rows,
)

abbrev pub edited : Str → Str → Str → ℕ → Task → Task
edited title description status now r = record r {
  title = title;
  description = description;
  status = status;
  updated_at = now;
}

abbrev update_row : Str → Str → Str → Str → Str → ℕ → Rows → Option Task → Result Task × Rows
update_row id owner title description status now rows none = (err no_rows, rows)
update_row id owner title description status now rows (some r) = (
  ok (edited title description status now r),
  update_by (is_at id owner) (edited title description status now) rows,
)

-- UpdateTask
unfoldable pub update_task : Str → Str → Str → Str → Str → Statement Rows Task
update_task id owner title description status now rows =
    update_row id owner title description status now rows (find_by (is_at id owner) rows)

-- DeleteTask
unfoldable pub delete_task : Str → Str → Statement Rows ℕ
delete_task id owner now rows =
    (ok (count_by (is_at id owner) rows), remove_by (is_at id owner) rows)
