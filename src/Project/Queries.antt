-- ===== src/Project/Queries.antt =====
-- internal/db/sqlc/projects.sql.go: the statements on the table projects, with its two unique
-- constraints.
use go_starter_kit.Base.{
  ℕ, ℤ, pos_part, Str, Bool, not, ◌&&◌, ◌||◌, List, ◌∷◌, Option, none, some, codes, str_eq, ltb,
  ◌==◌, filter_by, find_by, any_by, count_by, update_by, remove_by, sort_by, take, drop,
  if◌then◌else◌,
}
use go_starter_kit.AppError.{pg, no_rows}
use go_starter_kit.Db.{Result, ok, err, Statement, unique_violation}

-- `Project` of the generated models.
pub record Project : Type 0 where
  pub id : Str
  pub owner_id : Str
  pub name : Str
  pub description : Str
  pub created_at : ℕ
  pub updated_at : ℕ

abbrev pub Rows : Type 0
Rows = List Project

abbrev pub owner_name_key : Str
owner_name_key = codes "projects_owner_name_key"

abbrev pub primary_key : Str
primary_key = codes "projects_pkey"

abbrev pub is_named : Str → Str → Project → Bool
is_named owner name r = str_eq r.owner_id owner && str_eq r.name name

-- WHERE id = $1 AND owner_id = $2
abbrev pub is_at : Str → Str → Project → Bool
is_at id owner r = str_eq r.id id && str_eq r.owner_id owner

abbrev pub created : Str → Str → Str → Str → ℕ → Project
created id owner name description now = record {
  id = id;
  owner_id = owner;
  name = name;
  description = description;
  created_at = now;
  updated_at = now;
}

-- CreateProject
unfoldable pub create_project : Str → Str → Str → Str → Statement Rows Project
create_project id owner name description now rows =
    if any_by (λ r. str_eq r.id id) rows
    then (err (pg unique_violation primary_key), rows)
    else if any_by (is_named owner name) rows
    then (err (pg unique_violation owner_name_key), rows)
    else (ok (created id owner name description now), created id owner name description now ∷ rows)

abbrev pub one_row : Option Project → Result Project
one_row none = err no_rows
one_row (some r) = ok r

-- GetProject
unfoldable pub get_project : Str → Str → Statement Rows Project
get_project id owner now rows = (one_row (find_by (is_at id owner) rows), rows)

-- ORDER BY created_at DESC, id DESC
abbrev pub newest_first : (Str → Str → Bool) → Project → Project → Bool
newest_first id_le a b =
    ltb b.created_at a.created_at || (a.created_at == b.created_at && id_le b.id a.id)

abbrev pub owned : Str → Rows → Rows
owned owner rows = filter_by (λ r. str_eq r.owner_id owner) rows

-- ListProjects
unfoldable pub list_projects : (Str → Str → Bool) → Str → ℤ → ℤ → Statement Rows (List Project)
list_projects id_le owner limit offset now rows = (
  ok (
      take (pos_part limit)
        (drop (pos_part offset) (sort_by (newest_first id_le) (owned owner rows)))),
  rows,
)

abbrev pub edited : Str → Str → ℕ → Project → Project
edited name description now r = record r {
  name = name;
  description = description;
  updated_at = now;
}

-- Another row of the owner has the name.
abbrev pub is_rival : Str → Str → Str → Project → Bool
is_rival id owner name r = not (str_eq r.id id) && is_named owner name r

abbrev update_row : Str → Str → Str → Str → ℕ → Rows → Option Project → Result Project × Rows
update_row id owner name description now rows none = (err no_rows, rows)
update_row id owner name description now rows (some r) =
    if any_by (is_rival id owner name) rows
    then (err (pg unique_violation owner_name_key), rows)
    else (
      ok (edited name description now r),
      update_by (is_at id owner) (edited name description now) rows,
    )

-- UpdateProject
unfoldable pub update_project : Str → Str → Str → Str → Statement Rows Project
update_project id owner name description now rows =
    update_row id owner name description now rows (find_by (is_at id owner) rows)

-- DeleteProject
unfoldable pub delete_project : Str → Str → Statement Rows ℕ
delete_project id owner now rows =
    (ok (count_by (is_at id owner) rows), remove_by (is_at id owner) rows)
