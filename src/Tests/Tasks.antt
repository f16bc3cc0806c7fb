-- ===== src/Tests/Tasks.antt =====
-- The service of tasks on small tables.
use go_starter_kit.Base.{pos, Str, Bool, true, [], ◌∷◌, codes, ◌≡◌, refl}
use go_starter_kit.AppError.{canceled}
use go_starter_kit.Db.{Session, refused, query}
use go_starter_kit.Db.Keeps.{Holds}
use go_starter_kit.Db.Rest.{at_rest}
use go_starter_kit.Validation.{
  identifier, text_within, required_text, valid_string, rune_count, trim_space, trim_left,
  trim_right, runes, decode_rune, is_space,
}
use go_starter_kit.Identity.{require_subject, validate_subject}
use go_starter_kit.Pagination.{Params}
use go_starter_kit.Task.{Details, create, valid, validate, defaulted, todo, done}
use go_starter_kit.Task.Queries.{Task, Rows, created, edited, owned, create_task}
use go_starter_kit.Task.Calls.{create as create_call, update as update_call, perform}
use go_starter_kit.Task.Isolation.{tasks_isolated}
use go_starter_kit.Task.Invariant.{IsValid, tasks-IsValid}

abbrev alice : Str
alice = codes "alice"

abbrev bob : Str
bob = codes "bob"

abbrev input : Details
input = record { title = codes " Read"; description = []; status = [] }

abbrev finished : Details
finished = record { title = codes "Read"; description = []; status = done }

abbrev task : Task
task = created (codes "t1") alice (codes "Read") [] todo 5

abbrev done_task : Task
done_task = edited (codes "Read") [] done 5 task

abbrev any_order : Str → Str → Bool
any_order a b = true

abbrev first_page : Params
first_page = record { limit = pos 20; offset = pos 0 }

abbrev failing : Session Rows
failing = record {
  table = task ∷ [];
  clock = 5;
  script = record { now = 6; meanwhile = λ t. t; fault = refused canceled } ∷ [];
}

task_rows-IsValid : IsValid (task ∷ [])
unfolding create create_task query defaulted valid validate required_text text_within valid_string
    rune_count trim_space trim_left trim_right runes decode_rune is_space require_subject
    validate_subject identifier perform
task_rows-IsValid =
    (tasks-IsValid any_order (create_call (codes "t1") alice input) (at_rest [] 5)
      (record { now = record { each = tt; keyed = tt }; later = tt })).now

tasks-IsValid_example :
    Holds IsValid (perform any_order (update_call alice (codes "t1") finished) failing)
tasks-IsValid_example =
    tasks-IsValid any_order (update_call alice (codes "t1") finished) failing
      (record { now = task_rows-IsValid; later = (λ t v. v, tt) })

tasks_isolated_example :
    owned bob (perform any_order (update_call alice (codes "t1") finished) failing).table ≡ []
tasks_isolated_example =
    tasks_isolated any_order (update_call alice (codes "t1") finished) bob failing refl
      (λ t same. same, tt)
