-- ===== src/Tests/Projects.antt =====
-- The service of projects on small tables.
use go_starter_kit.Base.{pos, Str, Bool, true, [], ◌∷◌, codes, ◌≡◌, refl}
use go_starter_kit.AppError.{business, joined, pg, canceled}
use go_starter_kit.Db.{ok, err, Session, refused, query, unique_violation}
use go_starter_kit.Db.Keeps.{Holds}
use go_starter_kit.Db.Rest.{at_rest}
use go_starter_kit.Validation.{
  identifier, text_within, required_text, valid_string, rune_count, trim_space, trim_left,
  trim_right, runes, decode_rune, is_space,
}
use go_starter_kit.Identity.{require_subject, validate_subject}
use go_starter_kit.Pagination.{Page, Params, validate as validate_page}
use go_starter_kit.Project.{Item, err_conflict, from_row, create, get, list, validate}
use go_starter_kit.Project.Queries.{Project, Rows, created, owned, owner_name_key, create_project}
use go_starter_kit.Project.Calls.{create as create_call, update as update_call, perform}
use go_starter_kit.Project.Isolation.{isolated}
use go_starter_kit.Project.Invariant.{IsValid, perform-IsValid}
use go_starter_kit.Project.Laws.{IsListed, get-create, create_duplicate, list_window}

abbrev alice : Str
alice = codes "alice"

abbrev bob : Str
bob = codes "bob"

abbrev project : Project
project = created (codes "p1") alice (codes "Kit") (codes "") 5

abbrev any_order : Str → Str → Bool
any_order a b = true

abbrev first_page : Params
first_page = record { limit = pos 20; offset = pos 0 }

-- A database that refuses the statement after another process has come in.
abbrev failing : Session Rows
failing = record {
  table = project ∷ [];
  clock = 5;
  script = record { now = 6; meanwhile = λ t. t; fault = refused canceled } ∷ [];
}

project_rows-IsValid : IsValid (project ∷ [])
unfolding create create_project query validate required_text text_within valid_string rune_count
    trim_space trim_left trim_right runes decode_rune is_space require_subject validate_subject
    identifier perform
project_rows-IsValid =
    (perform-IsValid any_order (create_call (codes "p1") alice (codes " Kit") []) (at_rest [] 5)
      (record { now = record { each = tt; keyed = tt; named = tt }; later = tt })).now

perform-IsValid_example :
    Holds IsValid (perform any_order (update_call alice (codes "p1") (codes "Other") []) failing)
perform-IsValid_example =
    perform-IsValid any_order (update_call alice (codes "p1") (codes "Other") []) failing
      (record { now = project_rows-IsValid; later = (λ t v. v, tt) })

isolated_example :
    owned bob (perform any_order (update_call alice (codes "p1") (codes "Other") []) failing).table
    ≡ []
isolated_example =
    isolated any_order (update_call alice (codes "p1") (codes "Other") []) bob failing refl
      (λ t same. same, tt)

get-create_example :
    get alice (codes "p1") (at_rest (project ∷ []) 5)
    ≡ (ok (from_row project), at_rest (project ∷ []) 5)
unfolding create create_project query validate required_text text_within valid_string rune_count
    trim_space trim_left trim_right runes decode_rune is_space require_subject validate_subject
    identifier from_row
get-create_example =
    get-create (codes "p1") alice (codes " Kit") [] 5 [] {item = from_row project}
      {s = at_rest (project ∷ []) 5} refl refl

create_duplicate_example : create (codes "p2") alice (codes "Kit") [] (at_rest (project ∷ []) 6) ≡ (
  err (joined (business err_conflict) (pg unique_violation owner_name_key)),
  at_rest (project ∷ []) 6,
)
unfolding validate required_text text_within valid_string rune_count trim_space trim_left trim_right
    runes decode_rune is_space require_subject validate_subject identifier
create_duplicate_example =
    create_duplicate (codes "p2") alice (codes "Kit") [] (codes "Kit") 6 (project ∷ []) refl refl
      refl refl

list_window_example :
    (page : Page Item) × (list any_order alice first_page (at_rest (project ∷ []) 6)
      ≡ (ok page, at_rest (project ∷ []) 6))
    × IsListed any_order alice first_page (project ∷ []) page
unfolding validate_page require_subject validate_subject identifier text_within valid_string
    rune_count runes decode_rune trim_space
list_window_example =
    list_window any_order alice first_page 6 (project ∷ [])
      (record { total = λ a b h. refl; transitive = λ a b c h k. refl }) refl refl
