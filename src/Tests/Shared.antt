-- ===== src/Tests/Shared.antt =====
-- The shared packages on concrete values.
use go_starter_kit.Base.{
  ℕ, ◌+◌, pos, Str, true, false, some, List, [], ◌∷◌, codes, ◌≡◌, refl, arith, ◌⊎◌, map, str_eq,
  if◌then◌else◌,
}
use go_starter_kit.AppError.{
  GoError, prefixed, pg, no_rows, plain, errors_as, errors_is, as_business, is_canceled,
  is_deadline,
}
use go_starter_kit.AppError.Diagnostic.{diagnostic_attrs, IsDatabaseCode, diagnostic_attrs-sqlstate}
use go_starter_kit.Db.{ok, err, Result, map_error, violated, unique_violation}
use go_starter_kit.Db.Mapping.{IsNamed, map_error_sources}
use go_starter_kit.Project.{storage_errors, err_conflict}
use go_starter_kit.Project.Queries.{owner_name_key}
use go_starter_kit.Pagination.{Params, validate, fetch_limit, build}
use go_starter_kit.Pagination.Pages.{window, window_page, build-window, follow, follow_complete}
use go_starter_kit.Validation.{decode_rune, is_space, trim_space, identifier, valid_string}
use go_starter_kit.HttpApi.{Response, other_header, cache_no_store, from_error}
use go_starter_kit.HttpApi.Statuses.{blanked, from_error_public, project_statuses, project_response}
use go_starter_kit.HttpApi.Auth.{Principal, bearer, middleware, fields_from, middleware_passed}

tests :
    (trim_space (codes "  a b ") ≡ codes "a b")
    × (trim_space (codes " \t") ≡ [])
    × (identifier (codes "abc") ≡ true)
    × (identifier (codes "   ") ≡ false)
    × (valid_string (0xE2 ∷ 0x82 ∷ 0xAC ∷ []) ≡ true)
    × (valid_string (0xE2 ∷ 0x82 ∷ []) ≡ false)
    × (trim_space (0xE3 ∷ 0x80 ∷ 0x80 ∷ 0xE2 ∷ 0x82 ∷ 0x20 ∷ []) ≡ 0xE2 ∷ 0x82 ∷ [])
unfolding trim_space identifier valid_string
tests = (refl, refl, refl, refl, refl, refl, refl)

abbrev missing : GoError
missing = prefixed (codes "scan") no_rows

abbrev name_taken : GoError
name_taken = pg unique_violation owner_name_key

map_error_sources_example :
    (errors_as as_business name_taken ≡ some err_conflict)
    ⊎ ((errors_is is_canceled name_taken ≡ false)
        × (errors_is is_deadline name_taken ≡ false)
        × IsNamed name_taken storage_errors err_conflict)
unfolding map_error violated storage_errors errors_is errors_as
map_error_sources_example = map_error_sources name_taken storage_errors err_conflict refl

abbrev page : Params
page = record { limit = pos 2; offset = pos 1 }

abbrev letters : List ℕ
letters = 10 ∷ 20 ∷ 30 ∷ 40 ∷ 50 ∷ []

abbrev next : ℕ → ℕ
next n = n + 1

build-window_example :
    build (window (fetch_limit page) page.offset letters) page next
    ≡ some (window_page letters next page)
unfolding validate
build-window_example = build-window letters next page refl

follow_complete_example : follow letters next 6 2 0 ≡ some (map next letters)
follow_complete_example = follow_complete letters next 2 (omega arith) (omega arith) (omega arith)

-- A status error with its text and headers, wrapped with a text that is not public.
abbrev not_ready : Response
not_ready = record {
  code = 503;
  detail = codes "service not ready";
  headers = other_header (codes "Retry-After") (codes "5") ∷ [];
  others = [];
}

abbrev wrapped : GoError
wrapped = prefixed (codes "private host") (GoError.status not_ready)

given_back : from_error false wrapped ≡ not_ready
unfolding from_error errors_as
given_back = refl

from_error_public_example : from_error false (blanked wrapped) ≡ from_error false wrapped
from_error_public_example = from_error_public false wrapped

project_statuses_example :
    from_error false (map_error name_taken storage_errors) ≡ project_response name_taken
unfolding errors_as
project_statuses_example = project_statuses name_taken refl refl

abbrev user : Principal
user = record { subject = codes "u1"; session_id = codes "s1" }

abbrev authenticate : Str → Result Principal
authenticate raw = if str_eq raw (codes "T0k") then ok user else err (plain 60)

middleware_passed_example :
    (raw : Str) × (bearer (codes "bearer  T0k") ≡ some raw)
    × (authenticate raw ≡ ok user)
    × (str_eq user.subject [] ≡ false)
    × (false ≡ false)
    × (cache_no_store ∷ [] ≡ cache_no_store ∷ [])
unfolding middleware bearer fields_from decode_rune is_space
middleware_passed_example =
    middleware_passed authenticate false (codes "bearer  T0k") {p = user} {h = cache_no_store ∷ []}
      refl

diagnostic_attrs-sqlstate_example :
    ((diagnostic_attrs name_taken).sqlstate ≡ some unique_violation
      → IsDatabaseCode name_taken unique_violation
        × ((diagnostic_attrs name_taken).reason_code ≡ codes "database_error"))
    × (IsDatabaseCode name_taken unique_violation
        → (diagnostic_attrs name_taken).sqlstate ≡ some unique_violation)
diagnostic_attrs-sqlstate_example = diagnostic_attrs-sqlstate name_taken unique_violation
