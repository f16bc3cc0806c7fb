-- ===== src/HttpApi/Statuses.antt =====
-- The statuses and texts of the responses to errors.
use go_starter_kit.Base.{
  Bool-cases, if_cases, refl, ◌∙◌, Str, str_eq, codes, ◌&&◌, if◌then◌else◌, Option-cases, inl, inr,
  ap₂, or_else, ◌||◌, Bool, false, Option, none, some, ◌≡◌, [], arith,
}
use go_starter_kit.AppError.{
  GoError, AppError, canceled, deadline_exceeded, no_rows, eof, unexpected_eof, pg, net, business,
  plain, prefixed, joined, errors_as, errors_is, as_business, as_status, as_pg, is_deadline,
  is_canceled, is_no_rows,
}
use go_starter_kit.AppError.Retry.{retry_after, as_retry}
use go_starter_kit.Db.{map_error, violated, unique_violation}
use go_starter_kit.HttpApi.{Response, from_error, from_kind, internal_error, plainly}
use go_starter_kit.Db.Mapping.{
  map_error_context, map_error_missing, map_error-violated, map_error_unknown,
}
use go_starter_kit.Project.Queries.{owner_name_key}
use go_starter_kit.Project.{storage_errors, err_not_found, err_conflict}

-- The error with all that is not public blanked out: every text that was put in front, the codes and
-- constraints of the database, which sentinel an error is, and stages with their messages. What is left
-- are the business errors, the status errors, the delays, passed deadlines and how the errors are wrapped.
unfoldable pub blanked : GoError → GoError
blanked canceled = plain 0
blanked deadline_exceeded = deadline_exceeded
blanked no_rows = plain 0
blanked eof = plain 0
blanked unexpected_eof = plain 0
blanked (pg code constraint) = plain 0
blanked (net timeout) = plain 0
blanked (business b) = business b
blanked (GoError.status r) = GoError.status r
blanked (plain n) = plain 0
blanked (prefixed text e) = prefixed [] (blanked e)
blanked (joined e f) = joined (blanked e) (blanked f)
blanked (GoError.retry delay e) = GoError.retry delay (blanked e)
blanked (GoError.stage name message attempt e) = GoError.stage [] [] 0 (blanked e)

module _ {A : Type 0} (f : GoError → Option A) (blind : (e : GoError) → f (blanked e) ≡ f e) where
  errors_as-blanked : (e : GoError) → errors_as f (blanked e) ≡ errors_as f e
  unfolding errors_as blanked
  errors_as-blanked canceled = blind canceled
  errors_as-blanked deadline_exceeded = blind deadline_exceeded
  errors_as-blanked no_rows = blind no_rows
  errors_as-blanked eof = blind eof
  errors_as-blanked unexpected_eof = blind unexpected_eof
  errors_as-blanked (pg c n) = blind (pg c n)
  errors_as-blanked (net b) = blind (net b)
  errors_as-blanked (business b) = blind (business b)
  errors_as-blanked (GoError.status r) = blind (GoError.status r)
  errors_as-blanked (plain n) = blind (plain n)
  errors_as-blanked (prefixed s e) = ap₂ or_else (blind (prefixed s e)) (errors_as-blanked e)
  errors_as-blanked (joined a b) =
      ap₂ or_else (blind (joined a b)) (ap₂ or_else (errors_as-blanked a) (errors_as-blanked b))
  errors_as-blanked (GoError.retry d e) =
      ap₂ or_else (blind (GoError.retry d e)) (errors_as-blanked e)
  errors_as-blanked (GoError.stage s m n e) =
      ap₂ or_else (blind (GoError.stage s m n e)) (errors_as-blanked e)

errors_is-blanked : (e : GoError) → errors_is is_deadline (blanked e) ≡ errors_is is_deadline e
unfolding errors_is blanked
errors_is-blanked canceled = refl
errors_is-blanked deadline_exceeded = refl
errors_is-blanked no_rows = refl
errors_is-blanked eof = refl
errors_is-blanked unexpected_eof = refl
errors_is-blanked (pg c n) = refl
errors_is-blanked (net b) = refl
errors_is-blanked (business b) = refl
errors_is-blanked (GoError.status r) = refl
errors_is-blanked (plain n) = refl
errors_is-blanked (prefixed s e) = errors_is-blanked e
errors_is-blanked (joined a b) = ap₂ ◌||◌ (errors_is-blanked a) (errors_is-blanked b)
errors_is-blanked (GoError.retry d e) = errors_is-blanked e
errors_is-blanked (GoError.stage s m n e) = errors_is-blanked e

as_business-blanked : (e : GoError) → as_business (blanked e) ≡ as_business e
unfolding blanked
as_business-blanked canceled = refl
as_business-blanked deadline_exceeded = refl
as_business-blanked no_rows = refl
as_business-blanked eof = refl
as_business-blanked unexpected_eof = refl
as_business-blanked (pg c n) = refl
as_business-blanked (net b) = refl
as_business-blanked (business b) = refl
as_business-blanked (GoError.status r) = refl
as_business-blanked (plain n) = refl
as_business-blanked (prefixed s e) = refl
as_business-blanked (joined a b) = refl
as_business-blanked (GoError.retry d e) = refl
as_business-blanked (GoError.stage s m n e) = refl

as_status-blanked : (e : GoError) → as_status (blanked e) ≡ as_status e
unfolding blanked
as_status-blanked canceled = refl
as_status-blanked deadline_exceeded = refl
as_status-blanked no_rows = refl
as_status-blanked eof = refl
as_status-blanked unexpected_eof = refl
as_status-blanked (pg c n) = refl
as_status-blanked (net b) = refl
as_status-blanked (business b) = refl
as_status-blanked (GoError.status r) = refl
as_status-blanked (plain n) = refl
as_status-blanked (prefixed s e) = refl
as_status-blanked (joined a b) = refl
as_status-blanked (GoError.retry d e) = refl
as_status-blanked (GoError.stage s m n e) = refl

as_retry-blanked : (e : GoError) → as_retry (blanked e) ≡ as_retry e
unfolding blanked
as_retry-blanked canceled = refl
as_retry-blanked deadline_exceeded = refl
as_retry-blanked no_rows = refl
as_retry-blanked eof = refl
as_retry-blanked unexpected_eof = refl
as_retry-blanked (pg c n) = refl
as_retry-blanked (net b) = refl
as_retry-blanked (business b) = refl
as_retry-blanked (GoError.status r) = refl
as_retry-blanked (plain n) = refl
as_retry-blanked (prefixed s e) = refl
as_retry-blanked (joined a b) = refl
as_retry-blanked (GoError.retry d e) = refl
as_retry-blanked (GoError.stage s m n e) = refl

-- No error shows more of itself in a response than its business errors, its status errors, its delays,
-- whether it is a passed deadline, and how these are wrapped: with all other texts, codes and errors in
-- the chain blanked out, it gets the very same response.
pub from_error_public :
    (late : Bool) (e : GoError) → from_error late (blanked e) ≡ from_error late e
unfolding from_error from_kind internal_error retry_after
from_error_public late e = ground (
  arith,
  errors_as-blanked as_business as_business-blanked e,
  errors_as-blanked as_status as_status-blanked e,
  errors_as-blanked as_retry as_retry-blanked e,
  errors_is-blanked e,
)

abbrev is_name_taken : Option (record { code : Str; constraint : Str }) → Bool
is_name_taken none = false
is_name_taken (some d) = str_eq d.code unique_violation && str_eq owner_name_key d.constraint

-- What a request on the projects is answered with when a statement ends with an error.
abbrev pub project_response : GoError → Response
project_response e =
    if errors_is is_deadline e
    then plainly 504 (codes "request deadline exceeded")
    else if errors_is is_canceled e
    then plainly 500 (codes "internal server error")
    else if errors_is is_no_rows e
    then plainly 404 (codes "project not found")
    else if is_name_taken (errors_as as_pg e)
    then plainly 409 (codes "a project with this name already exists")
    else plainly 500 (codes "internal server error")

-- An error with neither a business nor a status error is an internal one.
unlabelled :
    (e : GoError)
    → errors_as as_business e ≡ none
    → errors_as as_status e ≡ none
    → from_error false e ≡ internal_error false e
unfolding from_error
unlabelled e no_business no_status = rw (no_business, no_status) refl

taken-violated :
    (e : GoError)
    → violated storage_errors e
      ≡ (if is_name_taken (errors_as as_pg e) then some err_conflict else none)
unfolding violated storage_errors
taken-violated e = elim (Option-cases (errors_as as_pg e)) [
  | inl other ↦ rw other refl
  | inr (d, database) ↦ rw database (
      if_cases
        (λ (o : Option AppError). o ≡ (
          if str_eq d.code unique_violation && str_eq owner_name_key d.constraint
          then some err_conflict
          else none))
        (str_eq d.code unique_violation) (λ code. rw code refl) (λ code. rw code refl))
]

-- An error of a statement on the projects that carries no business and no status error of its own
-- is answered, while the request is in time, with 504 for a passed deadline, else with 500 for a
-- cancelled request, 404 for a missing row, 409 for a name that is taken, and 500 for all else.
pub project_statuses :
    (e : GoError)
    → errors_as as_business e ≡ none
    → errors_as as_status e ≡ none
    → from_error false (map_error e storage_errors) ≡ project_response e
unfolding storage_errors internal_error from_error from_kind errors_as errors_is
project_statuses e no_business no_status = elim (Bool-cases (errors_is is_deadline e)) [
  | inl late ↦
      rw (map_error_context e storage_errors (inr late))
        (unlabelled e no_business no_status ∙ rw late refl)
  | inr in_time ↦ elim (Bool-cases (errors_is is_canceled e)) [
    | inl stopped ↦
        rw (map_error_context e storage_errors (inl stopped))
          (unlabelled e no_business no_status ∙ rw (in_time, stopped) refl)
    | inr alive ↦ elim (Bool-cases (errors_is is_no_rows e)) [
      | inl missing ↦
          rw
            (map_error_missing storage_errors err_not_found e refl missing
              (rw (alive, in_time) refl))
            (rw (in_time, alive, missing) refl)
      | inr found ↦ elim (Bool-cases (is_name_taken (errors_as as_pg e))) [
        | inl taken ↦
            rw
              (map_error-violated storage_errors err_conflict e (taken-violated e ∙ rw taken refl)
                found (rw (alive, in_time) refl))
              (rw (in_time, alive, found, taken) refl)
        | inr free ↦
            rw
              (map_error_unknown storage_errors e (taken-violated e ∙ rw free refl) found
                (rw (alive, in_time) refl))
              (unlabelled e no_business no_status ∙ rw (in_time, alive, found, free) refl)
      ]
    ]
  ]
]
