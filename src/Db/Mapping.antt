-- ===== src/Db/Mapping.antt =====
-- What `MapError` makes public of a storage error.
use go_starter_kit.Base.{
  ◌++◌, Str, str_eq_refl, refl, false, ◌||◌, ◌≡◌, true, Option, none, some, arith, ◌⊎◌, inl, inr,
  List, [], ◌∷◌, IsIn, Bool-cases, Option-cases, str_eq, str_eq-eq, codes, ap₂, ap, subst, ◌∙◌,
}
use go_starter_kit.AppError.{
  GoError, AppError, errors_as, errors_is, joined, business, prefixed, pg, as_business, is_canceled,
  is_deadline, is_no_rows, as_pg,
}
use go_starter_kit.Db.{
  storage_suffix, constraint_error, constraint_of, unique_violation, ErrorPolicy, violated,
  map_error, map_missing, map_unique,
}

-- An error that ends a cancelled or timed-out request passes unchanged.
pub map_error_context :
    (e : GoError) (policy : ErrorPolicy)
    → (errors_is is_canceled e ≡ true) ⊎ (errors_is is_deadline e ≡ true)
    → map_error e policy ≡ e
unfolding map_error
map_error_context e policy h = ground arith

constraint_error-IsIn :
    (entries : List (Str × AppError)) (name : Str) {b : AppError}
    → constraint_error entries name ≡ some b
    → IsIn (name, b) entries
constraint_error-IsIn [] name e = cc
constraint_error-IsIn ((n, a) ∷ rest) name {b} e = elim (Bool-cases (str_eq n name)) [
  | inl here ↦
      let same : ◌≡◌ {A = Option AppError} (some a) (some b) = rw here at e in
      let value : a ≡ b = ground arith in inl (ap₂ (λ m x. (m, x)) (str_eq-eq n name here) value)
  | inr there ↦ inr (constraint_error-IsIn rest name (rw there at e))
]

-- Where a public error comes from that was not in the chain before.
pub data IsNamed (e : GoError) (policy : ErrorPolicy) (b : AppError) : Type 0 where
  for_missing : policy.not_found ≡ some b → errors_is is_no_rows e ≡ true → IsNamed e policy b
  for_unique :
      (name : Str)
      → errors_as as_pg e ≡ some (record { code = codes "23505"; constraint = name })
      → IsIn (name, b) policy.unique_constraints
      → IsNamed e policy b

violated-IsNamed :
    (e : GoError) (policy : ErrorPolicy) {b : AppError}
    → violated policy e ≡ some b
    → IsNamed e policy b
unfolding violated
violated-IsNamed e policy {b} h = elim (Option-cases (errors_as as_pg e)) [
  | inl other ↦ let bad : ◌≡◌ {A = Option AppError} none (some b) = rw other at h in cc bad
  | inr (d, database) ↦
      let known : constraint_of policy (some d) ≡ some b = rw database at h in
      elim (Bool-cases (str_eq d.code (codes "23505"))) [
        | inl unique ↦
            let listed : constraint_error policy.unique_constraints d.constraint ≡ some b =
              rw unique at known in
            let code : d.code ≡ codes "23505" = str_eq-eq d.code (codes "23505") unique in
            for_unique d.constraint
              (database ∙ ap (λ c. some (record { code = c; constraint = d.constraint })) code)
              (constraint_error-IsIn policy.unique_constraints d.constraint listed)
        | inr another ↦
            let bad : ◌≡◌ {A = Option AppError} none (some b) = rw another at known in cc bad
      ]
]

-- The same by the parts of `map_error`.
map_error-either :
    (e : GoError) (policy : ErrorPolicy) (b : AppError)
    → errors_as as_business (map_error e policy) ≡ some b
    → (errors_as as_business e ≡ some b)
      ⊎ (((policy.not_found ≡ some b) × (errors_is is_no_rows e ≡ true))
          ⊎ (violated policy e ≡ some b))
unfolding map_error map_missing map_unique errors_as
map_error-either e policy b h = ground arith

-- A business error that is found in the mapped chain was found before. If not, the request was neither
-- cancelled nor has it passed its deadline, and the error is the policy's for a missing row, and a row is
-- missing, or stands in the policy under the constraint of a database error with the code 23505.
pub map_error_sources :
    (e : GoError) (policy : ErrorPolicy) (b : AppError)
    → errors_as as_business (map_error e policy) ≡ some b
    → (errors_as as_business e ≡ some b)
      ⊎ ((errors_is is_canceled e ≡ false) × (errors_is is_deadline e ≡ false) × IsNamed e policy b)
map_error_sources e policy b h = elim (Bool-cases (errors_is is_canceled e)) [
  | inl stopped ↦
      inl
        (subst (λ x. errors_as as_business x ≡ some b) (map_error_context e policy (inl stopped)) h)
  | inr alive ↦ elim (Bool-cases (errors_is is_deadline e)) [
    | inl late ↦
        inl
          (subst (λ x. errors_as as_business x ≡ some b) (map_error_context e policy (inr late)) h)
    | inr in_time ↦ elim (map_error-either e policy b h) [
      | inl before ↦ inl before
      | inr (inl (named, missing)) ↦ inr (alive, in_time, for_missing named missing)
      | inr (inr known) ↦ inr (alive, in_time, violated-IsNamed e policy known)
    ]
  ]
]

-- A missing row becomes the policy's error, with the original one as its cause.
pub map_error_missing :
    (policy : ErrorPolicy) (b : AppError) (e : GoError)
    → policy.not_found ≡ some b
    → errors_is is_no_rows e ≡ true
    → (errors_is is_canceled e || errors_is is_deadline e) ≡ false
    → map_error e policy ≡ joined (business b) e
unfolding map_error map_missing
map_error_missing policy b e named missing alive = rw (alive, named, missing) refl

-- The violation of a constraint that the policy names becomes the policy's error for it.
pub map_error_unique :
    (policy : ErrorPolicy) (b : AppError) (name : Str)
    → constraint_error policy.unique_constraints name ≡ some b
    → map_error (pg unique_violation name) policy ≡ joined (business b) (pg unique_violation name)
unfolding map_error map_missing map_unique violated errors_is errors_as
map_error_unique policy b name named = ground (arith, str_eq_refl unique_violation)

-- A violation that the policy names, with no missing row, becomes the policy's error for it.
pub map_error-violated :
    (policy : ErrorPolicy) (b : AppError) (e : GoError)
    → violated policy e ≡ some b
    → errors_is is_no_rows e ≡ false
    → (errors_is is_canceled e || errors_is is_deadline e) ≡ false
    → map_error e policy ≡ joined (business b) e
unfolding map_error map_missing map_unique
map_error-violated policy b e named found alive = rw alive (in_policy policy.not_found)
  where
    in_policy : (o : Option AppError) → map_missing policy o e ≡ joined (business b) e
    in_policy none = rw named refl
    in_policy (some _) = rw (found, named) refl

-- An error that the policy does not know gets the resource's name as a prefix.
pub map_error_unknown :
    (policy : ErrorPolicy) (e : GoError)
    → violated policy e ≡ none
    → errors_is is_no_rows e ≡ false
    → (errors_is is_canceled e || errors_is is_deadline e) ≡ false
    → map_error e policy ≡ prefixed (policy.resource ++ storage_suffix) e
unfolding map_error map_missing map_unique
map_error_unknown policy e unnamed found alive = rw alive (in_policy policy.not_found)
  where
    in_policy :
        (o : Option AppError)
        → map_missing policy o e ≡ prefixed (policy.resource ++ storage_suffix) e
    in_policy none = rw unnamed refl
    in_policy (some _) = rw (found, unnamed) refl
