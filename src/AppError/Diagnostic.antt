-- ===== src/AppError/Diagnostic.antt =====
-- internal/apperror/diagnostic.go.
use go_starter_kit.Base.{
  ℕ, Str, Bool, true, false, leb, ◌≡◌, arith, not, ◌&&◌, ◌||◌, Option, none, some, ◌==◌, ltb, codes,
  length, All, ◌≤◌, ◌⊎◌, inl, inr, refl, [], ◌∷◌, Option-cases, Bool-cases, ap, sym, ◌∙◌, any_by,
  if◌then◌else◌,
}
use go_starter_kit.AppError.{
  GoError, Kind, errors_as, errors_is, as_business, as_pg, as_net, is_canceled, is_deadline, is_eof,
  not_found, conflict, invalid, unauthenticated, unavailable, forbidden, rate_limited, unlisted,
}

-- The attributes that are logged: the reason and, where it is valid, the SQLSTATE.
pub record Attrs : Type 0 where
  pub reason_code : Str
  pub sqlstate : Option Str

-- `(c < '0' || c > '9') && (c < 'A' || c > 'Z')`. The loop runs over runes; a rune of more than one
-- byte has bytes outside both ranges, so the bytes decide the same.
abbrev pub bad_sql_state_char : ℕ → Bool
bad_sql_state_char c = (ltb c b'0' || ltb b'9' c) && (ltb c b'A' || ltb b'Z' c)

unfoldable pub valid_sql_state : Str → Bool
valid_sql_state code = length code == 5 && not (any_by bad_sql_state_char code)

abbrev pub kind_reason : Kind → Str
kind_reason not_found = codes "not_found"
kind_reason conflict = codes "conflict"
kind_reason invalid = codes "invalid_input"
kind_reason unauthenticated = codes "unauthenticated"
kind_reason unavailable = codes "dependency_unavailable"
kind_reason forbidden = codes "forbidden"
kind_reason rate_limited = codes "rate_limited"
kind_reason (unlisted _) = codes "internal_error"

-- The cases of the switch behind the two context errors.
classify : GoError → Attrs
unfolding valid_sql_state errors_as errors_is
classify e = elim (errors_as as_pg e) [
  | some d ↦ record {
    reason_code = codes "database_error";
    sqlstate = if valid_sql_state d.code then some d.code else none;
  }
  | none ↦ elim (errors_as as_net e) [
    | some timeout ↦ record {
      reason_code = if timeout then codes "network_timeout" else codes "network_error";
      sqlstate = none;
    }
    | none ↦
        if errors_is is_eof e
        then record { reason_code = codes "connection_closed"; sqlstate = none }
        else elim (errors_as as_business e) [
          | some b ↦ record { reason_code = kind_reason b.kind; sqlstate = none }
          | none ↦ record { reason_code = codes "internal_error"; sqlstate = none }
        ]
  ]
]

unfoldable pub diagnostic_attrs : GoError → Attrs
unfolding classify
diagnostic_attrs e =
    if errors_is is_canceled e
    then record { reason_code = codes "canceled"; sqlstate = none }
    else if errors_is is_deadline e
    then record { reason_code = codes "deadline_exceeded"; sqlstate = none }
    else classify e

-- A digit or a capital letter of ASCII
abbrev pub IsCodeChar : ℕ → Type 0
IsCodeChar c = ((48 ≤ c) × (c ≤ 57)) ⊎ ((65 ≤ c) × (c ≤ 90))

-- The first database error of the chain, with its code, of five digits or capital letters.
pub record IsDatabaseCode (e : GoError) (code : Str) : Type 0 where
  pub constraint : Str
  pub of_error : errors_as as_pg e ≡ some (record { code = code; constraint = constraint })
  pub alive : errors_is is_canceled e ≡ false
  pub in_time : errors_is is_deadline e ≡ false
  pub five : length code ≡ 5
  pub plain_text : All IsCodeChar code

code_char : (c : ℕ) → bad_sql_state_char c ≡ false → IsCodeChar c
code_char c h = elim (Bool-cases (leb c 57)) [
  | inl digit ↦ inl (ground arith, ground arith)
  | inr above ↦ inr (ground arith, ground arith)
]

valid_sql_state-All :
    (code : Str) → not (any_by bad_sql_state_char code) ≡ true → All IsCodeChar code
valid_sql_state-All [] h = tt
valid_sql_state-All (c ∷ code) h =
    let rest : not (any_by bad_sql_state_char code) ≡ true = ground arith in
    let good : bad_sql_state_char c ≡ false = ground arith in
    (code_char c good, valid_sql_state-All code rest)

All-valid_sql_state : (code : Str) → All IsCodeChar code → any_by bad_sql_state_char code ≡ false
All-valid_sql_state [] h = refl
All-valid_sql_state (c ∷ code) h =
    let rest = All-valid_sql_state code h.1 in
    elim h.0 [ inl (low, high) ↦ ground arith | inr (low, high) ↦ ground arith ]

module _ (e : GoError) where
  classify_database :
      (d : record { code : Str; constraint : Str })
      → errors_as as_pg e ≡ some d
      → classify e ≡ record {
        reason_code = codes "database_error";
        sqlstate = if valid_sql_state d.code then some d.code else none;
      }
  unfolding classify
  classify_database d database = rw (database, classify) refl

  classify_other : errors_as as_pg e ≡ none → (classify e).sqlstate ≡ none
  unfolding classify
  classify_other other = rw (other, classify) (ground arith)

  classified :
      errors_is is_canceled e ≡ false
      → errors_is is_deadline e ≡ false
      → diagnostic_attrs e ≡ classify e
  unfolding diagnostic_attrs
  classified alive in_time = rw (alive, in_time) refl

-- The code that is shown, of this database error.
shown_code :
    (given : Str) {code : Str}
    → (if valid_sql_state given then some given else none) ≡ some code
    → (given ≡ code) × (length code ≡ 5) × All IsCodeChar code
unfolding valid_sql_state
shown_code given {code} h =
    let same : given ≡ code = ground arith in
    let valid : (length given == 5 && not (any_by bad_sql_state_char given)) ≡ true =
      ground arith in
    let five : length given ≡ 5 = ground arith in
    let good : not (any_by bad_sql_state_char given) ≡ true = ground arith in
    (same, rw (← same) five, rw (← same) (valid_sql_state-All given good))

-- A log line shows a code of the database exactly when the error is neither a cancelled nor a late
-- request, and its first database error has this code, which has five characters, each a digit or a
-- capital letter; and next to a code it says that the database has failed.
pub diagnostic_attrs-sqlstate :
    (e : GoError) (code : Str)
    → ((diagnostic_attrs e).sqlstate ≡ some code
        → IsDatabaseCode e code × ((diagnostic_attrs e).reason_code ≡ codes "database_error"))
      × (IsDatabaseCode e code → (diagnostic_attrs e).sqlstate ≡ some code)
unfolding diagnostic_attrs valid_sql_state
diagnostic_attrs-sqlstate e code = (λ h. to h, λ h. from h)
  where
    to :
        (diagnostic_attrs e).sqlstate ≡ some code
        → IsDatabaseCode e code × ((diagnostic_attrs e).reason_code ≡ codes "database_error")
    to h = elim (Bool-cases (errors_is is_canceled e)) [
      | inl stopped ↦ let bad : ◌≡◌ {A = Option Str} none (some code) = rw stopped at h in cc bad
      | inr alive ↦ elim (Bool-cases (errors_is is_deadline e)) [
        | inl late ↦
            let bad : ◌≡◌ {A = Option Str} none (some code) = rw (alive, late) at h in cc bad
        | inr in_time ↦
            let same = classified e alive in_time in
            elim (Option-cases (errors_as as_pg e)) [
              | inl other ↦
                  let bad : ◌≡◌ {A = Option Str} none (some code) =
                    sym (classify_other e other) ∙ ap (λ a. a.sqlstate) (sym same) ∙ h in
                  cc bad
              | inr (d, database) ↦
                  let all = same ∙ classify_database e d database in
                  let (is, five, text) = shown_code d.code (ap (λ a. a.sqlstate) (sym all) ∙ h) in
                  (
                    record {
                      constraint = d.constraint;
                      of_error =
                          database
                          ∙ ap (λ c. some (record { code = c; constraint = d.constraint })) is;
                      alive = alive;
                      in_time = in_time;
                      five = five;
                      plain_text = text;
                    },
                    ap (λ a. a.reason_code) all,
                  )
            ]
      ]
    ]

    from : IsDatabaseCode e code → (diagnostic_attrs e).sqlstate ≡ some code
    from h =
        let good = All-valid_sql_state code h.plain_text in
        let five : (length code == 5) ≡ true = ground (arith, h.five) in
        ap (λ a. a.sqlstate)
          (classified e h.alive h.in_time
            ∙ classify_database e (record { code = code; constraint = h.constraint }) h.of_error)
        ∙ rw (five, good) refl
