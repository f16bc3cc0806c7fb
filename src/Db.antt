-- ===== src/Db.antt =====
-- internal/db: the mapping of storage errors (errors.go), and a statement sent to the database.
-- PostgreSQL is not part of the program: what a statement does to the tables is written per query,
-- and all else that the database and the other processes may do meanwhile is a script.
pub mod Mapping
pub mod Keeps
pub mod Rest
pub mod Transaction
pub mod Inversion
use go_starter_kit.Base.{
  ℕ, Str, Bool, Option, none, some, List, [], ◌∷◌, codes, str_eq, if◌then◌else◌, ◌||◌, ◌++◌, ◌≡◌,
  ◌⊎◌, inl, inr, refl, arith,
}
use go_starter_kit.AppError.{
  GoError, AppError, prefixed, joined, business, errors_as, errors_is, as_pg, is_canceled,
  is_deadline, is_no_rows,
}

-- A Go result with an error: the value is meaningful when the error is nil.
pub data Result {ℓ} (A : Type ℓ) : Type ℓ where
  ok : A → Result A
  err : GoError → Result A

pub Result-cases {ℓ} :
    {A : Type ℓ} (r : Result A) → ((a : A) × (r ≡ ok a)) ⊎ ((e : GoError) × (r ≡ err e))
Result-cases (ok a) = inl (a, refl)
Result-cases (err e) = inr (e, refl)

pub ok-injective : {A : Type 0} {a b : A} → ◌≡◌ {A = Result A} (ok a) (ok b) → a ≡ b
ok-injective e = ground arith

-- `ErrorPolicy`
pub record ErrorPolicy : Type 0 where
  pub resource : Str
  pub not_found : Option AppError
  pub unique_constraints : List (Str × AppError)

abbrev pub unique_violation : Str
unique_violation = codes "23505"

-- A lookup in the policy's map; a missing key is a nil error.
abbrev pub constraint_error : List (Str × AppError) → Str → Option AppError
constraint_error [] name = none
constraint_error ((n, b) ∷ rest) name = if str_eq n name then some b else constraint_error rest name

abbrev pub constraint_of :
    ErrorPolicy → Option (record { code : Str; constraint : Str }) → Option AppError
constraint_of policy none = none
constraint_of policy (some d) =
    if str_eq d.code unique_violation
    then constraint_error policy.unique_constraints d.constraint
    else none

-- The unique constraint behind an error, as far as the policy names it.
unfoldable pub violated : ErrorPolicy → GoError → Option AppError
violated policy e = constraint_of policy (errors_as as_pg e)

abbrev pub storage_suffix : Str
storage_suffix = codes " storage: "

abbrev labelled : Option AppError → Str → GoError → GoError
labelled (some b) resource e = joined (business b) e
labelled none resource e = prefixed (resource ++ storage_suffix) e

unfoldable pub map_unique : ErrorPolicy → GoError → GoError
map_unique policy e = labelled (violated policy e) policy.resource e

unfoldable pub map_missing : ErrorPolicy → Option AppError → GoError → GoError
unfolding map_unique
map_missing policy none e = map_unique policy e
map_missing policy (some b) e =
    if errors_is is_no_rows e then joined (business b) e else map_unique policy e

-- `MapError` on an error that is not nil.
unfoldable pub map_error : GoError → ErrorPolicy → GoError
unfolding map_missing errors_is
map_error e policy =
    if errors_is is_canceled e || errors_is is_deadline e
    then e
    else map_missing policy policy.not_found e

-- A result whose error goes through `MapError`.
abbrev pub map_result {ℓ} : {A : Type ℓ} → ErrorPolicy → Result A → Result A
map_result policy (ok a) = ok a
map_result policy (err e) = err (map_error e policy)

-- What befalls one statement: it runs, it is refused before it takes effect, or it takes effect and
-- its answer is lost.
pub data Fault : Type 0 where
  fine : Fault
  refused : GoError → Fault
  lost : GoError → Fault

-- The database's time at the statement in microseconds, what the other processes did before it, and
-- what befalls it.
pub record Turn (T : Type 0) : Type 0 where
  pub now : ℕ
  pub meanwhile : T → T
  pub fault : Fault

-- The tables, the time of the last statement, and what is to come. Past the end of the script time
-- stands still and nobody interferes.
pub record Session (T : Type 0) : Type 0 where
  pub table : T
  pub clock : ℕ
  pub script : List (Turn T)

abbrev pub Action : Type 0 → Type 0 → Type 0
Action T A = Session T → Result A × Session T

-- A statement: at a time, on the tables.
abbrev pub Statement : Type 0 → Type 0 → Type 0
Statement T A = ℕ → T → Result A × T

module _ {T A : Type 0} where
  abbrev pub suffer : Fault → Result A × T → T → Result A × T
  suffer fine outcome before = outcome
  suffer (refused e) outcome before = (err e, before)
  suffer (lost e) outcome before = (err e, outcome.1)

  abbrev pub play : Statement T A → Session T → List (Turn T) → Result A × Session T
  play q s [] =
      let (r, t) = q s.clock s.table in (r, record { table = t; clock = s.clock; script = [] })
  play q s (turn ∷ rest) =
      let before = turn.meanwhile s.table in
      let (r, t) = suffer turn.fault (q turn.now before) before in
      (r, record { table = t; clock = turn.now; script = rest })

  unfoldable pub query : Statement T A → Action T A
  query q s = play q s s.script

  abbrev pub pure : A → Action T A
  pure a s = (ok a, s)

  abbrev pub fail : GoError → Action T A
  fail e s = (err e, s)

  abbrev pub lift : Result A → Action T A
  lift r s = (r, s)

  -- The error of an action through `MapError`.
  abbrev pub mapped : ErrorPolicy → Action T A → Action T A
  mapped policy m s = let (r, s') = m s in (map_result policy r, s')

infixl 5 ◌>>=◌ ◌>>◌
abbrev pub ◌>>=◌ : {T A B : Type 0} → Action T A → (A → Action T B) → Action T B
◌>>=◌ m f s = let (r, s') = m s in elim r [ ok a ↦ f a s' | err e ↦ (err e, s') ]

abbrev pub ◌>>◌ : {T B : Type 0} → Action T (Unit {0}) → Action T B → Action T B
m >> k = m >>= λ _. k
