-- ===== src/Base/Table.antt =====
-- Rows selected by a test, as the WHERE clause of a query does.
use Prim.Native.Nat.{ℕ, suc, ◌≤◌}
use mathlib.Core.Path.{◌≡◌, refl, ap, ap₂, subst}
use mathlib.Core.Logic.{inl, inr}
use mathlib.Core.Bool.{Bool, true, false, ◌||◌}
use mathlib.Core.Option.{Option, none, some}
use mathlib.Core.List.{List, [], ◌∷◌, map}
use native.Mathlib.Omega.{arith}
use go_starter_kit.Base.Tests.{if◌then◌else◌, Bool-cases, if_cases}
use go_starter_kit.Base.Lists.{All, length}

module _ {ℓ} {A : Type ℓ} (p : A → Bool) where
  abbrev pub filter_by : List A → List A
  filter_by [] = []
  filter_by (x ∷ xs) = if p x then x ∷ filter_by xs else filter_by xs

  abbrev pub find_by : List A → Option A
  find_by [] = none
  find_by (x ∷ xs) = if p x then some x else find_by xs

  abbrev pub any_by : List A → Bool
  any_by [] = false
  any_by (x ∷ xs) = p x || any_by xs

  abbrev pub count_by : List A → ℕ
  count_by [] = 0
  count_by (x ∷ xs) = if p x then suc (count_by xs) else count_by xs

  -- UPDATE … SET … WHERE
  abbrev pub update_by : (A → A) → List A → List A
  update_by f [] = []
  update_by f (x ∷ xs) = (if p x then f x else x) ∷ update_by f xs

  -- DELETE … WHERE
  abbrev pub remove_by : List A → List A
  remove_by [] = []
  remove_by (x ∷ xs) = if p x then remove_by xs else x ∷ remove_by xs

module _ {ℓ κ} {A : Type ℓ} (P : A → Type κ) (p : A → Bool) where
  pub All-update_by :
      (f : A → A)
      → ((x : A) → p x ≡ true → P x → P (f x))
      → (xs : List A) → All P xs
      → All P (update_by p f xs)
  All-update_by f keep [] h = tt
  All-update_by f keep (x ∷ xs) h =
      (if_cases P (p x) (λ e. keep x e h.0) (λ _. h.0), All-update_by f keep xs h.1)

  pub All-remove_by : (xs : List A) → All P xs → All P (remove_by p xs)
  All-remove_by [] h = tt
  All-remove_by (x ∷ xs) h =
      if_cases (All P) (p x) (λ _. All-remove_by xs h.1) (λ _. (h.0, All-remove_by xs h.1))

  pub All-filter_by : (xs : List A) → All P xs → All P (filter_by p xs)
  All-filter_by [] h = tt
  All-filter_by (x ∷ xs) h =
      if_cases (All P) (p x) (λ _. (h.0, All-filter_by xs h.1)) (λ _. All-filter_by xs h.1)

  -- What a lookup finds passes the test, and satisfies what every row does.
  pub find_by-some : (xs : List A) {x : A} → All P xs → find_by p xs ≡ some x → (p x ≡ true) × P x
  find_by-some [] h e = cc
  find_by-some (y ∷ xs) {x} h e = elim (Bool-cases (p y)) [
    | inl q ↦ let same : y ≡ x = ground arith in (rw (← same) q, subst P same h.0)
    | inr q ↦ find_by-some xs h.1 (rw q at e)
  ]

-- All rows that are selected satisfy the test.
pub All-filter_by_self {ℓ} :
    {A : Type ℓ} (p : A → Bool) (xs : List A) → All (λ x. p x ≡ true) (filter_by p xs)
All-filter_by_self p [] = tt
All-filter_by_self p (x ∷ xs) = elim (Bool-cases (p x)) [
  | inl e ↦ rw e (e, All-filter_by_self p xs)
  | inr e ↦ rw e (All-filter_by_self p xs)
]

pub length-filter_by-le {ℓ} :
    {A : Type ℓ} (p : A → Bool) (xs : List A) → length (filter_by p xs) ≤ length xs
length-filter_by-le p [] = omega arith
length-filter_by-le p (x ∷ xs) = ground (arith, length-filter_by-le p xs)

-- An update that leaves a field alone leaves the column alone.
pub map-update_by {ℓ κ} :
    {A : Type ℓ} {B : Type κ} (g : A → B) (p : A → Bool) (f : A → A)
    → ((x : A) → g (f x) ≡ g x)
    → (xs : List A) → map g (update_by p f xs) ≡ map g xs
map-update_by g p f same [] = refl
map-update_by g p f same (x ∷ xs) =
    ap₂ ◌∷◌ (if_cases (λ y. g y ≡ g x) (p x) (λ _. same x) (λ _. refl))
      (map-update_by g p f same xs)

-- An update that no row passes changes nothing.
pub update_by_none {ℓ} :
    {A : Type ℓ} (p : A → Bool) (f : A → A) (xs : List A)
    → All (λ x. p x ≡ false) xs
    → update_by p f xs ≡ xs
update_by_none p f [] h = refl
update_by_none p f (x ∷ xs) h = rw h.0 (ap (λ l. x ∷ l) (update_by_none p f xs h.1))

-- The general rule for an update: what holds of each row's image.
pub All-update_by_each {ℓ κ} :
    {A : Type ℓ} (Q : A → Type κ) (p : A → Bool) (f : A → A) (xs : List A)
    → All (λ x. (p x ≡ true → Q (f x)) × (p x ≡ false → Q x)) xs
    → All Q (update_by p f xs)
All-update_by_each Q p f [] h = tt
All-update_by_each Q p f (x ∷ xs) h =
    (if_cases Q (p x) (λ e. h.0.0 e) (λ e. h.0.1 e), All-update_by_each Q p f xs h.1)

pub count_by_zero {ℓ} :
    {A : Type ℓ} (p : A → Bool) (xs : List A) → count_by p xs ≡ 0 → All (λ x. p x ≡ false) xs
count_by_zero p [] h = tt
count_by_zero p (x ∷ xs) h = elim (Bool-cases (p x)) [
  | inl e ↦ let bad : suc (count_by p xs) ≡ 0 = rw e at h in absurd (omega arith)
  | inr e ↦ (e, count_by_zero p xs (rw e at h))
]

-- An update of rows outside a selection, to rows outside it, leaves the selection alone.
pub filter_by-update_by {ℓ} :
    {A : Type ℓ} (q p : A → Bool) (f : A → A)
    → ((x : A) → p x ≡ true → (q x ≡ false) × (q (f x) ≡ false))
    → (xs : List A) → filter_by q (update_by p f xs) ≡ filter_by q xs
filter_by-update_by q p f apart [] = refl
filter_by-update_by q p f apart (x ∷ xs) = elim (Bool-cases (p x)) [
  | inl e ↦
      let (before, after) = apart x e in rw (e, before, after) (filter_by-update_by q p f apart xs)
  | inr e ↦ rw (e, filter_by-update_by q p f apart xs)
]

pub filter_by-remove_by {ℓ} :
    {A : Type ℓ} (q p : A → Bool)
    → ((x : A) → p x ≡ true → q x ≡ false)
    → (xs : List A) → filter_by q (remove_by p xs) ≡ filter_by q xs
filter_by-remove_by q p apart [] = refl
filter_by-remove_by q p apart (x ∷ xs) = elim (Bool-cases (p x)) [
  | inl e ↦ rw (e, apart x e) (filter_by-remove_by q p apart xs)
  | inr e ↦ rw (e, filter_by-remove_by q p apart xs)
]

-- What was removed is not found.
pub find_by-remove_by {ℓ} :
    {A : Type ℓ} (p : A → Bool) (xs : List A) → find_by p (remove_by p xs) ≡ none
find_by-remove_by p [] = refl
find_by-remove_by p (x ∷ xs) =
    if_cases (λ rest. find_by p rest ≡ none) (p x) (λ _. find_by-remove_by p xs)
      (λ other. rw other (find_by-remove_by p xs))

-- No row passes a test that none passes.
pub none_by {ℓ} :
    {A : Type ℓ} (p : A → Bool) (xs : List A) → any_by p xs ≡ false → All (λ x. p x ≡ false) xs
none_by p [] h = tt
none_by p (x ∷ xs) h = (ground arith, none_by p xs (ground arith))

-- The first row that passes, once those that pass have been changed so that they still do.
pub find_by-update_by {ℓ} :
    {A : Type ℓ} (p : A → Bool) (f : A → A) (xs : List A) {x : A}
    → ((y : A) → p y ≡ true → p (f y) ≡ true)
    → find_by p xs ≡ some x
    → find_by p (update_by p f xs) ≡ some (f x)
find_by-update_by p f [] still e = absurd (ground arith)
find_by-update_by p f (y ∷ xs) still e = elim (Bool-cases (p y)) [
  | inl here ↦ rw (here, still y here) (ground arith)
  | inr other ↦ rw (other, other) (find_by-update_by p f xs still (ground arith))
]
