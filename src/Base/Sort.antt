-- ===== src/Base/Sort.antt =====
-- ORDER BY: a stable insertion sort.
use mathlib.Core.Path.{◌≡◌}
use mathlib.Core.Bool.{Bool, true, false}
use mathlib.Core.List.{List, [], ◌∷◌, Perm}
use mathlib.Core.List.Perm
use go_starter_kit.Base.Tests.{if◌then◌else◌, if_cases}
use go_starter_kit.Base.Lists.{All, All-mono}

module _ {ℓ} {A : Type ℓ} (le : A → A → Bool) where
  abbrev pub insert_by : A → List A → List A
  insert_by x [] = x ∷ []
  insert_by x (y ∷ ys) = if le x y then x ∷ y ∷ ys else y ∷ insert_by x ys

  abbrev pub sort_by : List A → List A
  sort_by [] = []
  sort_by (x ∷ xs) = insert_by x (sort_by xs)

  -- Every element is at most all that follow.
  abbrev pub IsSorted : List A → Type 0
  IsSorted [] = Unit
  IsSorted (x ∷ xs) = All (λ y. le x y ≡ true) xs × IsSorted xs

module _ {ℓ κ} {A : Type ℓ} (P : A → Type κ) (le : A → A → Bool) where
  pub All-insert_by : (x : A) (xs : List A) → P x → All P xs → All P (insert_by le x xs)
  All-insert_by x [] h hs = (h, tt)
  All-insert_by x (y ∷ ys) h hs =
      if_cases (All P) (le x y) (λ _. (h, hs)) (λ _. (hs.0, All-insert_by x ys h hs.1))

  pub All-sort_by : (xs : List A) → All P xs → All P (sort_by le xs)
  All-sort_by [] h = tt
  All-sort_by (x ∷ xs) h = All-insert_by x (sort_by le xs) h.0 (All-sort_by xs h.1)

module _ {ℓ} {A : Type ℓ} (le : A → A → Bool) where
  pub perm-insert_by : (x : A) (xs : List A) → Perm (insert_by le x xs) (x ∷ xs)
  perm-insert_by x [] = Perm.refl (x ∷ [])
  perm-insert_by x (y ∷ ys) =
      if_cases (λ l. Perm l (x ∷ y ∷ ys)) (le x y) (λ _. Perm.refl (x ∷ y ∷ ys))
        (λ _. Perm.trans (Perm.cons y (perm-insert_by x ys)) (Perm.swap x y ys))

  pub perm-sort_by : (xs : List A) → Perm (sort_by le xs) xs
  perm-sort_by [] = Perm.refl []
  perm-sort_by (x ∷ xs) =
      Perm.trans (perm-insert_by x (sort_by le xs)) (Perm.cons x (perm-sort_by xs))

module _ {ℓ} {A : Type ℓ} (le : A → A → Bool) (total : (x y : A) → le x y ≡ false → le y x ≡ true)
    (trans : (x y z : A) → le x y ≡ true → le y z ≡ true → le x z ≡ true) where
  insert_by-IsSorted : (x : A) (xs : List A) → IsSorted le xs → IsSorted le (insert_by le x xs)
  insert_by-IsSorted x [] h = (tt, tt)
  insert_by-IsSorted x (y ∷ ys) h =
      if_cases (IsSorted le) (le x y)
        (λ e.
          ((e, All-mono (λ z. le y z ≡ true) (λ z. le x z ≡ true) (λ z. trans x y z e) ys h.0), h))
        (λ e. (
          All-insert_by (λ z. le y z ≡ true) le x ys (total x y e) h.0,
          insert_by-IsSorted x ys h.1,
        ))

  -- For a total order given by a test, the result is sorted.
  pub sort_by-IsSorted : (xs : List A) → IsSorted le (sort_by le xs)
  sort_by-IsSorted [] = tt
  sort_by-IsSorted (x ∷ xs) = insert_by-IsSorted x (sort_by le xs) (sort_by-IsSorted xs)
