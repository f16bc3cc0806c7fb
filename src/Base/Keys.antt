-- ===== src/Base/Keys.antt =====
-- Rows under a primary key: membership, distinct keys, and the row that a key selects.
use Prim.Native.Nat.{ℕ}
use mathlib.Core.Path.{◌≡◌, refl, ap, ◌∙◌, subst}
use mathlib.Core.Logic.{◌⊎◌, inl, inr}
use mathlib.Core.Bool.{Bool, true, false}
use mathlib.Core.Option
use mathlib.Core.Option.{Option, none, some}
use mathlib.Core.List.{List, [], ◌∷◌, map}
use native.Mathlib.Omega.{arith}
use go_starter_kit.Base.Tests.{
  Str, str_eq, str_eq-eq, Bool-cases, str_eq_refl, str_eq_comm, if◌then◌else◌, if_cases,
}
use go_starter_kit.Base.Lists.{All, All-mono, head?}
use go_starter_kit.Base.Sort.{insert_by, sort_by, IsSorted}
use go_starter_kit.Base.Table.{
  filter_by, find_by, any_by, find_by-some, update_by, remove_by, count_by, All-remove_by,
}

-- Rows stand in `Type 0`.
module _ {A : Type 0} where
  abbrev pub IsIn : A → List A → Type 0
  IsIn c [] = ⊥
  IsIn c (x ∷ xs) = (x ≡ c) ⊎ IsIn c xs

  pub All-self : (xs : List A) → All (λ x. IsIn x xs) xs
  All-self [] = tt
  All-self (x ∷ xs) =
      (inl refl, All-mono (λ y. IsIn y xs) (λ y. IsIn y (x ∷ xs)) (λ y h. inr h) xs (All-self xs))

  pub All-at {κ} : (P : A → Type κ) (xs : List A) {c : A} → All P xs → IsIn c xs → P c
  All-at P [] h m = absurd m
  All-at P (x ∷ xs) h (inl e) = subst P e h.0
  All-at P (x ∷ xs) h (inr m) = All-at P xs h.1 m

-- No two of these texts are equal.
abbrev pub AreDistinct : List Str → Type 0
AreDistinct [] = Unit
AreDistinct (k ∷ ks) = All (λ j. str_eq j k ≡ false) ks × AreDistinct ks

module _ {A : Type 0} (key : A → Str) where
  pub All-map : (P : Str → Type 0) (xs : List A) → All P (map key xs) → All (λ x. P (key x)) xs
  All-map P [] h = tt
  All-map P (x ∷ xs) h = (h.0, All-map P xs h.1)

  pub map-All : (P : Str → Type 0) (xs : List A) → All (λ x. P (key x)) xs → All P (map key xs)
  map-All P [] h = tt
  map-All P (x ∷ xs) h = (h.0, map-All P xs h.1)

  pub remove_by-AreDistinct :
      (p : A → Bool) (xs : List A)
      → AreDistinct (map key xs)
      → AreDistinct (map key (remove_by p xs))
  remove_by-AreDistinct p [] h = tt
  remove_by-AreDistinct p (x ∷ xs) h =
      if_cases (λ l. AreDistinct (map key l)) (p x) (λ _. remove_by-AreDistinct p xs h.1)
        (λ _. (
          map-All (λ j. str_eq j (key x) ≡ false) (remove_by p xs)
              (All-remove_by (λ y. str_eq (key y) (key x) ≡ false) p xs
                (All-map (λ j. str_eq j (key x) ≡ false) xs h.0)),
          remove_by-AreDistinct p xs h.1,
        ))

  -- The row under a key.
  abbrev pub lookup_by : Str → List A → Option A
  lookup_by k xs = find_by (λ r. str_eq (key r) k) xs

  pub lookup_by-some :
      (k : Str) (xs : List A) {c : A}
      → lookup_by k xs ≡ some c
      → (str_eq (key c) k ≡ true) × IsIn c xs
  lookup_by-some k xs e = find_by-some (λ x. IsIn x xs) (λ r. str_eq (key r) k) xs (All-self xs) e

  -- An update that keeps the keys acts on the row under each key.
  pub lookup_by-update_by :
      (k : Str) (p : A → Bool) (f : A → A) (xs : List A)
      → ((x : A) → key (f x) ≡ key x)
      → lookup_by k (update_by p f xs) ≡ Option.map (λ r. if p r then f r else r) (lookup_by k xs)
  lookup_by-update_by k p f [] same = refl
  lookup_by-update_by k p f (x ∷ xs) same =
      ground (arith, same x, lookup_by-update_by k p f xs same)

  pub lookup_by-remove_by_ne :
      (k : Str) (p : A → Bool) (xs : List A)
      → ((x : A) → p x ≡ true → str_eq (key x) k ≡ false)
      → lookup_by k (remove_by p xs) ≡ lookup_by k xs
  lookup_by-remove_by_ne k p [] other = refl
  lookup_by-remove_by_ne k p (x ∷ xs) other =
      ground (arith, other x, lookup_by-remove_by_ne k p xs other)

  -- The key of a row further down is another than the first row's.
  later-ne :
      (x : A) (xs : List A) (c : A)
      → AreDistinct (map key (x ∷ xs))
      → IsIn c xs
      → str_eq (key x) (key c) ≡ false
  later-ne x xs c h m =
      str_eq_comm (key x) (key c)
      ∙ All-at (λ y. str_eq (key y) (key x) ≡ false) xs
          (All-map (λ j. str_eq j (key x) ≡ false) xs h.0) m

  -- With distinct keys, the rows under the key of `c` are `c` alone.
  pub unique_match :
      (xs : List A) (c : A)
      → AreDistinct (map key xs)
      → IsIn c xs
      → All (λ x. str_eq (key x) (key c) ≡ true → x ≡ c) xs
  unique_match [] c h m = tt
  unique_match (x ∷ xs) c h (inl e) = (
    λ _. e,
    All-mono (λ y. str_eq (key y) (key x) ≡ false) (λ y. str_eq (key y) (key c) ≡ true → y ≡ c)
        (λ y ne eq. cc (ap (λ z. str_eq (key y) (key z)) e)) xs
        (All-map (λ j. str_eq j (key x) ≡ false) xs h.0),
  )
  unique_match (x ∷ xs) c h (inr m) = (λ eq. cc (later-ne x xs c h m), unique_match xs c h.1 m)

  pub lookup_by_self :
      (xs : List A) {c : A} → AreDistinct (map key xs) → IsIn c xs → lookup_by (key c) xs ≡ some c
  lookup_by_self [] h m = absurd m
  lookup_by_self (x ∷ xs) {c} h (inl e) =
      ground (arith, str_eq_refl (key c), ap (λ z. str_eq (key z) (key c)) e)
  lookup_by_self (x ∷ xs) {c} h (inr m) = rw (later-ne x xs c h m) (lookup_by_self xs h.1 m)

-- One or none, as the test decides on a row that may be missing.
abbrev pub hits {ℓ} : {A : Type ℓ} → (A → Bool) → Option A → ℕ
hits p none = 0
hits p (some r) = if p r then 1 else 0

module _ {A : Type 0} (key : A → Str) (k : Str) (p : A → Bool)
    (keyed : (x : A) → p x ≡ true → str_eq (key x) k ≡ true) where
  count_later : (xs : List A) → All (λ x. str_eq (key x) k ≡ false) xs → count_by p xs ≡ 0
  count_later [] h = refl
  count_later (x ∷ xs) h = ground (arith, keyed x, count_later xs h.1)

  distinct_later :
      (x : A) (xs : List A)
      → str_eq (key x) k ≡ true
      → AreDistinct (map key (x ∷ xs))
      → All (λ y. str_eq (key y) k ≡ false) xs
  distinct_later x xs e h =
      subst (λ j. All (λ y. str_eq (key y) j ≡ false) xs) (str_eq-eq (key x) k e)
        (All-map key (λ j. str_eq j (key x) ≡ false) xs h.0)

  -- The rows that a test on the key's row selects are that row or none.
  pub count_by-key :
      (xs : List A) → AreDistinct (map key xs) → count_by p xs ≡ hits p (lookup_by key k xs)
  count_by-key [] h = refl
  count_by-key (x ∷ xs) h = elim (Bool-cases (str_eq (key x) k)) [
    | inl e ↦ rw e (ground (arith, count_later xs (distinct_later x xs e h)))
    | inr e ↦ rw e (ground (arith, keyed x, count_by-key xs h.1))
  ]

module _ {A : Type 0} (key : A → Str) where
  pub lookup_by-none :
      (k : Str) (xs : List A)
      → any_by (λ x. str_eq (key x) k) xs ≡ false
      → lookup_by key k xs ≡ none
  lookup_by-none k [] h = refl
  lookup_by-none k (x ∷ xs) h = ground (arith, lookup_by-none k xs)

  -- A key that no row has is another than the key of a row that is found.
  pub fresh-ne :
      (j k : Str) (xs : List A) (r : A)
      → any_by (λ x. str_eq (key x) j) xs ≡ false
      → lookup_by key k xs ≡ some r
      → str_eq j k ≡ false
  fresh-ne j k xs r h e = elim (Bool-cases (str_eq j k)) [
    | inl same ↦ cc (lookup_by-none j xs h, ap (λ i. lookup_by key i xs) (str_eq-eq j k same))
    | inr other ↦ other
  ]

  -- A test that a row with distinct keys fails tells it from a row that passes.
  pub tested-ne :
      (q : A → Bool) (xs : List A) (r c : A)
      → AreDistinct (map key xs)
      → IsIn r xs
      → IsIn c xs
      → q r ≡ false
      → q c ≡ true
      → str_eq (key r) (key c) ≡ false
  tested-ne q xs r c d hr hc fails passes = elim (Bool-cases (str_eq (key r) (key c))) [
    | inl same ↦
        let e : r ≡ c =
          All-at (λ x. str_eq (key x) (key c) ≡ true → x ≡ c) xs (unique_match key xs c d hc) hr
            same in
        cc (ap q e)
    | inr other ↦ other
  ]

-- Selecting and sorting lose no row.
module _ {A : Type 0} (p : A → Bool) (le : A → A → Bool) where
  pub IsIn-filter_by : (xs : List A) (c : A) → IsIn c xs → p c ≡ true → IsIn c (filter_by p xs)
  IsIn-filter_by [] c m h = absurd m
  IsIn-filter_by (x ∷ xs) c (inl e) h = rw (ap p e ∙ h) (inl e)
  IsIn-filter_by (x ∷ xs) c (inr m) h =
      if_cases (IsIn c) (p x) (λ _. inr (IsIn-filter_by xs c m h)) (λ _. IsIn-filter_by xs c m h)

  IsIn-insert_by_self : (x : A) (xs : List A) → IsIn x (insert_by le x xs)
  IsIn-insert_by_self x [] = inl refl
  IsIn-insert_by_self x (y ∷ ys) =
      if_cases (IsIn x) (le x y) (λ _. inl refl) (λ _. inr (IsIn-insert_by_self x ys))

  IsIn-insert_by : (x c : A) (xs : List A) → IsIn c xs → IsIn c (insert_by le x xs)
  IsIn-insert_by x c [] m = absurd m
  IsIn-insert_by x c (y ∷ ys) (inl e) = if_cases (IsIn c) (le x y) (λ _. inr (inl e)) (λ _. inl e)
  IsIn-insert_by x c (y ∷ ys) (inr m) =
      if_cases (IsIn c) (le x y) (λ _. inr (inr m)) (λ _. inr (IsIn-insert_by x c ys m))

  pub IsIn-sort_by : (xs : List A) (c : A) → IsIn c xs → IsIn c (sort_by le xs)
  IsIn-sort_by [] c m = m
  IsIn-sort_by (x ∷ xs) c (inl e) =
      subst (λ y. IsIn y (insert_by le x (sort_by le xs))) e (IsIn-insert_by_self x (sort_by le xs))
  IsIn-sort_by (x ∷ xs) c (inr m) = IsIn-insert_by x c (sort_by le xs) (IsIn-sort_by xs c m)

module _ {A : Type 0} (le : A → A → Bool) (reflexive : (x : A) → le x x ≡ true) where
  -- The head of a sorted list is at most each of its elements.
  pub head_of_sorted :
      (xs : List A) (c x : A) → IsSorted le xs → head? xs ≡ some c → IsIn x xs → le c x ≡ true
  head_of_sorted [] c x s e m = absurd m
  head_of_sorted (y ∷ ys) c x s e (inl same) =
      let head : y ≡ c = ground arith in
      subst (λ z. le z x ≡ true) head (subst (λ z. le y z ≡ true) same (reflexive y))
  head_of_sorted (y ∷ ys) c x s e (inr m) =
      let head : y ≡ c = ground arith in
      subst (λ z. le z x ≡ true) head (All-at (λ z. le y z ≡ true) ys s.0 m)
