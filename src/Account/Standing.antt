-- ===== src/Account/Standing.antt =====
-- A row that once stands under its identifier, with a test that the statements do not undo.
use go_starter_kit.Base.{
  Str, Bool, true, false, List, [], ◌∷◌, Option, some, ◌≡◌, refl, ap, sym, subst, ◌∙◌, arith,
  str_eq, str_eq-eq, All, Bool-cases, inl, inr, any_by, find_by, find_by-some, count_by, update_by,
  All-update_by, none, AreDistinct, map, hits, lookup_by, lookup_by-some, count_by-key,
  unique_match, IsIn, All-mono, All-update_by_each,
}

module _ {A : Type 0} (key : A → Str) (id : Str) (good : A → Bool) where
  -- There is a row under `id`, and all rows under it pass the test.
  pub record Stands (xs : List A) : Type 0 where
    pub there : any_by (λ x. str_eq (key x) id) xs ≡ true
    pub rows : All (λ x. str_eq (key x) id ≡ true → good x ≡ true) xs

  any_by-update_by :
      (p : A → Bool) (f : A → A)
      → ((x : A) → key (f x) ≡ key x)
      → (xs : List A)
      → any_by (λ x. str_eq (key x) id) (update_by p f xs) ≡ any_by (λ x. str_eq (key x) id) xs
  any_by-update_by p f same [] = refl
  any_by-update_by p f same (x ∷ xs) = elim (Bool-cases (p x)) [
    | inl e ↦ rw (e, same x, any_by-update_by p f same xs) refl
    | inr e ↦ rw (e, any_by-update_by p f same xs) refl
  ]

  pub Stands-update_by :
      (p : A → Bool) (f : A → A)
      → ((x : A) → key (f x) ≡ key x)
      → ((x : A) → p x ≡ true → good x ≡ true → good (f x) ≡ true)
      → (xs : List A) → Stands xs
      → Stands (update_by p f xs)
  Stands-update_by p f same keep xs h = record {
    there = any_by-update_by p f same xs ∙ h.there;
    rows =
        All-update_by (λ x. str_eq (key x) id ≡ true → good x ≡ true) p f
          (λ x e g is. keep x e (g (ap (λ k. str_eq k id) (sym (same x)) ∙ is))) xs h.rows;
  }

  -- A new row whose identifier is not in the table.
  pub Stands-cons :
      (x : A) (xs : List A)
      → any_by (λ y. str_eq (key y) (key x)) xs ≡ false
      → Stands xs
      → Stands (x ∷ xs)
  Stands-cons x xs fresh h = record {
    there = ground (arith, h.there);
    rows = (
      λ is.
          let bad : any_by (λ y. str_eq (key y) id) xs ≡ false =
            subst (λ k. any_by (λ y. str_eq (key y) k) xs ≡ false) (str_eq-eq (key x) id is)
              fresh in
          absurd (ground (arith, h.there)),
      h.rows,
    );
  }

  -- A row that is found passes, if it is under `id`.
  pub found-Stands :
      (p : A → Bool) (xs : List A) {x : A}
      → Stands xs
      → find_by p xs ≡ some x
      → (p x ≡ true) × (str_eq (key x) id ≡ true → good x ≡ true)
  found-Stands p xs h e = find_by-some (λ x. str_eq (key x) id ≡ true → good x ≡ true) p xs h.rows e

  -- A test that no good row passes selects none under `id`.
  pub count-Stands :
      (p : A → Bool) (xs : List A)
      → ((x : A) → p x ≡ true → (str_eq (key x) id ≡ true) × (good x ≡ false))
      → Stands xs
      → count_by p xs ≡ 0
  count-Stands p xs narrow h = none_of xs h.rows
    where
      none_of :
          (xs : List A) → All (λ x. str_eq (key x) id ≡ true → good x ≡ true) xs → count_by p xs ≡ 0
      none_of [] a = refl
      none_of (x ∷ xs) a = elim (Bool-cases (p x)) [
        | inl e ↦ let (is, bad) = narrow x e in let fine = a.0 is in absurd (ground arith)
        | inr e ↦ rw e (none_of xs a.1)
      ]

  any_by-IsIn :
      (xs : List A) (r : A)
      → IsIn r xs
      → str_eq (key r) id ≡ true
      → any_by (λ x. str_eq (key x) id) xs ≡ true
  any_by-IsIn [] r m e = absurd m
  any_by-IsIn (x ∷ xs) r (inl same) e = ground (arith, ap (λ y. str_eq (key y) id) same)
  any_by-IsIn (x ∷ xs) r (inr m) e = ground (arith, any_by-IsIn xs r m e)

  selected : (p : A → Bool) (o : Option A) → hits p o ≡ 1 → (r : A) × (o ≡ some r) × (p r ≡ true)
  selected p none h = absurd (omega (arith, h))
  selected p (some r) h = (r, refl, ground arith)

  -- Where the keys are distinct, an update that has changed one row under `id`, to a row that passes,
  -- has made the row stand.
  pub changed-Stands :
      (p : A → Bool) (f : A → A)
      → ((x : A) → key (f x) ≡ key x)
      → ((x : A) → p x ≡ true → str_eq (key x) id ≡ true)
      → ((x : A) → p x ≡ true → good (f x) ≡ true)
      → (xs : List A) → AreDistinct (map key xs)
      → count_by p xs ≡ 1
      → Stands (update_by p f xs)
  changed-Stands p f same keyed fine xs distinct one =
      let (r, found, passes) =
        selected p (lookup_by key id xs) (sym (count_by-key key id p keyed xs distinct) ∙ one) in
      let (at, here) = lookup_by-some key id xs found in
      let Good = λ (x : A). str_eq (key x) id ≡ true → good x ≡ true in
      let alone = unique_match key xs r distinct here in
      record {
        there = any_by-update_by p f same xs ∙ any_by-IsIn xs r here at;
        rows = All-update_by_each Good p f xs (
            All-mono (λ x. str_eq (key x) (key r) ≡ true → x ≡ r)
              (λ x. (p x ≡ true → Good (f x)) × (p x ≡ false → Good x))
              (λ x only. (
                λ e _. fine x e,
                λ e is. cc (
                    ap p (
                      only
                        (subst (λ k. str_eq (key x) k ≡ true) (sym (str_eq-eq (key r) id at)) is))),
              ))
              xs alone);
      }
