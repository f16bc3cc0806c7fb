-- ===== src/Pagination/Pages.antt =====
-- A page against the whole list that it is cut from, and the pages one after the other.
use go_starter_kit.Base.{
  ℕ, ℤ, pos, zero, suc, ◌+◌, ◌≤◌, ◌<◌, ◌≡◌, ap, true, List, ◌++◌, map, length, take, drop, ltb,
  pos_part, Option, none, some, arith, ◌∙◌, sym, take-take, drop-drop, take_all, take-append-drop,
  length-take, length-drop, if◌then◌else◌, Bool-cases, inl, inr,
}
use mathlib.Core.Option
use mathlib.Core.List.{map-append}
use go_starter_kit.Pagination.{Params, Page, validate, fetch_limit, build, map_page}

-- What LIMIT and OFFSET leave of the rows in order.
abbrev pub window {ℓ} : {A : Type ℓ} → ℤ → ℤ → List A → List A
window limit offset rows = take (pos_part limit) (drop (pos_part offset) rows)

-- Of at most one row more than `n`, the page keeps `n`.
cut {ℓ} :
    {A : Type ℓ} (n : ℕ) (xs : List A)
    → (if ltb n (length (take (n + 1) xs)) then take n (take (n + 1) xs) else take (n + 1) xs)
      ≡ take n xs
cut n xs = elim (Bool-cases (ltb n (length (take (n + 1) xs)))) [
  | inl e ↦ rw e (take-take n (n + 1) xs (omega arith))
  | inr e ↦ rw e (
      take_all (n + 1) xs (ground (arith, length-take (n + 1) xs))
      ∙ sym (take_all n xs (ground (arith, length-take (n + 1) xs))))
]

fetch_limit_lem : (p : Params) → validate p ≡ true → fetch_limit p ≡ pos (pos_part p.limit + 1)
unfolding validate fetch_limit
fetch_limit_lem p h = ground arith

-- One row more was found exactly when the list goes on behind the window.
more_window {ℓ} :
    {A : Type ℓ} (n o : ℕ) (xs : List A)
    → ltb n (length (take (n + 1) (drop o xs))) ≡ ltb (o + n) (length xs)
more_window n o xs = ground (arith, length-take (n + 1) (drop o xs), length-drop o xs)

module _ {ℓ κ} {S : Type ℓ} {T : Type κ} (all : List S) (convert : S → T) where
  -- The page that the window of `limit` rows at `offset` stands for.
  abbrev pub window_page : Params → Page T
  window_page p = record {
    items = map convert (window p.limit p.offset all);
    has_more = ltb (pos_part p.offset + pos_part p.limit) (length all);
    limit = p.limit;
    offset = p.offset;
  }

  -- With valid parameters, the page built of the rows that were fetched with the limit raised by one
  -- holds the rows of its window, and says that there are more exactly when the whole list goes on
  -- behind the window.
  pub build-window :
      (p : Params)
      → validate p ≡ true
      → build (window (fetch_limit p) p.offset all) p convert ≡ some (window_page p)
  unfolding build map_page
  build-window p h =
      let n = pos_part p.limit in
      let o = pos_part p.offset in
      rw (fetch_limit_lem p h) (rw h (rw (cut n (drop o all)) (rw (more_window n o all))))

  abbrev at : ℕ → ℕ → Params
  at l o = record { limit = pos l; offset = pos o }

  abbrev continue : Option (Page T) → Option (List T) → Option (List T)
  continue none rest = none
  continue (some page) rest =
      if page.has_more then Option.map (λ more. page.items ++ more) rest else some page.items

  -- A client that asks for pages of `l` rows from offset `o` on, as long as there are more.
  unfoldable pub follow : ℕ → ℕ → ℕ → Option (List T)
  follow zero l o = none
  follow (suc fuel) l o =
      continue (build (window (fetch_limit (at l o)) (pos o) all) (at l o) convert)
        (follow fuel l (o + l))

  at-validate : (l o : ℕ) → 1 ≤ l → l ≤ 100 → o ≤ 10000 → validate (at l o) ≡ true
  unfolding validate
  at-validate l o low high far = ground arith

  windows_join :
      (l o : ℕ)
      → map convert (take l (drop o all)) ++ map convert (drop (o + l) all)
        ≡ map convert (drop o all)
  windows_join l o = rw (← drop-drop l o all) (
      sym (map-append convert (take l (drop o all)) (drop l (drop o all)))
      ∙ ap (map convert) (take-append-drop l (drop o all)))

  follow_from :
      (fuel l o : ℕ)
      → 1 ≤ l
      → l ≤ 100
      → o ≤ 10000
      → o ≤ length all
      → length all ≤ 10001
      → length all < o + fuel
      → follow fuel l o ≡ some (map convert (drop o all))
  unfolding follow
  follow_from zero l o low high far inside small enough = absurd (omega arith)
  follow_from (suc fuel) l o low high far inside small enough =
      rw (build-window (at l o) (at-validate l o low high far))
        (elim (Bool-cases (ltb (o + l) (length all))) [
          | inl more ↦
              rw
                (
                  more,
                  follow_from fuel l (o + l) low high (ground arith) (ground arith) small
                      (omega arith),
                )
                (ap some (windows_join l o))
          | inr last ↦ rw last (
              ap (λ rows. some (map convert rows))
                (take_all l (drop o all) (ground (arith, length-drop o all))))
        ])

  -- A list of at most 10001 rows that does not change meanwhile is read whole, each row once and in
  -- order, by following the pages from offset 0 with a limit from 1 to 100; it takes no more
  -- requests than there are rows, and one.
  pub follow_complete :
      (l : ℕ)
      → 1 ≤ l
      → l ≤ 100
      → length all ≤ 10001
      → follow (length all + 1) l 0 ≡ some (map convert all)
  follow_complete l low high small =
      follow_from (length all + 1) l 0 low high (omega arith) (omega arith) small (omega arith)
