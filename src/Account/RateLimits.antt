-- ===== src/Account/RateLimits.antt =====
-- What a limit lets pass in one window (rate_limit.go, auth_rate_limits.sql.go).
use go_starter_kit.Base.{
  ℕ, ◌+◌, ◌*◌, ◌≤◌, ◌<◌, suc, min, Str, Bool, true, false, List, [], ◌∷◌, ◌++◌, Option, none, some,
  ◌≡◌, ◌⊎◌, inl, inr, refl, ap, arith, str_eq, str_eq-eq, str_eq_refl, str_eq_comm, leb, ltb, ◌==◌,
  count_by, update_by, lookup_by, lookup_by-update_by, lookup_by-some, length, All, Bool-cases,
  Option-cases, if◌then◌else◌, ◌&&◌, subst, sym, ◌∙◌,
}
use go_starter_kit.AppError.Retry.{second, with_retry_after}
use go_starter_kit.Db.{Result, ok, err, Session, query, ◌>>=◌}
use go_starter_kit.Db.Rest.{at_rest}
use go_starter_kit.Account.Tables.{Bucket, Tables}
use go_starter_kit.Account.Records.{rate_limit, RateLimitRow, bumped_bucket, limit_row, max_count}
use go_starter_kit.AppError.{business, joined}
use go_starter_kit.Account.Env.{Env, whole_seconds, recast, err_unavailable}
use go_starter_kit.Account.Audit.{limit, bucket_key, within}
use go_starter_kit.Account.Store

abbrev pub bucket_of : Str → Tables → Option Bucket
bucket_of key t = lookup_by (λ (b : Bucket). b.bucket_key) key t.buckets

-- The bucket after a request, as the statement leaves it.
abbrev pub next_bucket : Str → ℕ → ℕ → Option Bucket → Bucket
next_bucket key window now none = record {
  bucket_key = key;
  count = 1;
  expires_at = now + window * 1000000;
}
next_bucket key window now (some b) = bumped_bucket window now b

bumped_bucket-key :
    (window now : ℕ) (b : Bucket) → (bumped_bucket window now b).bucket_key ≡ b.bucket_key
unfolding bumped_bucket
bumped_bucket-key window now b = ground arith

-- The bucket under a key after an UPDATE of the one under `key`.
updated :
    (key other : Str) (f : Bucket → Bucket) (t : Tables) {b : Bucket}
    → ((x : Bucket) → (f x).bucket_key ≡ x.bucket_key)
    → bucket_of key t ≡ some b
    → lookup_by
        (λ (x : Bucket). x.bucket_key)
        other
        (update_by (λ x. str_eq x.bucket_key key) f t.buckets)
      ≡ (if str_eq key other then some (f b) else bucket_of other t)
updated key other f t {b} same found =
    let under = λ (x : Bucket). x.bucket_key in
    let at = lookup_by-update_by under other (λ x. str_eq x.bucket_key key) f t.buckets same in
    let (keyed, _) = lookup_by-some under key t.buckets found in
    elim (Bool-cases (str_eq key other)) [
      | inl is ↦
          let here : bucket_of other t ≡ some b =
            subst (λ k. bucket_of k t ≡ some b) (str_eq-eq key other is) found in
          at ∙ rw (here, is) (rw keyed refl)
      | inr ne ↦ elim (Option-cases (bucket_of other t)) [
        | inl nothing ↦ at ∙ rw (nothing, ne) refl
        | inr (c, there) ↦
            let (named, _) = lookup_by-some under other t.buckets there in
            let apart : str_eq c.bucket_key key ≡ false =
              subst (λ k. str_eq k key ≡ false) (sym (str_eq-eq c.bucket_key other named))
                (str_eq_comm other key ∙ ne) in
            at ∙ rw (there, ne) (rw apart refl)
      ]
    ]

-- A request changes its own bucket alone.
rate_limit-bucket_of :
    (key other : Str) (window now : ℕ) (t : Tables)
    → bucket_of other (rate_limit key window now t).1 ≡ (
        if str_eq key other
        then some (next_bucket key window now (bucket_of key t))
        else bucket_of other t)
unfolding rate_limit
rate_limit-bucket_of key other window now t = elim (Option-cases (bucket_of key t)) [
  | inl no_bucket ↦ rw no_bucket refl
  | inr (b, found) ↦
      rw found (updated key other (bumped_bucket window now) t (bumped_bucket-key window now) found)
]

rate_limit-row :
    (key : Str) (window now : ℕ) (t : Tables)
    → (rate_limit key window now t).0
      ≡ ok (limit_row now (next_bucket key window now (bucket_of key t)))
unfolding rate_limit
rate_limit-row key window now t = elim (Option-cases (bucket_of key t)) [
  | inl no_bucket ↦ rw no_bucket refl
  | inr (b, found) ↦ rw found refl
]

-- The bucket of a key after `hits` requests in the window that began after `start`: none yet, or one that
-- is over, or one that counts them and goes on to the end of the window.
abbrev pub HasCounted : ℕ → ℕ → ℕ → Option Bucket → Type 0
HasCounted start window hits none = hits ≡ 0
HasCounted start window hits (some b) =
    ((hits ≡ 0) × (b.expires_at ≤ start))
    ⊎ ((b.count ≡ min hits max_count) × (start + window * 1000000 ≤ b.expires_at) × (0 < hits))

module _ (key : Str) (start window now hits : ℕ)
    (inside : (start ≤ now) × (now < start + window * 1000000)) where
  next_bucket-counted :
      (o : Option Bucket)
      → HasCounted start window hits o
      → ((next_bucket key window now o).count ≡ min (hits + 1) max_count)
        × (start + window * 1000000 ≤ (next_bucket key window now o).expires_at)
  unfolding bumped_bucket
  next_bucket-counted none h = omega arith
  next_bucket-counted (some b) (inl (none_yet, over)) = ground arith
  next_bucket-counted (some b) (inr (counted, lasts, some_yet)) = ground arith

abbrev pub is_ok {ℓ} : {A : Type ℓ} → Result A → Bool
is_ok (ok _) = true
is_ok (err _) = false

-- How many of these requests, at their times and under their keys, are let pass under the key `who`, one
-- after the other on a database where nothing else happens.
unfoldable pub let_pass :
    Env → (category who : Str) → (max window : ℕ) → List (ℕ × Str) → Tables → ℕ
let_pass env category who max window [] t = 0
let_pass env category who max window ((now, key) ∷ rest) t =
    let (r, s) = limit env category key max window (at_rest t now) in
    let later = let_pass env category who max window rest s.table in
    if is_ok r && str_eq key who then suc later else later

within-answer :
    (max : ℕ) (row : RateLimitRow) (s : Session Tables)
    → (is_ok (within max row s).0 ≡ leb row.count max) × ((within max row s).1 ≡ s)
unfolding with_retry_after
within-answer max row s = elim (Bool-cases (ltb max row.count)) [
  | inl over ↦ rw over (ground arith, refl)
  | inr fits ↦ rw fits (ground arith, refl)
]

-- The key of each other request has a digest of its own.
abbrev pub AreApart : Env → Str → Str → List (ℕ × Str) → Type 0
AreApart env category who requests =
    All
      (λ r.
        str_eq r.1 who ≡ false
        → str_eq (bucket_key env category r.1) (bucket_key env category who) ≡ false)
      requests

-- The requests are made from `start` on, within one window.
abbrev pub AreWithin : ℕ → ℕ → List (ℕ × Str) → Type 0
AreWithin window start requests =
    All (λ r. (start ≤ r.0) × (r.0 < start + whole_seconds window * 1000000)) requests

module _ (env : Env) (category : Str) (max window : ℕ) (long : second ≤ window)
    (hashed : (text : Str) → length (env.digest text) ≡ 32) where
  abbrev bucket_now : Str → ℕ → Tables → Bucket
  bucket_now key now t =
      next_bucket (bucket_key env category key) (whole_seconds window) now
        (bucket_of (bucket_key env category key) t)

  stored :
      (key : Str) (now : ℕ) (t : Tables)
      → Store.rate_limit (bucket_key env category key) (whole_seconds window) (at_rest t now) ≡ (
        ok (limit_row now (bucket_now key now t)),
        at_rest (rate_limit (bucket_key env category key) (whole_seconds window) now t).1 now,
      )
  unfolding Store.rate_limit query
  stored key now t =
      let digest = bucket_key env category key in
      let size : length digest ≡ 32 = hashed (category ++ 0 ∷ key) in
      let valid : (length digest == Store.hash_size && ltb 0 (whole_seconds window)) ≡ true =
        ground arith in
      rw valid (
        ap
          (λ (r : Result RateLimitRow).
            (r, at_rest (rate_limit digest (whole_seconds window) now t).1 now))
          (rate_limit-row digest (whole_seconds window) now t))

  limit-at_rest :
      (key : Str) (now : ℕ) (t : Tables)
      → (is_ok (limit env category key max window (at_rest t now)).0
          ≡ leb (bucket_now key now t).count max)
        × ((limit env category key max window (at_rest t now)).1.table
            ≡ (rate_limit (bucket_key env category key) (whole_seconds window) now t).1)
  unfolding limit
  limit-at_rest key now t =
      let after =
        at_rest (rate_limit (bucket_key env category key) (whole_seconds window) now t).1 now in
      let (answer, still) = within-answer max (limit_row now (bucket_now key now t)) after in
      let behind = λ (x : Result RateLimitRow × Session Tables).
        (recast (joined (business err_unavailable)) (λ _. x) >>= within max) (at_rest t now) in
      subst
        (λ (x : Result RateLimitRow × Session Tables).
          (is_ok (behind x).0 ≡ leb (bucket_now key now t).count max)
          × ((behind x).1.table
              ≡ (rate_limit (bucket_key env category key) (whole_seconds window) now t).1))
        (sym (stored key now t)) (answer, ap (λ (s : Session Tables). s.table) still)

  let_pass-counted :
      (who : Str) (start hits : ℕ) (requests : List (ℕ × Str)) (t : Tables)
      → max < max_count
      → AreApart env category who requests
      → AreWithin window start requests
      → HasCounted start (whole_seconds window) hits (bucket_of (bucket_key env category who) t)
      → let_pass env category who max window requests t + min hits max
        ≡ min (hits + count_by (λ r. str_eq r.1 who) requests) max
  unfolding let_pass
  let_pass-counted who start hits [] t small apart inside h = omega arith
  let_pass-counted who start hits ((now, key) ∷ rest) t small apart inside h =
      let mine = bucket_key env category who in
      let used = bucket_key env category key in
      let length_of = whole_seconds window in
      let (answer, left) = limit-at_rest key now t in
      let after = (rate_limit used length_of now t).1 in
      let moved = rate_limit-bucket_of used mine length_of now t in
      let count_rest = λ (n : ℕ). let_pass-counted who start n rest in
      elim (Bool-cases (str_eq key who)) [
        | inl is ↦
            let same : used ≡ mine = ap (bucket_key env category) (str_eq-eq key who is) in
            let (counted, lasts) =
              next_bucket-counted used start length_of now hits inside.0 (bucket_of used t)
                (subst (λ k. HasCounted start length_of hits (bucket_of k t)) (sym same) h) in
            let now_mine : bucket_of mine after ≡ some (bucket_now key now t) =
              moved ∙ rw (subst (λ k. str_eq used k ≡ true) same (str_eq_refl used)) refl in
            let ih =
              count_rest (hits + 1) after small apart.1 inside.1
                (rw now_mine (inr (counted, lasts, omega arith))) in
            rw (left, is, answer) (ground (arith, ih, counted))
        | inr ne ↦
            let untouched : bucket_of mine after ≡ bucket_of mine t =
              moved ∙ rw (apart.0 ne) refl in
            let ih =
              count_rest hits after small apart.1 inside.1
                (subst (HasCounted start length_of hits) (sym untouched) h) in
            rw (left, ne) (ground (arith, ih))
      ]

-- No window of the key is open at `start`.
abbrev pub IsOver : ℕ → Option Bucket → Type 0
IsOver start none = Unit {0}
IsOver start (some b) = b.expires_at ≤ start

IsOver-HasCounted :
    (start window : ℕ) (o : Option Bucket) → IsOver start o → HasCounted start window 0 o
IsOver-HasCounted start window none h = refl
IsOver-HasCounted start window (some b) h = inl (refl, h)

-- Of the requests that are made under a key within one window, by a digest of 32 bytes and with a limit
-- below a million over a second or more, as many are let pass as the limit says, or all if they are
-- fewer: whatever requests under other keys, with other digests, come in between, if no window of the
-- key was open at the start and nothing else happens on the database.
pub let_pass_limited :
    (env : Env) (category : Str) (max window : ℕ) (who : Str) (start : ℕ)
    (requests : List (ℕ × Str)) (t : Tables)
    → second ≤ window
    → max < max_count
    → ((text : Str) → length (env.digest text) ≡ 32)
    → AreApart env category who requests
    → AreWithin window start requests
    → IsOver start (bucket_of (bucket_key env category who) t)
    → let_pass env category who max window requests t
      ≡ min (count_by (λ r. str_eq r.1 who) requests) max
let_pass_limited env category max window who start requests t long small hashed apart inside over =
    let counted =
      let_pass-counted env category max window long hashed who start 0 requests t small apart inside
        (IsOver-HasCounted start (whole_seconds window) (bucket_of (bucket_key env category who) t)
          over) in
    omega (arith, counted)
