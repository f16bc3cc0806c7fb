-- ===== src/Passwords/Bounds.antt =====
-- What is computed on behalf of whoever logs in, and what it takes to match.
use go_starter_kit.Base.{
  ℕ, ◌≤◌, Str, Bool, true, false, ◌&&◌, List, [], ◌∷◌, Option, none, some, leb, ltb, length, ◌≡◌,
  ◌⊎◌, inl, inr, refl, arith, ap, All, Bool-cases, Option-cases, ◌∙◌, sym,
}
use go_starter_kit.AppError.{GoError}
use go_starter_kit.Db.{Result, ok, err, ok-injective}
use go_starter_kit.Passwords.{
  HashParams, Argon2id, Looks, Slots, verify, compare_with, chosen, decoded, is_allowed, is_weak,
  allowed_params, answered, with_slot, acquire, take_slot, free_slot, freed, unless_done,
  max_password_bytes, max_encoded_hash_bytes,
}

-- The hash may be computed.
abbrev pub IsCheap : Argon2id → Str → Type 0
IsCheap lib h = is_allowed (lib.decode_hash h) ≡ true

chosen-IsCheap :
    (lib : Argon2id) (dummy stored : Str)
    → IsCheap lib dummy
    → IsCheap lib (chosen lib dummy stored)
unfolding chosen
chosen-IsCheap lib dummy stored cheap = elim (Bool-cases (is_allowed (decoded lib stored))) [
  | inl good ↦ rw good (elim (Bool-cases (leb (length stored) max_encoded_hash_bytes)) [
    | inl short ↦ rw short at good
    | inr long ↦ let bad : false ≡ true = rw long at good in cc bad
  ])
  | inr other ↦ rw other cheap
]

module _ (looks : Looks) where
  back : (s : Slots) → free_slot (take_slot s) ≡ s
  back s = ap (λ n. record s { taken = n }) (omega arith)

  acquire-cases :
      (s : Slots)
      → (acquire looks s ≡ (ok tt, take_slot s)) ⊎ ((e : GoError) × (acquire looks s ≡ (err e, s)))
  unfolding acquire
  acquire-cases s = elim (Option-cases looks.acquiring) [
    | inr (e, late) ↦ inr (e, rw late refl)
    | inl fine ↦ elim (Option-cases looks.waiting) [
      | inr (e, late) ↦ inr (e, rw (fine, late) refl)
      | inl fine' ↦ elim (Option-cases looks.taking) [
        | inl fine'' ↦ inl (rw (fine, fine', fine'') refl)
        | inr (e, late) ↦ inr (e, rw (fine, fine', late) (ap (λ u. (err e, u)) (back s)))
      ]
    ]
  ]

  with_slot-cases :
      {A : Type 0} (body : Slots → Result A × Slots) (s : Slots)
      → (with_slot looks body s ≡ freed (body (take_slot s)))
        ⊎ ((e : GoError) × (with_slot looks body s ≡ (err e, s)))
  unfolding with_slot
  with_slot-cases body s = elim (acquire-cases s) [
    | inl got ↦ inl (rw got refl)
    | inr (e, late) ↦ inr (e, rw late refl)
  ]

-- What a call of `Verify` comes to: an error at once, a password that is too long, or a comparison.
verify-cases :
    (lib : Argon2id) (looks : Looks) (dummy stored value : Str) (s : Slots)
    → ((e : GoError) × (verify lib looks dummy stored value s ≡ (err e, s)))
      ⊎ ((verify lib looks dummy stored value s ≡ (ok (false, false), s))
          ⊎ ((ltb max_password_bytes (length value) ≡ false)
              × (verify lib looks dummy stored value s
                  ≡ freed (compare_with lib looks dummy stored value (take_slot s)))))
unfolding verify compare_with with_slot acquire
verify-cases lib looks dummy stored value s = elim (Option-cases looks.entering) [
  | inr (e, late) ↦ inl (e, rw late refl)
  | inl fine ↦ elim (Bool-cases (ltb max_password_bytes (length value))) [
    | inl long ↦ inr (inl (rw (fine, long) refl))
    | inr short ↦ elim (with_slot-cases looks (compare_with lib looks dummy stored value) s) [
      | inl ran ↦ inr (inr (short, rw (fine, short) ran))
      | inr (e, late) ↦ inl (e, rw (fine, short) late)
    ]
  ]
]

-- One call after the other, each with a stored hash and a password.
abbrev pub verify_all : Argon2id → Str → List (Looks × Str × Str) → Slots → Slots
verify_all lib dummy [] s = s
verify_all lib dummy ((looks, stored, value) ∷ rest) s =
    verify_all lib dummy rest (verify lib looks dummy stored value s).1

-- What holds of slots and computations.
pub record IsBounded (lib : Argon2id) (taken : ℕ) (s : Slots) : Type 0 where
  pub slots : s.taken ≡ taken
  pub computed : All (IsCheap lib) s.compared

verify-IsBounded :
    (lib : Argon2id) (taken : ℕ) (looks : Looks) (dummy stored value : Str) (s : Slots)
    → IsCheap lib dummy
    → IsBounded lib taken s
    → IsBounded lib taken (verify lib looks dummy stored value s).1
unfolding compare_with
verify-IsBounded lib taken looks dummy stored value s cheap h =
    elim (verify-cases lib looks dummy stored value s) [
      | inl (e, same) ↦ rw same h
      | inr (inl same) ↦ rw same h
      | inr (inr (_, same)) ↦ rw same (record {
        slots = omega (arith, h.slots);
        computed = (chosen-IsCheap lib dummy stored cheap, h.computed);
      })
    ]

-- Whatever hashes are stored and whatever passwords are given, also when contexts end in between: with a
-- dummy whose parameters are allowed, only hashes with allowed parameters are computed, and every slot
-- that was taken is given back.
pub verify_all-IsBounded :
    (lib : Argon2id) (dummy : Str) (calls : List (Looks × Str × Str)) (s : Slots)
    → IsCheap lib dummy
    → All (IsCheap lib) s.compared
    → IsBounded lib s.taken (verify_all lib dummy calls s)
verify_all-IsBounded lib dummy calls s cheap h = go calls s (record { slots = refl; computed = h })
  where
    go :
        (calls : List (Looks × Str × Str)) (u : Slots)
        → IsBounded lib s.taken u
        → IsBounded lib s.taken (verify_all lib dummy calls u)
    go [] u k = k
    go ((looks, stored, value) ∷ rest) u k =
        go rest (verify lib looks dummy stored value u).1
          (verify-IsBounded lib s.taken looks dummy stored value u cheap k)

-- What a password that matches has shown.
pub record IsMatch (lib : Argon2id) (stored value : Str) (renew : Bool) : Type 0 where
  pub params : HashParams
  pub of_stored : lib.decode_hash stored ≡ some params
  pub allowed : allowed_params params ≡ true
  pub equal : lib.compare value stored ≡ some true
  pub short : length stored ≤ max_encoded_hash_bytes
  pub fits : length value ≤ max_password_bytes
  pub weak : renew ≡ is_weak (some params)

decoded-some :
    (lib : Argon2id) (stored : Str)
    → is_allowed (decoded lib stored) ≡ true
    → (p : HashParams) × (lib.decode_hash stored ≡ some p)
      × (allowed_params p ≡ true)
      × (length stored ≤ max_encoded_hash_bytes)
      × (decoded lib stored ≡ some p)
decoded-some lib stored good = elim (Bool-cases (leb (length stored) max_encoded_hash_bytes)) [
  | inr long ↦ let bad : false ≡ true = rw long at good in cc bad
  | inl short ↦
      let good' : is_allowed (lib.decode_hash stored) ≡ true = rw short at good in
      elim (Option-cases (lib.decode_hash stored)) [
        | inl nil ↦ let bad : false ≡ true = rw nil at good' in cc bad
        | inr (p, is) ↦ (p, is, rw is at good', ground arith, rw short is)
      ]
]

and_true : (a b : Bool) → (a && b) ≡ true → (a ≡ true) × (b ≡ true)
and_true true b e = (refl, e)
and_true false b e = cc

unless_done-ok : {A : Type 0} (o : Option GoError) (a : A) {b : A} → unless_done o a ≡ ok b → a ≡ b
unless_done-ok none a e = ok-injective e
unless_done-ok (some er) a e = cc

answered-true :
    (looks : Looks) (valid weak : Bool) (o : Option Bool) {renew : Bool}
    → answered looks valid weak o ≡ ok (true, renew)
    → (valid ≡ true) × (o ≡ some true) × (renew ≡ weak)
answered-true looks valid weak none e = cc
answered-true looks valid weak (some matched) {renew} e =
    let both = unless_done-ok looks.finishing (matched && valid, (matched && valid) && weak) e in
    let match : (matched && valid) ≡ true = ap (λ (x : Bool × Bool). x.0) both in
    let (of_library, of_policy) = and_true matched valid match in
    let renewed : ((matched && valid) && weak) ≡ renew = ap (λ (x : Bool × Bool). x.1) both in
    (of_policy, ap some of_library, sym (rw match at renewed))

-- A password matches only a stored hash of at most 256 bytes whose parameters are allowed, for which the
-- library says so, and a password is at most 512 bytes long; the hash is to be made anew exactly when its
-- parameters are weaker than those of new hashes.
pub verify-IsMatch :
    (lib : Argon2id) (looks : Looks) (dummy stored value : Str) (s : Slots) {renew : Bool}
    {s' : Slots}
    → verify lib looks dummy stored value s ≡ (ok (true, renew), s')
    → IsMatch lib stored value renew
unfolding compare_with chosen
verify-IsMatch lib looks dummy stored value s {renew} {s'} e =
    elim (verify-cases lib looks dummy stored value s) [
      | inl (er, same) ↦ cc (ap (λ (x : Result (Bool × Bool) × Slots). x.0) (sym same ∙ e))
      | inr (inl same) ↦
          let bad = ok-injective (ap (λ (x : Result (Bool × Bool) × Slots). x.0) (sym same ∙ e)) in
          cc (ap (λ (x : Bool × Bool). x.0) bad)
      | inr (inr (short, same)) ↦
          let (valid, equal, weak) =
            answered-true looks (is_allowed (decoded lib stored)) (is_weak (decoded lib stored))
              (lib.compare value (chosen lib dummy stored))
              (ap (λ (x : Result (Bool × Bool) × Slots). x.0) (sym same ∙ e)) in
          let (p, of_stored, allowed, fits, is) = decoded-some lib stored valid in
          record {
            params = p;
            of_stored = of_stored;
            allowed = allowed;
            equal = rw valid at equal;
            short = fits;
            fits = ground arith;
            weak = rw is at weak;
          }
    ]
