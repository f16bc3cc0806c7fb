-- ===== src/Passwords.antt =====
-- internal/platform/password/password.go: what a password may be, and which hashes are computed. The
-- library of the hash function is an argument, and so is what the context answers where it is asked.
pub mod Bounds
use go_starter_kit.Base.{
  ℕ, ◌+◌, ◌*◌, ◌-◌, ◌≤◌, Str, Bool, true, false, not, ◌&&◌, ◌||◌, List, [], ◌∷◌, Option, none, some,
  codes, utf8, leb, ltb, ◌==◌, length, if◌then◌else◌, ◌≡◌, ◌⊎◌, inl, inr, refl, arith, ap, All,
  Bool-cases, Option-cases,
}
use go_starter_kit.AppError.{GoError, plain, prefixed}
use go_starter_kit.Db.{Result, ok, err}
use go_starter_kit.Validation.{valid_string, rune_count}

-- The parameters of a hash, `argon2id.Params`.
pub record HashParams : Type 0 where
  pub memory : ℕ
  pub iterations : ℕ
  pub parallelism : ℕ
  pub salt_length : ℕ
  pub key_length : ℕ

-- Those of new hashes
abbrev pub default_params : HashParams
default_params = record {
  memory = 19 * 1024;
  iterations = 2;
  parallelism = 1;
  salt_length = 16;
  key_length = 32;
}

abbrev pub max_password_bytes : ℕ
max_password_bytes = 512

abbrev pub max_encoded_hash_bytes : ℕ
max_encoded_hash_bytes = 256

-- What the program calls of the library: `CreateHash`, `DecodeHash` and `ComparePasswordAndHash`; none is
-- an error.
pub record Argon2id : Type 0 where
  pub create_hash : Str → HashParams → Result Str
  pub decode_hash : Str → Option HashParams
  pub compare : Str → Str → Option Bool

-- `ctx.Err()` at the entry of a call, before a slot is waited for, and once there is one; at the end of
-- the wait, if the context was done first; and behind the computation.
pub record Looks : Type 0 where
  pub entering : Option GoError
  pub acquiring : Option GoError
  pub waiting : Option GoError
  pub taking : Option GoError
  pub finishing : Option GoError

-- The slots that are taken, and the hashes that passwords were compared with, the last one first.
pub record Slots : Type 0 where
  pub taken : ℕ
  pub compared : List Str

-- `Validate`
unfoldable pub validate : Str → Bool
validate value =
    (valid_string value && leb 15 (rune_count value))
    && (leb (rune_count value) 128 && leb (length value) max_password_bytes)

-- `allowedParams`, of parameters that are not nil
unfoldable pub allowed_params : HashParams → Bool
allowed_params p =
    ((leb 8 p.memory && leb p.memory (64 * 1024)) && (leb 1 p.iterations && leb p.iterations 4))
    && (p.parallelism == 1
        && ((leb 16 p.salt_length && leb p.salt_length 32) && p.key_length == 32))

abbrev pub take_slot : Slots → Slots
take_slot s = record s { taken = s.taken + 1 }

abbrev pub free_slot : Slots → Slots
free_slot s = record s { taken = s.taken - 1 }

-- The last step of `acquire`: a context that was done gives the slot back.
abbrev pub taken_with : Option GoError → Slots → Result (Unit {0}) × Slots
taken_with none s = (ok tt, s)
taken_with (some e) s = (err e, free_slot s)

abbrev pub waited : Option GoError → Option GoError → Slots → Result (Unit {0}) × Slots
waited none taking s = taken_with taking (take_slot s)
waited (some e) taking s = (err e, s)

-- `acquire`
unfoldable pub acquire : Looks → Slots → Result (Unit {0}) × Slots
acquire looks s = elim looks.acquiring [
  | none ↦ waited looks.waiting looks.taking s
  | some e ↦ (err e, s)
]

module _ {A : Type 0} where
  abbrev pub freed : Result A × Slots → Result A × Slots
  freed (r, s) = (r, free_slot s)

  abbrev slot_for : (Slots → Result A × Slots) → Result (Unit {0}) × Slots → Result A × Slots
  slot_for body (ok _, s) = freed (body s)
  slot_for body (err e, s) = (err e, s)

  -- A computation behind `acquire`, with the deferred release.
  unfoldable pub with_slot : Looks → (Slots → Result A × Slots) → Slots → Result A × Slots
  with_slot looks body s = slot_for body (acquire looks s)

  -- The answer, unless the context is done.
  abbrev pub unless_done : Option GoError → A → Result A
  unless_done none a = ok a
  unless_done (some e) a = err e

abbrev pub created : Looks → Result Str → Result Str
created looks (ok hash) = unless_done looks.finishing hash
created looks (err e) = err (prefixed (utf8 "密码哈希生成失败: ") e)

abbrev pub err_too_long : GoError
err_too_long = plain 110

abbrev pub err_compare : GoError
err_compare = plain 111

-- `Hash`
unfoldable pub hash : Argon2id → Looks → Str → Slots → Result Str × Slots
hash lib looks value s =
    if ltb max_password_bytes (length value)
    then (err err_too_long, s)
    else with_slot looks (λ s. (created looks (lib.create_hash value default_params), s)) s

-- `context.Background()`
abbrev background : Looks
background = record {
  entering = none;
  acquiring = none;
  waiting = none;
  taking = none;
  finishing = none;
}

-- The dummy of `New`, whose slots are all free.
unfoldable pub new_dummy : Argon2id → Result Str
unfolding hash
new_dummy lib =
    (hash lib background (codes "dummy password used only for timing")
      (record { taken = 0; compared = [] })).0

-- The parameters of a stored hash that may be computed.
abbrev pub decoded : Argon2id → Str → Option HashParams
decoded lib stored =
    if leb (length stored) max_encoded_hash_bytes then lib.decode_hash stored else none

abbrev pub is_allowed : Option HashParams → Bool
is_allowed none = false
is_allowed (some p) = allowed_params p

-- The parameters are weaker than those of new hashes.
abbrev pub is_weak : Option HashParams → Bool
is_weak none = false
is_weak (some p) = ltb p.memory default_params.memory || ltb p.iterations default_params.iterations

-- What is computed: the dummy where the stored hash is not good.
unfoldable pub chosen : Argon2id → Str → Str → Str
chosen lib dummy stored = if is_allowed (decoded lib stored) then stored else dummy

abbrev pub answered : Looks → Bool → Bool → Option Bool → Result (Bool × Bool)
answered looks valid weak none = err err_compare
answered looks valid weak (some matched) =
    unless_done looks.finishing (matched && valid, (matched && valid) && weak)

-- The comparison that `Verify` makes.
unfoldable pub compare_with :
    Argon2id → Looks → Str → Str → Str → Slots → Result (Bool × Bool) × Slots
compare_with lib looks dummy stored value s = (
  answered looks (is_allowed (decoded lib stored)) (is_weak (decoded lib stored))
      (lib.compare value (chosen lib dummy stored)),
  record s { compared = chosen lib dummy stored ∷ s.compared },
)

-- `Verify`: whether the password matches, and whether its hash is to be made anew.
unfoldable pub verify : Argon2id → Looks → Str → Str → Str → Slots → Result (Bool × Bool) × Slots
verify lib looks dummy stored value s = elim looks.entering [
  | none ↦
      if ltb max_password_bytes (length value)
      then (ok (false, false), s)
      else with_slot looks (compare_with lib looks dummy stored value) s
  | some e ↦ (err e, s)
]
