-- ===== src/Validation/Trimming.antt =====
-- What trimming leaves of a text: no white space at its start.
use go_starter_kit.Base.{ℕ, zero, suc, ◌-◌, Str, false, [], ◌∷◌, ◌≡◌, Bool-cases, inl, inr}
use go_starter_kit.Validation.{decode_rune, is_space_rune, trim_left}

-- The first rune, if there is one, is no white space.
abbrev pub StartsClean : Str → Type 0
StartsClean [] = Unit
StartsClean (b ∷ rest) = is_space_rune (decode_rune b rest) ≡ false

-- What is left of a text without the white space at its start does not start with white space,
-- whatever bytes the text has; the first bytes may be skipped as the rest of a rune.
pub trim_left-StartsClean : (skip : ℕ) (s : Str) → StartsClean (trim_left skip s)
unfolding trim_left
trim_left-StartsClean skip [] = tt
trim_left-StartsClean (suc skip) (b ∷ rest) = trim_left-StartsClean skip rest
trim_left-StartsClean zero (b ∷ rest) = elim (Bool-cases (is_space_rune (decode_rune b rest))) [
  | inl space ↦ rw space (trim_left-StartsClean ((decode_rune b rest).width - 1) rest)
  | inr solid ↦ rw solid solid
]
