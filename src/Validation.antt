-- ===== src/Validation.antt =====
-- internal/validation: checks of text. Go's strings are byte sequences, so that UTF-8 is decoded here
-- as Go's `unicode/utf8` and `strings` do: an invalid byte is a rune of width one.
pub mod Trimming
use go_starter_kit.Base.{
  ℕ, zero, suc, ◌+◌, ◌-◌, ◌*◌, Str, Bool, true, false, not, ◌&&◌, ◌||◌, List, [], ◌∷◌, Option, none,
  some, leb, ltb, ◌==◌, length, any_by, if◌then◌else◌, str_eq,
}

-- A rune as it is decoded: its code point, or none for an invalid byte, and its width in bytes.
pub record Rune : Type 0 where
  pub point : Option ℕ
  pub width : ℕ

abbrev pub bad_rune : Rune
bad_rune = record { point = none; width = 1 }

abbrev pub is_continuation : ℕ → Bool
is_continuation b = leb 0x80 b && leb b 0xBF

abbrev two_bytes : ℕ → List ℕ → Rune
two_bytes b0 [] = bad_rune
two_bytes b0 (b1 ∷ _) =
    if is_continuation b1
    then record { point = some ((b0 - 0xC0) * 64 + (b1 - 0x80)); width = 2 }
    else bad_rune

-- `lo` and `hi` bound the second byte, which rules out overlong forms and surrogates.
abbrev three_bytes : ℕ → ℕ → ℕ → List ℕ → Rune
three_bytes lo hi b0 (b1 ∷ b2 ∷ _) =
    if (leb lo b1 && leb b1 hi) && is_continuation b2
    then record { point = some ((b0 - 0xE0) * 4096 + (b1 - 0x80) * 64 + (b2 - 0x80)); width = 3 }
    else bad_rune
three_bytes lo hi b0 _ = bad_rune

abbrev four_bytes : ℕ → ℕ → ℕ → List ℕ → Rune
four_bytes lo hi b0 (b1 ∷ b2 ∷ b3 ∷ _) =
    if (leb lo b1 && leb b1 hi) && (is_continuation b2 && is_continuation b3)
    then record {
      point = some ((b0 - 0xF0) * 262144 + (b1 - 0x80) * 4096 + (b2 - 0x80) * 64 + (b3 - 0x80));
      width = 4;
    }
    else bad_rune
four_bytes lo hi b0 _ = bad_rune

-- `utf8.DecodeRune`, on the first byte and those behind it.
unfoldable pub decode_rune : ℕ → List ℕ → Rune
decode_rune b rest =
    if ltb b 0x80
    then record { point = some b; width = 1 }
    else if leb 0xC2 b && leb b 0xDF
    then two_bytes b rest
    else if b == 0xE0
    then three_bytes 0xA0 0xBF b rest
    else if b == 0xED
    then three_bytes 0x80 0x9F b rest
    else if leb 0xE1 b && leb b 0xEF
    then three_bytes 0x80 0xBF b rest
    else if b == 0xF0
    then four_bytes 0x90 0xBF b rest
    else if leb 0xF1 b && leb b 0xF3
    then four_bytes 0x80 0xBF b rest
    else if b == 0xF4
    then four_bytes 0x80 0x8F b rest
    else bad_rune

-- The runes of a text behind the first `skip` bytes.
runes_from : ℕ → Str → List Rune
unfolding decode_rune
runes_from skip [] = []
runes_from (suc skip) (b ∷ rest) = runes_from skip rest
runes_from zero (b ∷ rest) = let r = decode_rune b rest in r ∷ runes_from (r.width - 1) rest

unfoldable pub runes : Str → List Rune
unfolding runes_from
runes s = runes_from 0 s

abbrev is_bad : Rune → Bool
is_bad r = elim r.point [ none ↦ true | some _ ↦ false ]

-- `utf8.ValidString`
unfoldable pub valid_string : Str → Bool
unfolding runes
valid_string s = not (any_by is_bad (runes s))

-- `utf8.RuneCountInString`
unfoldable pub rune_count : Str → ℕ
unfolding runes
rune_count s = length (runes s)

-- `strings.ContainsRune(s, 0)`
abbrev pub has_nul : Str → Bool
has_nul s = any_by (λ b. b == 0) s

-- `unicode.IsSpace`, the code points with the property White_Space.
unfoldable pub is_space : ℕ → Bool
is_space c =
    (leb 9 c && leb c 13)
    || (c == 0x20
        || (c == 0x85
            || (c == 0xA0
                || (c == 0x1680
                    || ((leb 0x2000 c && leb c 0x200A)
                        || (c == 0x2028
                            || (c == 0x2029 || (c == 0x202F || (c == 0x205F || c == 0x3000)))))))))

abbrev pub is_space_rune : Rune → Bool
is_space_rune r = elim r.point [ none ↦ false | some c ↦ is_space c ]

-- The text behind `skip` bytes and the white space that follows them.
unfoldable pub trim_left : ℕ → Str → Str
unfolding decode_rune is_space
trim_left skip [] = []
trim_left (suc skip) (b ∷ rest) = trim_left skip rest
trim_left zero (b ∷ rest) =
    let r = decode_rune b rest in
    let trimmed = trim_left (r.width - 1) rest in if is_space_rune r then trimmed else b ∷ rest

abbrev pub keep_byte : Bool → ℕ → Str → Str
keep_byte space b [] = if space then [] else b ∷ []
keep_byte space b (c ∷ rest) = b ∷ c ∷ rest

-- The text without the white space at its end; the first `skip` bytes belong to a rune that is white
-- space or not.
unfoldable pub trim_right : ℕ → Bool → Str → Str
unfolding decode_rune is_space
trim_right skip space [] = []
trim_right (suc skip) space (b ∷ rest) = keep_byte space b (trim_right skip space rest)
trim_right zero space (b ∷ rest) =
    let r = decode_rune b rest in
    keep_byte (is_space_rune r) b (trim_right (r.width - 1) (is_space_rune r) rest)

-- `strings.TrimSpace`
unfoldable pub trim_space : Str → Str
unfolding trim_left trim_right
trim_space s = trim_right 0 false (trim_left 0 s)

abbrev pub max_identifier_bytes : ℕ
max_identifier_bytes = 255

-- `Identifier`
unfoldable pub identifier : Str → Bool
identifier value =
    leb (length value) max_identifier_bytes
    && (not (str_eq (trim_space value) []) && (valid_string value && not (has_nul value)))

-- `TextWithin`; the limits of the program are not negative.
unfoldable pub text_within : Str → ℕ → Bool
text_within value max_runes =
    valid_string value && (leb (rune_count value) max_runes && not (has_nul value))

-- `RequiredText`: the trimmed text and whether it is good.
unfoldable pub required_text : Str → ℕ → Str × Bool
required_text value max_runes =
    let trimmed = trim_space value in
    (trimmed, not (str_eq trimmed []) && text_within trimmed max_runes)
