-- ===== src/Identity/Tokens.antt =====
-- internal/identity/token.go: tokens in unpadded URL base64. The hash function is an argument, and so
-- are the random bytes.
use go_starter_kit.Base.{
  ℕ, ◌+◌, ◌-◌, ◌*◌, ◌/◌, ◌%◌, ◌<◌, Str, Bool, true, false, not, ◌&&◌, ◌||◌, List, [], ◌∷◌, ◌++◌,
  Option, none, some, ◌==◌, ltb, leb, length, length-append, drop, if◌then◌else◌, filter_by, ◌≡◌,
  refl, ap, ◌∙◌, arith, All,
}

abbrev pub token_entropy_bytes : ℕ
token_entropy_bytes = 32

-- The alphabet A–Z a–z 0–9 - _.
unfoldable pub encode_sextet : ℕ → ℕ
encode_sextet v =
    if ltb v 26
    then 65 + v
    else if ltb v 52
    then 71 + v
    else if ltb v 62
    then v - 4
    else if v == 62
    then 45
    else 95

unfoldable pub decode_sextet : ℕ → Option ℕ
decode_sextet c =
    if leb 65 c && leb c 90
    then some (c - 65)
    else if leb 97 c && leb c 122
    then some (c - 71)
    else if leb 48 c && leb c 57
    then some (c + 4)
    else if c == 45
    then some 62
    else if c == 95
    then some 63
    else none

-- `RawURLEncoding.EncodeToString`
unfoldable pub encode : List ℕ → Str
unfolding encode_sextet
encode [] = []
encode (a ∷ []) = encode_sextet (a / 4) ∷ encode_sextet (a % 4 * 16) ∷ []
encode (a ∷ b ∷ []) =
    encode_sextet (a / 4) ∷ encode_sextet (a % 4 * 16 + b / 16) ∷ encode_sextet (b % 16 * 4) ∷ []
encode (a ∷ b ∷ c ∷ rest) =
    encode_sextet (a / 4)
    ∷ encode_sextet (a % 4 * 16 + b / 16)
    ∷ encode_sextet (b % 16 * 4 + c / 64)
    ∷ encode_sextet (c % 64)
    ∷ encode rest

-- The bytes of two, three or four sextets; `Strict` wants the unused bits of the last one to be zero.
abbrev pub last_one : Option ℕ → Option ℕ → Option (List ℕ)
last_one (some p) (some q) = if q % 16 == 0 then some ((p * 4 + q / 16) ∷ []) else none
last_one _ _ = none

abbrev pub last_two : Option ℕ → Option ℕ → Option ℕ → Option (List ℕ)
last_two (some p) (some q) (some r) =
    if r % 4 == 0 then some ((p * 4 + q / 16) ∷ (q % 16 * 16 + r / 4) ∷ []) else none
last_two _ _ _ = none

abbrev pub next_three :
    Option ℕ → Option ℕ → Option ℕ → Option ℕ → Option (List ℕ) → Option (List ℕ)
next_three (some p) (some q) (some r) (some s) (some rest) =
    some ((p * 4 + q / 16) ∷ (q % 16 * 16 + r / 4) ∷ (r % 4 * 64 + s) ∷ rest)
next_three _ _ _ _ _ = none

unfoldable pub decode_sextets : Str → Option (List ℕ)
unfolding decode_sextet
decode_sextets [] = some []
decode_sextets (p ∷ []) = none
decode_sextets (p ∷ q ∷ []) = last_one (decode_sextet p) (decode_sextet q)
decode_sextets (p ∷ q ∷ r ∷ []) = last_two (decode_sextet p) (decode_sextet q) (decode_sextet r)
decode_sextets (p ∷ q ∷ r ∷ s ∷ rest) =
    next_three (decode_sextet p) (decode_sextet q) (decode_sextet r) (decode_sextet s)
      (decode_sextets rest)

-- `RawURLEncoding.Strict().DecodeString`, which skips line breaks.
unfoldable pub decode : Str → Option (List ℕ)
decode s = decode_sextets (filter_by (λ c. not (c == 10 || c == 13)) s)

abbrev pub has_prefix : Str → Str → Bool
has_prefix [] s = true
has_prefix (p ∷ ps) [] = false
has_prefix (p ∷ ps) (c ∷ s) = p == c && has_prefix ps s

-- The raw token of `NewToken`; its digest is what the program stores.
unfoldable pub new_token : Str → List ℕ → Str
new_token prefix random = prefix ++ encode random

abbrev pub of_entropy : Str → Option (List ℕ) → Option Str
of_entropy digest none = none
of_entropy digest (some bytes) = if length bytes == token_entropy_bytes then some digest else none

-- `TokenDigest`; none is `ErrUnauthorized`. 32 bytes are encoded by 43 characters.
unfoldable pub token_digest : (Str → Str) → Str → Str → Option Str
token_digest digest raw prefix =
    if not (length raw == length prefix + 43) || not (has_prefix prefix raw)
    then none
    else of_entropy (digest raw) (decode (drop (length prefix) raw))

decode-encode_sextet : (v : ℕ) → v < 64 → decode_sextet (encode_sextet v) ≡ some v
unfolding decode_sextet encode_sextet
decode-encode_sextet v h = ground arith

encode_sextet-text : (v : ℕ) → v < 64 → not (encode_sextet v == 10 || encode_sextet v == 13) ≡ true
unfolding encode_sextet
encode_sextet-text v h = ground arith

abbrev pub AreBytes : List ℕ → Type 0
AreBytes bs = All (λ b. b < 256) bs

decode_sextets-encode : (bs : List ℕ) → AreBytes bs → decode_sextets (encode bs) ≡ some bs
unfolding decode_sextets encode
decode_sextets-encode [] h = refl
decode_sextets-encode (a ∷ []) h =
    rw (decode-encode_sextet (a / 4) (omega arith), decode-encode_sextet (a % 4 * 16) (omega arith))
      (ground arith)
decode_sextets-encode (a ∷ b ∷ []) h =
    rw
      (
        decode-encode_sextet (a / 4) (omega arith),
        decode-encode_sextet (a % 4 * 16 + b / 16) (omega arith),
        decode-encode_sextet (b % 16 * 4) (omega arith),
      )
      (ground arith)
decode_sextets-encode (a ∷ b ∷ c ∷ rest) h =
    rw
      (
        decode-encode_sextet (a / 4) (omega arith),
        decode-encode_sextet (a % 4 * 16 + b / 16) (omega arith),
        decode-encode_sextet (b % 16 * 4 + c / 64) (omega arith),
        decode-encode_sextet (c % 64) (omega arith),
        decode_sextets-encode rest h.1.1.1,
      )
      (ground arith)

filter_by-All {ℓ} :
    {A : Type ℓ} (p : A → Bool) (xs : List A) → All (λ x. p x ≡ true) xs → filter_by p xs ≡ xs
filter_by-All p [] h = refl
filter_by-All p (x ∷ xs) h = rw h.0 (ap (λ l. x ∷ l) (filter_by-All p xs h.1))

encode-text : (bs : List ℕ) → AreBytes bs → All (λ c. not (c == 10 || c == 13) ≡ true) (encode bs)
unfolding encode
encode-text [] h = tt
encode-text (a ∷ []) h =
    (encode_sextet-text (a / 4) (omega arith), (encode_sextet-text (a % 4 * 16) (omega arith), tt))
encode-text (a ∷ b ∷ []) h = (
  encode_sextet-text (a / 4) (omega arith),
  (
    encode_sextet-text (a % 4 * 16 + b / 16) (omega arith),
    (encode_sextet-text (b % 16 * 4) (omega arith), tt),
  ),
)
encode-text (a ∷ b ∷ c ∷ rest) h = (
  encode_sextet-text (a / 4) (omega arith),
  (
    encode_sextet-text (a % 4 * 16 + b / 16) (omega arith),
    (
      encode_sextet-text (b % 16 * 4 + c / 64) (omega arith),
      (encode_sextet-text (c % 64) (omega arith), encode-text rest h.1.1.1),
    ),
  ),
)

-- Decoding gives back the bytes that were encoded.
pub decode-encode : (bs : List ℕ) → AreBytes bs → decode (encode bs) ≡ some bs
unfolding decode
decode-encode bs h =
    ap decode_sextets (filter_by-All (λ c. not (c == 10 || c == 13)) (encode bs) (encode-text bs h))
    ∙ decode_sextets-encode bs h

length-encode : (bs : List ℕ) → length (encode bs) ≡ (length bs * 4 + 2) / 3
unfolding encode
length-encode [] = refl
length-encode (a ∷ []) = refl
length-encode (a ∷ b ∷ []) = refl
length-encode (a ∷ b ∷ c ∷ rest) = omega (arith, length-encode rest)

has_prefix-append : (p s : Str) → has_prefix p (p ++ s) ≡ true
has_prefix-append [] s = refl
has_prefix-append (x ∷ p) s = ground (arith, has_prefix-append p s)

drop-append : (p s : Str) → drop (length p) (p ++ s) ≡ s
drop-append [] s = refl
drop-append (x ∷ p) s = drop-append p s

-- A new token is accepted under its own prefix, with the digest that was stored for it.
pub token_digest-new_token :
    (digest : Str → Str) (prefix : Str) (random : List ℕ)
    → AreBytes random
    → length random ≡ 32
    → token_digest digest (new_token prefix random) prefix ≡ some (digest (new_token prefix random))
unfolding token_digest new_token
token_digest-new_token digest prefix random bytes size =
    let long : length (prefix ++ encode random) ≡ length prefix + 43 =
      omega (arith, length-append prefix (encode random), length-encode random) in
    let whole : decode (drop (length prefix) (prefix ++ encode random)) ≡ some random =
      ap decode (drop-append prefix (encode random)) ∙ decode-encode random bytes in
    let exact : (length (prefix ++ encode random) == length prefix + 43) ≡ true = ground arith in
    let entropy : (length random == token_entropy_bytes) ≡ true = ground arith in
    rw (exact, has_prefix-append prefix (encode random)) (rw whole (rw entropy refl))
