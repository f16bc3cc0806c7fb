-- ===== src/HttpApi/Auth.antt =====
-- internal/httpapi/auth.go: `bearer` and `Middleware`. The authenticator is a parameter: a principal,
-- or an error.
use go_starter_kit.Identity.{err_unauthorized}
use go_starter_kit.Base.{
  ℕ, zero, suc, ◌+◌, ◌-◌, Str, Bool, true, false, ◌&&◌, ◌||◌, not, List, [], ◌∷◌, ◌++◌, Option,
  none, some, codes, str_eq, ltb, map, if◌then◌else◌, Option-cases, inl, inr, ◌≡◌, ◌⊎◌, arith,
}
use go_starter_kit.AppError.{GoError, errors_is, is_deadline, is_plain}
use go_starter_kit.Db.{Result, ok, err}
use go_starter_kit.HttpApi.{Response, plainly, www_authenticate_bearer, cache_no_store, Header}
use go_starter_kit.Validation.{decode_rune, is_space_rune}

abbrev emit : Str → List Str → List Str
emit [] rest = rest
emit (b ∷ word) rest = (b ∷ word) ∷ rest

-- `strings.Fields` behind the first `skip` bytes, which stand in a gap or belong to the word so far.
unfoldable pub fields_from : ℕ → Bool → Str → Str → List Str
fields_from skip gap word [] = emit word []
fields_from (suc skip) gap word (b ∷ rest) =
    fields_from skip gap (if gap then word else word ++ (b ∷ [])) rest
fields_from zero gap word (b ∷ rest) =
    let r = decode_rune b rest in
    let space = is_space_rune r in
    let later = fields_from (r.width - 1) space (if space then [] else word ++ (b ∷ [])) rest in
    if space then emit word later else later

-- Lower case, for ASCII: the letters of "Bearer" fold to nothing else.
abbrev fold : ℕ → ℕ
fold c = if ltb 64 c && ltb c 91 then c + 32 else c

-- `strings.EqualFold` against "Bearer".
abbrev pub is_bearer : Str → Bool
is_bearer word = str_eq (map fold word) (codes "bearer")

abbrev second_of : List Str → Option Str
second_of (scheme ∷ raw ∷ []) = if is_bearer scheme then some raw else none
second_of _ = none

-- `bearer`
unfoldable pub bearer : Str → Option Str
unfolding fields_from
bearer header = second_of (fields_from 0 true [] header)

pub record Principal : Type 0 where
  pub subject : Str
  pub session_id : Str

-- What becomes of a request: a response, or the next handler with a principal and headers set.
pub data Handled : Type 0 where
  refused : Response → Handled
  passed : Principal → List Header → Handled

abbrev pub unauthorized : Response
unauthorized = record {
  code = 401;
  detail = codes "session_invalid";
  headers = www_authenticate_bearer ∷ [];
  others = [];
}

abbrev pub authenticated : (Str → Result Principal) → Option Str → Result Principal
authenticated authenticate none = err err_unauthorized
authenticated authenticate (some raw) = authenticate raw

abbrev pub unavailable : Response
unavailable = plainly 503 (codes "authentication service unavailable")

abbrev pub timed_out : Response
timed_out = plainly 504 (codes "authentication deadline exceeded")

abbrev pub handled : Bool → Result Principal → Handled
handled late (err e) =
    if errors_is is_deadline e || late
    then refused timed_out
    else if not (errors_is (is_plain 60) e)
    then refused unavailable
    else refused unauthorized
handled late (ok p) =
    if late
    then refused timed_out
    else if str_eq p.subject []
    then refused unauthorized
    else passed p (cache_no_store ∷ [])

-- `Middleware`; the flag says whether the context of the request has passed its deadline.
unfoldable pub middleware : (Str → Result Principal) → Bool → Str → Handled
unfolding bearer
middleware authenticate late header = handled late (authenticated authenticate (bearer header))

-- A request reaches its handler only with a bearer token that the authenticator has accepted for a
-- principal with a subject, in time, and its response is not stored by caches.
pub middleware_passed :
    (authenticate : Str → Result Principal) (late : Bool) (header : Str) {p : Principal}
    {h : List Header}
    → middleware authenticate late header ≡ passed p h
    → (raw : Str) × (bearer header ≡ some raw)
      × (authenticate raw ≡ ok p)
      × (str_eq p.subject [] ≡ false)
      × (late ≡ false)
      × (h ≡ cache_no_store ∷ [])
unfolding middleware
middleware_passed authenticate late header e = elim (Option-cases (bearer header)) [
  | inl missing ↦ absurd (ground arith)
  | inr (raw, found) ↦ (raw, found, ground arith, ground arith, ground arith, ground arith)
]

-- Why a request gets this response: a deadline has passed, of the context or for the authenticator;
-- or, in time, the token is missing or not accepted, or its subject is empty; or, in time, the
-- authenticator failed.
abbrev pub Explains : Response → Bool → Result Principal → Type 0
Explains r late outcome =
    ((r ≡ timed_out)
      × ((late ≡ true) ⊎ ((e : GoError) × (outcome ≡ err e) × (errors_is is_deadline e ≡ true))))
    ⊎ (((r ≡ unauthorized)
          × (late ≡ false)
          × (((e : GoError) × (outcome ≡ err e)
                × (errors_is is_deadline e ≡ false)
                × (errors_is (is_plain 60) e ≡ true))
              ⊎ ((p : Principal) × (outcome ≡ ok p) × (str_eq p.subject [] ≡ true))))
        ⊎ ((r ≡ unavailable)
            × (late ≡ false)
            × (e : GoError) × (outcome ≡ err e)
            × (errors_is is_deadline e ≡ false)
            × (errors_is (is_plain 60) e ≡ false)))
