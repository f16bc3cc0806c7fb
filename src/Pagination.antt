-- ===== src/Pagination.antt =====
-- internal/pagination: parameters, and the page that is built from one row more than asked for.
pub mod Pages
use go_starter_kit.Base.{
  ℕ, ℤ, pos, ◌||◌, Bool, List, [], ◌∷◌, length, take, ltb, ltb_ℤ, pos_part, add_int32, map,
  if◌then◌else◌, Option, none, some, not,
}
use go_starter_kit.AppError.{GoError, plain}

-- `ErrInvalid`
abbrev pub err_pagination : GoError
err_pagination = plain 40

abbrev pub max_limit : ℤ
max_limit = pos 100

abbrev pub max_offset : ℤ
max_offset = pos 10000

-- `Params`: two int32 values.
pub record Params : Type 0 where
  pub limit : ℤ
  pub offset : ℤ

-- `Params.Validate`; true is a nil error.
unfoldable pub validate : Params → Bool
validate p = not (
    ltb_ℤ p.limit (pos 1)
    || ltb_ℤ max_limit p.limit
    || ltb_ℤ p.offset (pos 0)
    || ltb_ℤ max_offset p.offset)

-- `FetchLimit`: an int32 addition.
unfoldable pub fetch_limit : Params → ℤ
fetch_limit p = add_int32 p.limit 1

-- `Result[T]`
pub record Page {ℓ} (A : Type ℓ) : Type ℓ where
  pub items : List A
  pub has_more : Bool
  pub limit : ℤ
  pub offset : ℤ

-- `Map`: the items are appended one by one.
module _ {ℓ κ} {S : Type ℓ} {T : Type κ} where
  unfoldable pub map_page : Page S → (S → T) → Page T
  map_page r convert = record {
    items = map convert r.items;
    has_more = r.has_more;
    limit = r.limit;
    offset = r.offset;
  }

  -- `Build`; `none` is `ErrInvalid`.
  unfoldable pub build : List S → Params → (S → T) → Option (Page T)
  unfolding validate map_page
  build rows params convert =
      let n = pos_part params.limit in
      let more = ltb n (length rows) in
      if validate params
      then some (
          map_page
            (record {
              items = if more then take n rows else rows;
              has_more = more;
              limit = params.limit;
              offset = params.offset;
            })
            convert)
      else none
