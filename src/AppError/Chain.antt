-- ===== src/AppError/Chain.antt =====
-- What `errors.Is` and `errors.As` find in a wrapped error.
use go_starter_kit.Base.{some, Bool, true, ◌≡◌, arith}
use go_starter_kit.AppError.{
  GoError, AppError, errors_as, errors_is, as_business, is_business, wrap,
}

-- A wrapped error is the business error, and is found as such; and it still is what its cause is.
pub errors_is-wrap :
    (b : AppError) (cause : GoError) (p : GoError → Bool) {w : GoError}
    → wrap (some b) (some cause) ≡ some w
    → errors_is p cause ≡ true
    → (errors_is (is_business b) w ≡ true)
      × (errors_is p w ≡ true)
      × (errors_as as_business w ≡ some b)
unfolding wrap errors_is errors_as
errors_is-wrap b cause p h caused = ground arith
