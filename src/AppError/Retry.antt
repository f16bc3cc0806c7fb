-- ===== src/AppError/Retry.antt =====
-- internal/apperror/retry.go: a delay carried by the error chain. Delays are in nanoseconds, and the
-- program's own are not negative.
use go_starter_kit.Base.{ℕ, Option, none, some, ltb, if◌then◌else◌}
use go_starter_kit.AppError.{GoError, errors_as}

abbrev pub second : ℕ
second = 1000000000

unfoldable pub with_retry_after : Option GoError → ℕ → Option GoError
with_retry_after none delay = none
with_retry_after (some e) delay =
    some (GoError.retry (if ltb delay second then second else delay) e)

abbrev pub as_retry : GoError → Option ℕ
as_retry (GoError.retry d e) = some d
as_retry _ = none

-- The delay of the outermost such error.
unfoldable pub retry_after : GoError → Option ℕ
unfolding errors_as
retry_after e = errors_as as_retry e
