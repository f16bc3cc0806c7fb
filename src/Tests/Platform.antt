-- ===== src/Tests/Platform.antt =====
-- Passwords and locks at concrete inputs.
use go_starter_kit.Base.{
  ◌++◌, length, ◌*◌, ◌≤◌, Str, true, false, List, [], ◌∷◌, Option, none, some, codes, str_eq, ◌==◌,
  ◌≡◌, refl, arith, All, if◌then◌else◌, pos,
}
use go_starter_kit.AppError.{GoError, joined, deadline_exceeded, canceled, errors_is}
use go_starter_kit.Db.{ok, err}
use go_starter_kit.Passwords.{
  HashParams, Argon2id, Looks, Slots, default_params, allowed_params, verify, acquire, with_slot,
  compare_with, chosen,
}
use go_starter_kit.Passwords.Bounds.{
  IsBounded, IsMatch, verify_all, verify_all-IsBounded, verify-IsMatch,
}
use go_starter_kit.Locker.{
  failed, Progress, err_unavailable, Work, Turn, busy, acquired, valid_key, run_loop, execute, join,
  lost, next_delay, prepare, err_reentrant, millisecond,
}
use go_starter_kit.Locker.Runs.{IsClean, run_loop-waits, run_loop-ends, run_loop-IsClean}

-- A hash is the letter of its cost and the password.
abbrev lib : Argon2id
lib = record {
  create_hash = λ value p. ok (100 ∷ value);
  decode_hash = λ h. params_of h;
  compare = λ value h. some (str_eq h (100 ∷ value));
}
  where
    params_of : Str → Option HashParams
    params_of [] = none
    params_of (c ∷ rest) =
        if c == 100
        then some default_params
        else if c == 101
        then some (record default_params { iterations = 1000 })
        else none

abbrev in_time : Looks
in_time = record {
  entering = none;
  acquiring = none;
  waiting = none;
  taking = none;
  finishing = none;
}

abbrev free : Slots
free = record { taken = 0; compared = [] }

abbrev calls : List (Looks × Str × Str)
calls =
    (in_time, codes "dsecret", codes "secret")
    ∷ (in_time, codes "esecret", codes "secret")
    ∷ (record in_time { waiting = some deadline_exceeded }, codes "dsecret", codes "secret")
    ∷ []

verify_all-IsBounded_example : IsBounded lib 0 (verify_all lib (codes "ddummy") calls free)
unfolding allowed_params
verify_all-IsBounded_example = verify_all-IsBounded lib (codes "ddummy") calls free refl tt

verify-IsMatch_example : IsMatch lib (codes "dsecret") (codes "secret") false
unfolding verify with_slot acquire compare_with chosen allowed_params
verify-IsMatch_example =
    verify-IsMatch lib in_time (codes "ddummy") (codes "dsecret") (codes "secret") free
      {s' = record { taken = 0; compared = codes "dsecret" ∷ [] }} refl

-- A hash that costs too much does not match, and the dummy is computed in its place.
too_costly :
    verify lib in_time (codes "ddummy") (codes "esecret") (codes "secret") free
    ≡ (ok (false, false), record { taken = 0; compared = codes "ddummy" ∷ [] })
unfolding verify with_slot acquire compare_with chosen allowed_params
too_costly = refl

abbrev work : Work
work = record {
  cause_before = none;
  task = none;
  stopped = true;
  watch = some canceled;
  cause_after = none;
  release = none;
}

abbrev turns : List Turn
turns =
    record { attempt = busy; jitter = 10 * millisecond; done = none }
    ∷ record { attempt = busy; jitter = 50 * millisecond; done = none }
    ∷ record { attempt = acquired; jitter = 0; done = none }
    ∷ []

run_loop-waits_example :
    All
      (λ n. (25 * millisecond ≤ n) × (n ≤ 1000 * millisecond))
      (run_loop (1000 * millisecond) work (50 * millisecond) turns).waits
unfolding next_delay
run_loop-waits_example =
    run_loop-waits (50 * millisecond) (1000 * millisecond) (50 * millisecond) work turns
      (omega arith) (omega arith) (omega arith, (omega arith, (omega arith, tt)))

abbrev waiting : List Turn
waiting =
    record { attempt = busy; jitter = 10 * millisecond; done = none }
    ∷ record { attempt = busy; jitter = 50 * millisecond; done = none }
    ∷ []

abbrev broken : Turn
broken = record { attempt = failed deadline_exceeded; jitter = 0; done = none }

abbrev run_over : List Turn → Progress
run_over = run_loop (1000 * millisecond) work (50 * millisecond)

run_loop-ends_example :
    ((run_over waiting).result ≡ none)
    × ((e : GoError)
        → broken.attempt ≡ failed e
        → ((run_over (waiting ++ broken ∷ turns)).result ≡ some (some (joined err_unavailable e)))
          × ((run_over (waiting ++ broken ∷ turns)).events ≡ [])
          × (length (run_over (waiting ++ broken ∷ turns)).waits ≡ 2))
    × ((e : GoError)
        → broken.attempt ≡ busy
        → broken.done ≡ some e
        → ((run_over (waiting ++ broken ∷ turns)).result ≡ some (some e))
          × ((run_over (waiting ++ broken ∷ turns)).events ≡ [])
          × (length (run_over (waiting ++ broken ∷ turns)).waits ≡ 3))
    × (broken.attempt ≡ acquired
        → ((run_over (waiting ++ broken ∷ turns)).result ≡ some (execute work).error)
          × ((run_over (waiting ++ broken ∷ turns)).events ≡ (execute work).events)
          × (length (run_over (waiting ++ broken ∷ turns)).waits ≡ 2))
run_loop-ends_example =
    run_loop-ends (1000 * millisecond) (50 * millisecond) work waiting broken turns
      ((refl, refl), ((refl, refl), tt))

run_loop-IsClean_example :
    IsClean work (run_loop (1000 * millisecond) work (50 * millisecond) turns).events
unfolding run_loop execute join lost next_delay errors_is
run_loop-IsClean_example = run_loop-IsClean (1000 * millisecond) (50 * millisecond) work turns refl

-- A caller that holds the lock is refused.
reentrant :
    prepare
      (record {
        namespace = codes "app";
        acquire_timeout = pos 0;
        release_timeout = pos 0;
        retry_min = pos 0;
        retry_max = pos 0;
      })
      (codes "app:jobs" ∷ [])
      none
      (codes "jobs")
      true
    ≡ err err_reentrant
unfolding prepare valid_key
reentrant = refl
