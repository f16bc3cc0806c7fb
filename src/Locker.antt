-- ===== src/Locker.antt =====
-- internal/platform/locker: runner.go, with the errors of locker.go. What the backend, the lease, the
-- task and the contexts answer is given; the metrics are left out.
pub mod Runs
use go_starter_kit.Base.{
  ℕ, ◌+◌, ◌*◌, ◌/◌, ◌≤◌, ◌<◌, ℤ, pos, ltb_ℤ, Str, Bool, true, false, not, ◌&&◌, ◌||◌, List, [], ◌∷◌,
  ◌++◌, Option, none, some, codes, str_eq, leb, ltb, ◌==◌, length, any_by, is_some, if◌then◌else◌,
}
use go_starter_kit.AppError.{GoError, plain, joined, errors_is, is_plain, is_canceled}
use go_starter_kit.Db.{Result, ok, err}

abbrev pub err_invalid_key : GoError
err_invalid_key = plain 120

abbrev pub err_invalid_task : GoError
err_invalid_task = plain 121

abbrev pub err_reentrant : GoError
err_reentrant = plain 122

abbrev pub err_unavailable : GoError
err_unavailable = plain 123

abbrev pub err_lock_lost : GoError
err_lock_lost = plain 124

abbrev pub err_release : GoError
err_release = plain 125

-- `Wrap`
unfoldable pub wrap_failure : GoError → Option GoError → GoError
wrap_failure kind none = kind
wrap_failure kind (some cause) = joined kind cause

-- `Options`, in nanoseconds
pub record Options : Type 0 where
  pub namespace : Str
  pub acquire_timeout : ℤ
  pub release_timeout : ℤ
  pub retry_min : ℤ
  pub retry_max : ℤ

abbrev is_key_byte : ℕ → Bool
is_key_byte c =
    ((leb 97 c && leb c 122) || (leb 65 c && leb c 90))
    || ((leb 48 c && leb c 57) || (c == 58 || (c == 95 || (c == 45 || c == 46))))

-- `validKey`
unfoldable pub valid_key : Str → ℕ → Bool
valid_key key max =
    not (length key == 0 || ltb max (length key)) && not (any_by (λ c. not (is_key_byte c)) key)

abbrev or_default : ℕ → ℤ → ℤ
or_default d v = if not (ltb_ℤ v (pos 0) || ltb_ℤ (pos 0) v) then pos d else v

abbrev pub millisecond : ℕ
millisecond = 1000000

abbrev completed : Options → Options
completed o = record {
  namespace = o.namespace;
  acquire_timeout = or_default (5000 * millisecond) o.acquire_timeout;
  release_timeout = or_default (5000 * millisecond) o.release_timeout;
  retry_min = or_default (50 * millisecond) o.retry_min;
  retry_max = or_default (1000 * millisecond) o.retry_max;
}

abbrev is_refused : Options → Bool
is_refused o =
    (ltb_ℤ o.acquire_timeout (pos 0) || ltb_ℤ o.release_timeout (pos 0))
    || (ltb_ℤ o.retry_min (pos millisecond) || ltb_ℤ o.retry_max o.retry_min)

-- `New`: the options of the runner, or none for an error, with a backend and with metrics that are there.
unfoldable pub new : Options → Option Options
unfolding valid_key
new o =
    if not (valid_key o.namespace 64) || any_by (λ c. c == 58) o.namespace
    then none
    else if is_refused (completed o)
    then none
    else some (completed o)

-- `prepare`: the locks that the caller holds are those of the context, the last one first.
unfoldable pub prepare : Options → List Str → Option GoError → Str → Bool → Result Str
prepare o held done key has_task =
    if not (valid_key key 256)
    then err err_invalid_key
    else if not has_task
    then err err_invalid_task
    else elim done [
      | some e ↦ err e
      | none ↦
          let name = o.namespace ++ 58 ∷ key in
          if any_by (λ h. str_eq h name) held then err err_reentrant else ok name
    ]

-- What `TryAcquire` answers.
pub data Attempt : Type 0 where
  failed : GoError → Attempt
  busy acquired : Attempt

-- What a held lease goes through: whether the context is done before the task, the error of the task,
-- whether the watch had been stopped when it ended and with which error, the cause of the context at the
-- end, and the error of `Release`.
pub record Work : Type 0 where
  pub cause_before : Option GoError
  pub task : Option GoError
  pub stopped : Bool
  pub watch : Option GoError
  pub cause_after : Option GoError
  pub release : Option GoError

-- `errors.Join` of two
unfoldable pub join : Option GoError → Option GoError → Option GoError
join none b = b
join (some a) none = some a
join (some a) (some b) = some (joined a b)

abbrev ended_by_stop : Option GoError → Bool
ended_by_stop none = false
ended_by_stop (some e) = errors_is is_canceled e && not (errors_is (is_plain 124) e)

-- The goroutine of `execute`: the loss of the lock, if it is no end by `stop`.
unfoldable pub lost : Bool → Option GoError → Option GoError
unfolding wrap_failure
lost stopped watch =
    if stopped && ended_by_stop watch then none else some (wrap_failure err_lock_lost watch)

-- What was done with a lease, in order.
pub data Event : Type 0 where
  entered released : Event

pub record Outcome : Type 0 where
  pub ran : Bool
  pub error : Option GoError
  pub events : List Event

abbrev released_with : Option GoError → Option GoError
released_with none = none
released_with (some e) = some (joined err_release e)

-- The deferred end of `execute`
abbrev pub finished : Work → Bool → Option GoError → List Event → Outcome
finished w ran error events = record {
  ran = ran;
  error = join (join (join error (lost w.stopped w.watch)) w.cause_after) (released_with w.release);
  events = events ++ released ∷ [];
}

-- `execute`
unfoldable pub execute : Work → Outcome
unfolding join lost
execute w = elim w.cause_before [
  | some cause ↦ finished w false (some cause) []
  | none ↦ finished w true w.task (entered ∷ [])
]

-- `acquire`: whether there is a lease.
abbrev pub acquire : Attempt → Result Bool
acquire (failed e) = err (joined err_unavailable e)
acquire busy = ok false
acquire acquired = ok true

-- `TryRun`
unfoldable pub try_run : Options → List Str → Option GoError → Str → Bool → Attempt → Work → Outcome
unfolding prepare execute
try_run o held done key has_task attempt w = elim (prepare o held done key has_task) [
  | err e ↦ record { ran = false; error = some e; events = [] }
  | ok _ ↦ elim (acquire attempt) [
    | err e ↦ record { ran = false; error = some e; events = [] }
    | ok got ↦ if got then execute w else record { ran = false; error = none; events = [] }
  ]
]

-- The delay of the next wait
unfoldable pub next_delay : ℕ → ℕ → ℕ
next_delay max delay = if leb delay (max / 2) then delay * 2 else max

-- One turn of the loop: the attempt, the random part of the wait, and the error of the context if it
-- is done during the wait.
pub record Turn : Type 0 where
  pub attempt : Attempt
  pub jitter : ℕ
  pub done : Option GoError

-- What the loop has done: its result once there is one, its waits, and what was done with the lease.
pub record Progress : Type 0 where
  pub result : Option (Option GoError)
  pub waits : List ℕ
  pub events : List Event

abbrev pub waited : ℕ → Progress → Progress
waited w p = record p { waits = w ∷ p.waits }

abbrev pub stopped_with : Option GoError → List Event → Progress
stopped_with error events = record { result = some error; waits = []; events = events }

-- One pass of the loop, with what follows if there is a next one.
abbrev pub pass : Work → ℕ → Attempt → Option GoError → Progress → Progress
pass w n (failed e) cut later = stopped_with (some (joined err_unavailable e)) []
pass w n acquired cut later = stopped_with (execute w).error (execute w).events
pass w n busy (some e) later = record { result = some (some e); waits = n ∷ []; events = [] }
pass w n busy none later = waited n later

-- The loop of `Run` over these turns
unfoldable pub run_loop : ℕ → Work → ℕ → List Turn → Progress
run_loop max w delay [] = record { result = none; waits = []; events = [] }
run_loop max w delay (turn ∷ rest) =
    pass w (delay / 2 + turn.jitter) turn.attempt turn.done
      (run_loop max w (next_delay max delay) rest)
