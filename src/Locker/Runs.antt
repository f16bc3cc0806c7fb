-- ===== src/Locker/Runs.antt =====
-- How long `Run` waits, when it ends, and what it has done then.
use go_starter_kit.Base.{
  ℕ, ◌+◌, ◌/◌, ◌≤◌, Bool, true, false, length, ◌∙◌, List, [], ◌∷◌, ◌++◌, Option, none, some, ◌≡◌,
  inl, inr, refl, arith, All, Option-cases,
}
use go_starter_kit.AppError.{GoError, errors_is, is_canceled, is_plain, joined}
use go_starter_kit.Locker.{
  Attempt, failed, busy, acquired, Work, Turn, Progress, Event, entered, released, run_loop, pass,
  execute, next_delay, join, lost, released_with, err_unavailable,
}

-- The random part of each wait is at most half of its delay.
abbrev pub AreDrawn : ℕ → ℕ → List Turn → Type 0
AreDrawn max delay [] = Unit {0}
AreDrawn max delay (turn ∷ rest) =
    (turn.jitter ≤ delay / 2) × AreDrawn max (next_delay max delay) rest

next_delay-bounds :
    (min max delay : ℕ)
    → min ≤ delay
    → delay ≤ max
    → (min ≤ next_delay max delay) × (next_delay max delay ≤ max)
unfolding next_delay
next_delay-bounds min max delay low high = ground arith

module _ (w : Work) (n : ℕ) where
  pass-waits :
      (P : ℕ → Type 0) (a : Attempt) (cut : Option GoError) (later : Progress)
      → P n
      → All P later.waits
      → All P (pass w n a cut later).waits
  pass-waits P (failed e) cut later h k = tt
  pass-waits P acquired cut later h k = tt
  pass-waits P busy (some e) later h k = (h, tt)
  pass-waits P busy none later h k = (h, k)

-- Every wait takes at least half of the shortest delay, and at most the longest one, if the loop begins
-- between these two and the random parts are at most half of the delays.
pub run_loop-waits :
    (min max delay : ℕ) (w : Work) (turns : List Turn)
    → min ≤ delay
    → delay ≤ max
    → AreDrawn max delay turns
    → All (λ n. (min / 2 ≤ n) × (n ≤ max)) (run_loop max w delay turns).waits
unfolding run_loop
run_loop-waits min max delay w [] low high drawn = tt
run_loop-waits min max delay w (turn ∷ rest) low high drawn =
    let (low', high') = next_delay-bounds min max delay low high in
    let drawn_here : turn.jitter ≤ delay / 2 = drawn.0 in
    pass-waits w (delay / 2 + turn.jitter) (λ n. (min / 2 ≤ n) × (n ≤ max)) turn.attempt turn.done
      (run_loop max w (next_delay max delay) rest) (omega arith, omega arith)
      (run_loop-waits min max (next_delay max delay) w rest low' high' drawn.1)

-- The task was run to its end with no error, and then the lease was given back with none. The watch of
-- the lease has ended only because it was stopped, with nothing but the cancellation that this is, so
-- that it has not reported the lock as lost; and the context of the task was not done.
pub record IsClean (w : Work) (events : List Event) : Type 0 where
  pub in_order : events ≡ entered ∷ released ∷ []
  pub in_time : w.cause_before ≡ none
  pub done_well : w.task ≡ none
  pub stopped : w.stopped ≡ true
  pub watched :
      (e : GoError) × (w.watch ≡ some e)
      × (errors_is is_canceled e ≡ true)
      × (errors_is (is_plain 124) e ≡ false)
  pub alive : w.cause_after ≡ none
  pub given_back : w.release ≡ none

lost-none :
    (stopped : Bool) (watch : Option GoError)
    → lost stopped watch ≡ none
    → (stopped ≡ true)
      × ((e : GoError) × (watch ≡ some e)
          × (errors_is is_canceled e ≡ true)
          × (errors_is (is_plain 124) e ≡ false))
unfolding lost
lost-none false watch h = cc
lost-none true none h = cc
lost-none true (some e) h = (refl, (e, refl, ground arith, ground arith))

join-none : (a b : Option GoError) → join a b ≡ none → (a ≡ none) × (b ≡ none)
unfolding join
join-none none b e = (refl, e)
join-none (some a) none e = cc
join-none (some a) (some b) e = cc

released_with-none : (o : Option GoError) → released_with o ≡ none → o ≡ none
released_with-none none e = refl
released_with-none (some x) e = cc

execute-IsClean : (w : Work) → (execute w).error ≡ none → IsClean w (execute w).events
unfolding execute
execute-IsClean w e = elim (Option-cases w.cause_before) [
  | inr (cause, late) ↦
      let bad : join (join (join (some cause) (lost w.stopped w.watch)) w.cause_after)
            (released_with w.release)
          ≡ none =
        rw late at e in
      let (left, _) = join-none _ (released_with w.release) bad in
      let (left', _) = join-none _ w.cause_after left in
      let (left'', _) = join-none (some cause) (lost w.stopped w.watch) left' in cc left''
  | inl fine ↦
      let good : join (join (join w.task (lost w.stopped w.watch)) w.cause_after)
            (released_with w.release)
          ≡ none =
        rw fine at e in
      let (left, back) = join-none _ (released_with w.release) good in
      let (left', after) = join-none _ w.cause_after left in
      let (task, held) = join-none w.task (lost w.stopped w.watch) left' in
      let (stopped, watched) = lost-none w.stopped w.watch held in
      record {
        in_order = rw fine refl;
        in_time = fine;
        done_well = task;
        stopped = stopped;
        watched = watched;
        alive = after;
        given_back = released_with-none w.release back;
      }
]

module _ (w : Work) (n : ℕ) where
  pass-IsClean :
      (a : Attempt) (cut : Option GoError) (later : Progress)
      → (later.result ≡ some none → IsClean w later.events)
      → (pass w n a cut later).result ≡ some none
      → IsClean w (pass w n a cut later).events
  pass-IsClean (failed e) cut later h is = cc
  pass-IsClean acquired cut later h is = execute-IsClean w (ground arith)
  pass-IsClean busy (some e) later h is = cc
  pass-IsClean busy none later h is = h is

-- The lock is busy and the context is not done.
abbrev pub AreBusy : List Turn → Type 0
AreBusy turns = All (λ (turn : Turn). (turn.attempt ≡ busy) × (turn.done ≡ none)) turns

-- The loop has passed over turns, waiting in each, to the rest.
record HasPassedOver (max : ℕ) (w : Work) (before rest : List Turn) (p : Progress) : Type 0 where
  pub delay : ℕ
  pub same_result : p.result ≡ (run_loop max w delay rest).result
  pub same_events : p.events ≡ (run_loop max w delay rest).events
  pub counted : length p.waits ≡ length before + length (run_loop max w delay rest).waits

run_loop-HasPassedOver :
    (max delay : ℕ) (w : Work) (before rest : List Turn)
    → AreBusy before
    → HasPassedOver max w before rest (run_loop max w delay (before ++ rest))
unfolding run_loop
run_loop-HasPassedOver max delay w [] rest h = record {
  delay = delay;
  same_result = refl;
  same_events = refl;
  counted = omega arith;
}
run_loop-HasPassedOver max delay w (turn ∷ before) rest h =
    let later = run_loop-HasPassedOver max (next_delay max delay) w before rest h.1 in
    rw (h.0.0, h.0.1)
      (record {
        delay = later.delay;
        same_result = later.same_result;
        same_events = later.same_events;
        counted = omega (arith, later.counted);
      })

-- While the lock is busy and the context is not done, the loop goes on, with one wait for each turn. At
-- the first other turn it ends, whatever would come after: with the failure of the backend, as an
-- unavailable lock, and no task; or with the error of the context, after a last wait, and no task; or,
-- under the lease, with what comes of the task. No turn before that is the last one.
pub run_loop-ends :
    (max delay : ℕ) (w : Work) (before : List Turn) (turn : Turn) (after : List Turn)
    → AreBusy before
    → ((run_loop max w delay before).result ≡ none)
      × ((e : GoError)
          → turn.attempt ≡ failed e
          → ((run_loop max w delay (before ++ turn ∷ after)).result
              ≡ some (some (joined err_unavailable e)))
            × ((run_loop max w delay (before ++ turn ∷ after)).events ≡ [])
            × (length (run_loop max w delay (before ++ turn ∷ after)).waits ≡ length before))
      × ((e : GoError)
          → turn.attempt ≡ busy
          → turn.done ≡ some e
          → ((run_loop max w delay (before ++ turn ∷ after)).result ≡ some (some e))
            × ((run_loop max w delay (before ++ turn ∷ after)).events ≡ [])
            × (length (run_loop max w delay (before ++ turn ∷ after)).waits ≡ length before + 1))
      × (turn.attempt ≡ acquired
          → ((run_loop max w delay (before ++ turn ∷ after)).result ≡ some (execute w).error)
            × ((run_loop max w delay (before ++ turn ∷ after)).events ≡ (execute w).events)
            × (length (run_loop max w delay (before ++ turn ∷ after)).waits ≡ length before))
unfolding run_loop
run_loop-ends max delay w before turn after h =
    let over = run_loop-HasPassedOver max delay w before (turn ∷ after) h in
    (
      going max delay before h,
      λ e is. (
        over.same_result ∙ rw is refl,
        over.same_events ∙ rw is refl,
        over.counted ∙ rw is (omega arith),
      ),
      λ e is cut. (
        over.same_result ∙ rw (is, cut) refl,
        over.same_events ∙ rw (is, cut) refl,
        over.counted ∙ rw (is, cut) refl,
      ),
      λ is. (
        over.same_result ∙ rw is refl,
        over.same_events ∙ rw is refl,
        over.counted ∙ rw is (omega arith),
      ),
    )
  where
    going :
        (max delay : ℕ) (before : List Turn)
        → AreBusy before
        → (run_loop max w delay before).result ≡ none
    going max delay [] h = refl
    going max delay (t ∷ rest) h = rw (h.0.0, h.0.1) (going max (next_delay max delay) rest h.1)

-- When `Run` returns no error, the task was entered once, under the lease and before the context was
-- done, and has returned no error; the watch has ended only by being stopped, and has not reported the
-- lock as lost; the context was not done meanwhile; and then the lease was given back, once, with no
-- error.
pub run_loop-IsClean :
    (max delay : ℕ) (w : Work) (turns : List Turn)
    → (run_loop max w delay turns).result ≡ some none
    → IsClean w (run_loop max w delay turns).events
unfolding run_loop
run_loop-IsClean max delay w [] e = cc
run_loop-IsClean max delay w (turn ∷ rest) e =
    pass-IsClean w (delay / 2 + turn.jitter) turn.attempt turn.done
      (run_loop max w (next_delay max delay) rest)
      (run_loop-IsClean max (next_delay max delay) w rest) e
