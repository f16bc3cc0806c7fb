-- ===== src/Tests/Mail.antt =====
-- The outbox on a queue of one mail and two workers.
use go_starter_kit.Base.{
  IsIn, ◌<◌, ◌⊎◌, ◌≤◌, ◌+◌, ◌≤◌, ◌<◌, Str, Bool, true, false, Option, none, some, [], ◌∷◌, codes,
  ◌≡◌, refl, arith, inr,
}
use go_starter_kit.AppError.{GoError, canceled}
use go_starter_kit.Db.{ok}
use go_starter_kit.MailOutbox.Queries.{
  Mail, Rows, EnqueueParams, enqueued, leased, completed, seconds, enqueue_mail, claim_mail,
  complete_mail, retry_mail, expire_mail, candidate, ready, held, expired, expiring, terminal,
}
use go_starter_kit.MailOutbox.Delivery.{
  Env, message_of, deliver, send_deadline, process_one, max_delivery_attempts, lease_duration,
}
use go_starter_kit.MailOutbox.Invariant.{IsValid}
use go_starter_kit.MailOutbox.Claim.{candidate_first}
use go_starter_kit.MailOutbox.History.{
  enqueue, claim, complete, History, apply, run, run-IsValid, row_of,
}
use go_starter_kit.MailOutbox.Lease.{lease_exclusive, stale_writes_nothing}
use go_starter_kit.MailOutbox.Attempts.{deliveries, delivered_at_most_five, finished_forever}
use go_starter_kit.MailOutbox.Sending.{deliver_deadline}
use go_starter_kit.MailOutbox.Processing.{start, recorded, process_one_reports}

abbrev mail : EnqueueParams
mail = record {
  id = codes "m1";
  kind = codes "verify";
  recipient = codes "a@b.c";
  subject = codes "hello";
  body = codes "text";
  expires_at = seconds 3600;
}

abbrev unlocked : Str → Bool
unlocked _ = false

abbrev worker : Str
worker = codes "w1"

abbrev other_worker : Str
other_worker = codes "w2"

abbrev sent_at : Option GoError → Env
sent_at e = record {
  lease = worker;
  locked_expire = unlocked;
  locked_claim = unlocked;
  context_error = none;
  clock = 3;
  send = λ _ _. e;
  jitter = 4;
}

-- One mail that waits.
abbrev queued : History
queued = (1, enqueue mail) ∷ []

-- It is claimed by one worker and again, after the lease, by another, who sends it.
abbrev taken_over : History
taken_over =
    (1, enqueue mail)
    ∷ (2, claim unlocked worker)
    ∷ (seconds 70, claim unlocked other_worker)
    ∷ (seconds 71, complete (codes "m1") other_worker)
    ∷ []

abbrev waiting : Rows
waiting = enqueued mail 1 ∷ []

abbrev claimed : Mail
claimed = leased worker lease_duration 2 (enqueued mail 1)

abbrev finished : Mail
finished = completed (seconds 71) (leased other_worker lease_duration (seconds 70) claimed)

waiting-IsValid : IsValid waiting
unfolding run apply enqueue_mail
waiting-IsValid = run-IsValid queued

finished-IsValid : IsValid (finished ∷ [])
unfolding run apply enqueue_mail claim_mail candidate ready complete_mail held
finished-IsValid = run-IsValid taken_over

run-IsValid_example : IsValid (run taken_over [])
run-IsValid_example = run-IsValid taken_over

delivered_at_most_five_example : deliveries (codes "m1") taken_over [] ≤ 5
delivered_at_most_five_example = delivered_at_most_five (codes "m1") taken_over

finished_forever_example : row_of (codes "m1") (run taken_over (finished ∷ [])) ≡ some finished
unfolding terminal
finished_forever_example =
    finished_forever taken_over (codes "m1") (finished ∷ []) {r = finished} finished-IsValid refl
      refl

lease_exclusive_example :
    (complete_mail
        (codes "m1")
        worker
        5
        (run ((4, claim unlocked other_worker) ∷ []) (claimed ∷ []))).0
      ≡ ok 1
    × (row_of
          (codes "m1")
          (complete_mail
            (codes "m1")
            worker
            5
            (run ((4, claim unlocked other_worker) ∷ []) (claimed ∷ []))).1
        ≡ some (completed 5 claimed))
unfolding claim_mail candidate ready
lease_exclusive_example =
    (lease_exclusive unlocked worker 2 5 9 waiting ((4, claim unlocked other_worker) ∷ [])
      {r = claimed} {rows' = claimed ∷ []} waiting-IsValid refl ((omega arith, tt), tt)
      (omega arith)).0

stale_writes_nothing_example :
    (complete_mail (codes "m1") worker (seconds 72) (finished ∷ []) ≡ (ok 0, finished ∷ []))
    × (retry_mail (codes "m1") worker 30 max_delivery_attempts (seconds 72) (finished ∷ [])
        ≡ (ok 0, finished ∷ []))
stale_writes_nothing_example =
    stale_writes_nothing (codes "m1") worker 30 (seconds 72) (finished ∷ []) {r = finished}
      finished-IsValid refl (inr (inr refl))

candidate_first_example :
    (IsIn (enqueued mail 1) waiting
      × (ready max_delivery_attempts 2 (enqueued mail 1) ≡ true)
      × (unlocked (enqueued mail 1).id ≡ false))
    × ((x : Mail)
        → IsIn x waiting
        → ready max_delivery_attempts 2 x ≡ true
        → unlocked x.id ≡ false
        → ((enqueued mail 1).available_at < x.available_at)
          ⊎ (((enqueued mail 1).available_at ≡ x.available_at)
              × ((enqueued mail 1).created_at ≤ x.created_at)))
unfolding candidate ready
candidate_first_example = candidate_first unlocked 2 waiting {c = enqueued mail 1} refl

deliver_deadline_example :
    (message_of claimed ≡ message_of claimed)
    × ((deliver (sent_at none) claimed (seconds 60)).error ≡ none)
    × ((sent_at none).context_error ≡ none)
    × (3 < send_deadline 3 claimed (seconds 60))
    × (send_deadline 3 claimed (seconds 60) ≤ 3 + seconds 10)
    × (send_deadline 3 claimed (seconds 60) ≤ seconds 3600)
    × (send_deadline 3 claimed (seconds 60) + seconds 5 ≤ seconds 60)
unfolding deliver send_deadline
deliver_deadline_example =
    deliver_deadline (sent_at none) claimed (seconds 60) {m = message_of claimed} refl

process_one_reports_example :
    ((process_one
        (sent_at (some canceled))
        (start waiting 1 2 5 ((4, claim unlocked other_worker) ∷ []))).0
      ≡ record { worked = true; error = none; called = some (message_of claimed) })
    × (row_of
          (codes "m1")
          (process_one
            (sent_at (some canceled))
            (start waiting 1 2 5 ((4, claim unlocked other_worker) ∷ []))).1.table
        ≡ some (recorded (sent_at (some canceled)) 5 (some canceled) claimed))
unfolding candidate expire_mail expiring expired ready deliver send_deadline
process_one_reports_example =
    process_one_reports (sent_at (some canceled)) waiting 1 2 5
      ((4, claim unlocked other_worker) ∷ []) {c = enqueued mail 1} waiting-IsValid refl
      ((omega arith, tt), tt) (omega arith)
