-- ===== src/MailOutbox/Sending.antt =====
-- One call of `ProcessOne`: what is sent, by when, and what becomes of the row.
use go_starter_kit.Base.{ℕ, ◌+◌, ◌≤◌, ◌<◌, true, none, some, ◌≡◌, arith, ◌⊎◌, is_some}
use go_starter_kit.MailOutbox.Queries.{Mail, seconds}
use go_starter_kit.MailOutbox.Delivery.{
  Env, Message, message_of, deliver, send_deadline, send_context_error,
}

-- When the sender is called, it is called with the message of the row, its result is the result
-- of the delivery, and the context of the caller had no error; its deadline is still ahead, at
-- most ten seconds, not behind the mail's own end, and at least five seconds before the lease
-- ends.
pub deliver_deadline :
    (env : Env) (row : Mail) (leased_until : ℕ) {m : Message}
    → (deliver env row leased_until).called ≡ some m
    → let d = send_deadline env.clock row leased_until in
      (m ≡ message_of row)
      × ((deliver env row leased_until).error ≡ env.send d m)
      × (env.context_error ≡ none)
      × (env.clock < d)
      × (d ≤ env.clock + seconds 10)
      × (d ≤ row.expires_at)
      × (d + seconds 5 ≤ leased_until)
unfolding deliver
deliver_deadline env row leased_until e = ground arith

-- A mail that is not sent has a reason: the caller's context was over, or the deadline had passed.
pub deliver_skipped :
    (env : Env) (row : Mail) (leased_until : ℕ)
    → (deliver env row leased_until).called ≡ none
    → (deliver env row leased_until).error
        ≡ send_context_error env.context_error env.clock (send_deadline env.clock row leased_until)
      × ((is_some env.context_error ≡ true)
          ⊎ (send_deadline env.clock row leased_until ≤ env.clock))
unfolding deliver
deliver_skipped env row leased_until e = ground arith
