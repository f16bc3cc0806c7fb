-- ===== src/MailOutbox/Delivery.antt =====
-- internal/modules/mailoutbox/delivery.go, and `stageError` of diagnostics.go: one mail is claimed,
-- sent outside the database, and its outcome written back.
use go_starter_kit.Base.{
  ℕ, ◌+◌, ◌-◌, ◌*◌, ◌^◌, Str, Bool, true, false, ◌&&◌, Option, none, some, codes, ltb, leb, ◌==◌,
  opt_is, if◌then◌else◌, [],
}
use go_starter_kit.AppError.{GoError, deadline_exceeded, plain, stage, errors_is, is_no_rows}
use go_starter_kit.Db.{Result, ok, err, Session, query}
use go_starter_kit.MailOutbox.Queries.{
  Mail, Rows, is_processing, seconds, claim_mail, complete_mail, retry_mail, expire_mail,
}

abbrev pub max_delivery_attempts : ℕ
max_delivery_attempts = 5

-- In seconds.
abbrev pub lease_duration : ℕ
lease_duration = 60

abbrev pub expired_mail_batch_size : ℕ
expired_mail_batch_size = 100

-- In microseconds, as the row's times are.
abbrev pub send_timeout : ℕ
send_timeout = seconds 10

abbrev pub lease_finish_reserve : ℕ
lease_finish_reserve = seconds 5

abbrev pub retry_base_seconds : ℕ
retry_base_seconds = 15

abbrev pub retry_jitter_seconds : ℕ
retry_jitter_seconds = 10

-- `Message`
pub record Message : Type 0 where
  pub id : Str
  pub kind : Str
  pub to : Str
  pub subject : Str
  pub html : Str

-- What `ProcessOne` takes from outside the module: the new lease identifier, the rows that other
-- transactions hold locked at the two statements that skip them, the state of the caller's context
-- and the clock when the sending begins, the sender (given the deadline of its context), and the
-- random number below `retry_jitter_seconds`.
pub record Env : Type 0 where
  pub lease : Str
  pub locked_expire : Str → Bool
  pub locked_claim : Str → Bool
  pub context_error : Option GoError
  pub clock : ℕ
  pub send : ℕ → Message → Option GoError
  pub jitter : ℕ

-- `retryDelaySeconds`; the attempts of a row are not negative.
unfoldable pub retry_delay_seconds : ℕ → ℕ → ℕ
retry_delay_seconds attempt jitter =
    let low = if ltb attempt 1 then 1 else attempt in
    let attempt = if ltb max_delivery_attempts low then max_delivery_attempts else low in
    retry_base_seconds * 2 ^ (attempt - 1) + jitter

-- The earliest of the send timeout, the mail's own end and the lease's end less the reserve.
unfoldable pub send_deadline : ℕ → Mail → ℕ → ℕ
send_deadline clock row leased_until =
    let deadline = clock + send_timeout in
    let deadline = if ltb row.expires_at deadline then row.expires_at else deadline in
    let limit = leased_until - lease_finish_reserve in
    if ltb limit deadline then limit else deadline

-- `sendCtx.Err()`: the caller's error comes first, then a deadline that has passed.
abbrev pub send_context_error : Option GoError → ℕ → ℕ → Option GoError
send_context_error (some e) clock deadline = some e
send_context_error none clock deadline = if leb deadline clock then some deadline_exceeded else none

-- What the delivery came to, and the message if the sender was called.
pub record Delivery : Type 0 where
  pub error : Option GoError
  pub called : Option Message

abbrev pub message_of : Mail → Message
message_of row = record {
  id = row.id;
  kind = row.kind;
  to = row.recipient;
  subject = row.subject;
  html = row.body;
}

call_sender : Env → Mail → ℕ → Option GoError → Delivery
call_sender env row deadline (some e) = record { error = some e; called = none }
call_sender env row deadline none = record {
  error = env.send deadline (message_of row);
  called = some (message_of row);
}

-- `deliver`; the lease's end is there once the claim has been validated.
unfoldable pub deliver : Env → Mail → ℕ → Delivery
unfolding call_sender send_deadline
deliver env row leased_until =
    let deadline = send_deadline env.clock row leased_until in
    call_sender env row deadline (send_context_error env.context_error env.clock deadline)

-- The sentinel texts of the two checks, as plain errors.
abbrev pub err_claim_invalid : GoError
err_claim_invalid = plain 10

abbrev pub err_lease_lost : GoError
err_lease_lost = plain 11

abbrev pub at_stage : Str → Mail → GoError → GoError
at_stage name row cause = stage name row.id row.attempts cause

abbrev confirm : Str → Mail → Result ℕ → Option GoError
confirm name row (err e) = some (at_stage name row e)
confirm name row (ok count) =
    if count == 1 then none else some (at_stage (codes "confirm_lease") row err_lease_lost)

-- `finishDelivery`; the context is detached from the caller's, so a stop does not prevent it.
unfoldable pub finish_delivery :
    Env → Mail → Str → Option GoError → Session Rows → Option GoError × Session Rows
unfolding query
finish_delivery env row lease none s =
    let (r, s') = query (complete_mail row.id lease) s in (confirm (codes "complete") row r, s')
finish_delivery env row lease (some e) s =
    let delay = retry_delay_seconds row.attempts env.jitter in
    let (r, s') = query (retry_mail row.id lease delay max_delivery_attempts) s in
    (confirm (codes "retry") row r, s')

-- The results of `ProcessOne`, and the message handed to the sender, if any.
pub record Outcome : Type 0 where
  pub worked : Bool
  pub error : Option GoError
  pub called : Option Message

send_claimed : Env → Mail → Option ℕ → Session Rows → Outcome × Session Rows
send_claimed env row none s = (
  record {
    worked = true;
    error = some (at_stage (codes "validate_claim") row err_claim_invalid);
    called = none;
  },
  s,
)
send_claimed env row (some leased_until) s =
    let d = deliver env row leased_until in
    let (error, s') = finish_delivery env row env.lease d.error s in
    (record { worked = true; error = error; called = d.called }, s')

after_claim : Env → Result Mail → Session Rows → Outcome × Session Rows
unfolding send_claimed errors_is
after_claim env (err e) s =
    if errors_is is_no_rows e
    then (record { worked = false; error = none; called = none }, s)
    else (record { worked = false; error = some (stage (codes "claim") [] 0 e); called = none }, s)
after_claim env (ok row) s =
    send_claimed env row
      (if is_processing row.status && opt_is row.lease_id env.lease then row.leased_until else none)
      s

after_expire : Env → Result (Unit {0}) → Session Rows → Outcome × Session Rows
unfolding after_claim query
after_expire env (err e) s =
    (record { worked = false; error = some (stage (codes "expire") [] 0 e); called = none }, s)
after_expire env (ok _) s =
    let (r, s') =
      query (claim_mail env.locked_claim env.lease max_delivery_attempts lease_duration) s in
    after_claim env r s'

-- `ProcessOne`
unfoldable pub process_one : Env → Session Rows → Outcome × Session Rows
unfolding after_expire
process_one env s =
    let (r, s') =
      query (expire_mail env.locked_expire max_delivery_attempts expired_mail_batch_size) s in
    after_expire env r s'
