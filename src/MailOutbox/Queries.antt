-- ===== src/MailOutbox/Queries.antt =====
-- internal/db/sqlc/mail_outbox.sql.go: the statements on the table mail_outbox, and the row of
-- internal/db/sqlc/models.go. Times are in microseconds.
use go_starter_kit.Base.{
  ℕ, ◌+◌, ◌*◌, Str, Bool, true, false, not, ◌&&◌, ◌||◌, Option, none, some, List, [], ◌∷◌, codes,
  ltb, leb, ◌==◌, str_eq, opt_is, if◌then◌else◌, filter_by, update_by, count_by, any_by, sort_by,
  take, head?,
}
use go_starter_kit.AppError.{pg, no_rows}
use go_starter_kit.Db.{Result, ok, err, Statement, unique_violation}

-- `Status`, a string; `other` is any text that no constant names.
pub data Status : Type 0 where
  pending processing sent failed : Status
  other : Str → Status

unfoldable pub valid : Status → Bool
valid (other _) = false
valid pending = true
valid processing = true
valid sent = true
valid failed = true

unfoldable pub terminal : Status → Bool
terminal sent = true
terminal failed = true
terminal _ = false

abbrev pub is_pending : Status → Bool
is_pending pending = true
is_pending _ = false

abbrev pub is_processing : Status → Bool
is_processing processing = true
is_processing _ = false

-- `MailOutbox` of the generated models.
pub record Mail : Type 0 where
  pub id : Str
  pub kind : Str
  pub recipient : Str
  pub subject : Str
  pub body : Str
  pub status : Status
  pub attempts : ℕ
  pub available_at : ℕ
  pub expires_at : ℕ
  pub lease_id : Option Str
  pub leased_until : Option ℕ
  pub last_error : Option Str
  pub created_at : ℕ
  pub completed_at : Option ℕ

abbrev pub Rows : Type 0
Rows = List Mail

abbrev pub seconds : ℕ → ℕ
seconds n = n * 1000000

-- `t <= now()` and `t > now()`, which a null fails.
abbrev pub is_due : Option ℕ → ℕ → Bool
is_due none now = false
is_due (some t) now = leb t now

abbrev pub is_ahead : Option ℕ → ℕ → Bool
is_ahead none now = false
is_ahead (some t) now = ltb now t

pub record EnqueueParams : Type 0 where
  pub id : Str
  pub kind : Str
  pub recipient : Str
  pub subject : Str
  pub body : Str
  pub expires_at : ℕ

abbrev pub enqueued : EnqueueParams → ℕ → Mail
enqueued p now = record {
  id = p.id;
  kind = p.kind;
  recipient = p.recipient;
  subject = p.subject;
  body = p.body;
  status = pending;
  attempts = 0;
  available_at = now;
  expires_at = p.expires_at;
  lease_id = none;
  leased_until = none;
  last_error = none;
  created_at = now;
  completed_at = none;
}

-- EnqueueMail; the other columns have the defaults of the table, and `id` is its primary key.
unfoldable pub enqueue_mail : EnqueueParams → Statement Rows (Unit {0})
enqueue_mail p now rows =
    if any_by (λ r. str_eq r.id p.id) rows
    then (err (pg unique_violation (codes "mail_outbox_pkey")), rows)
    else (ok tt, enqueued p now ∷ rows)

-- The WHERE clause of ClaimMail's candidate.
unfoldable pub ready : ℕ → ℕ → Mail → Bool
ready max_attempts now r =
    ((is_pending r.status && leb r.available_at now)
      || (is_processing r.status && is_due r.leased_until now))
    && (ltb now r.expires_at && ltb r.attempts max_attempts)

-- ORDER BY available_at, created_at
abbrev pub queue_le : Mail → Mail → Bool
queue_le a b =
    ltb a.available_at b.available_at
    || (a.available_at == b.available_at && leb a.created_at b.created_at)

-- FOR UPDATE SKIP LOCKED LIMIT 1: `locked` tells the rows that other transactions hold.
unfoldable pub candidate : (Str → Bool) → ℕ → ℕ → Rows → Option Mail
candidate locked max_attempts now rows =
    head? (sort_by queue_le (filter_by (λ r. ready max_attempts now r && not (locked r.id)) rows))

abbrev pub leased : Str → ℕ → ℕ → Mail → Mail
leased lease lease_seconds now r = record r {
  status = processing;
  attempts = r.attempts + 1;
  lease_id = some lease;
  leased_until = some (now + seconds lease_seconds);
}

-- UPDATE … WHERE id = (SELECT id FROM candidate) RETURNING *
abbrev pub claim_row : Str → ℕ → ℕ → Rows → Option Mail → Result Mail × Rows
claim_row lease lease_seconds now rows none = (err no_rows, rows)
claim_row lease lease_seconds now rows (some c) = (
  ok (leased lease lease_seconds now c),
  update_by (λ r. str_eq r.id c.id) (leased lease lease_seconds now) rows,
)

-- ClaimMail
unfoldable pub claim_mail : (Str → Bool) → Str → ℕ → ℕ → Statement Rows Mail
claim_mail locked lease max_attempts lease_seconds now rows =
    claim_row lease lease_seconds now rows (candidate locked max_attempts now rows)

-- The WHERE clause of CompleteMail and RetryMail.
unfoldable pub held : Str → Str → ℕ → Mail → Bool
held id lease now r =
    str_eq r.id id
    && (opt_is r.lease_id lease && (is_processing r.status && is_ahead r.leased_until now))

abbrev pub completed : ℕ → Mail → Mail
completed now r = record r {
  status = sent;
  recipient = [];
  subject = [];
  body = [];
  lease_id = none;
  leased_until = none;
  last_error = none;
  completed_at = some now;
}

-- CompleteMail
unfoldable pub complete_mail : Str → Str → Statement Rows ℕ
unfolding held
complete_mail id lease now rows =
    (ok (count_by (held id lease now) rows), update_by (held id lease now) (completed now) rows)

-- `attempts >= max_attempts OR expires_at <= now()`
abbrev pub spent : ℕ → ℕ → Mail → Bool
spent max_attempts now r = leb max_attempts r.attempts || leb r.expires_at now

abbrev pub retried : ℕ → ℕ → ℕ → Mail → Mail
retried max_attempts delay_seconds now r =
    let over = spent max_attempts now r in
    record r {
      status = if over then failed else pending;
      recipient = if over then [] else r.recipient;
      subject = if over then [] else r.subject;
      body = if over then [] else r.body;
      completed_at = if over then some now else none;
      available_at = now + seconds delay_seconds;
      lease_id = none;
      leased_until = none;
      last_error = some (codes "sender_unavailable");
    }

-- RetryMail
unfoldable pub retry_mail : Str → Str → ℕ → ℕ → Statement Rows ℕ
unfolding held
retry_mail id lease delay_seconds max_attempts now rows = (
  ok (count_by (held id lease now) rows),
  update_by (held id lease now) (retried max_attempts delay_seconds now) rows,
)

-- The WHERE clause of ExpireMail's subquery.
unfoldable pub expired : ℕ → ℕ → Mail → Bool
expired max_attempts now r =
    (is_pending r.status || (is_processing r.status && is_due r.leased_until now))
    && (leb r.expires_at now || leb max_attempts r.attempts)

abbrev pub created_le : Mail → Mail → Bool
created_le a b = leb a.created_at b.created_at

unfoldable pub expiring : (Str → Bool) → ℕ → ℕ → ℕ → Rows → Rows
expiring locked max_attempts batch_size now rows =
    take batch_size
      (sort_by created_le (filter_by (λ r. expired max_attempts now r && not (locked r.id)) rows))

abbrev pub dropped : ℕ → Mail → Mail
dropped now r = record r {
  status = failed;
  recipient = [];
  subject = [];
  body = [];
  lease_id = none;
  leased_until = none;
  completed_at = some now;
  last_error = some (codes "expired_or_exhausted");
}

-- `id IN (SELECT id FROM expired)`
abbrev pub is_among : Rows → Mail → Bool
is_among batch r = any_by (λ x. str_eq x.id r.id) batch

-- ExpireMail
unfoldable pub expire_mail : (Str → Bool) → ℕ → ℕ → Statement Rows (Unit {0})
expire_mail locked max_attempts batch_size now rows = (
  ok tt,
  update_by (is_among (expiring locked max_attempts batch_size now rows)) (dropped now) rows,
)
