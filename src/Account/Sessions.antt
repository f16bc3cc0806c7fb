-- ===== src/Account/Sessions.antt =====
-- internal/db/sqlc/user_sessions.sql.go: the statements on the table user_sessions.
use go_starter_kit.Base.{
  ℕ, ◌+◌, ◌*◌, min, ℤ, pos_part, Str, Bool, ◌&&◌, ◌||◌, List, ◌∷◌, Option, none, some, codes,
  str_eq, ltb, leb, ◌==◌, filter_by, find_by, any_by, count_by, update_by, sort_by, take, drop,
  if◌then◌else◌, is_some,
}
use go_starter_kit.AppError.{pg, no_rows}
use go_starter_kit.Db.{Result, ok, err, Statement, unique_violation}
use go_starter_kit.Account.Tables.{
  User, UserSession, Tables, foreign_key_violation, user_of, is_open, is_live, is_current,
  is_usable,
}

-- In microseconds.
abbrev pub seconds : ℕ → ℕ
seconds n = n * 1000000

pub record CreateSessionParams : Type 0 where
  pub id : Str
  pub user_id : Str
  pub token_hash : Str
  pub auth_method : Str
  pub auth_source_id : Str
  pub auth_version : ℕ
  pub idle_seconds : ℕ
  pub max_seconds : ℕ

abbrev pub opened : CreateSessionParams → ℕ → UserSession
opened p now = record {
  id = p.id;
  user_id = p.user_id;
  token_hash = p.token_hash;
  auth_method = p.auth_method;
  auth_source_id = p.auth_source_id;
  authenticated_at = now;
  auth_version = p.auth_version;
  created_at = now;
  last_seen_at = now;
  idle_expires_at = now + seconds p.idle_seconds;
  absolute_expires_at = now + seconds p.max_seconds;
  revoked_at = none;
}

-- CreateSession, with the primary key, the unique hash and the reference to the user.
unfoldable pub create_session : CreateSessionParams → Statement Tables UserSession
create_session p now t =
    if any_by (λ s. str_eq s.id p.id) t.sessions
    then (err (pg unique_violation (codes "user_sessions_pkey")), t)
    else if any_by (λ s. str_eq s.token_hash p.token_hash) t.sessions
    then (err (pg unique_violation (codes "user_sessions_token_hash_key")), t)
    else if is_some (user_of p.user_id t.users)
    then (ok (opened p now), record t { sessions = opened p now ∷ t.sessions })
    else (err (pg foreign_key_violation (codes "user_sessions_user_id_fkey")), t)

abbrev pub one_session : Option UserSession → Result UserSession
one_session none = err no_rows
one_session (some s) = ok s

-- FindSession
unfoldable pub find_session : Str → Statement Tables UserSession
find_session hash now t =
    (one_session (find_by (λ s. str_eq s.token_hash hash && is_usable now t.users s) t.sessions), t)

-- GetValidSession
unfoldable pub get_valid_session : Str → Str → Statement Tables UserSession
get_valid_session id user now t = (
  one_session (
      find_by (λ s. (str_eq s.id id && str_eq s.user_id user) && is_usable now t.users s)
        t.sessions),
  t,
)

-- ORDER BY s.created_at DESC, s.id DESC
abbrev pub newest_first : (Str → Str → Bool) → UserSession → UserSession → Bool
newest_first id_le a b =
    ltb b.created_at a.created_at || (a.created_at == b.created_at && id_le b.id a.id)

-- The WHERE clause of ListSessions, with its join.
abbrev pub is_shown : Str → ℕ → List User → UserSession → Bool
is_shown user now users s =
    str_eq s.user_id user && (is_live now s && is_current (user_of s.user_id users) s)

-- ListSessions
unfoldable pub list_sessions :
    (Str → Str → Bool) → Str → ℤ → ℤ → Statement Tables (List UserSession)
list_sessions id_le user limit offset now t = (
  ok (
      take (pos_part limit) (
        drop (pos_part offset)
          (sort_by (newest_first id_le) (filter_by (is_shown user now t.users) t.sessions)))),
  t,
)

-- COALESCE(revoked_at, now())
abbrev pub or_now : Option ℕ → ℕ → Option ℕ
or_now none now = some now
or_now (some at) now = some at

abbrev pub closed : ℕ → UserSession → UserSession
closed now s = record s { revoked_at = or_now s.revoked_at now }

-- RevokeSession
unfoldable pub revoke_session : Str → Str → Statement Tables ℕ
revoke_session id user now t = (
  ok (count_by (λ s. str_eq s.id id && str_eq s.user_id user) t.sessions),
  record t {
    sessions = update_by (λ s. str_eq s.id id && str_eq s.user_id user) (closed now) t.sessions;
  },
)

abbrev pub revoked : ℕ → UserSession → UserSession
revoked now s = record s { revoked_at = some now }

-- RevokeUserSessions
unfoldable pub revoke_user_sessions : Str → Statement Tables (Unit {0})
revoke_user_sessions user now t = (
  ok tt,
  record t {
    sessions =
        update_by (λ s. str_eq s.user_id user && is_open s.revoked_at) (revoked now) t.sessions;
  },
)

abbrev pub touched : ℕ → ℕ → UserSession → UserSession
touched idle_seconds now s = record s {
  last_seen_at = now;
  idle_expires_at = min s.absolute_expires_at (now + seconds idle_seconds);
}

-- TouchSession; the renewal interval is in milliseconds.
unfoldable pub touch_session : ℕ → Str → Str → ℕ → Statement Tables (Unit {0})
touch_session idle_seconds id user renewal now t = (
  ok tt,
  record t {
    sessions =
        update_by
          (λ s.
            (str_eq s.id id && str_eq s.user_id user)
            && (leb (s.last_seen_at + renewal * 1000) now && is_usable now t.users s))
          (touched idle_seconds now) t.sessions;
  },
)
