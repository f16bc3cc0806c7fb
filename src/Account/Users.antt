-- ===== src/Account/Users.antt =====
-- internal/db/sqlc/users.sql.go: the statements on the table users.
use go_starter_kit.Base.{
  ℕ, ◌+◌, ℤ, pos_part, Str, Bool, true, false, ◌&&◌, ◌||◌, List, [], ◌∷◌, Option, none, some, codes,
  str_eq, ltb, ◌==◌, find_by, any_by, update_by, sort_by, take, drop, if◌then◌else◌, not, is_some,
}
use go_starter_kit.AppError.{pg, no_rows}
use go_starter_kit.Db.{Result, ok, err, Statement, unique_violation}
use go_starter_kit.Account.Tables.{
  User, UserSession, Account, Tables, is_open, active, pending, user_of, is_live, is_usable,
}

abbrev pub one_user : Option User → Result User
one_user none = err no_rows
one_user (some u) = ok u

-- An UPDATE of the users that pass a test, with RETURNING for at most one of them.
abbrev pub changed : (User → Bool) → (User → User) → Tables → Option User → Result User × Tables
changed p f t none = (err no_rows, t)
changed p f t (some u) = (ok (f u), record t { users = update_by p f t.users })

-- NULL is equal to nothing.
abbrev pub is_text : Option Str → Option Str → Bool
is_text (some a) (some b) = str_eq a b
is_text _ _ = false

abbrev pub activated : ℕ → User → User
activated now u = record u {
  status = active;
  email_verified_at = some now;
  recovery_enabled = true;
  updated_at = now;
}

abbrev pub is_pending_user : Str → User → Bool
is_pending_user id u = str_eq u.id id && str_eq u.status pending

-- ActivateUser
unfoldable pub activate_user : Str → Statement Tables User
activate_user id now t =
    changed (is_pending_user id) (activated now) t (find_by (is_pending_user id) t.users)

abbrev pub bumped : ℕ → User → User
bumped now u = record u { auth_version = u.auth_version + 1; updated_at = now }

-- BumpUserVersion
unfoldable pub bump_user_version : Str → Statement Tables (Unit {0})
bump_user_version id now t =
    (ok tt, record t { users = update_by (λ u. str_eq u.id id) (bumped now) t.users })

-- A new row, with the defaults of the table.
abbrev pub fresh_user : Str → Str → Option Str → Option Str → Str → ℕ → User
fresh_user id name email normalized status now = record {
  id = id;
  display_name = name;
  email = email;
  email_normalized = normalized;
  email_verified_at = none;
  recovery_enabled = false;
  status = status;
  role = codes "user";
  auth_version = 1;
  created_at = now;
  updated_at = now;
}

abbrev pub users_key : Str
users_key = codes "users_pkey"

-- CreateFederatedUser
unfoldable pub create_federated_user : Str → Str → Statement Tables User
create_federated_user id name now t =
    if any_by (λ u. str_eq u.id id) t.users then (err (pg unique_violation users_key), t) else (
      ok (fresh_user id name none none active now),
      record t { users = fresh_user id name none none active now ∷ t.users },
    )

-- Without a row of that address: an insertion, which the primary key may refuse.
abbrev pub inserted_pending :
    Str → Option Str → Option Str → ℕ → Tables → Option User → Result User × Tables
inserted_pending id email normalized now t (some u) = (ok u, t)
inserted_pending id email normalized now t none =
    if any_by (λ u. str_eq u.id id) t.users then (err (pg unique_violation users_key), t) else (
      ok (fresh_user id [] email normalized pending now),
      record t { users = fresh_user id [] email normalized pending now ∷ t.users },
    )

-- CreatePendingUser: on a conflict of the address the row that is there is returned as it is.
unfoldable pub create_pending_user : Str → Option Str → Option Str → Statement Tables User
create_pending_user id email normalized now t =
    inserted_pending id email normalized now t
      (find_by (λ u. is_text u.email_normalized normalized) t.users)

-- FindUserByEmail
unfoldable pub find_user_by_email : Option Str → Statement Tables User
find_user_by_email normalized now t =
    (one_user (find_by (λ u. is_text u.email_normalized normalized) t.users), t)

-- GetSessionUser, with the join on the session.
unfoldable pub get_session_user : Str → Str → Statement Tables User
get_session_user user session now t = (
  if any_by (λ s. (str_eq s.id session && str_eq s.user_id user) && is_usable now t.users s)
        t.sessions
      then one_user (user_of user t.users)
      else err no_rows,
  t,
)

-- GetUser
unfoldable pub get_user : Str → Statement Tables User
get_user id now t = (one_user (user_of id t.users), t)

-- ORDER BY created_at DESC, id DESC
abbrev pub newest_first : (Str → Str → Bool) → User → User → Bool
newest_first id_le a b =
    ltb b.created_at a.created_at || (a.created_at == b.created_at && id_le b.id a.id)

-- ListUsers
unfoldable pub list_users : (Str → Str → Bool) → ℤ → ℤ → Statement Tables (List User)
list_users id_le limit offset now t =
    (ok (take (pos_part limit) (drop (pos_part offset) (sort_by (newest_first id_le) t.users))), t)

-- LockUser reads like GetUser; the row stays locked until the end of the transaction.
unfoldable pub lock_user : Str → Statement Tables User
lock_user id now t = (one_user (user_of id t.users), t)

-- The WHERE clause of ReleasePendingEmail: an address that nobody has proved, of a user who has no
-- login.
abbrev pub is_placeholder : Option Str → List Account → User → Bool
is_placeholder normalized accounts u =
    (is_text u.email_normalized normalized && str_eq u.status pending)
    && ((is_open u.email_verified_at && not u.recovery_enabled)
        && not (any_by (λ (a : Account). str_eq a.user_id u.id) accounts))

abbrev pub released : ℕ → User → User
released now u = record u {
  email = none;
  email_normalized = none;
  auth_version = u.auth_version + 1;
  updated_at = now;
}

-- ReleasePendingEmail
unfoldable pub release_pending_email : Option Str → Statement Tables (Unit {0})
release_pending_email normalized now t = (
  ok tt,
  record t { users = update_by (is_placeholder normalized t.accounts) (released now) t.users },
)

abbrev pub with_status : Str → ℕ → User → User
with_status status now u = record u {
  status = status;
  auth_version = u.auth_version + 1;
  updated_at = now;
}

-- SetUserStatus
unfoldable pub set_user_status : Str → Str → Statement Tables User
set_user_status id status now t =
    changed (λ u. str_eq u.id id) (with_status status now) t (user_of id t.users)

abbrev pub with_email : Option Str → Option Str → ℕ → User → User
with_email email normalized now u = record u {
  email = email;
  email_normalized = normalized;
  email_verified_at = some now;
  recovery_enabled = true;
  auth_version = u.auth_version + 1;
  updated_at = now;
}

abbrev pub is_active_user : Str → User → Bool
is_active_user id u = str_eq u.id id && str_eq u.status active

-- Another row has the address.
abbrev pub is_taken : Str → Option Str → User → Bool
is_taken id normalized u = not (str_eq u.id id) && is_text u.email_normalized normalized

-- UpdateUserEmail, with the unique address.
unfoldable pub update_user_email : Str → Option Str → Option Str → Statement Tables User
update_user_email id email normalized now t =
    if is_some (find_by (is_active_user id) t.users) && any_by (is_taken id normalized) t.users
    then (err (pg unique_violation (codes "users_email_normalized_key")), t)
    else changed (is_active_user id) (with_email email normalized now) t
        (find_by (is_active_user id) t.users)

abbrev pub renamed : Str → ℕ → User → User
renamed name now u = record u { display_name = name; updated_at = now }

-- EXISTS: the user has this session, live and in the user's version.
abbrev pub has_session : Str → ℕ → List UserSession → User → Bool
has_session session now sessions u =
    any_by
      (λ s.
        (str_eq s.id session && str_eq s.user_id u.id)
        && (is_live now s && u.auth_version == s.auth_version))
      sessions

-- UpdateUserProfile
unfoldable pub update_user_profile : Str → Str → Str → Statement Tables User
update_user_profile name id session now t =
    let p = λ (u : User). is_active_user id u && has_session session now t.sessions u in
    changed p (renamed name now) t (find_by p t.users)
