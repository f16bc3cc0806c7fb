-- ===== src/Account/Lasting/Ended.antt =====
-- A session that has ended does not authenticate again, whatever calls follow (session.go).
use go_starter_kit.Base.{
  Bool-cases, ℕ, Str, Bool, true, false, List, some, ◌≡◌, refl, ap, sym, arith, str_eq, str_eq-eq,
  inl, inr, subst, ◌&&◌, AreDistinct, map,
}
use go_starter_kit.Db.{Result, ok, Session, query, ok-injective, ◌>>=◌, ◌>>◌, pure}
use go_starter_kit.Db.Keeps.{Holds, OthersKeep}
use go_starter_kit.Db.Inversion.{bind-ok, query-ok}
use go_starter_kit.Identity.{err_unauthorized}
use go_starter_kit.Identity.Tokens.{token_digest}
use go_starter_kit.Account.Tables.{User, UserSession, Tables, is_usable}
use go_starter_kit.Account.Sessions.{find_session, revoke_session, closed}
use go_starter_kit.Account.Env.{Env, recast, need, session_prefix}
use go_starter_kit.Account.Login.{authenticate_session, renew, unauthorized}
use go_starter_kit.Account.Inversion.{recast-ok, need-ok}
use go_starter_kit.Account.Lasting.Users.{is_past, is_past-kept, IsKept-users, Stands-UserRules}
use go_starter_kit.Account.Lasting.Sessions.{
  is_closed, is_of_version, is_of_version-left, IsSession, IsKept-IsSession, IsClosed,
  IsKept-IsClosed,
}
use go_starter_kit.Account.Ending.{find_session-at, usable-live, usable-owner}
use go_starter_kit.Account.Standing.{Stands, changed-Stands, found-Stands}
use go_starter_kit.Account.Kept.{IsKept}
use go_starter_kit.Account.Both.{IsKept-both}
use go_starter_kit.Account.Calls.{Call, runs, runs-Holds}

-- Who is authenticated by a token has a session that was found, by the digest of the token, at some
-- time on tables of which `P` held.
pub authenticate_session-found :
    (P : Tables → Type 0) (env : Env) (token : Str) (s : Session Tables) {user id : Str}
    {s' : Session Tables}
    → Holds P s
    → authenticate_session env token s ≡ (ok (user, id), s')
    → (hash : Str) × (now : ℕ) × (t : Tables) × (row : UserSession) × P t
      × (token_digest env.digest token session_prefix ≡ some hash)
      × ((find_session hash now t).0 ≡ ok row)
      × (row.user_id ≡ user)
      × (row.id ≡ id)
unfolding authenticate_session
authenticate_session-found P env token s {user} {id} h e =
    let after = λ (row : UserSession). (renew env row >> pure (row.user_id, row.id)) in
    let (hash, u, got, e1) =
      bind-ok (need (token_digest env.digest token session_prefix) err_unauthorized)
        (λ hash. recast unauthorized (query (find_session hash)) >>= after) s e in
    let (hashed, still) = need-ok _ err_unauthorized s got in
    let (row, u2, ran, e2) = bind-ok (recast unauthorized (query (find_session hash))) after u e1 in
    let (n, t, p, found) =
      query-ok P (find_session hash) u (subst (Holds P) (sym still) h)
        (recast-ok unauthorized (query (find_session hash)) u ran) in
    let (_, u3, _, e3) = bind-ok (renew env row) (λ _. pure (row.user_id, row.id)) u2 e2 in
    let same : ◌≡◌ {A = Str × Str} (row.user_id, row.id) (user, id) =
      ok-injective (ap (λ x. x.0) e3) in
    (hash, n, t, row, p, hashed, found, ap (λ x. x.0) same, ap (λ x. x.1) same)

-- A row of `t` for which `authenticate_session` has let `sid` pass.
pub record HasPassed (P : Tables → Type 0) (sid : Str) : Type 0 where
  pub hash : Str
  pub now : ℕ
  pub tables : Tables
  pub row : UserSession
  pub kept : P tables
  pub found : find_session hash now tables ≡ (ok row, tables)
  pub same : row.id ≡ sid

authenticated_later :
    (P : Tables → Type 0) (calls : List (Env × Call)) (s : Session Tables) (env : Env) (token : Str)
    {user sid : Str} {s' : Session Tables}
    → IsKept P
    → Holds P s
    → authenticate_session env token (runs calls s) ≡ (ok (user, sid), s')
    → HasPassed P sid
unfolding find_session
authenticated_later P calls s env token k h passed =
    let (hash, now, t, row, p, _, found, _, same) =
      authenticate_session-found P env token (runs calls s) (runs-Holds P k calls s h) passed in
    record {
      hash = hash;
      now = now;
      tables = t;
      row = row;
      kept = p;
      found = ap (λ (r : Result UserSession). (r, t)) found;
      same = same;
    }

-- The session that was let pass is another than `id`, if no usable session stands under `id`.
passed-ne :
    (P : Tables → Type 0) (id : Str) (good : UserSession → Bool) {sid : Str}
    → ((now : ℕ) (t : Tables) (row : UserSession)
        → P t
        → good row ≡ true
        → is_usable now t.users row ≡ true
        → ⊥)
    → ((t : Tables) → P t → IsSession id good t)
    → HasPassed P sid
    → str_eq sid id ≡ false
passed-ne P id good {sid} dead stands h =
    let keyed = λ (x : UserSession). str_eq x.id id ≡ true → good x ≡ true in
    let (fine, _, usable) =
      find_session-at keyed h.hash h.now h.tables (stands h.tables h.kept).rows h.found in
    elim (Bool-cases (str_eq sid id)) [
      | inl is ↦ absurd (
          dead h.now h.tables h.row h.kept (fine (subst (λ k. str_eq k id ≡ true) (sym h.same) is))
            usable)
      | inr other ↦ other
    ]

revoke_session-IsClosed :
    (id user : Str) (now : ℕ) (t : Tables) {t' : Tables}
    → AreDistinct (map (λ (s : UserSession). s.id) t.sessions)
    → revoke_session id user now t ≡ (ok 1, t')
    → IsClosed id t'
unfolding revoke_session
revoke_session-IsClosed id user now t distinct e =
    subst (IsClosed id) (ap (λ (x : Result ℕ × Tables). x.1) e) (
      changed-Stands (λ s. s.id) id is_closed (λ s. str_eq s.id id && str_eq s.user_id user)
        (closed now) (λ _. refl) (λ x h. ground arith) (λ x h. ground arith) t.sessions distinct
        (ok-injective (ap (λ (x : Result ℕ × Tables). x.0) e)))

-- Where the identifiers of the sessions are distinct, a session that a statement has revoked never
-- authenticates again: whatever calls of the service follow, with whatever faults of the database, and
-- whatever the other processes do that leave it revoked, no token is answered by this session.
pub revoked_forever :
    (id user : Str) (now : ℕ) (t : Tables) (s : Session Tables) (calls : List (Env × Call))
    (env : Env) (token : Str) {who sid : Str} {s' : Session Tables}
    → AreDistinct (map (λ (x : UserSession). x.id) t.sessions)
    → revoke_session id user now t ≡ (ok 1, s.table)
    → OthersKeep (IsClosed id) s
    → authenticate_session env token (runs calls s) ≡ (ok (who, sid), s')
    → str_eq sid id ≡ false
revoked_forever id user now t s calls env token distinct done others passed =
    passed-ne (IsClosed id) id is_closed
      (λ now t row k g usable.
        let (unrevoked, _, _) = usable-live now t.users row usable in absurd (ground arith))
      (λ t k. k)
      (authenticated_later (IsClosed id) calls s env token (IsKept-IsClosed id)
        (record { now = revoke_session-IsClosed id user now t distinct done; later = others })
        passed)

-- The session `id` was made for the user at version `v` or before, and the user is past it.
abbrev pub IsOutdated : Str → Str → ℕ → Tables → Type 0
IsOutdated id user v t =
    IsSession id (is_of_version user v) t × Stands (λ (u : User). u.id) user (is_past v) t.users

IsKept-IsOutdated : (id user : Str) (v : ℕ) → IsKept (IsOutdated id user v)
IsKept-IsOutdated id user v =
    IsKept-both (IsSession id (is_of_version user v))
      (λ t. Stands (λ (u : User). u.id) user (is_past v) t.users)
      (IsKept-IsSession id (is_of_version user v) (is_of_version-left user v))
      (IsKept-users (Stands (λ (u : User). u.id) user (is_past v))
        (Stands-UserRules user (is_past v) (is_past-kept v)))

-- Where a session is there that was made for a user at some version or before, and the user is past that
-- version, this session never authenticates: whatever calls of the service are made, with whatever faults
-- of the database, and whatever the other processes do that leave the session and the user so.
pub outdated_forever :
    (id user : Str) (v : ℕ) (s : Session Tables) (calls : List (Env × Call)) (env : Env)
    (token : Str) {who sid : Str} {s' : Session Tables}
    → Holds (IsOutdated id user v) s
    → authenticate_session env token (runs calls s) ≡ (ok (who, sid), s')
    → str_eq sid id ≡ false
outdated_forever id user v s calls env token h passed =
    passed-ne (IsOutdated id user v) id (is_of_version user v) outdated (λ t k. k.0)
      (authenticated_later (IsOutdated id user v) calls s env token (IsKept-IsOutdated id user v) h
        passed)
  where
    outdated :
        (now : ℕ) (t : Tables) (row : UserSession)
        → IsOutdated id user v t
        → is_of_version user v row ≡ true
        → is_usable now t.users row ≡ true
        → ⊥
    outdated now t row k g usable =
        let (u, owner, _, version) = usable-owner now t.users row usable in
        let (keyed, past) =
          found-Stands _ user (is_past v) (λ r. str_eq r.id row.user_id) t.users k.1 owner in
        let whose : row.user_id ≡ user = str_eq-eq row.user_id user (ground arith) in
        absurd (ground (arith, past (subst (λ k. str_eq u.id k ≡ true) whose keyed)))
