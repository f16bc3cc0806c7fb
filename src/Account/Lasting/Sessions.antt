-- ===== src/Account/Lasting/Sessions.antt =====
-- A session that was revoked, or whose user's version has gone past it, is not found again
-- (user_sessions.sql.go, users.sql.go, session.go).
use go_starter_kit.Base.{
  ℕ, Str, Bool, true, false, not, ◌∷◌, ◌≡◌, ◌⊎◌, inl, inr, refl, arith, str_eq, leb, any_by, ◌&&◌,
}
use go_starter_kit.Account.Tables.{UserSession, Tables, is_open}
use go_starter_kit.Account.Sessions.{
  CreateSessionParams, create_session, touch_session, revoke_session, revoke_user_sessions, opened,
  touched, closed, revoked,
}
use go_starter_kit.Account.Kept.{
  KeptSessions, IsKept, free_users, free_accounts, free_flows, free_verifications, free_rest,
}
use go_starter_kit.Account.Standing.{Stands, Stands-update_by, Stands-cons}

module _ (p : CreateSessionParams) (now : ℕ) (t : Tables) where
  pub create_session-cases :
      ((create_session p now t).1 ≡ t)
      ⊎ ((any_by (λ (s : UserSession). str_eq s.id p.id) t.sessions ≡ false)
          × ((create_session p now t).1 ≡ record t { sessions = opened p now ∷ t.sessions }))
  unfolding create_session
  create_session-cases = ground arith

-- What a use of the session and its end leave true of it.
pub record LeavesGood (good : UserSession → Bool) : Type 0 where
  pub at_use : (idle now : ℕ) (s : UserSession) → good s ≡ true → good (touched idle now s) ≡ true
  pub at_close : (now : ℕ) (s : UserSession) → good s ≡ true → good (closed now s) ≡ true
  pub at_revoke : (now : ℕ) (s : UserSession) → good s ≡ true → good (revoked now s) ≡ true

module _ (id : Str) (good : UserSession → Bool) where
  -- The session `id` is there, and passes the test.
  abbrev pub IsSession : Tables → Type 0
  IsSession t = Stands (λ (s : UserSession). s.id) id good t.sessions

  pub sessions-IsSession : LeavesGood good → KeptSessions IsSession
  unfolding touch_session revoke_session revoke_user_sessions
  sessions-IsSession l = record {
    creates = λ p now t fits h. elim (create_session-cases p now t) [
      | inl same ↦ rw same h
      | inr (fresh, same) ↦ rw same (Stands-cons _ id good (opened p now) t.sessions fresh h)
    ];
    touches = λ idle at user renewal now t h.
        Stands-update_by _ id good _ (touched idle now) (λ _. refl) (λ x e g. l.at_use idle now x g)
          t.sessions h;
    revokes = λ at user now t h.
        Stands-update_by _ id good _ (closed now) (λ _. refl) (λ x e g. l.at_close now x g)
          t.sessions h;
    revokes_all = λ user now t h.
        Stands-update_by _ id good _ (revoked now) (λ _. refl) (λ x e g. l.at_revoke now x g)
          t.sessions h;
  }

  pub IsKept-IsSession : LeavesGood good → IsKept IsSession
  IsKept-IsSession l = record {
    users = free_users IsSession λ l t h. h;
    accounts = free_accounts IsSession λ l t h. h;
    sessions = sessions-IsSession l;
    flows = free_flows IsSession λ l t h. h;
    verifications = free_verifications IsSession λ l t h. h;
    rest = free_rest IsSession λ a b m t h. h;
  }

abbrev pub is_closed : UserSession → Bool
is_closed s = not (is_open s.revoked_at)

-- The session `id` is there, and revoked.
abbrev pub IsClosed : Str → Tables → Type 0
IsClosed id t = IsSession id is_closed t

is_closed-left : LeavesGood is_closed
is_closed-left = record {
  at_use = λ idle now s g. g;
  at_close = λ now s g. ground arith;
  at_revoke = λ now s g. refl;
}

pub IsKept-IsClosed : (id : Str) → IsKept (IsClosed id)
IsKept-IsClosed id = IsKept-IsSession id is_closed is_closed-left

-- The session was made for this user, at this version or an earlier one.
abbrev pub is_of_version : Str → ℕ → UserSession → Bool
is_of_version user v s = str_eq s.user_id user && leb s.auth_version v

pub is_of_version-left : (user : Str) (v : ℕ) → LeavesGood (is_of_version user v)
is_of_version-left user v = record {
  at_use = λ idle now s g. g;
  at_close = λ now s g. g;
  at_revoke = λ now s g. g;
}
