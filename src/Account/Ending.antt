-- ===== src/Account/Ending.antt =====
-- What a session that is found for a digest has, and where it stands.
use go_starter_kit.Base.{
  ℕ, ◌<◌, Str, true, ◌&&◌, Option, none, some, List, ◌≡◌, arith, str_eq, All, All-self, ap, sym,
  IsIn, find_by, find_by-some, Option-cases, inl, inr,
}
use go_starter_kit.Db.{ok}
use go_starter_kit.Account.Tables.{User, UserSession, Tables, active, user_of, is_usable}
use go_starter_kit.Account.Sessions.{find_session, one_session}

-- The session stands in the table, with what its user must be.
pub record IsSound (hash : Str) (now : ℕ) (t : Tables) (s : UserSession) : Type 0 where
  pub here : IsIn s t.sessions
  pub hashed : str_eq s.token_hash hash ≡ true
  pub unrevoked : s.revoked_at ≡ none
  pub recent : now < s.idle_expires_at
  pub young : now < s.absolute_expires_at
  pub owner : User
  pub owned : user_of s.user_id t.users ≡ some owner
  pub standing : str_eq owner.status active ≡ true
  pub version : owner.auth_version ≡ s.auth_version

module _ (now : ℕ) (users : List User) (s : UserSession) (h : is_usable now users s ≡ true) where
  pub usable-live :
      (s.revoked_at ≡ none) × (now < s.idle_expires_at) × (now < s.absolute_expires_at)
  unfolding is_usable
  usable-live = ground arith

  pub usable-owner :
      (u : User) × (user_of s.user_id users ≡ some u)
      × (str_eq u.status active ≡ true)
      × (u.auth_version ≡ s.auth_version)
  unfolding is_usable
  usable-owner = elim (Option-cases (user_of s.user_id users)) [
    | inl nobody ↦ absurd (ground arith)
    | inr (u, owner) ↦ (u, owner, ground arith, ground arith)
  ]

one_session-ok : (o : Option UserSession) {s : UserSession} → one_session o ≡ ok s → o ≡ some s
one_session-ok none e = ground arith
one_session-ok (some x) e = ground arith

-- A property of all sessions holds of the one that is found, which is usable and has the hash.
pub find_session-at :
    (P : UserSession → Type 0) (hash : Str) (now : ℕ) (t : Tables) {s : UserSession} {t' : Tables}
    → All P t.sessions
    → find_session hash now t ≡ (ok s, t')
    → P s × (str_eq s.token_hash hash ≡ true) × (is_usable now t.users s ≡ true)
unfolding find_session
find_session-at P hash now t {s = s} all e =
    let p = λ (x : UserSession). str_eq x.token_hash hash && is_usable now t.users x in
    let (test, holds) =
      find_by-some P p t.sessions all (one_session-ok (find_by p t.sessions) (ap (λ r. r.0) e)) in
    (holds, ground arith, ground arith)

-- A session that is found for a hash stands in the table with that hash, is not revoked, has both its
-- ends ahead, and belongs to an active user whose version is the session's; the tables stay as they are.
pub find_session-IsSound :
    (hash : Str) (now : ℕ) (t : Tables) {s : UserSession} {t' : Tables}
    → find_session hash now t ≡ (ok s, t')
    → IsSound hash now t s × (t' ≡ t)
unfolding find_session
find_session-IsSound hash now t {s = s} e =
    let (here, hashed, usable) =
      find_session-at (λ x. IsIn x t.sessions) hash now t (All-self t.sessions) e in
    let (unrevoked, recent, young) = usable-live now t.users s usable in
    let (u, owner, standing, version) = usable-owner now t.users s usable in
    (
      record {
        here = here;
        hashed = hashed;
        unrevoked = unrevoked;
        recent = recent;
        young = young;
        owner = u;
        owned = owner;
        standing = standing;
        version = version;
      },
      sym (ap (λ r. r.1) e),
    )
