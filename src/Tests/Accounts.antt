-- ===== src/Tests/Accounts.antt =====
-- Users and their sessions on small tables.
use go_starter_kit.Base.{Str, none, [], ◌∷◌, codes, ◌≡◌, refl}
use go_starter_kit.Db.{ok}
use go_starter_kit.Account.Tables.{no_rows_at_all, UserSession, Tables, active, is_usable}
use go_starter_kit.Account.Sessions.{
  CreateSessionParams, opened, seconds, create_session, touch_session,
}
use go_starter_kit.Account.Users.{fresh_user}

abbrev params : Str → Str → Str → CreateSessionParams
params id user hash = record {
  id = id;
  user_id = user;
  token_hash = hash;
  auth_method = codes "password";
  auth_source_id = codes "a1";
  auth_version = 1;
  idle_seconds = 60;
  max_seconds = 600;
}

abbrev alice_session : UserSession
alice_session = opened (params (codes "s1") (codes "alice") (codes "h1")) 5

abbrev bob_session : UserSession
bob_session = opened (params (codes "s2") (codes "bob") (codes "h2")) 5

abbrev tables : Tables
tables = record no_rows_at_all {
  users =
      fresh_user (codes "alice") [] none none active 1
      ∷ fresh_user (codes "bob") [] none none active 1
      ∷ [];
  sessions = alice_session ∷ bob_session ∷ [];
}

created :
    create_session
      (params (codes "s1") (codes "alice") (codes "h1"))
      5
      (record tables { sessions = bob_session ∷ [] })
    ≡ (ok alice_session, tables)
unfolding create_session
created = refl

-- Use of the session moves its idle end, but not behind its absolute end.
kept_alive :
    (touch_session 900 (codes "s1") (codes "alice") 1000 (seconds 30) tables).1.sessions
    ≡ record alice_session {
      last_seen_at = seconds 30;
      idle_expires_at = alice_session.absolute_expires_at;
    }
      ∷ bob_session
      ∷ []
unfolding touch_session is_usable
kept_alive = refl
