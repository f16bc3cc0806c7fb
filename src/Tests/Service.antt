-- ===== src/Tests/Service.antt =====
-- The account service on small tables: a login, and what may follow it.
use go_starter_kit.Base.{
  ℕ, ◌+◌, ◌∷◌, [], List, Str, true, false, none, some, codes, ◌≡◌, refl, str_eq, length,
}
use go_starter_kit.Db.{ok, Session, query}
use go_starter_kit.Db.Rest.{at_rest}
use go_starter_kit.Account.Tables.{
  no_rows_at_all, User, Account, UserSession, Tables, active, is_usable,
}
use go_starter_kit.Account.Accounts.{credential}
use go_starter_kit.Account.Env.{
  Env, Request, normalize_email, valid_email, valid_optional_identifier,
}
use go_starter_kit.Account.Enums.{
  user_status_valid, role_valid, local_namespace, role_admin, method_valid, outcome_valid,
  actor_valid,
}
use go_starter_kit.Account.Login.{
  SessionCredentials, authenticate_session, renew, login, log_in, admitted, upgraded, sign_in,
  store_upgrade, new_session, may_enter,
}
use go_starter_kit.Account.Audit.{audited, entry_limit, limit, audit}
use go_starter_kit.Account.Users
use go_starter_kit.Account.Sessions
use go_starter_kit.Account.Accounts
use go_starter_kit.Account.Records
use go_starter_kit.Account.Store
use go_starter_kit.Account.Calls.{Call, runs}
use go_starter_kit.Account.Lasting.Roles.{AreAppointed, no_new_admin}
use go_starter_kit.Account.Sound.Whole.{AreSound, runs-AreSound}
use go_starter_kit.Identity.Tokens.{
  token_digest, decode, decode_sextets, decode_sextet, new_token, encode, encode_sextet,
}
use go_starter_kit.Validation.{
  trim_space, trim_left, trim_right, runes, decode_rune, valid_string, identifier, text_within,
  rune_count, is_space,
}
use go_starter_kit.Db.Transaction.{with_transaction}
use go_starter_kit.Account.Entry.{IsLetIn, authenticate_session-IsLetIn}
use go_starter_kit.Account.Entry.Proven.{IsProven, OfRows, login-IsProven}

-- A digest of 32 bytes, by the length of a text and its fourth byte.
abbrev pub mark : Str → ℕ
mark (a ∷ b ∷ c ∷ d ∷ rest) = d
mark _ = 0

abbrev pub digest_of : Str → Str
digest_of s =
    length s
    ∷ mark s
    ∷ 0
    ∷ 0
    ∷ 0
    ∷ 0
    ∷ 0
    ∷ 0
    ∷ 0
    ∷ 0
    ∷ 0
    ∷ 0
    ∷ 0
    ∷ 0
    ∷ 0
    ∷ 0
    ∷ 0
    ∷ 0
    ∷ 0
    ∷ 0
    ∷ 0
    ∷ 0
    ∷ 0
    ∷ 0
    ∷ 0
    ∷ 0
    ∷ 0
    ∷ 0
    ∷ 0
    ∷ 0
    ∷ 0
    ∷ 0
    ∷ []

abbrev pub env : Env
env = record {
  parse_address = λ s. some s;
  lower = λ s. s;
  digest = digest_of;
  marshal = λ m. codes "{}";
  is_object = λ s. true;
  protocol_of = λ s. s;
  verifier_of = λ s. s;
  verification_body = λ token purpose. some token;
  notification_body = λ s. s;
  validate_password = λ s. true;
  hash_password = λ s. ok s;
  verify_password =
      λ hash password. ok (record { matches = str_eq hash password; needs_upgrade = false });
  enabled = λ s. true;
  version = λ s. codes "v1";
  start = λ a b c. ok (record { authorization_url = a; config_version = codes "v1" });
  verify = λ a b c d. ok (record { namespace = a; subject = b; name = c });
  idle_ttl = 60000000000;
  max_ttl = 600000000000;
  frontend_url = codes "https://example.test";
  id_le = λ a b. true;
  clock = 10;
  new_id = λ n. (65 + n) ∷ [];
  random = λ n. digest_of [];
}

abbrev pub guest : Request
guest = record {
  user_id = [];
  session_id = [];
  request_id = codes "q1";
  client_ip = codes "10.0.0.1";
}

abbrev pub address : Str
address = codes "a@b.c"

abbrev pub alice : User
alice = record {
  id = codes "alice";
  display_name = codes "Alice";
  email = some address;
  email_normalized = some address;
  email_verified_at = some 1;
  recovery_enabled = true;
  status = active;
  role = role_admin;
  auth_version = 1;
  created_at = 1;
  updated_at = 1;
}

abbrev pub password_account : Account
password_account = record {
  id = codes "a1";
  user_id = codes "alice";
  provider_id = credential;
  provider_account_id = codes "alice";
  provider_namespace = local_namespace;
  password_hash = some (codes "secret");
  version = 1;
  created_at = 1;
  updated_at = 1;
  last_used_at = none;
  revoked_at = none;
}

abbrev pub tables : Tables
tables = record no_rows_at_all { users = alice ∷ []; accounts = password_account ∷ [] }

abbrev pub before_login : Session Tables
before_login = at_rest tables 10

-- The users and accounts are those of `tables`.
abbrev AsHere : List User → List Account → Type 0
AsHere users accounts = (users ≡ tables.users) × (accounts ≡ tables.accounts)

abbrev pub credentials : SessionCredentials
credentials = record {
  token = codes "tk_AAAAAAAAAAAAAAAAAAAAAAAAAAAAAAAAAAAAAAAAAAA";
  id = codes "C";
  idle_expires_at = 60000010;
  absolute_expires_at = 600000010;
}

logged_in :
    login env guest address (codes "secret") before_login
    ≡ (ok credentials, (login env guest address (codes "secret") before_login).1)
unfolding login audited log_in normalize_email valid_email trim_space trim_left trim_right is_space
    runes decode_rune valid_string entry_limit limit Store.rate_limit Records.rate_limit
    Records.bumped_bucket query Users.find_user_by_email Accounts.get_password_account admitted
    upgraded sign_in with_transaction Users.lock_user Accounts.get_account store_upgrade new_session
    may_enter Store.create_session Store.valid_session identifier method_valid
    Sessions.create_session Accounts.touch_account audit Store.append_audit Store.valid_audit
    text_within rune_count outcome_valid actor_valid valid_optional_identifier Records.append_audit
    new_token encode encode_sextet
logged_in = refl

login-IsProven_example : IsProven (OfRows AsHere) env address (codes "secret")
login-IsProven_example =
    login-IsProven AsHere env guest address (codes "secret") before_login {c = credentials}
      {s' = (login env guest address (codes "secret") before_login).1}
      (record { now = (refl, refl); later = tt }) logged_in

-- The session of the login.
abbrev pub session : UserSession
session = record {
  id = codes "C";
  user_id = codes "alice";
  token_hash = digest_of credentials.token;
  auth_method = codes "password";
  auth_source_id = codes "a1";
  authenticated_at = 10;
  auth_version = 1;
  created_at = 10;
  last_seen_at = 10;
  idle_expires_at = 60000010;
  absolute_expires_at = 600000010;
  revoked_at = none;
}

abbrev pub open_tables : Tables
open_tables = record tables { sessions = session ∷ [] }

abbrev AsOpened : Tables → Type 0
AsOpened t = t ≡ open_tables

let_in :
    authenticate_session env credentials.token (at_rest open_tables 20)
    ≡ (ok (codes "alice", codes "C"), at_rest open_tables 20)
unfolding authenticate_session token_digest decode decode_sextets decode_sextet query
    Sessions.find_session is_usable renew
let_in = refl

authenticate_session-IsLetIn_example :
    IsLetIn AsOpened env credentials.token (codes "alice") (codes "C")
authenticate_session-IsLetIn_example =
    authenticate_session-IsLetIn AsOpened env credentials.token (at_rest open_tables 20)
      {s' = at_rest open_tables 20} (record { now = refl; later = tt }) let_in

abbrev login_call : List (Env × Call)
login_call = (env, Call.log_in guest address (codes "secret")) ∷ []

no_new_admin_example : AreAppointed (codes "alice" ∷ []) (runs login_call before_login).table
no_new_admin_example =
    no_new_admin (codes "alice" ∷ []) login_call before_login
      (record { now = (λ _. refl, tt); later = tt })

runs-AreSound_example : AreSound (runs login_call before_login).table
unfolding user_status_valid role_valid
runs-AreSound_example = runs-AreSound login_call before_login (record {
  now = (
    (
      record { proper = (refl, tt); distinct = (tt, tt) },
      record { proper = (refl, tt); distinct = (tt, tt) },
    ),
    (record { proper = tt; distinct = tt }, record { proper = tt; distinct = tt }),
  );
  later = tt;
})
