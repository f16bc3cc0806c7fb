-- ===== src/Tests/Later.antt =====
-- What cannot happen any more on small tables of the account service, and its limits.
use go_starter_kit.Base.{ℕ, ◌∷◌, [], List, Str, false, none, some, codes, ◌≡◌, refl, str_eq}
use go_starter_kit.Db.{ok, Session, query}
use go_starter_kit.Db.Rest.{at_rest}
use go_starter_kit.Identity.Tokens.{token_digest, decode, decode_sextets, decode_sextet}
use go_starter_kit.Account.Tables.{UserSession, AuthFlow, AuthVerification, Tables, is_usable}
use go_starter_kit.Account.Sessions
use go_starter_kit.Account.Flows
use go_starter_kit.Account.Records
use go_starter_kit.Account.Store
use go_starter_kit.Account.Env.{Env}
use go_starter_kit.Account.Enums.{purpose_login, verify_register}
use go_starter_kit.Account.Login.{authenticate_session, renew}
use go_starter_kit.Account.Calls.{Call, runs, run}
use go_starter_kit.Account.Lasting.Ended.{revoked_forever, outdated_forever}
use go_starter_kit.Account.Lasting.Flows.{consumed_once}
use go_starter_kit.Account.Lasting.Verifications.{solved_once}
use go_starter_kit.Tests.Service.{env, alice, tables, session, credentials, digest_of}

-- Another session of the user, by another token.
abbrev other_token : Str
other_token = codes "tk_BAAAAAAAAAAAAAAAAAAAAAAAAAAAAAAAAAAAAAAAAAA"

abbrev other_session : UserSession
other_session = record session { id = codes "D"; token_hash = digest_of other_token }

abbrev two_sessions : Tables
two_sessions = record tables { sessions = session ∷ other_session ∷ [] }

-- The holder of the first token asks.
abbrev asked : List (Env × Call)
asked = (env, Call.authenticate credentials.token) ∷ []

abbrev revoked_here : Session Tables
revoked_here = at_rest (Sessions.revoke_session (codes "C") (codes "alice") 20 two_sessions).1 30

other_let_in :
    authenticate_session env other_token (runs asked revoked_here)
    ≡ (ok (codes "alice", codes "D"), runs asked revoked_here)
unfolding runs run authenticate_session token_digest decode decode_sextets decode_sextet query
    Sessions.find_session is_usable renew Sessions.revoke_session
other_let_in = refl

revoked_forever_example : str_eq (codes "D") (codes "C") ≡ false
unfolding Sessions.revoke_session
revoked_forever_example =
    revoked_forever (codes "C") (codes "alice") 20 two_sessions revoked_here asked env other_token
      {who = codes "alice"} {s' = runs asked revoked_here} ((refl, tt), (tt, tt)) refl tt
      other_let_in

-- The user has passed the version of the first session, which the second has.
abbrev outdated : Tables
outdated = record two_sessions {
  users = record alice { auth_version = 2 } ∷ [];
  sessions = session ∷ record other_session { auth_version = 2 } ∷ [];
}

newer_let_in :
    authenticate_session env other_token (runs asked (at_rest outdated 30))
    ≡ (ok (codes "alice", codes "D"), runs asked (at_rest outdated 30))
unfolding runs run authenticate_session token_digest decode decode_sextets decode_sextet query
    Sessions.find_session is_usable renew
newer_let_in = refl

outdated_forever_example : str_eq (codes "D") (codes "C") ≡ false
outdated_forever_example =
    outdated_forever (codes "C") (codes "alice") 1 (at_rest outdated 30) asked env other_token
      {who = codes "alice"} {s' = runs asked (at_rest outdated 30)}
      (record {
        now = (
          record { there = refl; rows = (λ _. refl, (λ bad. cc bad, tt)) },
          record { there = refl; rows = (λ _. refl, tt) },
        );
        later = tt;
      })
      newer_let_in

abbrev flow : AuthFlow
flow =
    Flows.new_flow
      (record {
        id = codes "f1";
        purpose = purpose_login;
        token_hash = some (digest_of []);
        provider_id = codes "github";
        config_version = codes "v1";
        user_id = none;
        session_id = none;
        auth_version = 0;
        account_id = none;
        account_version = 0;
        operation = [];
        target = [];
        reauthentication_id = none;
        state_hash = none;
        protocol_state = some (codes "{}");
        status = Flows.flow_processing;
        authenticated_at = none;
      })
      10

abbrev with_flow : Tables
with_flow = record tables { flows = flow ∷ [] }

abbrev flow_done : Session Tables
flow_done = at_rest (Flows.finish_flow (codes "f1") Flows.flow_processing 20 with_flow).1 20

consumed_once_example :
    ((Flows.finish_flow (codes "f1") Flows.flow_verified 40 (runs asked flow_done).table).0 ≡ ok 0)
    × (((Flows.claim_flow (codes "f1") 40 (runs asked flow_done).table).0 ≡ ok 0)
        × ((Flows.claim_authorization (codes "f1") (codes "r1") 40 (runs asked flow_done).table).0
            ≡ ok 0))
unfolding Flows.finish_flow Store.consumable
consumed_once_example =
    consumed_once (codes "f1") Flows.flow_processing 20 with_flow flow_done asked
      Flows.flow_verified (codes "r1") 40 (tt, tt) refl tt refl

abbrev challenge : AuthVerification
challenge = record {
  id = codes "v1";
  user_id = codes "alice";
  purpose = verify_register;
  token_hash = digest_of (codes "v");
  email = codes "a@b.c";
  auth_version = 1;
  session_id = none;
  reauthentication_id = none;
  created_at = 10;
  expires_at = 600000000;
  consumed_at = none;
}

abbrev with_challenge : Tables
with_challenge = record tables { verifications = challenge ∷ [] }

abbrev solved_here : Session Tables
solved_here =
    at_rest (Records.consume_verification (codes "v1") (codes "alice") 20 with_challenge).1 20

solved_once_example :
    ((hash : Str) (later : ℕ) (v : AuthVerification)
      → (Records.find_verification hash later (runs asked solved_here).table).0 ≡ ok v
      → str_eq v.id (codes "v1") ≡ false)
    × ((who : Str) (later : ℕ)
        → (Records.consume_verification (codes "v1") who later (runs asked solved_here).table).0
          ≡ ok 0)
unfolding Records.consume_verification
solved_once_example =
    solved_once (codes "v1") (codes "alice") 20 with_challenge solved_here asked (tt, tt) refl tt
