-- ===== src/Tests/Limits.antt =====
-- What is refused on small tables of the account service: a change of a status, requests, tokens, and
-- a transaction that fails.
use go_starter_kit.Base.{
  ℕ, ◌*◌, ◌∷◌, [], List, Str, true, none, some, codes, ◌≡◌, ap, refl, arith, str_eq, any_by,
}
use go_starter_kit.AppError.{plain}
use go_starter_kit.AppError.Retry.{second}
use go_starter_kit.Db.{Result, ok, err, Session, Action, query, fail, ◌>>◌}
use go_starter_kit.Db.Rest.{at_rest}
use go_starter_kit.Db.Keeps.{Holds, Keeps, OthersKeep, query-OthersKeep}
use go_starter_kit.Db.Inversion.{bind-ok}
use go_starter_kit.Db.Transaction.{Commits, with_transaction, with_transaction-Keeps}
use go_starter_kit.Identity.Tokens.{
  token_digest, token_digest-new_token, decode, decode_sextets, decode_sextet, new_token,
}
use go_starter_kit.Validation.{
  trim_space, trim_left, trim_right, runes, decode_rune, valid_string, identifier, text_within,
  rune_count, is_space,
}
use go_starter_kit.Identity.{require_subject}
use go_starter_kit.Account.Tables.{User, Tables, is_usable}
use go_starter_kit.Account.Users
use go_starter_kit.Account.Sessions
use go_starter_kit.Account.Records
use go_starter_kit.Account.Store
use go_starter_kit.Account.Env.{Env, Request, storage_errors, valid_optional_identifier}
use go_starter_kit.Account.Enums.{settable, outcome_valid, actor_valid, user_disabled, role_user}
use go_starter_kit.Account.Audit.{audited, audit}
use go_starter_kit.Account.Self.{require_admin, require_request}
use go_starter_kit.Account.Login.{authenticate_session, renew}
use go_starter_kit.Account.Admin.{UserRecord, set_status, put_status, user_record}
use go_starter_kit.Account.Calls.{Call, runs, run}
use go_starter_kit.Account.Lasting.Roles.{set_status_appointed}
use go_starter_kit.Account.RateLimits.{let_pass, let_pass_limited}
use go_starter_kit.Tests.Service.{env, alice, tables, guest, session, credentials, digest_of}

-- The holder of the token asks.
abbrev asked : List (Env × Call)
asked = (env, Call.authenticate credentials.token) ∷ []

abbrev bob : User
bob = record alice { id = codes "bob"; role = role_user; email = none; email_normalized = none }

abbrev with_bob : Tables
with_bob = record tables { users = alice ∷ bob ∷ []; sessions = session ∷ [] }

abbrev by_alice : Request
by_alice = record guest { user_id = codes "alice"; session_id = codes "C" }

abbrev set_by_alice : Result UserRecord × Session Tables
set_by_alice =
    set_status env by_alice (codes "bob") user_disabled (runs asked (at_rest with_bob 30))

bob_disabled :
    set_by_alice ≡ (ok (user_record (record bob { status = user_disabled })), set_by_alice.1)
unfolding runs run authenticate_session token_digest decode decode_sextets decode_sextet query
    Sessions.find_session is_usable renew set_status audited require_admin require_request
    identifier settable Users.get_session_user with_transaction put_status Users.get_user
    Store.set_user_status Users.set_user_status Sessions.revoke_user_sessions audit
    Store.append_audit Store.valid_audit Records.append_audit user_record trim_space trim_left
    trim_right is_space runes decode_rune valid_string text_within rune_count outcome_valid
    actor_valid valid_optional_identifier require_subject
bob_disabled = refl

set_status_appointed_example : any_by (λ a. str_eq a (codes "alice")) (codes "alice" ∷ []) ≡ true
set_status_appointed_example =
    set_status_appointed (codes "alice" ∷ []) asked (at_rest with_bob 30) env by_alice (codes "bob")
      user_disabled {u = user_record (record bob { status = user_disabled })} {s' = set_by_alice.1}
      (record { now = (λ _. refl, (λ bad. cc bad, tt)); later = tt }) bob_disabled

-- Two of the three requests are made under the key, of which one is let pass.
abbrev requests : List (ℕ × Str)
requests = (10, codes "alice") ∷ (11, codes "bo") ∷ (12, codes "alice") ∷ []

let_pass_limited_example :
    let_pass env (codes "login") (codes "alice") 1 (60 * second) requests tables ≡ 1
let_pass_limited_example =
    let_pass_limited env (codes "login") 1 (60 * second) (codes "alice") 10 requests tables
      (omega arith) (omega arith) (λ text. refl) (λ bad. cc bad, (λ _. refl, (λ bad. cc bad, tt)))
      ((omega arith, omega arith), ((omega arith, omega arith), ((omega arith, omega arith), tt)))
      tt

abbrev entropy : List ℕ
entropy = digest_of (codes "four")

token_digest-new_token_example :
    token_digest digest_of (new_token (codes "tk_") entropy) (codes "tk_")
    ≡ some (digest_of (new_token (codes "tk_") entropy))
token_digest-new_token_example =
    token_digest-new_token digest_of (codes "tk_") entropy (ground arith) refl

abbrev broken : Action Tables (Unit {0})
broken = query (Users.bump_user_version (codes "alice")) >> fail (plain 7)

-- The users are those of `tables`.
abbrev AsBefore : Tables → Type 0
AsBefore t = t.users ≡ tables.users

broken-Commits : Commits AsBefore broken
broken-Commits = record {
  others = λ s h. still s h;
  holds = λ s s' a h ran.
      let bump : Action Tables (Unit {0}) = query (Users.bump_user_version (codes "alice")) in
      let (_, u, _, bad) = bind-ok bump (λ _. fail (plain 7)) s ran in
      cc (ap (λ (x : Result (Unit {0}) × Session Tables). x.0) bad);
}
  where
    still : (s : Session Tables) → Holds AsBefore s → OthersKeep AsBefore (broken s).1
    still s h =
        go (query (Users.bump_user_version (codes "alice")) s)
          (query-OthersKeep AsBefore (Users.bump_user_version (codes "alice")) s h.later)
      where
        go :
            (x : Result (Unit {0}) × Session Tables)
            → OthersKeep AsBefore x.1
            → OthersKeep AsBefore (((λ _. x) >> fail {A = Unit {0}} (plain 7)) s).1
        go (ok a, u) k = k
        go (err e, u) k = k

-- The version that the body has raised is not seen behind the transaction.
with_transaction-Keeps_example : Keeps AsBefore (with_transaction storage_errors broken)
with_transaction-Keeps_example =
    with_transaction-Keeps AsBefore storage_errors broken broken-Commits
