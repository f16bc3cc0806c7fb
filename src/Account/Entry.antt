-- ===== src/Account/Entry.antt =====
-- Who is let in: by the token of a session (session.go), and in its child modules by a password.
pub mod Comparing
pub mod Proven
use go_starter_kit.Base.{
  ℕ, Str, Bool, true, List, Option, none, some, ◌≡◌, refl, arith, ap, sym, subst, codes, str_eq,
  is_some, Bool-cases, inl, inr, ◌&&◌,
}
use go_starter_kit.AppError.{GoError, business, errors_is, is_no_rows}
use go_starter_kit.Db.{Result, ok, err, Session, Action, query, mapped, lift, ◌>>=◌, ◌>>◌}
use go_starter_kit.Db.Transaction.{with_transaction}
use go_starter_kit.Db.Keeps.{Holds, Keeps, query-Keeps, mapped-Keeps, bind-Keeps}
use go_starter_kit.Db.Inversion.{bind-ok, query-ok, Keeps-after}
use go_starter_kit.Identity.Tokens.{token_digest}
use go_starter_kit.Account.Tables.{User, Account, UserSession, Tables}
use go_starter_kit.Account.Users.{find_user_by_email}
use go_starter_kit.Account.Sessions.{find_session}
use go_starter_kit.Account.Accounts.{get_password_account}
use go_starter_kit.Account.Enums.{user_active}
use go_starter_kit.Account.Env.{
  Env, Request, Verified, need, found, found_result, storage_errors, session_prefix,
  err_credentials, normalize_email, text,
}
use go_starter_kit.Account.Audit.{limit, within, entry_limit}
use go_starter_kit.Account.Login.{
  SessionCredentials, authenticate_session, login, log_in, admitted, upgraded, sign_in, id_of,
  hash_of,
}
use go_starter_kit.Account.Kept.{free_rest}
use go_starter_kit.Account.Inversion.{need-ok, audited-ok, lift-ok, mapped-ok}
use go_starter_kit.Account.Keeping.{
  flow_rules, recast-Keeps, then-Keeps, found-Keeps, find_user_by_email-Keeps,
}
use go_starter_kit.Account.Records
use go_starter_kit.Account.Store
use go_starter_kit.Account.Ending.{IsSound, find_session-IsSound}
use go_starter_kit.Account.Lasting.Ended.{authenticate_session-found}

-- What is known when a token has been accepted for a user and a session.
pub record IsLetIn (P : Tables → Type 0) (env : Env) (token user session : Str) : Type 0 where
  pub hash : Str
  pub digested : token_digest env.digest token session_prefix ≡ some hash
  pub now : ℕ
  pub tables : Tables
  pub held : P tables
  pub row : UserSession
  pub sound : IsSound hash now tables row
  pub of_user : row.user_id ≡ user
  pub of_session : row.id ≡ session

-- A token is accepted only if it has the form of a token, and at some time the tables had the session
-- with its digest: not revoked, with both its ends ahead, and of an active user whose version is the
-- session's. The answer names this user and this session. Of these tables every property holds that
-- held before and that the other processes keep.
pub authenticate_session-IsLetIn :
    (P : Tables → Type 0) (env : Env) (token : Str) (s : Session Tables) {user id : Str}
    {s' : Session Tables}
    → Holds P s
    → authenticate_session env token s ≡ (ok (user, id), s')
    → IsLetIn P env token user id
unfolding find_session
authenticate_session-IsLetIn P env token s h e =
    let (hash, now, t, row, p, digested, answer, of_user, of_session) =
      authenticate_session-found P env token s h e in
    let (sound, _) =
      find_session-IsSound hash now t (ap (λ (r : Result UserSession). (r, t)) answer) in
    record {
      hash = hash;
      digested = digested;
      now = now;
      tables = t;
      held = p;
      row = row;
      sound = sound;
      of_user = of_user;
      of_session = of_session;
    }
