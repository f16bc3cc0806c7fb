-- ===== src/Account/Entry/Proven.antt =====
-- What a login by a password has shown (session.go).
use go_starter_kit.Base.{ℕ, Str, true, List, Option, some, ◌≡◌, sym, subst, codes, str_eq, is_some}
use go_starter_kit.AppError.{business}
use go_starter_kit.Db.{ok, Session, query, ◌>>=◌, ◌>>◌}
use go_starter_kit.Db.Keeps.{Holds, Keeps, query-Keeps, mapped-Keeps, bind-Keeps}
use go_starter_kit.Db.Inversion.{bind-ok, query-ok, Keeps-after}
use go_starter_kit.Account.Tables.{User, Account, Tables}
use go_starter_kit.Account.Users.{find_user_by_email}
use go_starter_kit.Account.Accounts.{get_password_account}
use go_starter_kit.Account.Enums.{user_active}
use go_starter_kit.Account.Env.{
  Env, Request, Verified, need, found, storage_errors, err_credentials, normalize_email, text,
}
use go_starter_kit.Account.Audit.{limit, within, entry_limit}
use go_starter_kit.Account.Login.{SessionCredentials, login, log_in, id_of}
use go_starter_kit.Account.Kept.{free_rest}
use go_starter_kit.Account.Inversion.{need-ok, audited-ok, mapped-ok}
use go_starter_kit.Account.Keeping.{
  flow_rules, recast-Keeps, then-Keeps, found-Keeps, find_user_by_email-Keeps,
}
use go_starter_kit.Account.Records
use go_starter_kit.Account.Store
use go_starter_kit.Account.Entry.Comparing.{
  found-ok, compare-IsMatched, compare, ask_account, ask_user, look_up,
}

-- What is known when a password has been accepted for an address.
pub record IsProven (P : Tables → Type 0) (env : Env) (address password : Str) : Type 0 where
  pub email : Str
  pub normal : normalize_email env address ≡ some email
  pub user : User
  pub user_tables : Tables
  pub user_held : P user_tables
  pub asked : ℕ
  pub user_found : (find_user_by_email (some email) asked user_tables).0 ≡ ok user
  pub active : str_eq user.status user_active ≡ true
  pub confirmed : is_some user.email_verified_at ≡ true
  pub account : Account
  pub account_tables : Tables
  pub account_held : P account_tables
  pub asked_account : ℕ
  pub account_found : (get_password_account user.id asked_account account_tables).0 ≡ ok account
  pub verified : Verified
  pub compared : env.verify_password (text account.password_hash) password ≡ ok verified
  pub matched : verified.matches ≡ true

-- What the users and the accounts have is left alone by the limits.
abbrev pub OfRows : (List User → List Account → Type 0) → Tables → Type 0
OfRows Q t = Q t.users t.accounts

module _ (Q : List User → List Account → Type 0) where
  rate_limit-OfRows : (key : Str) (window : ℕ) → Keeps (OfRows Q) (Store.rate_limit key window)
  unfolding Store.rate_limit
  rate_limit-OfRows key window =
      let counted =
        query-Keeps (OfRows Q) (Records.rate_limit key window)
          ((free_rest (OfRows Q) (λ a b m t h. h)).limits key window) in
      search (flow_rules, counted)

  within-OfRows : (max : ℕ) (row : Records.RateLimitRow) → Keeps (OfRows Q) (within max row)
  within-OfRows max row = search flow_rules

  limit-OfRows :
      (env : Env) (category key : Str) (max window : ℕ)
      → Keeps (OfRows Q) (limit env category key max window)
  unfolding limit
  limit-OfRows env category key max window =
      bind-Keeps (OfRows Q) _ _ (recast-Keeps (OfRows Q) _ _ (rate_limit-OfRows _ _))
        λ row. within-OfRows max row

  entry_limit-OfRows :
      (env : Env) (r : Request) (category key : Str)
      → Keeps (OfRows Q) (entry_limit env r category key)
  unfolding entry_limit
  entry_limit-OfRows env r category key =
      then-Keeps (OfRows Q) _ _ (limit-OfRows env _ _ _ _) (limit-OfRows env _ _ _ _)

  asked-user :
      (email : Str) (s : Session Tables) {o : Option User} {user : User} {s' : Session Tables}
      → Holds (OfRows Q) s
      → ask_user email s ≡ (ok o, s')
      → o ≡ some user
      → (n : ℕ) × (t : Tables) × OfRows Q t × ((find_user_by_email (some email) n t).0 ≡ ok user)
  asked-user email s {user = user} {s' = s'} h e is =
      let q = query (find_user_by_email (some email)) in
      query-ok (OfRows Q) (find_user_by_email (some email)) s h (
        found-ok q s
          (mapped-ok storage_errors (found q) s (subst (λ o. ask_user email s ≡ (ok o, s')) is e)))

  asked-account :
      (u : Option User) (s : Session Tables) {o : Option Account} {account : Account}
      {s' : Session Tables}
      → Holds (OfRows Q) s
      → ask_account u s ≡ (ok o, s')
      → o ≡ some account
      → (n : ℕ) × (t : Tables) × OfRows Q t × ((get_password_account (id_of u) n t).0 ≡ ok account)
  asked-account u s {account = account} {s' = s'} h e is =
      let q = query (get_password_account (id_of u)) in
      query-ok (OfRows Q) (get_password_account (id_of u)) s h (
        found-ok q s
          (mapped-ok storage_errors (found q) s (subst (λ o. ask_account u s ≡ (ok o, s')) is e)))

  look_up-IsProven :
      (env : Env) (r : Request) (address password email : Str) (s : Session Tables)
      {c : SessionCredentials} {s' : Session Tables}
      → normalize_email env address ≡ some email
      → Holds (OfRows Q) s
      → look_up env r password email s ≡ (ok c, s')
      → IsProven (OfRows Q) env address password
  look_up-IsProven env r address password email s normal h e =
      let P = OfRows Q in
      let (u, s1, asked, e1) =
        bind-ok (ask_user email) (λ u. ask_account u >>= compare env r password u) s e in
      let h1 =
        Keeps-after P (ask_user email) s
          (mapped-Keeps P storage_errors (found (query (find_user_by_email (some email)))) (
            found-Keeps P (query (find_user_by_email (some email)))
              (find_user_by_email-Keeps P (some email))))
          h asked in
      let (a, s2, asked_account, e2) = bind-ok (ask_account u) (compare env r password u) s1 e1 in
      let m = compare-IsMatched env r password u a s2 e2 in
      let (n, t, held, answer) = asked-user email s h asked m.is_user in
      let (n', t', held', answer') = asked-account u s1 h1 asked_account m.is_account in
      record {
        email = email;
        normal = normal;
        user = m.user;
        user_tables = t;
        user_held = held;
        asked = n;
        user_found = answer;
        active = m.active;
        confirmed = m.confirmed;
        account = m.account;
        account_tables = t';
        account_held = held';
        asked_account = n';
        account_found =
            subst (λ (o : Option User). (get_password_account (id_of o) n' t').0 ≡ ok m.account)
              m.is_user answer';
        verified = m.verified;
        compared = m.compared;
        matched = m.matched;
      }

  -- A login succeeds only for an address whose normal form some active user with a confirmed address had,
  -- and with a password that the hash function has accepted for the hash of this user's password account.
  -- Of the users and accounts among which the two were found holds whatever held of them before and the
  -- other processes keep.
  pub login-IsProven :
      (env : Env) (r : Request) (address password : Str) (s : Session Tables)
      {c : SessionCredentials} {s' : Session Tables}
      → Holds (OfRows Q) s
      → login env r address password s ≡ (ok c, s')
      → IsProven (OfRows Q) env address password
  unfolding login log_in
  login-IsProven env r address password s h e =
      let P = OfRows Q in
      let behind =
        λ (email : Str). entry_limit env r (codes "login") email >> look_up env r password email in
      let (email, s1, named, e1) =
        bind-ok (need (normalize_email env address) (business err_credentials)) behind s
          (audited-ok env r (codes "auth.login") (log_in env r address password) s e) in
      let (normal, still) =
        need-ok (normalize_email env address) (business err_credentials) s named in
      let (_, s2, limited, e2) =
        bind-ok (entry_limit env r (codes "login") email) (λ _. look_up env r password email) s1
          e1 in
      look_up-IsProven env r address password email s2 normal
        (Keeps-after P (entry_limit env r (codes "login") email) s1
          (entry_limit-OfRows env r (codes "login") email) (subst (Holds P) (sym still) h) limited)
        e2
