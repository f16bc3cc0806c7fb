-- ===== src/Account/Entry/Comparing.antt =====
-- The parts of `Login`, and what the comparison of a password has let pass (session.go).
use go_starter_kit.Base.{
  Str, Bool, true, Option, none, some, ◌≡◌, refl, arith, ap, subst, str_eq, is_some, Bool-cases,
  inl, inr, ◌&&◌,
}
use go_starter_kit.AppError.{GoError, business, errors_is, is_no_rows}
use go_starter_kit.Db.{Result, ok, err, Session, Action, query, mapped, lift, ◌>>=◌}
use go_starter_kit.Db.Transaction.{with_transaction}
use go_starter_kit.Db.Inversion.{bind-ok}
use go_starter_kit.Account.Tables.{User, Account, Tables}
use go_starter_kit.Account.Users.{find_user_by_email}
use go_starter_kit.Account.Accounts.{get_password_account}
use go_starter_kit.Account.Enums.{user_active}
use go_starter_kit.Account.Env.{
  Env, Request, Verified, need, found, found_result, storage_errors, err_credentials, text,
}
use go_starter_kit.Account.Login.{SessionCredentials, admitted, upgraded, sign_in, id_of, hash_of}
use go_starter_kit.Account.Inversion.{need-ok, lift-ok}

pub found-ok :
    {A : Type 0} (m : Action Tables A) (s : Session Tables) {a : A} {s' : Session Tables}
    → found m s ≡ (ok (some a), s')
    → m s ≡ (ok a, s')
found-ok {A = A} m s {a} {s'} e = go (m s) refl e
  where
    missing : (er : GoError) → found_result {A = A} (err er) ≡ ok (some a) → ⊥
    missing er h = elim (Bool-cases (errors_is is_no_rows er)) [
      | inl gone ↦
          let bad : ◌≡◌ {A = Result (Option A)} (ok none) (ok (some a)) = rw gone at h in cc bad
      | inr other ↦
          let bad : ◌≡◌ {A = Result (Option A)} (err er) (ok (some a)) = rw other at h in cc bad
    ]

    go :
        (x : Result A × Session Tables)
        → m s ≡ x
        → ◌≡◌ {A = Result (Option A) × Session Tables} (found_result x.0, x.1) (ok (some a), s')
        → m s ≡ (ok a, s')
    go (ok b, u) same h = cc
    go (err er, u) same h = absurd (missing er (ap (λ x. x.0) h))

admitted-some :
    (u : Option User) (a : Option Account) (valid : Bool) {user : User} {account : Account}
    → admitted u a valid ≡ some (user, account)
    → (u ≡ some user)
      × (a ≡ some account)
      × (valid ≡ true)
      × (str_eq user.status user_active ≡ true)
      × (is_some user.email_verified_at ≡ true)
unfolding admitted
admitted-some none a valid e = cc
admitted-some (some x) none valid e = cc
admitted-some (some x) (some y) valid {user} {account} e =
    let test = valid && (str_eq x.status user_active && is_some x.email_verified_at) in
    elim (Bool-cases test) [
      | inl passed ↦
          let same : ◌≡◌ {A = Option (User × Account)} (some (x, y)) (some (user, account)) =
            rw passed at e in
          let pair : ◌≡◌ {A = User × Account} (x, y) (user, account) = cc in
          let u : x ≡ user = ap (λ q. q.0) pair in
          (
            ap some u,
            ap (λ q. some (q.1)) pair,
            ground arith,
            rw (← u) (ground arith),
            rw (← u) (ground arith),
          )
      | inr failed ↦
          let bad : ◌≡◌ {A = Option (User × Account)} none (some (user, account)) =
            rw failed at e in
          cc bad
    ]

-- The parts of `log_in`, from its end.
abbrev enter : Env → Request → Str → Verified → User × Account → Action Tables SessionCredentials
enter env r password v pair = upgraded env v.needs_upgrade password >>= λ hash.
    with_transaction storage_errors (sign_in env r pair.0 pair.1 hash)

abbrev choose :
    Env → Request → Str → Option User → Option Account → Verified → Action Tables SessionCredentials
choose env r password u a v =
    need (admitted u a v.matches) (business err_credentials) >>= enter env r password v

abbrev pub compare :
    Env → Request → Str → Option User → Option Account → Action Tables SessionCredentials
compare env r password u a =
    lift (env.verify_password (text (hash_of a)) password) >>= choose env r password u a

abbrev pub ask_account : Option User → Action Tables (Option Account)
ask_account u = mapped storage_errors (found (query (get_password_account (id_of u))))

abbrev pub ask_user : Str → Action Tables (Option User)
ask_user email = mapped storage_errors (found (query (find_user_by_email (some email))))

abbrev pub look_up : Env → Request → Str → Str → Action Tables SessionCredentials
look_up env r password email = ask_user email >>= λ u. ask_account u >>= compare env r password u

-- What the comparison has let pass.
pub record IsMatched (env : Env) (password : Str) (u : Option User) (a : Option Account)
    : Type 0 where
  pub user : User
  pub is_user : u ≡ some user
  pub account : Account
  pub is_account : a ≡ some account
  pub verified : Verified
  pub compared : env.verify_password (text account.password_hash) password ≡ ok verified
  pub matched : verified.matches ≡ true
  pub active : str_eq user.status user_active ≡ true
  pub confirmed : is_some user.email_verified_at ≡ true

pub compare-IsMatched :
    (env : Env) (r : Request) (password : Str) (u : Option User) (a : Option Account)
    (s : Session Tables) {c : SessionCredentials} {s' : Session Tables}
    → compare env r password u a s ≡ (ok c, s')
    → IsMatched env password u a
compare-IsMatched env r password u a s e =
    let (v, s1, ran, e1) =
      bind-ok (lift (env.verify_password (text (hash_of a)) password)) (choose env r password u a) s
        e in
    let (compared, _) = lift-ok (env.verify_password (text (hash_of a)) password) s ran in
    let (pair, s2, chosen, _) =
      bind-ok (need (admitted u a v.matches) (business err_credentials)) (enter env r password v) s1
        e1 in
    let (let_in, _) = need-ok (admitted u a v.matches) (business err_credentials) s1 chosen in
    let (is_user, is_account, matched, active, confirmed) = admitted-some u a v.matches let_in in
    record {
      user = pair.0;
      is_user = is_user;
      account = pair.1;
      is_account = is_account;
      verified = v;
      compared =
          subst (λ (o : Option Account). env.verify_password (text (hash_of o)) password ≡ ok v)
            is_account compared;
      matched = matched;
      active = active;
      confirmed = confirmed;
    }
