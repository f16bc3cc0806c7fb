-- ===== src/Account/Lasting/Roles.antt =====
-- No call of the service makes an administrator (admin.go, admin_checker.go, users.sql.go).
use go_starter_kit.Base.{
  ℕ, Str, true, List, Option, none, some, ◌≡◌, inl, inr, arith, codes, str_eq, str_eq-eq, subst,
  sym, All, ◌&&◌, any_by, find_by-some, Bool-cases,
}
use go_starter_kit.AppError.{no_rows, business}
use go_starter_kit.Db.{Result, ok, err, Session, query, ◌>>=◌, ◌>>◌}
use go_starter_kit.Db.Transaction.{with_transaction}
use go_starter_kit.Validation.{identifier}
use go_starter_kit.Db.Keeps.{Holds}
use go_starter_kit.Db.Inversion.{bind-ok, query-ok, Keeps-after}
use go_starter_kit.Account.Tables.{User, UserSession, Tables, user_of, is_usable}
use go_starter_kit.Account.Users.{get_session_user, one_user}
use go_starter_kit.Account.Enums.{role_admin, settable}
use go_starter_kit.Account.Env.{
  Env, Request, recast, require, err_forbidden, err_invalid, storage_errors,
}
use go_starter_kit.Account.Self.{require_admin, require_request, admin_lookup_error}
use go_starter_kit.Account.Admin.{UserRecord, set_status, put_status}
use go_starter_kit.Account.Kept.{IsKept}
use go_starter_kit.Account.Keeping.Callers.{require_request-Keeps}
use go_starter_kit.Account.Inversion.{recast-ok, require-ok, audited-ok}
use go_starter_kit.Account.Lasting.Users.{
  Change, activation, bump, release, new_status, new_email, rename, RowRules, All-UserRules,
  IsKept-users,
}
use go_starter_kit.Account.Calls.{Call, runs, runs-Holds}

-- A user who has the role of an administrator is one of these.
abbrev pub IsAppointed : List Str → User → Type 0
IsAppointed admins u = str_eq u.role role_admin ≡ true → any_by (λ a. str_eq a u.id) admins ≡ true

-- Nobody else is an administrator.
abbrev pub AreAppointed : List Str → Tables → Type 0
AreAppointed admins t = All (IsAppointed admins) t.users

IsAppointed-rules : (admins : List Str) → RowRules (IsAppointed admins)
IsAppointed-rules admins = record {
  moves = λ f u c h. moved f u c h;
  adds = λ id name email normalized status now first bad. cc bad;
}
  where
    moved :
        (f : User → User) (u : User) → Change f → IsAppointed admins u → IsAppointed admins (f u)
    moved f u (activation now) h = h
    moved f u (bump now) h = h
    moved f u (release now) h = h
    moved f u (new_status v now fits) h = h
    moved f u (new_email a n now) h = h
    moved f u (rename name now) h = h

AreAppointed-kept : (admins : List Str) → IsKept (AreAppointed admins)
AreAppointed-kept admins =
    IsKept-users (All (IsAppointed admins))
      (All-UserRules (IsAppointed admins) (IsAppointed-rules admins))

-- Whatever calls of the service are made, by whomever, with whatever faults of the database: whoever is
-- an administrator afterwards is one of those who were before, if the other processes appoint nobody.
pub no_new_admin :
    (admins : List Str) (calls : List (Env × Call)) (s : Session Tables)
    → Holds (AreAppointed admins) s
    → AreAppointed admins (runs calls s).table
no_new_admin admins calls s h =
    (runs-Holds (AreAppointed admins) (AreAppointed-kept admins) calls s h).now

one_user-ok : (o : Option User) {u : User} → one_user o ≡ ok u → o ≡ some u
one_user-ok none e = ground arith
one_user-ok (some x) e = ground arith

get_session_user-ok :
    (user session : Str) (now : ℕ) (t : Tables) {u : User}
    → (get_session_user user session now t).0 ≡ ok u
    → user_of user t.users ≡ some u
unfolding get_session_user
get_session_user-ok user session now t {u} e =
    let own = λ (s : UserSession).
      (str_eq s.id session && str_eq s.user_id user) && is_usable now t.users s in
    elim (Bool-cases (any_by own t.sessions)) [
      | inl some_session ↦ one_user-ok (user_of user t.users) (rw some_session at e)
      | inr no_session ↦
          let bad : ◌≡◌ {A = Result User} (err no_rows) (ok u) = rw no_session at e in cc bad
    ]

-- Whom `RequireAdmin` lets pass is an administrator on the tables that it has read.
pub require_admin-appointed :
    (admins : List Str) (r : Request) (s : Session Tables) {a : Unit {0}} {s' : Session Tables}
    → Holds (AreAppointed admins) s
    → require_admin r s ≡ (ok a, s')
    → any_by (λ a. str_eq a r.user_id) admins ≡ true
unfolding require_admin
require_admin-appointed admins r s h e =
    let P = AreAppointed admins in
    let lookup = recast admin_lookup_error (query (get_session_user r.user_id r.session_id)) in
    let rest = λ (u : User). require (str_eq u.role role_admin) (business err_forbidden) in
    let (_, s1, first, e1) = bind-ok (require_request r) (λ _. lookup >>= rest) s e in
    let (u, s2, got, e2) = bind-ok lookup rest s1 e1 in
    let (n, t, appointed, found) =
      query-ok P (get_session_user r.user_id r.session_id) s1
        (Keeps-after P (require_request r) s (require_request-Keeps P (AreAppointed-kept admins) r)
          h first)
        (recast-ok admin_lookup_error (query (get_session_user r.user_id r.session_id)) s1 got) in
    let (keyed, fine) =
      find_by-some (IsAppointed admins) (λ x. str_eq x.id r.user_id) t.users appointed
        (get_session_user-ok r.user_id r.session_id n t found) in
    let (admin, _) = require-ok _ (business err_forbidden) s2 e2 in
    subst (λ i. any_by (λ a. str_eq a i) admins ≡ true) (str_eq-eq u.id r.user_id keyed)
      (fine admin)

-- Whoever succeeds with `SetStatus`, after whatever calls of the service, with whatever faults of the
-- database, is one of those who were administrators before all of them, if the other processes appoint
-- nobody.
pub set_status_appointed :
    (admins : List Str) (calls : List (Env × Call)) (s : Session Tables) (env : Env) (r : Request)
    (id status : Str) {u : UserRecord} {s' : Session Tables}
    → Holds (AreAppointed admins) s
    → set_status env r id status (runs calls s) ≡ (ok u, s')
    → any_by (λ a. str_eq a r.user_id) admins ≡ true
unfolding set_status
set_status_appointed admins calls s env r id status h e =
    let P = AreAppointed admins in
    let change = with_transaction storage_errors (put_status env r id status) in
    let valid = require (identifier id && settable status) (business err_invalid) in
    let after = runs calls s in
    let (_, s1, first, e1) =
      bind-ok valid (λ _. require_admin r >> change) after
        (audited-ok env r (codes "user.status_change") (valid >> (require_admin r >> change)) after
          e) in
    let (_, still) =
      require-ok (identifier id && settable status) (business err_invalid) after first in
    let (_, s2, admitted, e2) = bind-ok (require_admin r) (λ _. change) s1 e1 in
    require_admin-appointed admins r s1
      (subst (Holds P) (sym still) (runs-Holds P (AreAppointed-kept admins) calls s h)) admitted
