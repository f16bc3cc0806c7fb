-- ===== src/Account/Keeping.antt =====
-- What every action of the module keeps true of the tables: the rules for its operators, its statements
-- and its guards.
pub mod Writes
pub mod Callers
pub mod Proving
pub mod Changes
pub mod Answers
use go_starter_kit.Base.{
  ℕ, ℤ, Str, Bool, true, false, List, Option, none, some, ◌≡◌, refl, subst, if◌then◌else◌,
}
use go_starter_kit.AppError.{GoError, AppError}
use go_starter_kit.Db.{
  Result, ok, err, ErrorPolicy, Session, Action, query, pure, fail, lift, mapped, ◌>>=◌, ◌>>◌,
}
use go_starter_kit.Db.Keeps.{Holds, Keeps, query-Keeps, mapped-Keeps, still-Keeps, bind-Keeps}
use go_starter_kit.Db.Transaction.{with_transaction, with_transaction-Keeps}
use go_starter_kit.MailOutbox.Queries.{EnqueueParams}
use go_starter_kit.Account.Tables.{Tables}
use go_starter_kit.Account.Kept.{IsKept}
use go_starter_kit.Account.Users
use go_starter_kit.Account.Sessions
use go_starter_kit.Account.Accounts
use go_starter_kit.Account.Flows
use go_starter_kit.Account.Records
use go_starter_kit.Account.Env.{Env, Request, recast, found, require, need}
use go_starter_kit.Account.Audit.{fail_with}

module _ {A : Type 0} (P : Tables → Type 0) where
  pub pure-Keeps : (a : A) → Keeps P (pure {T = Tables} a)
  pure-Keeps a = record { at = λ s h. h }

  pub fail-Keeps : (e : GoError) → Keeps P {A = A} (fail e)
  fail-Keeps e = record { at = λ s h. h }

  pub lift-Keeps : (r : Result A) → Keeps P (lift {T = Tables} r)
  lift-Keeps r = record { at = λ s h. h }

  pub recast-Keeps :
      (f : GoError → GoError) (m : Action Tables A) → Keeps P m → Keeps P (recast f m)
  recast-Keeps f m k = record { at = λ s h. k.at s h }

  pub found-Keeps : (m : Action Tables A) → Keeps P m → Keeps P (found m)
  found-Keeps m k = record { at = λ s h. k.at s h }

  pub need-Keeps : (o : Option A) (e : GoError) → Keeps P (need o e)
  need-Keeps none e = fail-Keeps e
  need-Keeps (some a) e = pure-Keeps a

  pub then-Keeps :
      (m : Action Tables (Unit {0})) (rest : Action Tables A)
      → Keeps P m
      → Keeps P rest
      → Keeps P (m >> rest)
  then-Keeps m rest k l = bind-Keeps P m (λ _. rest) k λ _. l

  -- Behind a guard its test holds.
  pub require-Keeps :
      (b : Bool) (e : GoError) (rest : Action Tables A)
      → (b ≡ true → Keeps P rest)
      → Keeps P (require b e >> rest)
  require-Keeps true e rest k = k refl
  require-Keeps false e rest k = record { at = λ s h. h }

  pub if-Keeps :
      (b : Bool) (m n : Action Tables A) → Keeps P m → Keeps P n → Keeps P (if b then m else n)
  if-Keeps true m n k l = k
  if-Keeps false m n k l = l

  pub transaction-Keeps :
      (policy : ErrorPolicy) (m : Action Tables A) → Keeps P m → Keeps P (with_transaction policy m)
  transaction-Keeps policy m k = with_transaction-Keeps P policy m (record {
    others = λ s h. (k.at s h).later;
    holds =
        λ s s' a h ran. subst (λ (x : Result A × Session Tables). P x.1.table) ran (k.at s h).now;
  })

-- The statements that only read.
module _ (P : Tables → Type 0) where
  -- A guard at the end
  pub guard-Keeps : (b : Bool) (e : GoError) → Keeps P (require b e)
  guard-Keeps true e = record { at = λ s h. h }
  guard-Keeps false e = record { at = λ s h. h }

  pub fail_with-Keeps : (o : Option GoError) → Keeps P (fail_with o)
  fail_with-Keeps none = record { at = λ s h. h }
  fail_with-Keeps (some e) = record { at = λ s h. h }

  pub find_user_by_email-Keeps :
      (normalized : Option Str) → Keeps P (query (Users.find_user_by_email normalized))
  unfolding Users.find_user_by_email
  find_user_by_email-Keeps normalized = query-Keeps P _ λ n t h. h

  pub get_session_user-Keeps :
      (user session : Str) → Keeps P (query (Users.get_session_user user session))
  unfolding Users.get_session_user
  get_session_user-Keeps user session = query-Keeps P _ λ n t h. h

  pub get_user-Keeps : (id : Str) → Keeps P (query (Users.get_user id))
  unfolding Users.get_user
  get_user-Keeps id = query-Keeps P _ λ n t h. h

  pub list_users-Keeps :
      (id_le : Str → Str → Bool) (limit offset : ℤ)
      → Keeps P (query (Users.list_users id_le limit offset))
  unfolding Users.list_users
  list_users-Keeps id_le limit offset = query-Keeps P _ λ n t h. h

  pub lock_user-Keeps : (id : Str) → Keeps P (query (Users.lock_user id))
  unfolding Users.lock_user
  lock_user-Keeps id = query-Keeps P _ λ n t h. h

  pub find_session-Keeps : (hash : Str) → Keeps P (query (Sessions.find_session hash))
  unfolding Sessions.find_session
  find_session-Keeps hash = query-Keeps P _ λ n t h. h

  pub get_valid_session-Keeps :
      (id user : Str) → Keeps P (query (Sessions.get_valid_session id user))
  unfolding Sessions.get_valid_session
  get_valid_session-Keeps id user = query-Keeps P _ λ n t h. h

  pub list_sessions-Keeps :
      (id_le : Str → Str → Bool) (user : Str) (limit offset : ℤ)
      → Keeps P (query (Sessions.list_sessions id_le user limit offset))
  unfolding Sessions.list_sessions
  list_sessions-Keeps id_le user limit offset = query-Keeps P _ λ n t h. h

  pub find_provider_account-Keeps :
      (namespace subject : Str) → Keeps P (query (Accounts.find_provider_account namespace subject))
  unfolding Accounts.find_provider_account
  find_provider_account-Keeps namespace subject = query-Keeps P _ λ n t h. h

  pub get_account-Keeps : (id user : Str) → Keeps P (query (Accounts.get_account id user))
  unfolding Accounts.get_account
  get_account-Keeps id user = query-Keeps P _ λ n t h. h

  pub get_password_account-Keeps :
      (user : Str) → Keeps P (query (Accounts.get_password_account user))
  unfolding Accounts.get_password_account
  get_password_account-Keeps user = query-Keeps P _ λ n t h. h

  pub list_accounts-Keeps :
      (id_le : Str → Str → Bool) (user : Str) → Keeps P (query (Accounts.list_accounts id_le user))
  unfolding Accounts.list_accounts
  list_accounts-Keeps id_le user = query-Keeps P _ λ n t h. h

  pub find_flow-Keeps : (hash : Str) → Keeps P (query (Flows.find_flow hash))
  unfolding Flows.find_flow
  find_flow-Keeps hash = query-Keeps P _ λ n t h. h

  pub get_flow-Keeps : (id : Str) → Keeps P (query (Flows.get_flow id))
  unfolding Flows.get_flow
  get_flow-Keeps id = query-Keeps P _ λ n t h. h

  pub find_verification-Keeps : (hash : Str) → Keeps P (query (Records.find_verification hash))
  unfolding Records.find_verification
  find_verification-Keeps hash = query-Keeps P _ λ n t h. h

pub ruleset flow_rules = (
  pure-Keeps, fail-Keeps, lift-Keeps, recast-Keeps, found-Keeps, need-Keeps, then-Keeps, bind-Keeps,
  mapped-Keeps, if-Keeps, require-Keeps, transaction-Keeps, fail_with-Keeps, guard-Keeps,
)

pub ruleset read_rules = (
  find_user_by_email-Keeps, get_session_user-Keeps, get_user-Keeps, list_users-Keeps,
  lock_user-Keeps, find_session-Keeps, get_valid_session-Keeps, list_sessions-Keeps,
  find_provider_account-Keeps, get_account-Keeps, get_password_account-Keeps, list_accounts-Keeps,
  find_flow-Keeps, get_flow-Keeps, find_verification-Keeps,
)
