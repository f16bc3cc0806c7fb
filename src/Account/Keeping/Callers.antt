-- ===== src/Account/Keeping/Callers.antt =====
-- What the methods of session.go, authorization.go, admin.go and profile.go keep.
use go_starter_kit.Base.{ℕ, Str, Bool, true, false, Option, none, some}
use go_starter_kit.Db.Keeps.{Keeps}
use go_starter_kit.Pagination.{Params}
use go_starter_kit.Account.Tables.{User, UserSession, Account, AuthVerification, Tables}
use go_starter_kit.Account.Env.{Env, Request}
use go_starter_kit.Account.Self
use go_starter_kit.Account.Login
use go_starter_kit.Account.Admin
use go_starter_kit.Account.Kept.{IsKept}
use go_starter_kit.Account.Keeping.{flow_rules, read_rules}
use go_starter_kit.Account.Keeping.Writes.{write_rules}

ruleset rules = (flow_rules, read_rules, write_rules)

module _ (P : Tables → Type 0) (k : IsKept P) where
  pub require_request-Keeps : (r : Request) → Keeps P (Self.require_request r)
  unfolding Self.require_request
  require_request-Keeps r = search rules depth 40 fits 4000

  pub lock_self-Keeps : (r : Request) → Keeps P (Self.lock_self r)
  unfolding Self.lock_self
  lock_self-Keeps r = search (rules, require_request-Keeps) depth 40 fits 4000

  pub read_self-Keeps : (r : Request) → Keeps P (Self.read_self r)
  unfolding Self.read_self
  read_self-Keeps r = search (rules, require_request-Keeps) depth 40 fits 4000

  pub invalidate-Keeps : (user : Str) → Keeps P (Self.invalidate user)
  unfolding Self.invalidate
  invalidate-Keeps user = search rules depth 40 fits 4000

  pub require_admin-Keeps : (r : Request) → Keeps P (Self.require_admin r)
  unfolding Self.require_admin
  require_admin-Keeps r = search (rules, require_request-Keeps) depth 40 fits 4000

  pub enqueue_verification_mail-Keeps :
      (env : Env) (verification : AuthVerification) (token : Str)
      → Keeps P (Self.enqueue_verification_mail env verification token)
  unfolding Self.enqueue_verification_mail
  enqueue_verification_mail-Keeps env verification token = search rules depth 40 fits 4000

  pub notify_at-Keeps :
      (env : Env) (email : Option Str) (verified : Option ℕ) (body : Str)
      → Keeps P (Self.notify_at env email verified body)
  notify_at-Keeps env (some email) (some at) body = search rules depth 40 fits 4000
  notify_at-Keeps env none verified body = search rules depth 40 fits 4000
  notify_at-Keeps env (some email) none body = search rules depth 40 fits 4000

  pub enqueue_security_notification-Keeps :
      (env : Env) (user : User) (body : Str)
      → Keeps P (Self.enqueue_security_notification env user body)
  unfolding Self.enqueue_security_notification
  enqueue_security_notification-Keeps env user body =
      search (rules, notify_at-Keeps) depth 40 fits 4000

  pub renew-Keeps : (env : Env) (session : UserSession) → Keeps P (Login.renew env session)
  unfolding Login.renew
  renew-Keeps env session = search rules depth 40 fits 4000

  pub authenticate_session-Keeps :
      (env : Env) (token : Str) → Keeps P (Login.authenticate_session env token)
  unfolding Login.authenticate_session
  authenticate_session-Keeps env token = search (rules, renew-Keeps) depth 40 fits 4000

  pub new_session-Keeps :
      (env : Env) (r : Request) (user : User) (account : Account) (method : Str)
      → Keeps P (Login.new_session env r user account method)
  unfolding Login.new_session
  new_session-Keeps env r user account method = search rules depth 40 fits 4000

  pub upgraded-Keeps :
      (env : Env) (upgrade : Bool) (password : Str) → Keeps P (Login.upgraded env upgrade password)
  unfolding Login.upgraded
  upgraded-Keeps env true password = search rules depth 40 fits 4000
  upgraded-Keeps env false password = search rules depth 40 fits 4000

  pub store_upgrade-Keeps :
      (user : User) (account : Account) (hash : Str)
      → Keeps P (Login.store_upgrade user account hash)
  unfolding Login.store_upgrade
  store_upgrade-Keeps user account hash = search rules depth 40 fits 4000

  pub sign_in-Keeps :
      (env : Env) (r : Request) (user : User) (account : Account) (hash : Str)
      → Keeps P (Login.sign_in env r user account hash)
  unfolding Login.sign_in
  sign_in-Keeps env r user account hash =
      search (rules, new_session-Keeps, store_upgrade-Keeps) depth 40 fits 4000

  pub log_in-Keeps :
      (env : Env) (r : Request) (address password : Str)
      → Keeps P (Login.log_in env r address password)
  unfolding Login.log_in
  log_in-Keeps env r address password =
      search (rules, upgraded-Keeps, sign_in-Keeps) depth 40 fits 4000

  pub login-Keeps :
      (env : Env) (r : Request) (address password : Str)
      → Keeps P (Login.login env r address password)
  unfolding Login.login
  login-Keeps env r address password = search (rules, log_in-Keeps) depth 40 fits 4000

  pub sessions-Keeps : (env : Env) (r : Request) (p : Params) → Keeps P (Login.sessions env r p)
  unfolding Login.sessions
  sessions-Keeps env r p = search (rules, read_self-Keeps) depth 40 fits 4000

  pub close_sessions-Keeps :
      (user id : Str) (all : Bool) → Keeps P (Login.close_sessions user id all)
  unfolding Login.close_sessions
  close_sessions-Keeps user id true = search (rules, invalidate-Keeps) depth 40 fits 4000
  close_sessions-Keeps user id false = search rules depth 40 fits 4000

  pub close_own-Keeps :
      (env : Env) (r : Request) (id : Str) (all : Bool) → Keeps P (Login.close_own env r id all)
  unfolding Login.close_own
  close_own-Keeps env r id all =
      search (rules, lock_self-Keeps, close_sessions-Keeps) depth 40 fits 4000

  pub revoke_session-Keeps :
      (env : Env) (r : Request) (id : Str) (all : Bool)
      → Keeps P (Login.revoke_session env r id all)
  unfolding Login.revoke_session
  revoke_session-Keeps env r id all = search (rules, close_own-Keeps) depth 40 fits 4000

  pub me-Keeps : (env : Env) (r : Request) → Keeps P (Admin.me env r)
  unfolding Admin.me
  me-Keeps env r = search (rules, read_self-Keeps) depth 40 fits 4000

  pub rename-Keeps : (env : Env) (r : Request) (name : Str) → Keeps P (Admin.rename env r name)
  unfolding Admin.rename
  rename-Keeps env r name = search (rules, read_self-Keeps) depth 40 fits 4000

  pub update_profile-Keeps :
      (env : Env) (r : Request) (name : Str) → Keeps P (Admin.update_profile env r name)
  unfolding Admin.update_profile
  update_profile-Keeps env r name = search (rules, rename-Keeps) depth 40 fits 4000

  pub users-Keeps : (env : Env) (r : Request) (p : Params) → Keeps P (Admin.users env r p)
  unfolding Admin.users
  users-Keeps env r p = search (rules, require_admin-Keeps) depth 40 fits 4000

  pub put_status-Keeps :
      (env : Env) (r : Request) (id status : Str) → Keeps P (Admin.put_status env r id status)
  unfolding Admin.put_status
  put_status-Keeps env r id status = search rules depth 40 fits 4000

  pub set_status-Keeps :
      (env : Env) (r : Request) (id status : Str) → Keeps P (Admin.set_status env r id status)
  unfolding Admin.set_status
  set_status-Keeps env r id status =
      search (rules, require_admin-Keeps, put_status-Keeps) depth 40 fits 4000

  pub close_all-Keeps : (env : Env) (r : Request) (id : Str) → Keeps P (Admin.close_all env r id)
  unfolding Admin.close_all
  close_all-Keeps env r id = search (rules, invalidate-Keeps) depth 40 fits 4000

  pub revoke_user_sessions-Keeps :
      (env : Env) (r : Request) (id : Str) → Keeps P (Admin.revoke_user_sessions env r id)
  unfolding Admin.revoke_user_sessions
  revoke_user_sessions-Keeps env r id =
      search (rules, require_admin-Keeps, close_all-Keeps) depth 40 fits 4000

pub ruleset callers_rules = (
  require_request-Keeps, lock_self-Keeps, read_self-Keeps, invalidate-Keeps, require_admin-Keeps,
  enqueue_verification_mail-Keeps, notify_at-Keeps, enqueue_security_notification-Keeps,
  renew-Keeps, authenticate_session-Keeps, new_session-Keeps, upgraded-Keeps, store_upgrade-Keeps,
  sign_in-Keeps, log_in-Keeps, login-Keeps, sessions-Keeps, close_sessions-Keeps, close_own-Keeps,
  revoke_session-Keeps, me-Keeps, rename-Keeps, update_profile-Keeps, users-Keeps, put_status-Keeps,
  set_status-Keeps, close_all-Keeps, revoke_user_sessions-Keeps,
)
