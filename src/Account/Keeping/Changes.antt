-- ===== src/Account/Keeping/Changes.antt =====
-- What the methods of registration.go, challenges.go, email.go, password.go and linked_accounts.go keep.
use go_starter_kit.Base.{ℕ, Str, Option, none, some}
use go_starter_kit.Db.Keeps.{Keeps}
use go_starter_kit.Account.Tables.{User, Account, AuthFlow, AuthVerification, Tables}
use go_starter_kit.Account.Env.{Env, Request}
use go_starter_kit.Account.Register
use go_starter_kit.Account.Challenges
use go_starter_kit.Account.Password
use go_starter_kit.Account.Linking
use go_starter_kit.Account.Challenges.{Verification}
use go_starter_kit.Account.Kept.{IsKept}
use go_starter_kit.Account.Keeping.{flow_rules, read_rules}
use go_starter_kit.Account.Keeping.Writes.{write_rules}
use go_starter_kit.Account.Keeping.Callers.{callers_rules}
use go_starter_kit.Account.Keeping.Proving.{proving_rules}

ruleset rules = (flow_rules, read_rules, write_rules, callers_rules, proving_rules)

module _ (P : Tables → Type 0) (k : IsKept P) where
  pub create_challenge-Keeps :
      (env : Env) (user : User) (purpose email : Str) (ttl : ℕ) (session reauth : Option Str)
      → Keeps P (Register.create_challenge env user purpose email ttl session reauth)
  unfolding Register.create_challenge
  create_challenge-Keeps env user purpose email ttl session reauth = search rules depth 40 fits 4000

  pub open_registration-Keeps :
      (env : Env) (email : Str) → Keeps P (Register.open_registration env email)
  unfolding Register.open_registration
  open_registration-Keeps env email = search (rules, create_challenge-Keeps) depth 40 fits 4000

  pub register-Keeps :
      (env : Env) (r : Request) (address : Str) → Keeps P (Register.register env r address)
  unfolding Register.register
  register-Keeps env r address = search (rules, open_registration-Keeps) depth 40 fits 4000

  pub reset_challenge-Keeps :
      (env : Env) (user : User) (account : Option Account)
      → Keeps P (Register.reset_challenge env user account)
  reset_challenge-Keeps env user none = search rules depth 40 fits 4000
  reset_challenge-Keeps env user (some account) =
      search (rules, create_challenge-Keeps) depth 40 fits 4000

  pub reset_for-Keeps : (env : Env) (user : Option User) → Keeps P (Register.reset_for env user)
  reset_for-Keeps env none = search rules depth 40 fits 4000
  reset_for-Keeps env (some user) = search (rules, reset_challenge-Keeps) depth 40 fits 4000

  pub open_reset-Keeps : (env : Env) (email : Str) → Keeps P (Register.open_reset env email)
  unfolding Register.open_reset
  open_reset-Keeps env email = search (rules, reset_for-Keeps) depth 40 fits 4000

  pub forgot_password-Keeps :
      (env : Env) (r : Request) (address : Str) → Keeps P (Register.forgot_password env r address)
  unfolding Register.forgot_password
  forgot_password-Keeps env r address = search (rules, open_reset-Keeps) depth 40 fits 4000

  pub open_email_change-Keeps :
      (env : Env) (r : Request) (email reauth_id : Str)
      → Keeps P (Register.open_email_change env r email reauth_id)
  unfolding Register.open_email_change
  open_email_change-Keeps env r email reauth_id =
      search (rules, create_challenge-Keeps) depth 40 fits 4000

  pub change_email-Keeps :
      (env : Env) (r : Request) (address reauth_id : Str)
      → Keeps P (Register.change_email env r address reauth_id)
  unfolding Register.change_email
  change_email-Keeps env r address reauth_id =
      search (rules, open_email_change-Keeps) depth 40 fits 4000

  pub complete_registration-Keeps :
      (env : Env) (user : User) (verification : AuthVerification) (hash : Str)
      → Keeps P (Challenges.complete_registration env user verification hash)
  unfolding Challenges.complete_registration
  complete_registration-Keeps env user verification hash = search rules depth 40 fits 4000

  pub complete_password_reset-Keeps :
      (user : User) (verification : AuthVerification) (hash : Str)
      → Keeps P (Challenges.complete_password_reset user verification hash)
  unfolding Challenges.complete_password_reset
  complete_password_reset-Keeps user verification hash = search rules depth 40 fits 4000

  pub store_email-Keeps :
      (env : Env) (user : User) (verification : AuthVerification)
      → Keeps P (Challenges.store_email env user verification)
  unfolding Challenges.store_email
  store_email-Keeps env user verification = search rules depth 40 fits 4000

  pub complete_email_change-Keeps :
      (env : Env) (user : User) (verification : AuthVerification)
      → Keeps P (Challenges.complete_email_change env user verification)
  unfolding Challenges.complete_email_change
  complete_email_change-Keeps env user verification =
      search (rules, store_email-Keeps) depth 40 fits 4000

  pub new_hash-Keeps : (env : Env) (input : Verification) → Keeps P (Challenges.new_hash env input)
  unfolding Challenges.new_hash
  new_hash-Keeps env input = search rules depth 40 fits 4000

  pub complete-Keeps :
      (env : Env) (input : Verification) (user : User) (verification : AuthVerification)
      (hash : Str)
      → Keeps P (Challenges.complete env input user verification hash)
  unfolding Challenges.complete
  complete-Keeps env input user verification hash =
      search
        (
          rules, complete_registration-Keeps, complete_password_reset-Keeps,
          complete_email_change-Keeps,
        )
        depth 40 fits 4000

  pub notify-Keeps :
      (env : Env) (user : User) (body : Str) → Keeps P (Challenges.notify env user body)
  unfolding Challenges.notify
  notify-Keeps env user body = search rules depth 40 fits 4000

  pub solve-Keeps :
      (env : Env) (r : Request) (input : Verification) (verification : AuthVerification)
      (hash : Str)
      → Keeps P (Challenges.solve env r input verification hash)
  unfolding Challenges.solve
  solve-Keeps env r input verification hash =
      search (rules, complete-Keeps, notify-Keeps) depth 40 fits 4000

  pub check_challenge-Keeps :
      (env : Env) (r : Request) (token : Str) (input : Verification)
      → Keeps P (Challenges.check_challenge env r token input)
  unfolding Challenges.check_challenge
  check_challenge-Keeps env r token input =
      search (rules, new_hash-Keeps, solve-Keeps) depth 40 fits 4000

  pub verify_challenge-Keeps :
      (env : Env) (r : Request) (token : Str) (input : Verification)
      → Keeps P (Challenges.verify_challenge env r token input)
  unfolding Challenges.verify_challenge
  verify_challenge-Keeps env r token input =
      search (rules, check_challenge-Keeps) depth 40 fits 4000

  pub check_current-Keeps :
      (env : Env) (account : Option Account) (password reauth_id : Str)
      → Keeps P (Password.check_current env account password reauth_id)
  unfolding Password.check_current
  check_current-Keeps env (some account) password reauth_id = search rules depth 40 fits 4000
  check_current-Keeps env none password reauth_id = search rules depth 40 fits 4000

  pub replace_password-Keeps :
      (user : User) (before : Account) (hash : Str)
      → Keeps P (Password.replace_password user before hash)
  unfolding Password.replace_password
  replace_password-Keeps user before hash = search rules depth 40 fits 4000

  pub add_password-Keeps :
      (env : Env) (r : Request) (user : User) (reauth_id hash : Str)
      → Keeps P (Password.add_password env r user reauth_id hash)
  unfolding Password.add_password
  add_password-Keeps env r user reauth_id hash = search rules depth 40 fits 4000

  pub store_password-Keeps :
      (env : Env) (r : Request) (user : User) (account : Option Account) (reauth_id hash : Str)
      → Keeps P (Password.store_password env r user account reauth_id hash)
  store_password-Keeps env r user none reauth_id hash =
      search (rules, add_password-Keeps) depth 40 fits 4000
  store_password-Keeps env r user (some account) reauth_id hash =
      search (rules, replace_password-Keeps) depth 40 fits 4000

  pub put_password-Keeps :
      (env : Env) (r : Request) (before : User) (account : Option Account) (reauth_id hash : Str)
      → Keeps P (Password.put_password env r before account reauth_id hash)
  unfolding Password.put_password
  put_password-Keeps env r before account reauth_id hash =
      search (rules, store_password-Keeps) depth 40 fits 4000

  pub set_password-Keeps :
      (env : Env) (r : Request) (current new reauth_id : Str)
      → Keeps P (Password.set_password env r current new reauth_id)
  unfolding Password.set_password
  set_password-Keeps env r current new reauth_id =
      search (rules, check_current-Keeps, put_password-Keeps) depth 40 fits 4000

  pub linked_before-Keeps :
      (user : User) (flow : AuthFlow) → Keeps P (Linking.linked_before user flow)
  unfolding Linking.linked_before
  linked_before-Keeps user flow = search rules depth 40 fits 4000

  pub link_account-Keeps :
      (env : Env) (user : User) (flow : AuthFlow) (account : Option Account)
      → Keeps P (Linking.link_account env user flow account)
  unfolding Linking.link_account
  link_account-Keeps env user flow (some account) = search rules depth 40 fits 4000
  link_account-Keeps env user flow none = search rules depth 40 fits 4000

  pub link_now-Keeps :
      (env : Env) (r : Request) (user : User) (flow : AuthFlow)
      → Keeps P (Linking.link_now env r user flow)
  unfolding Linking.link_now
  link_now-Keeps env r user flow = search (rules, link_account-Keeps) depth 40 fits 4000

  pub link-Keeps : (env : Env) (r : Request) (flow_id : Str) → Keeps P (Linking.link env r flow_id)
  unfolding Linking.link
  link-Keeps env r flow_id = search (rules, linked_before-Keeps, link_now-Keeps) depth 40 fits 4000

  pub confirm_link-Keeps :
      (env : Env) (r : Request) (flow_id : Str) → Keeps P (Linking.confirm_link env r flow_id)
  unfolding Linking.confirm_link
  confirm_link-Keeps env r flow_id = search (rules, link-Keeps) depth 40 fits 4000

  pub check_unlink-Keeps :
      (env : Env) (r : Request) (user : User) (id reauth_id : Str)
      → Keeps P (Linking.check_unlink env r user id reauth_id)
  unfolding Linking.check_unlink
  check_unlink-Keeps env r user id reauth_id = search rules depth 40 fits 4000

  pub unlink_account-Keeps :
      (env : Env) (r : Request) (id reauth_id : Str)
      → Keeps P (Linking.unlink_account env r id reauth_id)
  unfolding Linking.unlink_account
  unlink_account-Keeps env r id reauth_id = search (rules, check_unlink-Keeps) depth 40 fits 4000

  pub unlink-Keeps :
      (env : Env) (r : Request) (id reauth_id : Str) → Keeps P (Linking.unlink env r id reauth_id)
  unfolding Linking.unlink
  unlink-Keeps env r id reauth_id = search (rules, unlink_account-Keeps) depth 40 fits 4000

pub ruleset changes_rules = (
  create_challenge-Keeps, open_registration-Keeps, register-Keeps, reset_challenge-Keeps,
  reset_for-Keeps, open_reset-Keeps, forgot_password-Keeps, open_email_change-Keeps,
  change_email-Keeps, complete_registration-Keeps, complete_password_reset-Keeps, store_email-Keeps,
  complete_email_change-Keeps, new_hash-Keeps, complete-Keeps, notify-Keeps, solve-Keeps,
  check_challenge-Keeps, verify_challenge-Keeps, check_current-Keeps, replace_password-Keeps,
  add_password-Keeps, store_password-Keeps, put_password-Keeps, set_password-Keeps,
  linked_before-Keeps, link_account-Keeps, link_now-Keeps, link-Keeps, confirm_link-Keeps,
  check_unlink-Keeps, unlink_account-Keeps, unlink-Keeps,
)
