-- ===== src/Account/Store.antt =====
-- internal/modules/account/store.go and store_flows.go: the guards before a write.
use go_starter_kit.Base.{
  ℕ, Str, Bool, true, false, not, ◌&&◌, ◌||◌, [], ◌∷◌, Option, none, some, opt_is, str_eq, ltb, leb,
  ◌==◌, length, is_some, if◌then◌else◌,
}
use go_starter_kit.AppError.{business}
use go_starter_kit.Db.{Action, query, ◌>>=◌, ◌>>◌}
use go_starter_kit.Validation.{identifier, text_within, trim_space}
use go_starter_kit.MailOutbox.Queries.{EnqueueParams}
use go_starter_kit.Account.Tables.{User, UserSession, Account, AuthFlow, AuthVerification, Tables}
use go_starter_kit.Account.Enums.{
  settable, method_valid, purpose_valid, public_start, initial, verifiable,
  verification_purpose_valid, outcome_valid, actor_valid, actor_anonymous, local_namespace,
}
use go_starter_kit.Account.Env.{
  Env, VerifiedIdentity, require, err_invalid, err_credentials, normalize_email, valid_bytes,
  valid_optional_identifier, max_display_name_runes, max_provider_id_runes,
  max_provider_subject_bytes, max_provider_namespace_bytes,
}
use go_starter_kit.Account.Users
use go_starter_kit.Account.Sessions
use go_starter_kit.Account.Accounts
use go_starter_kit.Account.Flows
use go_starter_kit.Account.Records

abbrev pub max_audit_action_runes : ℕ
max_audit_action_runes = 100

abbrev pub max_audit_metadata_bytes : ℕ
max_audit_metadata_bytes = 8192

abbrev pub max_mail_kind_bytes : ℕ
max_mail_kind_bytes = 64

abbrev pub max_mail_subject_bytes : ℕ
max_mail_subject_bytes = 998

abbrev pub max_mail_body_bytes : ℕ
max_mail_body_bytes = 65536

-- `sha256.Size`
abbrev pub hash_size : ℕ
hash_size = 32

-- `validEmailPair`
unfoldable pub valid_email_pair : Env → Option Str → Option Str → Bool
valid_email_pair env none normalized = false
valid_email_pair env (some email) none = false
valid_email_pair env (some email) (some normalized) =
    opt_is (normalize_email env email) normalized && str_eq email (trim_space email)

abbrev pub valid_or : {A : Type 0} → Bool → Action Tables A → Action Tables A
valid_or ok? rest = require ok? (business err_invalid) >> rest

-- `CreatePendingUser`; `id` is the new identifier, here and below.
unfoldable pub create_pending_user : Env → Str → Option Str → Option Str → Action Tables User
create_pending_user env id email normalized =
    valid_or (valid_email_pair env email normalized)
      (query (Users.create_pending_user id email normalized))

-- `CreateFederatedUser`
unfoldable pub create_federated_user : Str → Str → Action Tables User
create_federated_user id name =
    valid_or (text_within name max_display_name_runes) (query (Users.create_federated_user id name))

-- `ActivateUser`
unfoldable pub activate_user : Env → Str → Action Tables User
activate_user env id = do
  u ← query (Users.get_user id)
  require (valid_email_pair env u.email u.email_normalized) (business err_invalid)
  query (Users.activate_user id)

-- `UpdateUserEmail`
unfoldable pub update_user_email : Env → Str → Option Str → Option Str → Action Tables User
update_user_email env id email normalized =
    valid_or (valid_email_pair env email normalized)
      (query (Users.update_user_email id email normalized))

-- `ReleasePendingEmail`
unfoldable pub release_pending_email : Env → Str → Action Tables (Unit {0})
release_pending_email env email =
    valid_or (opt_is (normalize_email env email) email)
      (query (Users.release_pending_email (some email)))

-- `UpdateUserProfile`
unfoldable pub update_user_profile : Str → Str → Str → Action Tables User
update_user_profile name id session =
    valid_or (text_within name max_display_name_runes)
      (query (Users.update_user_profile name id session))

-- `SetUserStatus`
unfoldable pub set_user_status : Str → Str → Action Tables User
set_user_status id status = valid_or (settable status) (query (Users.set_user_status id status))

abbrev pub has_text : Option Str → Bool
has_text none = false
has_text (some s) = not (str_eq s [])

-- The two rules of `CreateAccount`: on its fields, and on what belongs to a password or a provider.
unfoldable pub valid_account : Accounts.CreateAccountParams → Bool
valid_account p =
    (identifier p.user_id
      && ((not (str_eq p.provider_id []) && text_within p.provider_id max_provider_id_runes)
          && (valid_bytes p.provider_account_id max_provider_subject_bytes
              && valid_bytes p.provider_namespace max_provider_namespace_bytes)))
    && (if str_eq p.provider_id Accounts.credential
        then str_eq p.provider_namespace local_namespace
          && (str_eq p.provider_account_id p.user_id && has_text p.password_hash)
        else not (str_eq p.provider_namespace local_namespace || is_some p.password_hash))

-- `CreateAccount`
unfoldable pub create_account : Accounts.CreateAccountParams → Action Tables Account
create_account p = valid_or (valid_account p) (query (Accounts.create_account p))

-- `ChangePassword`
unfoldable pub change_password : Str → Str → Option Str → Action Tables ℕ
change_password id user hash =
    valid_or (has_text hash) (query (Accounts.change_password id user hash))

-- `UpgradePasswordHash`
unfoldable pub upgrade_password_hash :
    Str → Str → Option Str → Option Str → Action Tables (Unit {0})
upgrade_password_hash id user hash old = do
  require (has_text hash) (business err_invalid)
  a ← query (Accounts.get_account id user)
  require (str_eq a.provider_id Accounts.credential) (business err_invalid)
  query (Accounts.upgrade_password_hash id user hash old)

-- The rule of `CreateSession`
unfoldable pub valid_session : Sessions.CreateSessionParams → Bool
valid_session p =
    (identifier p.user_id && identifier p.auth_source_id)
    && ((length p.token_hash == hash_size && method_valid p.auth_method)
        && (ltb 0 p.auth_version && (ltb 0 p.idle_seconds && leb p.idle_seconds p.max_seconds)))

-- `CreateSession`
unfoldable pub create_session : Sessions.CreateSessionParams → Action Tables UserSession
create_session p = valid_or (valid_session p) (query (Sessions.create_session p))

abbrev pub is_hash : Option Str → Bool
is_hash none = true
is_hash (some h) = length h == hash_size

abbrev pub both_or_none : Option Str → Option Str → Bool
both_or_none none none = true
both_or_none (some a) (some b) = true
both_or_none _ _ = false

-- The rules of `CreateFlow`
unfoldable pub valid_flow : Flows.CreateFlowParams → Bool
valid_flow p =
    ((identifier p.id
        && valid_optional_identifier
            (p.user_id ∷ p.session_id ∷ p.account_id ∷ p.reauthentication_id ∷ []))
      && (purpose_valid p.purpose && (initial p.status && is_hash p.token_hash)))
    && ((both_or_none p.user_id p.session_id && (public_start p.purpose || is_some p.user_id))
        && ((not (is_some p.user_id) || ltb 0 p.auth_version)
            && (not (is_some p.account_id) || ltb 0 p.account_version)))

-- `CreateFlow`
unfoldable pub create_flow : Flows.CreateFlowParams → Action Tables AuthFlow
create_flow p = valid_or (valid_flow p) (query (Flows.create_flow p))

-- The rules of `CreateVerification`
unfoldable pub valid_verification : Env → Records.CreateVerificationParams → Bool
valid_verification env p =
    ((identifier p.user_id && valid_optional_identifier (p.session_id ∷ p.reauthentication_id ∷ []))
      && (verification_purpose_valid p.purpose && length p.token_hash == hash_size))
    && ((ltb 0 p.auth_version && ltb 0 p.ttl_seconds) && is_some (normalize_email env p.email))

-- `CreateVerification`
unfoldable pub create_verification :
    Env → Records.CreateVerificationParams → Action Tables AuthVerification
create_verification env p =
    valid_or (valid_verification env p) (query (Records.create_verification p))

-- `RateLimit`
unfoldable pub rate_limit : Str → ℕ → Action Tables Records.RateLimitRow
rate_limit key window =
    valid_or (length key == hash_size && ltb 0 window) (query (Records.rate_limit key window))

-- The rules of `AppendAudit`
unfoldable pub valid_audit : Env → Records.AppendAuditParams → Bool
valid_audit env p =
    ((not (str_eq p.action []) && text_within p.action max_audit_action_runes)
      && (outcome_valid p.outcome && actor_valid p.actor_type))
    && (((if str_eq p.actor_type actor_anonymous
            then not (is_some p.actor_id)
            else is_some p.actor_id)
          && valid_optional_identifier
              (p.actor_id ∷ p.resource_id ∷ p.scope_subject ∷ p.session_id ∷ []))
        && (leb (length p.metadata) max_audit_metadata_bytes && env.is_object p.metadata))

-- `AppendAudit`
unfoldable pub append_audit : Env → Records.AppendAuditParams → Action Tables (Unit {0})
append_audit env p = valid_or (valid_audit env p) (query (Records.append_audit p))

-- The rules of `EnqueueMail`; an end of 0 stands for the zero time.
unfoldable pub valid_mail : Env → EnqueueParams → Bool
valid_mail env p =
    (identifier p.id
      && (valid_bytes p.kind max_mail_kind_bytes
          && (valid_bytes p.subject max_mail_subject_bytes
              && valid_bytes p.body max_mail_body_bytes)))
    && (ltb 0 p.expires_at && is_some (normalize_email env p.recipient))

-- `EnqueueMail`
unfoldable pub enqueue_mail : Env → EnqueueParams → Action Tables (Unit {0})
enqueue_mail env p = valid_or (valid_mail env p) (query (Records.enqueue p))

-- `transitionResult`: anything but one row means that the proof has gone.
abbrev pub counted_one : ℕ → Action Tables (Unit {0})
counted_one count = require (count == 1) (business err_credentials)

-- `claimPendingFlow`
unfoldable pub claim_pending_flow : Str → Action Tables (Unit {0})
claim_pending_flow id = query (Flows.claim_flow id) >>= counted_one

-- `claimAuthorization`
unfoldable pub claim_authorization : Str → Str → Action Tables (Unit {0})
claim_authorization id by = query (Flows.claim_authorization id by) >>= counted_one

-- The states from which `consumeFlow` may consume.
unfoldable pub consumable : Str → Bool
consumable status =
    (str_eq status Flows.flow_processing || str_eq status Flows.flow_verified)
    || (str_eq status Flows.flow_authorized || str_eq status Flows.flow_claimed)

-- `consumeFlow`
unfoldable pub consume_flow : Str → Str → Action Tables (Unit {0})
consume_flow id expected =
    require (consumable expected) (business err_credentials)
    >> (query (Flows.finish_flow id expected) >>= counted_one)

-- The rules of `verifyFlow`
unfoldable pub valid_proof : Str → VerifiedIdentity → Bool
valid_proof status v =
    (verifiable status
      && (valid_bytes v.namespace max_provider_namespace_bytes
          && not (str_eq v.namespace local_namespace)))
    && (valid_bytes v.subject max_provider_subject_bytes
        && text_within v.name max_display_name_runes)

-- `verifyFlow`, at the clock of the process
unfoldable pub verify_flow : Env → Str → Str → VerifiedIdentity → Action Tables (Unit {0})
verify_flow env id status v = valid_or (valid_proof status v) (
    query (
      Flows.verify_flow (record {
        id = id;
        status = status;
        verified_namespace = v.namespace;
        verified_subject = v.subject;
        verified_name = v.name;
        authenticated_at = some env.clock;
      }))
    >>= counted_one)

-- `consumeVerification`
unfoldable pub consume_verification : Str → Str → Action Tables (Unit {0})
consume_verification id user = query (Records.consume_verification id user) >>= counted_one
