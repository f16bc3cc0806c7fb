-- ===== src/Account/Self.antt =====
-- internal/modules/account/authorization.go, admin_checker.go and notifications.go: who calls, and the
-- mails of the module.
use go_starter_kit.Base.{ℕ, ◌+◌, ◌*◌, Str, Option, some, codes, utf8, str_eq, if◌then◌else◌}
use go_starter_kit.AppError.{GoError, business, err_unauthenticated, errors_is, is_no_rows}
use go_starter_kit.Db.{Action, query, pure, map_error, ◌>>=◌, ◌>>◌}
use go_starter_kit.Identity.{require_subject}
use go_starter_kit.Account.Tables.{User, UserSession, AuthVerification, Tables}
use go_starter_kit.Account.Users
use go_starter_kit.Account.Sessions
use go_starter_kit.Account.Enums.{role_admin}
use go_starter_kit.Account.Env.{
  Env, Request, storage_errors, err_forbidden, err_unavailable, recast, missing_as, require, need,
}
use go_starter_kit.Account.Audit.{fail_with}
use go_starter_kit.Account.Store

-- `requireSubject`
unfoldable pub require_request : Request → Action Tables (Unit {0})
require_request r =
    fail_with (require_subject r.user_id) >> fail_with (require_subject r.session_id)

-- The session of the caller, of a user that was read.
abbrev pub with_session : Request → User → Action Tables (User × UserSession)
with_session r user = do
  session ←
      recast (missing_as err_unauthenticated)
        (query (Sessions.get_valid_session r.session_id r.user_id))
  pure (user, session)

-- `lockSelf`
unfoldable pub lock_self : Request → Action Tables (User × UserSession)
lock_self r = do
  require_request r
  user ← recast (missing_as err_unauthenticated) (query (Users.lock_user r.user_id))
  with_session r user

-- `readSelf`
unfoldable pub read_self : Request → Action Tables (User × UserSession)
read_self r = do
  require_request r
  user ← recast (missing_as err_unauthenticated) (query (Users.get_user r.user_id))
  with_session r user

-- `invalidate`
unfoldable pub invalidate : Str → Action Tables (Unit {0})
invalidate user = query (Users.bump_user_version user) >> query (Sessions.revoke_user_sessions user)

abbrev pub admin_lookup_error : GoError → GoError
admin_lookup_error e =
    if errors_is is_no_rows e then business err_unauthenticated else map_error e storage_errors

-- `RequireAdmin`
unfoldable pub require_admin : Request → Action Tables (Unit {0})
require_admin r = do
  require_request r
  user ← recast admin_lookup_error (query (Users.get_session_user r.user_id r.session_id))
  require (str_eq user.role role_admin) (business err_forbidden)

abbrev pub verification_mail_subject : Str
verification_mail_subject = codes "Verify your account"

abbrev pub security_notification_subject : Str
security_notification_subject = codes "Account security notification"

abbrev pub security_notification_kind : Str
security_notification_kind = codes "security_notification"

-- 24 hours, in microseconds.
abbrev pub security_notification_ttl : ℕ
security_notification_ttl = 86400 * 1000000

abbrev pub registration_completed_notification : Str
registration_completed_notification = utf8 "您的账户已完成注册，邮箱验证及密码设置成功。您现在可以登录。"

abbrev pub password_reset_notification : Str
password_reset_notification = utf8 "您的账户密码已重置。如非本人操作，请立即联系管理员。"

abbrev pub password_changed_notification : Str
password_changed_notification = utf8 "您的账户密码已修改。如非本人操作，请立即联系管理员。"

abbrev pub email_changed_notification : Str
email_changed_notification = utf8 "账户联系邮箱已修改。如果不是本人操作，请联系管理员。"

abbrev pub account_linked_notification : Str
account_linked_notification = utf8 "新的第三方登录账号已绑定。"

abbrev pub account_unlinked_notification : Str
account_unlinked_notification = utf8 "一个登录账号已解除绑定，请使用保留的方式重新登录。"

-- `enqueueVerificationMail`; the text of the mail is none if the address of the front end is no URL.
unfoldable pub enqueue_verification_mail : Env → AuthVerification → Str → Action Tables (Unit {0})
enqueue_verification_mail env verification token = do
  body ← need (env.verification_body token verification.purpose) (business err_unavailable)
  Store.enqueue_mail env (record {
    id = env.new_id 5;
    kind = verification.purpose;
    recipient = verification.email;
    subject = verification_mail_subject;
    body = body;
    expires_at = verification.expires_at;
  })

abbrev pub notify_at : Env → Option Str → Option ℕ → Str → Action Tables (Unit {0})
notify_at env (some email) (some _) body = Store.enqueue_mail env (record {
  id = env.new_id 6;
  kind = security_notification_kind;
  recipient = email;
  subject = security_notification_subject;
  body = env.notification_body body;
  expires_at = env.clock + security_notification_ttl;
})
notify_at env _ _ body = pure tt

-- `enqueueSecurityNotification`
unfoldable pub enqueue_security_notification : Env → User → Str → Action Tables (Unit {0})
enqueue_security_notification env user body = notify_at env user.email user.email_verified_at body
