-- ===== src/Account/Enums.antt =====
-- internal/modules/account/enums.go. Every enumeration of the module is a string type.
use go_starter_kit.Base.{Str, Bool, ◌||◌, codes, str_eq}
use go_starter_kit.Account.Flows.{
  flow_pending, flow_processing, flow_verified, flow_authorized, flow_claimed, flow_consumed,
  flow_failed,
}

-- `UserStatus`
abbrev pub user_pending : Str
user_pending = codes "pending"

abbrev pub user_active : Str
user_active = codes "active"

abbrev pub user_disabled : Str
user_disabled = codes "disabled"

unfoldable pub user_status_valid : Str → Bool
user_status_valid v = str_eq v user_pending || (str_eq v user_active || str_eq v user_disabled)

-- `Settable`
unfoldable pub settable : Str → Bool
settable v = str_eq v user_active || str_eq v user_disabled

-- `UserRole`
abbrev pub role_user : Str
role_user = codes "user"

abbrev pub role_admin : Str
role_admin = codes "admin"

unfoldable pub role_valid : Str → Bool
role_valid v = str_eq v role_user || str_eq v role_admin

-- `AuthMethod`
abbrev pub method_password : Str
method_password = codes "password"

abbrev pub method_oauth : Str
method_oauth = codes "oauth"

unfoldable pub method_valid : Str → Bool
method_valid v = str_eq v method_password || str_eq v method_oauth

-- `FlowPurpose`
abbrev pub purpose_login : Str
purpose_login = codes "login"

abbrev pub purpose_register : Str
purpose_register = codes "register"

abbrev pub purpose_reauthenticate : Str
purpose_reauthenticate = codes "reauthenticate"

abbrev pub purpose_link : Str
purpose_link = codes "link_identity"

unfoldable pub purpose_valid : Str → Bool
purpose_valid v =
    (str_eq v purpose_login || str_eq v purpose_register)
    || (str_eq v purpose_reauthenticate || str_eq v purpose_link)

-- `PublicStart`
unfoldable pub public_start : Str → Bool
public_start v = str_eq v purpose_login || str_eq v purpose_register

-- `FlowStatus.Valid`
unfoldable pub flow_status_valid : Str → Bool
flow_status_valid v =
    ((str_eq v flow_pending || str_eq v flow_processing)
      || (str_eq v flow_verified || str_eq v flow_authorized))
    || (str_eq v flow_claimed || (str_eq v flow_consumed || str_eq v flow_failed))

-- `Initial`
unfoldable pub initial : Str → Bool
initial v = str_eq v flow_pending || str_eq v flow_authorized

-- `Verifiable`
unfoldable pub verifiable : Str → Bool
verifiable v = str_eq v flow_verified || str_eq v flow_authorized

-- `VerificationPurpose`
abbrev pub verify_register : Str
verify_register = codes "register"

abbrev pub verify_reset_password : Str
verify_reset_password = codes "reset_password"

abbrev pub verify_change_email : Str
verify_change_email = codes "change_email"

unfoldable pub verification_purpose_valid : Str → Bool
verification_purpose_valid v =
    str_eq v verify_register || (str_eq v verify_reset_password || str_eq v verify_change_email)

-- `Operation`
abbrev pub operation_link : Str
operation_link = codes "link_account"

abbrev pub operation_unlink : Str
operation_unlink = codes "unlink_account"

abbrev pub operation_set_password : Str
operation_set_password = codes "set_password"

abbrev pub operation_change_email : Str
operation_change_email = codes "change_email"

-- `AuditOutcome`
abbrev pub audit_success : Str
audit_success = codes "success"

abbrev pub audit_failure : Str
audit_failure = codes "failure"

abbrev pub audit_denied : Str
audit_denied = codes "denied"

unfoldable pub outcome_valid : Str → Bool
outcome_valid v = str_eq v audit_success || (str_eq v audit_failure || str_eq v audit_denied)

-- `AuditActorType`
abbrev pub actor_user : Str
actor_user = codes "user"

abbrev pub actor_system : Str
actor_system = codes "system"

abbrev pub actor_anonymous : Str
actor_anonymous = codes "anonymous"

unfoldable pub actor_valid : Str → Bool
actor_valid v = str_eq v actor_user || (str_eq v actor_system || str_eq v actor_anonymous)

-- The built-in namespace, next to the provider `credential`.
abbrev pub local_namespace : Str
local_namespace = codes "local"
