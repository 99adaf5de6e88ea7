-- ===== src/Identity/Types.antt =====
-- contexts/identity/domain/value_objects.py
use novaapi.Common.{ℕ, String, Bool, true, false}

pub data RoleName : Type 0 where
  owner admin analyst viewer : RoleName

pub data PermissionCode : Type 0 where
  tenant_manage user_invite user_manage_role : PermissionCode
  user_manage_status user_view role_view : PermissionCode
  assessment_view assessment_manage assessment_archive : PermissionCode
  assessment_cancel workflow_template_manage workflow_template_view : PermissionCode
  validation_view validation_manage dataset_view : PermissionCode
  dataset_manage alert_rule_view alert_rule_manage : PermissionCode
  notification_subscription_view notification_subscription_manage notification_view : PermissionCode
  notification_manage dashboard_view : PermissionCode

pub data UserStatus : Type 0 where
  invited active suspended deactivated : UserStatus

-- `ROLE_PERMISSIONS`: whether the role's set holds the code.
unfoldable pub role_permissions : RoleName → PermissionCode → Bool
role_permissions viewer user_view = true
role_permissions viewer role_view = true
role_permissions viewer assessment_view = true
role_permissions viewer workflow_template_view = true
role_permissions viewer validation_view = true
role_permissions viewer dataset_view = true
role_permissions analyst user_view = true
role_permissions analyst role_view = true
role_permissions analyst assessment_view = true
role_permissions analyst assessment_manage = true
role_permissions analyst assessment_archive = true
role_permissions analyst assessment_cancel = true
role_permissions analyst workflow_template_view = true
role_permissions analyst validation_view = true
role_permissions analyst validation_manage = true
role_permissions analyst dataset_view = true
role_permissions admin user_view = true
role_permissions admin role_view = true
role_permissions admin user_invite = true
role_permissions admin user_manage_role = true
role_permissions admin user_manage_status = true
role_permissions admin assessment_view = true
role_permissions admin assessment_manage = true
role_permissions admin assessment_archive = true
role_permissions admin assessment_cancel = true
role_permissions admin workflow_template_view = true
role_permissions admin workflow_template_manage = true
role_permissions admin validation_view = true
role_permissions admin validation_manage = true
role_permissions admin dataset_view = true
role_permissions admin dataset_manage = true
role_permissions owner user_view = true
role_permissions owner role_view = true
role_permissions owner user_invite = true
role_permissions owner user_manage_role = true
role_permissions owner user_manage_status = true
role_permissions owner tenant_manage = true
role_permissions owner assessment_view = true
role_permissions owner assessment_manage = true
role_permissions owner assessment_archive = true
role_permissions owner assessment_cancel = true
role_permissions owner workflow_template_view = true
role_permissions owner workflow_template_manage = true
role_permissions owner validation_view = true
role_permissions owner validation_manage = true
role_permissions owner dataset_view = true
role_permissions owner dataset_manage = true
role_permissions _ _ = false

pub record Role : Type 0 where
  pub id : ℕ
  pub name : RoleName
  pub description : String
  pub permissions : PermissionCode → Bool

-- `Role.has_permission`
unfoldable pub has_permission : Role → PermissionCode → Bool
has_permission role code = role.permissions code

-- `name == RoleName.OWNER`
unfoldable pub is_owner : RoleName → Bool
is_owner owner = true
is_owner _ = false

-- `status == UserStatus.ACTIVE`
unfoldable pub is_active_status : UserStatus → Bool
is_active_status active = true
is_active_status _ = false

-- `a == b` on role names.
unfoldable pub same_role : RoleName → RoleName → Bool
same_role owner owner = true
same_role admin admin = true
same_role analyst analyst = true
same_role viewer viewer = true
same_role _ _ = false
