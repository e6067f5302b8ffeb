-- ===== src/Entities/Enums.antt =====
-- app/domain/enums. An enumeration is a data type; `*_value` is the member's value.
use financial_data.Prelude.{Bool, true, false}
use financial_data.Text.{Text, lit}

pub data RecordType : Type 0 where
  income expense : RecordType

pub data UserStatus : Type 0 where
  active inactive : UserStatus

pub data CategoryType : Type 0 where
  income expense both : CategoryType

pub data AuditStatus : Type 0 where
  success failed : AuditStatus

abbrev pub record_type_value : RecordType → Text
record_type_value RecordType.income = lit "income"
record_type_value RecordType.expense = lit "expense"

abbrev pub user_status_value : UserStatus → Text
user_status_value UserStatus.active = lit "active"
user_status_value UserStatus.inactive = lit "inactive"

abbrev pub category_type_value : CategoryType → Text
category_type_value CategoryType.income = lit "income"
category_type_value CategoryType.expense = lit "expense"
category_type_value CategoryType.both = lit "both"

-- status == UserStatus.ACTIVE
abbrev pub status_is_active : UserStatus → Bool
status_is_active UserStatus.active = true
status_is_active UserStatus.inactive = false

pub data ActionType : Type 0 where
  auth_login auth_login_failed auth_logout auth_token_refresh auth_register : ActionType
  users_create users_update users_delete users_activate users_deactivate : ActionType
  users_role_assign users_role_remove : ActionType
  records_create records_update records_delete : ActionType
  categories_create categories_update categories_delete : ActionType
  roles_create roles_update roles_delete : ActionType
  roles_permission_assign roles_permission_remove : ActionType

abbrev pub action_value : ActionType → Text
action_value ActionType.auth_login = lit "auth:login"
action_value ActionType.auth_login_failed = lit "auth:login_failed"
action_value ActionType.auth_logout = lit "auth:logout"
action_value ActionType.auth_token_refresh = lit "auth:token_refresh"
action_value ActionType.auth_register = lit "auth:register"
action_value ActionType.users_create = lit "users:create"
action_value ActionType.users_update = lit "users:update"
action_value ActionType.users_delete = lit "users:delete"
action_value ActionType.users_activate = lit "users:activate"
action_value ActionType.users_deactivate = lit "users:deactivate"
action_value ActionType.users_role_assign = lit "users:role_assign"
action_value ActionType.users_role_remove = lit "users:role_remove"
action_value ActionType.records_create = lit "records:create"
action_value ActionType.records_update = lit "records:update"
action_value ActionType.records_delete = lit "records:delete"
action_value ActionType.categories_create = lit "categories:create"
action_value ActionType.categories_update = lit "categories:update"
action_value ActionType.categories_delete = lit "categories:delete"
action_value ActionType.roles_create = lit "roles:create"
action_value ActionType.roles_update = lit "roles:update"
action_value ActionType.roles_delete = lit "roles:delete"
action_value ActionType.roles_permission_assign = lit "roles:permission_assign"
action_value ActionType.roles_permission_remove = lit "roles:permission_remove"
