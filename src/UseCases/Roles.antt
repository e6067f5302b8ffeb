-- ===== src/UseCases/Roles.antt =====
-- app/application/use_cases/roles.
pub mod System
use financial_data.Prelude.{
  ℕ, Bool, true, false, not, ◌&&◌, Option, none, some, List, [], ◌∷◌, ◌==◌, if◌then◌else◌, length,
}
use financial_data.Text.{Text, lit, text_eq, text_in, lower, strip}
use financial_data.Json
use financial_data.Json.{JsonDict, compute_diff}
use financial_data.Result.{
  value_error, already_exists, not_found, invalid_permissions, system_protected, system_rename,
  system_deactivate,
}
use financial_data.Entities.Enums.{ActionType}
use financial_data.Entities.Category.{given}
use financial_data.Entities.Permission.{Permission}
use financial_data.Entities.Role
use financial_data.Entities.Role.{Role}
use financial_data.Entities.User.{User}
use financial_data.Entities.Audit.{RequestMeta}
use financial_data.World.{
  Action, pure, lift, raise_if, or_raise, uuid4, utcnow, commit, with_uow, ◌>>=◌, ◌>>◌,
}
use financial_data.Repositories.Roles
use financial_data.Repositories.Permissions
use financial_data.UseCases.Auditing.{log_success, one_change, one_entry}

-- SYSTEM_ROLES
abbrev pub system_roles : List Text
system_roles = lit "admin" ∷ lit "analyst" ∷ lit "viewer" ∷ []

-- role.name in SYSTEM_ROLES
unfoldable pub is_system : Text → Bool
unfolding text_in
is_system name = text_in name system_roles

-- if len(permissions) != len(dto.permission_ids): raise ValueError(…)
abbrev pub miscounted : List Permission → List ℕ → Bool
miscounted permissions ids = not (length permissions == length ids)

-- The permissions of the given identifiers, all of which must exist.
unfoldable pub load_permissions : List ℕ → Action (List Permission)
load_permissions ids = do
  permissions ← Permissions.get_by_ids ids
  raise_if (miscounted permissions ids) (value_error invalid_permissions)
  pure permissions

-- for permission in permissions: role.assign_permission(permission)
unfoldable pub assign_all : Role → List Permission → Role
assign_all r [] = r
assign_all r (p ∷ permissions) = assign_all (Role.assign_permission r p) permissions

-- for permission in permissions: await uow.roles.assign_permission(role.id, permission.id)
unfoldable pub store_all : ℕ → List Permission → Action (Unit {0})
store_all role_id [] = pure tt
store_all role_id (p ∷ permissions) = do
  Roles.assign_permission role_id p.id
  store_all role_id permissions

-- The snapshot of create.py and delete.py.
abbrev pub snapshot : Role → Option JsonDict
snapshot r = some (
    (lit "id", Json.id r.id)
    ∷ (lit "name", Json.text r.name)
    ∷ (lit "permissions", Json.texts (Role.get_permission_strings r))
    ∷ [])

-- if dto.permission_ids: …
abbrev pub load_given : List ℕ → Action (List Permission)
load_given [] = pure []
load_given (id ∷ ids) = load_permissions (id ∷ ids)

-- CreateRoleUseCase.execute
unfoldable pub create_role : Text → Text → List ℕ → User → RequestMeta → Action Role
create_role name description permission_ids actor meta = with_uow do
  taken ← Roles.exists_by_name name
  raise_if taken (value_error already_exists)
  permissions ← load_given permission_ids
  id ← uuid4
  now ← utcnow
  let role = assign_all (Role.create id now name description) permissions
  Roles.add role
  store_all role.id permissions
  log_success actor ActionType.roles_create (lit "roles") meta (some role.id) none (snapshot role)
      none
  commit
  pure role

-- DeleteRoleUseCase.execute
unfoldable pub delete_role : ℕ → User → RequestMeta → Action (Unit {0})
delete_role role_id actor meta = with_uow do
  found ← Roles.get_by_id role_id
  role ← or_raise found (value_error not_found)
  raise_if role.is_deleted (value_error not_found)
  raise_if (is_system role.name) (value_error system_protected)
  now ← utcnow
  role' ← lift (Role.soft_delete now actor.id role)
  Roles.update role'
  log_success actor ActionType.roles_delete (lit "roles") meta (some role.id) (snapshot role) none
      none
  commit
  pure tt

-- `dto.name and dto.name.strip().lower() != role.name`: an empty name is falsy
abbrev pub renames : Option Text → Role → Bool
renames none r = false
renames (some []) r = false
renames (some (c ∷ name)) r = not (text_eq (lower (strip (c ∷ name))) r.name)

-- dto.is_active is False
abbrev pub is_false : Option Bool → Bool
is_false (some false) = true
is_false _ = false

-- role.name = dto.name.strip().lower(), where a name is given
abbrev pub name_given : Option Text → Text → Text
name_given none name = name
name_given (some n) name = lower (strip n)

-- The assignments of the update.
unfoldable pub assign : Option Text → Option Text → Option Bool → Role → Role
assign name description is_active r = record r {
  name = name_given name r.name;
  description = given description r.description;
  is_active = given is_active r.is_active;
}

-- `before` and `after` of update.py
abbrev pub settings : Role → JsonDict
settings r =
    (lit "name", Json.text r.name)
    ∷ (lit "description", Json.text r.description)
    ∷ (lit "is_active", Json.flag r.is_active)
    ∷ []

-- if await uow.roles.exists_by_name(dto.name): raise ValueError(…), on a rename
unfoldable pub check_name : Option Text → Role → Action (Unit {0})
check_name none r = pure tt
check_name (some name) r =
    if renames (some name) r
    then (do taken ← Roles.exists_by_name name; raise_if taken (value_error already_exists))
    else pure tt

-- UpdateRoleUseCase.execute
unfoldable pub update_role :
    ℕ → Option Text → Option Text → Option Bool → User → RequestMeta → Action Role
update_role role_id name description is_active actor meta = with_uow do
  found ← Roles.get_by_id role_id
  role ← or_raise found (value_error not_found)
  raise_if role.is_deleted (value_error not_found)
  raise_if (is_system role.name && renames name role) (value_error system_rename)
  raise_if (is_system role.name && is_false is_active) (value_error system_deactivate)
  check_name name role
  let role' = assign name description is_active role
  Roles.update role'
  diff ← lift (compute_diff (settings role) (settings role'))
  log_success actor ActionType.roles_update (lit "roles") meta (some role.id) (some (settings role))
      (some (settings role')) (some diff)
  commit
  pure role'

-- The codenames of a role, as the audit entry lists them.
abbrev pub permissions_json : Role → Json.Json
permissions_json r = Json.texts (Role.get_permission_strings r)

-- AssignPermissionsToRoleUseCase.execute
unfoldable pub assign_permissions : ℕ → List ℕ → User → RequestMeta → Action Role
assign_permissions role_id permission_ids actor meta = with_uow do
  found ← Roles.get_by_id role_id
  role ← or_raise found (value_error not_found)
  raise_if role.is_deleted (value_error not_found)
  permissions ← load_permissions permission_ids
  store_all role.id permissions
  let role' = assign_all role permissions
  log_success actor ActionType.roles_permission_assign (lit "roles") meta (some role.id)
      (one_entry (lit "permissions") (permissions_json role))
      (one_entry (lit "permissions") (permissions_json role'))
      (one_change (lit "permissions") (permissions_json role) (permissions_json role'))
  commit
  pure role'

-- for permission_id in dto.permission_ids: role.remove_permission(permission_id)
unfoldable pub remove_all : Role → List ℕ → Role
remove_all r [] = r
remove_all r (id ∷ ids) = remove_all (Role.remove_permission r id) ids

-- for permission_id in dto.permission_ids: await uow.roles.remove_permission(role.id, permission_id)
unfoldable pub unstore_all : ℕ → List ℕ → Action (Unit {0})
unstore_all role_id [] = pure tt
unstore_all role_id (id ∷ ids) = do Roles.remove_permission role_id id; unstore_all role_id ids

-- RemovePermissionsFromRoleUseCase.execute
unfoldable pub remove_permissions : ℕ → List ℕ → User → RequestMeta → Action Role
remove_permissions role_id permission_ids actor meta = with_uow do
  found ← Roles.get_by_id role_id
  role ← or_raise found (value_error not_found)
  raise_if role.is_deleted (value_error not_found)
  unstore_all role.id permission_ids
  let role' = remove_all role permission_ids
  log_success actor ActionType.roles_permission_remove (lit "roles") meta (some role.id)
      (one_entry (lit "permissions") (permissions_json role))
      (one_entry (lit "permissions") (permissions_json role'))
      (one_change (lit "permissions") (permissions_json role) (permissions_json role'))
  commit
  pure role'

-- GetRoleUseCase.execute
unfoldable pub get_role : ℕ → Action Role
get_role role_id = with_uow do
  found ← Roles.get_by_id role_id
  role ← or_raise found (value_error not_found)
  raise_if role.is_deleted (value_error not_found)
  pure role

-- GetRolesUseCase.execute
unfoldable pub get_roles : ℕ → ℕ → Bool → Action (List Role × ℕ)
get_roles page page_size include_inactive = with_uow (Roles.get_all page page_size include_inactive)
