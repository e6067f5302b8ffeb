-- ===== src/Entities/User.antt =====
-- app/domain/entities/user.py.
pub mod Laws
use financial_data.Prelude.{
  ℕ, Bool, true, false, not, ◌||◌, ◌&&◌, Option, none, some, List, [], ◌∷◌, ◌++◌, map, ◌==◌,
  if◌then◌else◌, any, select,
}
use financial_data.Text.{Text, strip}
use financial_data.Text.Sets.{to_set, union}
use financial_data.Result.{
  Result, ok, err, value_error, already_deleted, deleted_not_activatable, ◌>>=◌,
}
use financial_data.Crypto.{PasswordContext}
use financial_data.Email
use financial_data.Email.{Email}
use financial_data.Password
use financial_data.Password.{Password}
use financial_data.Entities.Enums.{UserStatus, status_is_active}
use financial_data.Entities.Role
use financial_data.Entities.Role.{Role}

pub record User : Type 0 where
  pub id : ℕ
  pub email : Email
  pub password : Password
  pub full_name : Text
  pub status : UserStatus
  pub is_deleted : Bool
  pub deleted_at : Option ℕ
  pub deleted_by : Option ℕ
  pub created_at : ℕ
  pub updated_at : ℕ
  pub roles : List Role

-- User.create, with the salt and the identifier that are drawn and the time
unfoldable pub create : PasswordContext → ℕ → ℕ → ℕ → Text → Text → Text → Result User
create context salt id now email password full_name = do
  e ← Email.new email
  p ← Password.new context salt password
  ok (record {
    id = id;
    email = e;
    password = p;
    full_name = strip full_name;
    status = UserStatus.active;
    is_deleted = false;
    deleted_at = none;
    deleted_by = none;
    created_at = now;
    updated_at = now;
    roles = [];
  })

unfoldable pub is_active : User → Bool
is_active u = status_is_active u.status && not u.is_deleted

unfoldable pub activate : User → Result User
activate u =
    if u.is_deleted
    then err (value_error deleted_not_activatable)
    else ok (record u { status = UserStatus.active })

unfoldable pub deactivate : User → User
deactivate u = record u { status = UserStatus.inactive }

unfoldable pub soft_delete : ℕ → ℕ → User → Result User
soft_delete now deleted_by u =
    if u.is_deleted
    then err (value_error already_deleted)
    else ok (record u { is_deleted = true; deleted_at = some now; deleted_by = some deleted_by })

unfoldable pub change_password : PasswordContext → ℕ → Text → User → Result User
change_password context salt new_password u = do
  p ← Password.new context salt new_password
  ok (record u { password = p })

unfoldable pub update_profile : Option Text → User → User
update_profile none u = u
update_profile (some full_name) u = record u { full_name = strip full_name }

unfoldable pub has_permission : User → Text → Bool
has_permission u permission = any (λ r. Role.has_permission r permission) u.roles

-- for role in roles: permissions.update(role.get_permission_strings())
unfoldable pub collect : List Text → List Role → List Text
collect permissions [] = permissions
collect permissions (r ∷ roles) = collect (union permissions (Role.get_permission_strings r)) roles

unfoldable pub get_all_permissions : User → List Text
get_all_permissions u = collect [] u.roles

unfoldable pub assign_role : User → Role → User
assign_role u role =
    if any (λ r. r.id == role.id) u.roles then u else record u { roles = u.roles ++ role ∷ [] }

unfoldable pub remove_role : User → ℕ → User
remove_role u role_id = record u { roles = select (λ r. not (r.id == role_id)) u.roles }

unfoldable pub get_role_names : User → List Text
get_role_names u = map (λ r. r.name) u.roles
