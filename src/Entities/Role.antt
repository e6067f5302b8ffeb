-- ===== src/Entities/Role.antt =====
-- app/domain/entities/role.py.
pub mod Laws
use financial_data.Prelude.{
  ℕ, Bool, true, false, not, ◌||◌, ◌&&◌, Option, none, some, List, [], ◌∷◌, ◌++◌, map, ◌==◌,
  if◌then◌else◌, any, select,
}
use financial_data.Text.{Text, strip, lower, text_eq}
use financial_data.Text.Sets.{to_set}
use financial_data.Result.{Result, ok, err, value_error, already_deleted}
use financial_data.Entities.Permission.{Permission, codename}

pub record Role : Type 0 where
  pub id : ℕ
  pub name : Text
  pub description : Text
  pub is_active : Bool
  pub is_deleted : Bool
  pub deleted_at : Option ℕ
  pub deleted_by : Option ℕ
  pub created_at : ℕ
  pub updated_at : ℕ
  pub permissions : List Permission

-- Role.create
unfoldable pub create : ℕ → ℕ → Text → Text → Role
create id now name description = record {
  id = id;
  name = lower (strip name);
  description = description;
  is_active = true;
  is_deleted = false;
  deleted_at = none;
  deleted_by = none;
  created_at = now;
  updated_at = now;
  permissions = [];
}

unfoldable pub has_permission : Role → Text → Bool
has_permission r permission =
    if not r.is_active || r.is_deleted
    then false
    else any (λ p. text_eq (codename p) permission) r.permissions

unfoldable pub get_permission_strings : Role → List Text
get_permission_strings r = to_set (map codename r.permissions)

unfoldable pub assign_permission : Role → Permission → Role
assign_permission r permission =
    if any (λ p. p.id == permission.id) r.permissions
    then r
    else record r { permissions = r.permissions ++ permission ∷ [] }

unfoldable pub remove_permission : Role → ℕ → Role
remove_permission r permission_id = record r {
  permissions = select (λ p. not (p.id == permission_id)) r.permissions;
}

unfoldable pub soft_delete : ℕ → ℕ → Role → Result Role
soft_delete now deleted_by r =
    if r.is_deleted
    then err (value_error already_deleted)
    else ok (record r { is_deleted = true; deleted_at = some now; deleted_by = some deleted_by })

unfoldable pub activate : Role → Role
activate r = record r { is_active = true }

unfoldable pub deactivate : Role → Role
deactivate r = record r { is_active = false }
