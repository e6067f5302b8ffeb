-- ===== src/Database.antt =====
-- The tables (app/infrastructure/database/models) and the mappers from rows to entities
-- (app/infrastructure/repositories/mappers.py). A row is a record; a table is a list of rows with
-- the identifier as primary key, so a query by identifier is the first row that fits.
use financial_data.Prelude.{
  ℕ, Bool, not, Option, none, some, List, [], ◌∷◌, ◌==◌, if◌then◌else◌, select, find?,
}
use financial_data.Text.{Text}
use financial_data.Result.{Result, ok, ◌>>=◌}
use financial_data.Email
use financial_data.Password.{from_hash}
use financial_data.Money
use financial_data.Prelude.Int.{ℤ}
use financial_data.Entities.Enums.{UserStatus, RecordType}
use financial_data.Entities.Permission.{Permission}
use financial_data.Entities.Role.{Role}
use financial_data.Entities.User.{User}
use financial_data.Entities.Category.{Category}
use financial_data.Entities.Record.{FinancialRecord}
use financial_data.Entities.Audit.{AuditLog}

pub record UserModel : Type 0 where
  pub id : ℕ
  pub email : Text
  pub hashed_password : Text
  pub full_name : Text
  pub status : UserStatus
  pub is_active : Bool
  pub is_deleted : Bool
  pub deleted_at : Option ℕ
  pub deleted_by : Option ℕ
  pub created_at : ℕ
  pub updated_at : ℕ

pub record RoleModel : Type 0 where
  pub id : ℕ
  pub name : Text
  pub description : Text
  pub is_active : Bool
  pub is_deleted : Bool
  pub deleted_at : Option ℕ
  pub deleted_by : Option ℕ
  pub created_at : ℕ
  pub updated_at : ℕ

pub record UserRoleModel : Type 0 where
  pub user_id : ℕ
  pub role_id : ℕ

pub record RolePermissionModel : Type 0 where
  pub role_id : ℕ
  pub permission_id : ℕ

pub record FinancialRecordModel : Type 0 where
  pub id : ℕ
  pub user_id : ℕ
  -- Numeric(15, 2), in cents
  pub amount : ℤ
  pub record_type : RecordType
  pub category_id : ℕ
  pub record_date : ℕ
  pub notes : Option Text
  pub is_deleted : Bool
  pub deleted_at : Option ℕ
  pub deleted_by : Option ℕ
  pub created_at : ℕ
  pub updated_at : ℕ

-- The columns of permissions and categories are the fields of their entities, and those of the
-- audit table the fields of an audit entry.
pub record Db : Type 0 where
  pub users : List UserModel
  pub user_roles : List UserRoleModel
  pub roles : List RoleModel
  pub role_permissions : List RolePermissionModel
  pub permissions : List Permission
  pub categories : List Category
  pub records : List FinancialRecordModel
  pub audit : List AuditLog

abbrev pub empty_db : Db
empty_db = record {
  users = [];
  user_roles = [];
  roles = [];
  role_permissions = [];
  permissions = [];
  categories = [];
  records = [];
  audit = [];
}

-- m.role_permissions, each with its permission: deleted permissions are left out
unfoldable pub permissions_of : Db → List RolePermissionModel → List Permission
permissions_of db [] = []
permissions_of db (rp ∷ rps) =
    let rest = permissions_of db rps in
    elim (find? (λ p. p.id == rp.permission_id) db.permissions) [
      | none ↦ rest
      | some p ↦ if not p.is_deleted then p ∷ rest else rest
    ]

-- map_role
unfoldable pub map_role : Db → RoleModel → Role
map_role db m = record {
  id = m.id;
  name = m.name;
  description = m.description;
  is_active = m.is_active;
  is_deleted = m.is_deleted;
  deleted_at = m.deleted_at;
  deleted_by = m.deleted_by;
  created_at = m.created_at;
  updated_at = m.updated_at;
  permissions = permissions_of db (select (λ rp. rp.role_id == m.id) db.role_permissions);
}

-- m.user_roles, each with its role: deleted roles are left out
unfoldable pub roles_of : Db → List UserRoleModel → List Role
roles_of db [] = []
roles_of db (ur ∷ urs) =
    let rest = roles_of db urs in
    elim (find? (λ r. r.id == ur.role_id) db.roles) [
      | none ↦ rest
      | some r ↦ if not r.is_deleted then map_role db r ∷ rest else rest
    ]

-- map_user: the email is validated again
unfoldable pub map_user : Db → UserModel → Result User
map_user db m = do
  email ← Email.new m.email
  ok (record {
    id = m.id;
    email = email;
    password = from_hash m.hashed_password;
    full_name = m.full_name;
    status = m.status;
    is_deleted = m.is_deleted;
    deleted_at = m.deleted_at;
    deleted_by = m.deleted_by;
    created_at = m.created_at;
    updated_at = m.updated_at;
    roles = roles_of db (select (λ ur. ur.user_id == m.id) db.user_roles);
  })

abbrev pub name_of : Option Category → Option Text
name_of none = none
name_of (some c) = some c.name

-- map_record: the amount is validated again
unfoldable pub map_record : Db → FinancialRecordModel → Result FinancialRecord
map_record db m = do
  amount ← Money.of_cents m.amount
  ok (record {
    id = m.id;
    user_id = m.user_id;
    amount = amount;
    record_type = m.record_type;
    category_id = m.category_id;
    record_date = m.record_date;
    notes = m.notes;
    is_deleted = m.is_deleted;
    deleted_at = m.deleted_at;
    deleted_by = m.deleted_by;
    created_at = m.created_at;
    updated_at = m.updated_at;
    category_name = name_of (find? (λ c. c.id == m.category_id) db.categories);
  })
