-- ===== src/Api/Responses.antt =====
-- app/api/schemas and app/api/v1/_mappers.py: what the endpoints answer with.
pub mod Laws
use financial_data.Prelude.{ℕ, ◌+◌, ◌/◌, ◌%◌, Bool, Option, List, map, ◌==◌, leb, if◌then◌else◌}
use financial_data.Text.{Text}
use financial_data.Result.{Result, ok, err, zero_division}
use financial_data.Money.{Decimal, to_decimal}
use financial_data.CacheKeys.{CategoryTotal, TrendPoint}
use financial_data.Entities.Enums.{record_type_value, category_type_value, user_status_value}
use financial_data.Entities.Permission
use financial_data.Entities.Permission.{Permission}
use financial_data.Entities.Role.{Role}
use financial_data.Entities.User.{User}
use financial_data.Entities.Category.{Category}
use financial_data.Entities.Record.{FinancialRecord}
use financial_data.UseCases.Login.{TokenDto}
use financial_data.UseCases.Dashboard.{SummaryDto}

-- schemas/base.py
pub record PaginatedResponse (A : Type 0) : Type 0 where
  pub items : List A
  pub total : ℕ
  pub page : ℕ
  pub page_size : ℕ
  pub pages : ℕ

-- -(-total // page_size): the floor of the negated quotient is one lower where there is a remainder
unfoldable pub ceiling : ℕ → ℕ → ℕ
ceiling total page_size =
    if total % page_size == 0 then total / page_size else total / page_size + 1

-- PaginatedResponse.build
unfoldable pub build : {A : Type 0} → List A → ℕ → ℕ → ℕ → Result (PaginatedResponse A)
unfolding ceiling
build items total page page_size =
    if page_size == 0
    then err zero_division
    else ok (record {
      items = items;
      total = total;
      page = page;
      page_size = page_size;
      pages = if leb (ceiling total page_size) 1 then 1 else ceiling total page_size;
    })

-- schemas/user.py and schemas/role.py
pub record PermissionResponse : Type 0 where
  pub id : ℕ
  pub codename : Text
  pub resource : Text
  pub action : Text
  pub description : Text

pub record RoleResponse : Type 0 where
  pub id : ℕ
  pub name : Text
  pub description : Text
  pub is_active : Bool
  pub permissions : List PermissionResponse

pub record UserResponse : Type 0 where
  pub id : ℕ
  pub email : Text
  pub full_name : Text
  pub status : Text
  pub is_deleted : Bool
  pub roles : List RoleResponse
  pub created_at : ℕ
  pub updated_at : ℕ

pub record RoleDetailResponse : Type 0 where
  pub id : ℕ
  pub name : Text
  pub description : Text
  pub is_active : Bool
  pub permissions : List PermissionResponse
  pub created_at : ℕ
  pub updated_at : ℕ

-- schemas/record.py
pub record RecordResponse : Type 0 where
  pub id : ℕ
  pub user_id : ℕ
  pub amount : Decimal
  pub record_type : Text
  pub category_id : ℕ
  pub category_name : Option Text
  pub record_date : ℕ
  pub notes : Option Text
  pub is_deleted : Bool
  pub created_at : ℕ
  pub updated_at : ℕ

-- schemas/category.py
pub record CategoryResponse : Type 0 where
  pub id : ℕ
  pub name : Text
  pub description : Text
  pub category_type : Text
  pub is_system : Bool
  pub is_active : Bool
  pub created_at : ℕ
  pub updated_at : ℕ

unfoldable pub map_permission : Permission → PermissionResponse
map_permission p = record {
  id = p.id;
  codename = Permission.codename p;
  resource = p.resource;
  action = p.action;
  description = p.description;
}

unfoldable pub map_role_summary : Role → RoleResponse
map_role_summary r = record {
  id = r.id;
  name = r.name;
  description = r.description;
  is_active = r.is_active;
  permissions = map map_permission r.permissions;
}

-- map_user, and _map_user of auth.py
unfoldable pub map_user : User → UserResponse
map_user user = record {
  id = user.id;
  email = user.email.value;
  full_name = user.full_name;
  status = user_status_value user.status;
  is_deleted = user.is_deleted;
  roles = map map_role_summary user.roles;
  created_at = user.created_at;
  updated_at = user.updated_at;
}

unfoldable pub map_record : FinancialRecord → RecordResponse
map_record r = record {
  id = r.id;
  user_id = r.user_id;
  amount = to_decimal r.amount;
  record_type = record_type_value r.record_type;
  category_id = r.category_id;
  category_name = r.category_name;
  record_date = r.record_date;
  notes = r.notes;
  is_deleted = r.is_deleted;
  created_at = r.created_at;
  updated_at = r.updated_at;
}

unfoldable pub map_category : Category → CategoryResponse
map_category c = record {
  id = c.id;
  name = c.name;
  description = c.description;
  category_type = category_type_value c.category_type;
  is_system = c.is_system;
  is_active = c.is_active;
  created_at = c.created_at;
  updated_at = c.updated_at;
}

unfoldable pub map_role_detail : Role → RoleDetailResponse
map_role_detail r = record {
  id = r.id;
  name = r.name;
  description = r.description;
  is_active = r.is_active;
  permissions = map map_permission r.permissions;
  created_at = r.created_at;
  updated_at = r.updated_at;
}

-- The bodies of the answers; `success` is a SuccessResponse. A summary, a category total and a trend
-- point keep the fields of their transfer objects.
pub data Content : Type 0 where
  tokens : TokenDto → Content
  one_user : UserResponse → Content
  users : PaginatedResponse UserResponse → Content
  one_role : RoleDetailResponse → Content
  roles : PaginatedResponse RoleDetailResponse → Content
  one_category : CategoryResponse → Content
  categories : PaginatedResponse CategoryResponse → Content
  one_record : RecordResponse → Content
  records : PaginatedResponse RecordResponse → Content
  recent : List RecordResponse → Content
  shown_summary : SummaryDto → Content
  category_totals : List CategoryTotal → Content
  trend_points : List TrendPoint → Content
  success : Text → Content
