-- ===== src/Entities/Category.antt =====
-- app/domain/entities/category.py.
use financial_data.Prelude.{ℕ, Bool, true, false, Option, none, some}
use financial_data.Text.{Text, strip}
use financial_data.Result.{
  Result, ok, value_error, already_deleted, system_protected, raise_if, ◌>>◌,
}
use financial_data.Entities.Enums.{CategoryType}

pub record Category : Type 0 where
  pub id : ℕ
  pub name : Text
  pub category_type : CategoryType
  pub description : Text
  pub is_system : Bool
  pub is_active : Bool
  pub is_deleted : Bool
  pub deleted_at : Option ℕ
  pub deleted_by : Option ℕ
  pub created_by : Option ℕ
  pub created_at : ℕ
  pub updated_at : ℕ

-- Category.create
unfoldable pub create : ℕ → ℕ → Text → CategoryType → Text → Option ℕ → Bool → Category
create id now name category_type description created_by is_system = record {
  id = id;
  name = strip name;
  category_type = category_type;
  description = description;
  is_system = is_system;
  is_active = true;
  is_deleted = false;
  deleted_at = none;
  deleted_by = none;
  created_by = created_by;
  created_at = now;
  updated_at = now;
}

-- The new value of a field, where one is given.
abbrev pub given {ℓ} : {A : Type ℓ} → Option A → A → A
given none a = a
given (some b) a = b

-- name.strip(), where a name is given
abbrev pub strip_given : Option Text → Text → Text
strip_given none a = a
strip_given (some b) a = strip b

unfoldable pub update : ℕ → Option Text → Option Text → Option Bool → Category → Result Category
update now name description is_active c = do
  raise_if c.is_system (value_error system_protected)
  ok (record c {
    name = strip_given name c.name;
    description = given description c.description;
    is_active = given is_active c.is_active;
    updated_at = now;
  })

unfoldable pub soft_delete : ℕ → ℕ → Category → Result Category
soft_delete now deleted_by c = do
  raise_if c.is_system (value_error system_protected)
  raise_if c.is_deleted (value_error already_deleted)
  ok (record c { is_deleted = true; deleted_at = some now; deleted_by = some deleted_by })
