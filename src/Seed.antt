-- ===== src/Seed.antt =====
-- scripts/seed.py and the permissions of app/domain/enums/permission_enum.py. The script has a session
-- of its own, which does not flush by itself: what is added is seen by queries after a flush only.
pub mod Again
use financial_data.Prelude.{
  ℕ, Bool, true, false, ◌&&◌, Option, none, some, List, [], ◌∷◌, ◌++◌, ◌==◌, if◌then◌else◌, any,
  select, find?,
}
use financial_data.Text.{Text, lit, text_eq, lower}
use financial_data.Result.{Result}
use financial_data.Entities.Enums.{CategoryType}
use financial_data.Entities.Permission.{Permission}
use financial_data.Entities.Category.{Category}
use financial_data.Database.{Db, RoleModel, RolePermissionModel}
use financial_data.World.{
  Action, pure, lift, query, write, uuid4, utcnow, commit, with_uow, ◌>>=◌, ◌>>◌,
}
use financial_data.TokenService.{scalar_one_or_none}
use financial_data.Repositories.Permissions.{partition, named}

-- ALL_PERMISSIONS
abbrev pub all_permissions : List Text
all_permissions =
    lit "records:create"
    ∷ lit "records:read"
    ∷ lit "records:update"
    ∷ lit "records:delete"
    ∷ lit "users:create"
    ∷ lit "users:read"
    ∷ lit "users:update"
    ∷ lit "users:delete"
    ∷ lit "categories:create"
    ∷ lit "categories:read"
    ∷ lit "categories:update"
    ∷ lit "categories:delete"
    ∷ lit "dashboard:read"
    ∷ lit "roles:manage"
    ∷ []

-- ROLE_PERMISSIONS
abbrev pub role_permissions : List (Text × List Text)
role_permissions =
    (lit "admin", all_permissions)
    ∷ (
      lit "analyst",
      lit "records:create"
          ∷ lit "records:read"
          ∷ lit "records:update"
          ∷ lit "records:delete"
          ∷ lit "categories:read"
          ∷ lit "dashboard:read"
          ∷ [],
    )
    ∷ (lit "viewer", lit "records:read" ∷ lit "categories:read" ∷ lit "dashboard:read" ∷ [])
    ∷ []

-- f"Allows {action} on {resource}"
abbrev pub permission_row : ℕ → ℕ → Text × Text → Permission
permission_row id now (resource, action) = record {
  id = id;
  resource = resource;
  action = action;
  description = lit "Allows " ++ (action ++ (lit " on " ++ resource));
  is_deleted = false;
  created_at = now;
  updated_at = now;
}

-- The identifier of the permission that is there, or of the one that is added and flushed.
unfoldable pub existing_or_new : Text × Text → Option Permission → Action ℕ
existing_or_new name (some existing) = pure existing.id
existing_or_new name none = do
  id ← uuid4
  now ← utcnow
  write (λ db. record db { permissions = db.permissions ++ permission_row id now name ∷ [] })
  pure id

-- seed_permissions: the codenames with their identifiers
unfoldable pub seed_permissions : List Text → Action (List (Text × ℕ))
unfolding existing_or_new partition
seed_permissions [] = pure []
seed_permissions (codename ∷ codenames) = do
  rows ← query (λ db. scalar_one_or_none (select (named (partition codename)) db.permissions))
  id ← existing_or_new (partition codename) rows
  others ← seed_permissions codenames
  pure ((codename, id) ∷ others)

-- codename_to_id.get(codename)
unfoldable pub id_of : Text → List (Text × ℕ) → Option ℕ
id_of codename [] = none
id_of codename ((c, id) ∷ ids) =
    let rest = id_of codename ids in if text_eq c codename then some id else rest

-- The junction rows of a role that are not there yet, of the codenames with an identifier.
abbrev pub link_row : Option ℕ → ℕ → List RolePermissionModel → List RolePermissionModel
link_row none role_id links = []
link_row (some permission_id) role_id links =
    if any (λ l. l.role_id == role_id && l.permission_id == permission_id) links
    then []
    else record { role_id = role_id; permission_id = permission_id } ∷ []

unfoldable pub missing_links :
    List (Text × ℕ) → ℕ → List RolePermissionModel → List Text → List RolePermissionModel
unfolding id_of
missing_links ids role_id links [] = []
missing_links ids role_id links (codename ∷ codenames) =
    link_row (id_of codename ids) role_id links ++ missing_links ids role_id links codenames

abbrev pub role_row : ℕ → ℕ → Text → RoleModel
role_row id now name = record {
  id = id;
  name = name;
  description = lit "Built-in " ++ (name ++ lit " role");
  is_active = true;
  is_deleted = false;
  deleted_at = none;
  deleted_by = none;
  created_at = now;
  updated_at = now;
}

-- The role that is there, or one that is added and flushed.
unfoldable pub role_or_new : Text → Option RoleModel → Action ℕ
role_or_new name (some role) = pure role.id
role_or_new name none = do
  id ← uuid4
  now ← utcnow
  write (λ db. record db { roles = db.roles ++ role_row id now name ∷ [] })
  pure id

-- seed_roles, over the roles of ROLE_PERMISSIONS; the links of a role are looked up by its identifier,
-- so that those of other roles which are not flushed yet make no difference
unfoldable pub seed_roles : List (Text × List Text) → List (Text × ℕ) → Action (Unit {0})
unfolding role_or_new missing_links
seed_roles [] ids = pure tt
seed_roles ((name, codenames) ∷ roles) ids = do
  found ← query (λ db. scalar_one_or_none (select (λ r. text_eq r.name name) db.roles))
  role_id ← role_or_new name found
  write (λ db. record db {
    role_permissions =
        db.role_permissions ++ missing_links ids role_id db.role_permissions codenames;
  })
  seed_roles roles ids

-- SYSTEM_CATEGORIES
abbrev pub system_categories : List (Text × CategoryType × Text)
system_categories =
    (lit "Salary", CategoryType.income, lit "Regular employment income")
    ∷ (lit "Freelance", CategoryType.income, lit "Freelance or contract work")
    ∷ (lit "Investment", CategoryType.income, lit "Dividends, interest, capital gains")
    ∷ (lit "Other Income", CategoryType.income, lit "Miscellaneous income")
    ∷ (lit "Housing", CategoryType.expense, lit "Rent, mortgage, utilities")
    ∷ (lit "Food & Dining", CategoryType.expense, lit "Groceries and restaurants")
    ∷ (lit "Transport", CategoryType.expense, lit "Fuel, public transit, parking")
    ∷ (lit "Healthcare", CategoryType.expense, lit "Medical, dental, pharmacy")
    ∷ (lit "Entertainment", CategoryType.expense, lit "Movies, subscriptions, hobbies")
    ∷ (lit "Shopping", CategoryType.expense, lit "Clothing, electronics, misc")
    ∷ (lit "Education", CategoryType.expense, lit "Courses, books, tuition")
    ∷ (lit "Other Expense", CategoryType.expense, lit "Miscellaneous expenses")
    ∷ (lit "Transfer", CategoryType.both, lit "Transfers between accounts")
    ∷ []

abbrev pub category_row : ℕ → ℕ → Text × CategoryType × Text → Category
category_row id now (name, category_type, description) = record {
  id = id;
  name = name;
  category_type = category_type;
  description = description;
  is_system = true;
  is_active = true;
  is_deleted = false;
  deleted_at = none;
  deleted_by = none;
  created_by = none;
  created_at = now;
  updated_at = now;
}

-- if result.scalar_one_or_none(): continue; session.add(…)
unfoldable pub category_or_new :
    Text × CategoryType × Text → Option Category → Action (List Category)
category_or_new entry (some found) = pure []
category_or_new entry none = do id ← uuid4; now ← utcnow; pure (category_row id now entry ∷ [])

-- The categories that are to be added, looked up before any is flushed.
unfoldable pub missing_categories : List (Text × CategoryType × Text) → Action (List Category)
unfolding category_or_new
missing_categories [] = pure []
missing_categories ((name, category_type, description) ∷ entries) = do
  found ←
      query
        (λ db. scalar_one_or_none (select (λ c. text_eq (lower c.name) (lower name)) db.categories))
  row ← category_or_new (name, category_type, description) found
  rows ← missing_categories entries
  pure (row ++ rows)

-- seed_categories
unfoldable pub seed_categories : List (Text × CategoryType × Text) → Action (Unit {0})
unfolding missing_categories
seed_categories entries = do
  rows ← missing_categories entries
  write (λ db. record db { categories = db.categories ++ rows })

-- main
unfoldable pub main : Action (Unit {0})
unfolding seed_permissions seed_roles seed_categories
main = with_uow do
  ids ← seed_permissions all_permissions
  seed_roles role_permissions ids
  seed_categories system_categories
  commit
