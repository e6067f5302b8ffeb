-- ===== src/Repositories/Roles.antt =====
-- SQLAlchemyRoleRepository of app/infrastructure/repositories/role_permission_repo.py.
use financial_data.Prelude.{
  ℕ, Bool, false, not, ◌&&◌, ◌||◌, Option, none, List, [], ◌∷◌, ◌++◌, ◌==◌, if◌then◌else◌, any,
  select, find?, update_where,
}
use financial_data.Text.{Text, text_eq, lower, strip}
use financial_data.Result.{ok, integrity_error, no_result_found}
use financial_data.Entities.Role.{Role}
use financial_data.Database.{RoleModel, RolePermissionModel, map_role}
use financial_data.World.{Action, query, write, raise_if, utcnow, ◌>>=◌, ◌>>◌}
use financial_data.Repositories.Paging.{map_found, map_rows, listing}

abbrev pub live_id : ℕ → RoleModel → Bool
live_id id m = m.id == id && not m.is_deleted

-- get_by_id and get_by_id_with_permissions, which calls it
unfoldable pub get_by_id : ℕ → Action (Option Role)
get_by_id id = query (λ db. map_found (λ m. ok (map_role db m)) (find? (live_id id) db.roles))

-- func.lower(RoleModel.name) == name.strip().lower(), RoleModel.is_deleted == False
abbrev pub live_name : Text → RoleModel → Bool
live_name name m = text_eq (lower m.name) (lower (strip name)) && not m.is_deleted

unfoldable pub get_by_name : Text → Action (Option Role)
get_by_name name =
    query (λ db. map_found (λ m. ok (map_role db m)) (find? (live_name name) db.roles))

unfoldable pub exists_by_name : Text → Action Bool
exists_by_name name = query (λ db. ok (any (live_name name) db.roles))

unfoldable pub get_all : ℕ → ℕ → Bool → Action (List Role × ℕ)
get_all page page_size include_inactive = query (λ db.
    listing (λ m. ok (map_role db m)) page page_size
      (select (λ m. not m.is_deleted && (include_inactive || m.is_active)) db.roles))

unfoldable pub get_by_ids : List ℕ → Action (List Role)
get_by_ids ids = query (λ db.
    map_rows (λ m. ok (map_role db m))
      (select (λ m. any (λ id. m.id == id) ids && not m.is_deleted) db.roles))

abbrev pub links : ℕ → ℕ → RolePermissionModel → Bool
links role_id permission_id rp = rp.role_id == role_id && rp.permission_id == permission_id

-- assign_permission
unfoldable pub assign_permission : ℕ → ℕ → Action (Unit {0})
assign_permission role_id permission_id = write (λ db.
    if any (links role_id permission_id) db.role_permissions then db else record db {
      role_permissions =
          db.role_permissions ++ record { role_id = role_id; permission_id = permission_id } ∷ [];
    })

-- remove_permission
unfoldable pub remove_permission : ℕ → ℕ → Action (Unit {0})
remove_permission role_id permission_id = write (λ db. record db {
  role_permissions = select (λ rp. not (links role_id permission_id rp)) db.role_permissions;
})

-- The identifier is the primary key, and the name is unique among all rows, deleted ones too.
abbrev pub clashes : Role → RoleModel → Bool
clashes r m = m.id == r.id || text_eq m.name r.name

abbrev pub row_of : ℕ → Role → RoleModel
row_of now r = record {
  id = r.id;
  name = r.name;
  description = r.description;
  is_active = r.is_active;
  is_deleted = false;
  deleted_at = none;
  deleted_by = none;
  created_at = now;
  updated_at = now;
}

-- add: the permissions are assigned one by one by the caller
unfoldable pub add : Role → Action (Unit {0})
add r = do
  now ← utcnow
  clash ← query (λ db. ok (any (clashes r) db.roles))
  raise_if clash integrity_error
  write (λ db. record db { roles = db.roles ++ row_of now r ∷ [] })

abbrev pub assign_row : Role → RoleModel → RoleModel
assign_row r m = record m {
  name = r.name;
  description = r.description;
  is_active = r.is_active;
  is_deleted = r.is_deleted;
  deleted_at = r.deleted_at;
  deleted_by = r.deleted_by;
}

-- update
unfoldable pub update : Role → Action (Unit {0})
update r = do
  there ← query (λ db. ok (any (λ m. m.id == r.id) db.roles))
  raise_if (not there) no_result_found
  clash ← query (λ db. ok (any (λ m. not (m.id == r.id) && text_eq m.name r.name) db.roles))
  raise_if clash integrity_error
  write (λ db. record db { roles = update_where (λ m. m.id == r.id) (assign_row r) db.roles })

-- delete
unfoldable pub delete : Role → Action (Unit {0})
delete r = do
  there ← query (λ db. ok (any (λ m. m.id == r.id) db.roles))
  raise_if (not there) no_result_found
  write (λ db. record db { roles = select (λ m. not (m.id == r.id)) db.roles })
