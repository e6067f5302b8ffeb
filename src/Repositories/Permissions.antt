-- ===== src/Repositories/Permissions.antt =====
-- SQLAlchemyPermissionRepository of app/infrastructure/repositories/role_permission_repo.py.
use financial_data.Prelude.{
  ℕ, Bool, false, not, ◌&&◌, ◌||◌, Option, List, [], ◌∷◌, ◌++◌, ◌==◌, if◌then◌else◌, any, select,
  find?, update_where,
}
use financial_data.Text.{Text, text_eq}
use financial_data.Result.{ok, integrity_error, no_result_found}
use financial_data.Entities.Permission
use financial_data.Entities.Permission.{Permission}
use financial_data.World.{Action, pure, query, write, raise_if, utcnow, ◌>>=◌, ◌>>◌}

-- codename.partition(":"): what stands before and after the first colon
unfoldable pub partition : Text → Text × Text
partition [] = ([], [])
partition (c ∷ s) =
    let (resource, action) = partition s in if c == b':' then ([], s) else (c ∷ resource, action)

unfoldable pub get_by_id : ℕ → Action (Option Permission)
get_by_id id = query (λ db. ok (find? (λ m. m.id == id) db.permissions))

-- PermissionModel.resource == resource, PermissionModel.action == action
abbrev pub named : Text × Text → Permission → Bool
named (resource, action) m = text_eq m.resource resource && text_eq m.action action

unfoldable pub get_by_codename : Text → Action (Option Permission)
unfolding partition
get_by_codename name = query (λ db. ok (find? (named (partition name)) db.permissions))

unfoldable pub exists_by_codename : Text → Action Bool
unfolding partition
exists_by_codename name = query (λ db. ok (any (named (partition name)) db.permissions))

unfoldable pub get_all : Action (List Permission)
get_all = query (λ db. ok (select (λ m. not m.is_deleted) db.permissions))

-- PermissionModel.id.in_(ids), PermissionModel.is_deleted == False
unfoldable pub get_by_ids : List ℕ → Action (List Permission)
get_by_ids ids =
    query (λ db. ok (select (λ m. any (λ id. m.id == id) ids && not m.is_deleted) db.permissions))

-- The identifier is the primary key, and (resource, action) is unique.
abbrev pub clashes : Permission → Permission → Bool
clashes p m = m.id == p.id || named (p.resource, p.action) m

abbrev pub row_of : ℕ → Permission → Permission
row_of now p = record p { is_deleted = false; created_at = now; updated_at = now }

-- add
unfoldable pub add : Permission → Action (Unit {0})
add p = do
  now ← utcnow
  clash ← query (λ db. ok (any (clashes p) db.permissions))
  raise_if clash integrity_error
  write (λ db. record db { permissions = db.permissions ++ row_of now p ∷ [] })

-- Those of bulk_create whose codename is not there; the session does not flush between them.
unfoldable pub missing_of : List Permission → List Permission → List Permission
missing_of rows [] = []
missing_of rows (p ∷ permissions) =
    let rest = missing_of rows permissions in
    if any (named (partition (Permission.codename p))) rows then rest else p ∷ rest

-- The rows of one flush, of which none may clash with a row before it.
unfoldable pub insert_all : List Permission → Action (Unit {0})
insert_all [] = pure tt
insert_all (p ∷ permissions) = do add p; insert_all permissions

-- bulk_create
unfoldable pub bulk_create : List Permission → Action (Unit {0})
unfolding missing_of insert_all
bulk_create permissions = do
  missing ← query (λ db. ok (missing_of db.permissions permissions))
  insert_all missing

-- update: only the description
unfoldable pub update : Permission → Action (Unit {0})
update p = do
  there ← query (λ db. ok (any (λ m. m.id == p.id) db.permissions))
  raise_if (not there) no_result_found
  write (λ db. record db {
    permissions =
        update_where (λ m. m.id == p.id) (λ m. record m { description = p.description })
          db.permissions;
  })

-- delete
unfoldable pub delete : Permission → Action (Unit {0})
delete p = do
  there ← query (λ db. ok (any (λ m. m.id == p.id) db.permissions))
  raise_if (not there) no_result_found
  write (λ db. record db { permissions = select (λ m. not (m.id == p.id)) db.permissions })
