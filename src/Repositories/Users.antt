-- ===== src/Repositories/Users.antt =====
-- app/infrastructure/repositories/user_repo.py. The columns that the database itself fills on an
-- UPDATE (`onupdate`) are left out, and so are the foreign keys, whose rows the callers have loaded.
use financial_data.Prelude.{
  ℕ, Bool, true, false, not, ◌&&◌, ◌||◌, Option, none, some, List, [], ◌∷◌, ◌++◌, ◌==◌,
  if◌then◌else◌, any, select, find?, update_where,
}
use financial_data.Text.{Text, text_eq, lower}
use financial_data.Result.{ok, integrity_error, no_result_found}
use financial_data.Email.{Email}
use financial_data.Entities.User
use financial_data.Entities.User.{User}
use financial_data.Database.{UserModel, UserRoleModel, map_user}
use financial_data.World.{Action, query, write, raise_if, utcnow, ◌>>=◌, ◌>>◌}
use financial_data.Repositories.Paging.{map_found, listing}

-- UserModel.id == id, UserModel.is_deleted == False
abbrev pub live_id : ℕ → UserModel → Bool
live_id id m = m.id == id && not m.is_deleted

-- get_by_id and get_by_id_with_roles, which are the same query
unfoldable pub get_by_id : ℕ → Action (Option User)
get_by_id id = query (λ db. map_found (map_user db) (find? (live_id id) db.users))

abbrev pub live_email : Email → UserModel → Bool
live_email email m = text_eq m.email email.value && not m.is_deleted

unfoldable pub get_by_email : Email → Action (Option User)
get_by_email email = query (λ db. map_found (map_user db) (find? (live_email email) db.users))

unfoldable pub get_active_by_id : ℕ → Action (Option User)
get_active_by_id id =
    query (λ db. map_found (map_user db) (find? (λ m. live_id id m && m.is_active) db.users))

unfoldable pub exists_by_email : Email → Action Bool
exists_by_email email = query (λ db. ok (any (live_email email) db.users))

abbrev pub bool_is : Bool → Bool → Bool
bool_is true b = b
bool_is false b = not b

-- The rows that a search keeps; `ilike` is the database's operator, with the pattern without its %.
abbrev pub found_by : (Text → Text → Bool) → Option Text → UserModel → Bool
found_by ilike none m = true
found_by ilike (some search) m = ilike m.full_name (lower search) || ilike m.email (lower search)

unfoldable pub get_all : (Text → Text → Bool) → ℕ → ℕ → Bool → Option Text → Action (List User × ℕ)
get_all ilike page page_size is_deleted search = query (λ db.
    listing (map_user db) page page_size
      (select (λ m. bool_is m.is_deleted is_deleted && found_by ilike search m) db.users))

-- The identifier is the primary key, and the email is unique among all rows, deleted ones too.
abbrev pub clashes : User → UserModel → Bool
clashes u m = m.id == u.id || text_eq m.email u.email.value

abbrev pub row_of : ℕ → User → UserModel
row_of now u = record {
  id = u.id;
  email = u.email.value;
  hashed_password = u.password.hashed;
  full_name = u.full_name;
  status = u.status;
  is_active = true;
  is_deleted = u.is_deleted;
  deleted_at = none;
  deleted_by = none;
  created_at = now;
  updated_at = now;
}

-- add: the roles of the user are not written
unfoldable pub add : User → Action (Unit {0})
add u = do
  now ← utcnow
  clash ← query (λ db. ok (any (clashes u) db.users))
  raise_if clash integrity_error
  write (λ db. record db { users = db.users ++ row_of now u ∷ [] })

abbrev pub assign_row : User → UserModel → UserModel
assign_row u m = record m {
  email = u.email.value;
  hashed_password = u.password.hashed;
  full_name = u.full_name;
  status = u.status;
  is_active = User.is_active u;
  is_deleted = u.is_deleted;
  deleted_at = u.deleted_at;
  deleted_by = u.deleted_by;
}

-- update
unfoldable pub update : User → Action (Unit {0})
update u = do
  there ← query (λ db. ok (any (λ m. m.id == u.id) db.users))
  raise_if (not there) no_result_found
  clash ← query (λ db. ok (any (λ m. not (m.id == u.id) && text_eq m.email u.email.value) db.users))
  raise_if clash integrity_error
  write (λ db. record db { users = update_where (λ m. m.id == u.id) (assign_row u) db.users })

-- delete
unfoldable pub delete : User → Action (Unit {0})
delete u = do
  there ← query (λ db. ok (any (λ m. m.id == u.id) db.users))
  raise_if (not there) no_result_found
  write (λ db. record db { users = select (λ m. not (m.id == u.id)) db.users })

abbrev pub links : ℕ → ℕ → UserRoleModel → Bool
links user_id role_id ur = ur.user_id == user_id && ur.role_id == role_id

-- assign_role
unfoldable pub assign_role : ℕ → ℕ → Action (Unit {0})
assign_role user_id role_id = write (λ db.
    if any (links user_id role_id) db.user_roles then db else record db {
      user_roles = db.user_roles ++ record { user_id = user_id; role_id = role_id } ∷ [];
    })

-- remove_role
unfoldable pub remove_role : ℕ → ℕ → Action (Unit {0})
remove_role user_id role_id =
    write
      (λ db. record db { user_roles = select (λ ur. not (links user_id role_id ur)) db.user_roles })
