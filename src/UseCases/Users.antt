-- ===== src/UseCases/Users.antt =====
-- app/application/use_cases/users.
pub mod NewUser
use financial_data.Prelude.{
  ℕ, Bool, true, false, not, Option, none, some, List, [], ◌∷◌, ◌==◌, leb, length,
}
use financial_data.Text.{Text, lit}
use financial_data.Json
use financial_data.Json.{JsonDict, compute_diff}
use financial_data.Result.{
  value_error, already_exists, role_missing, role_inactive, not_found, own_account, own_status,
  deleted_status, last_role,
}
use financial_data.Crypto.{PasswordContext}
use financial_data.Email
use financial_data.Entities.Enums.{ActionType, user_status_value}
use financial_data.Entities.Role.{Role}
use financial_data.Entities.User
use financial_data.Entities.User.{User, get_role_names}
use financial_data.Entities.Audit.{RequestMeta}
use financial_data.World.{
  Action, pure, lift, raise_if, or_raise, uuid4, utcnow, commit, with_uow, ◌>>=◌, ◌>>◌,
}
use financial_data.Repositories.Users
use financial_data.Repositories.Roles
use financial_data.UseCases.Auditing.{log_success, one_change, one_entry}

pub record CreateUserDto : Type 0 where
  pub email : Text
  pub password : Text
  pub full_name : Text
  pub role_names : List Text

-- for role_name in dto.role_names: …; roles.append(role)
unfoldable pub load_roles : List Text → Action (List Role)
load_roles [] = pure []
load_roles (name ∷ names) = do
  found ← Roles.get_by_name name
  role ← or_raise found (value_error role_missing)
  rest ← load_roles names
  pure (role ∷ rest)

-- for role in roles: user.assign_role(role)
unfoldable pub assign_roles : User → List Role → User
assign_roles u [] = u
assign_roles u (role ∷ roles) = assign_roles (User.assign_role u role) roles

-- The `after` snapshot of create_user.py.
abbrev pub created : User → Option JsonDict
created u = some (
    (lit "id", Json.id u.id)
    ∷ (lit "email", Json.text u.email.value)
    ∷ (lit "full_name", Json.text u.full_name)
    ∷ (lit "roles", Json.texts (get_role_names u))
    ∷ [])

-- CreateUserUseCase.execute
unfoldable pub create_user : PasswordContext → CreateUserDto → User → RequestMeta → Action User
create_user context dto actor meta = with_uow do
  email ← lift (Email.new dto.email)
  taken ← Users.exists_by_email email
  raise_if taken (value_error already_exists)
  roles ← load_roles dto.role_names
  id ← uuid4
  salt ← uuid4
  now ← utcnow
  new_user ← lift (User.create context salt id now dto.email dto.password dto.full_name)
  let user = assign_roles new_user roles
  Users.add user
  log_success actor ActionType.users_create (lit "users") meta (some user.id) none (created user)
      none
  commit
  pure user

-- GetUserUseCase.execute
unfoldable pub get_user : ℕ → Action User
get_user user_id =
    with_uow do found ← Users.get_by_id user_id; or_raise found (value_error not_found)

-- UpdateUserUseCase.execute
unfoldable pub update_user : ℕ → Option Text → User → RequestMeta → Action User
update_user user_id full_name actor meta = with_uow do
  found ← Users.get_by_id user_id
  user ← or_raise found (value_error not_found)
  let before = (lit "full_name", Json.text user.full_name) ∷ []
  let user' = User.update_profile full_name user
  Users.update user'
  let after = (lit "full_name", Json.text user'.full_name) ∷ []
  diff ← lift (compute_diff before after)
  log_success actor ActionType.users_update (lit "users") meta (some user'.id) (some before)
      (some after) (some diff)
  commit
  pure user'

-- user.activate() or user.deactivate(), and the action that is logged
abbrev pub switch : Bool → User → Action User
switch true user = lift (User.activate user)
switch false user = pure (User.deactivate user)

abbrev pub switch_action : Bool → ActionType
switch_action true = ActionType.users_activate
switch_action false = ActionType.users_deactivate

-- ChangeUserStatusUseCase.execute
unfoldable pub change_status : ℕ → Bool → User → RequestMeta → Action User
change_status user_id is_active actor meta = do
  raise_if (user_id == actor.id) (value_error own_status)
  with_uow do
    found ← Users.get_by_id user_id
    user ← or_raise found (value_error not_found)
    raise_if user.is_deleted (value_error deleted_status)
    let before = Json.text (user_status_value user.status)
    user' ← switch is_active user
    let after = Json.text (user_status_value user'.status)
    Users.update user'
    log_success actor (switch_action is_active) (lit "users") meta (some user'.id)
        (one_entry (lit "status") before) (one_entry (lit "status") after)
        (one_change (lit "status") before after)
    commit
    pure user'

-- The `before` snapshot of delete_user.py.
abbrev pub snapshot : User → Option JsonDict
snapshot u = some (
    (lit "id", Json.id u.id)
    ∷ (lit "email", Json.text u.email.value)
    ∷ (lit "full_name", Json.text u.full_name)
    ∷ (lit "status", Json.text (user_status_value u.status))
    ∷ (lit "roles", Json.texts (get_role_names u))
    ∷ [])

-- DeleteUserUseCase.execute
unfoldable pub delete_user : ℕ → User → RequestMeta → Action (Unit {0})
delete_user user_id actor meta = do
  raise_if (user_id == actor.id) (value_error own_account)
  with_uow do
    found ← Users.get_by_id user_id
    user ← or_raise found (value_error not_found)
    now ← utcnow
    user' ← lift (User.soft_delete now actor.id user)
    Users.update user'
    log_success actor ActionType.users_delete (lit "users") meta (some user'.id) (snapshot user)
        none none
    commit
    pure tt

-- AssignRoleToUserUseCase.execute
unfoldable pub assign_role : ℕ → ℕ → User → RequestMeta → Action User
assign_role user_id role_id actor meta = with_uow do
  found ← Users.get_by_id user_id
  user ← or_raise found (value_error not_found)
  found_role ← Roles.get_by_id role_id
  role ← or_raise found_role (value_error not_found)
  raise_if (not role.is_active) (value_error role_inactive)
  Users.assign_role user.id role.id
  let user' = User.assign_role user role
  let before = Json.texts (get_role_names user)
  let after = Json.texts (get_role_names user')
  log_success actor ActionType.users_role_assign (lit "users") meta (some user.id)
      (one_entry (lit "roles") before) (one_entry (lit "roles") after)
      (one_change (lit "roles") before after)
  commit
  pure user'

-- RemoveRoleFromUserUseCase.execute
unfoldable pub remove_role : ℕ → ℕ → User → RequestMeta → Action User
remove_role user_id role_id actor meta = with_uow do
  found ← Users.get_by_id user_id
  user ← or_raise found (value_error not_found)
  raise_if (leb (length user.roles) 1) (value_error last_role)
  Users.remove_role user.id role_id
  let user' = User.remove_role user role_id
  let before = Json.texts (get_role_names user)
  let after = Json.texts (get_role_names user')
  log_success actor ActionType.users_role_remove (lit "users") meta (some user.id)
      (one_entry (lit "roles") before) (one_entry (lit "roles") after)
      (one_change (lit "roles") before after)
  commit
  pure user'

-- GetUsersUseCase.execute; `ilike` is the database's operator
unfoldable pub get_users :
    (Text → Text → Bool) → ℕ → ℕ → Option Text → Bool → Action (List User × ℕ)
get_users ilike page page_size search include_deleted =
    with_uow (Users.get_all ilike page page_size include_deleted search)
