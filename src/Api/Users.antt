-- ===== src/Api/Users.antt =====
-- app/api/v1/users.py.
use financial_data.Prelude.{ℕ, Bool, Option, map}
use financial_data.Text.{Text, lit}
use financial_data.Result.{conflict_error, not_found_error}
use financial_data.World.{Action, pure, lift, ◌>>=◌, ◌>>◌}
use financial_data.UseCases.Users
use financial_data.UseCases.Users.{CreateUserDto}
use financial_data.Api.Http.{
  Platform, Request, request_meta, value_as, catching, guard, guarded_actor,
}
use financial_data.Api.Responses.{Content, one_user, users, success, build, map_user}

module _ (platform : Platform) (request : Request) where
  unfoldable pub list_users : ℕ → ℕ → Option Text → Bool → Action Content
  list_users page page_size search include_deleted = do
    payload ← guard platform request (lit "users:read")
    (found, total) ← Users.get_users platform.ilike page page_size search include_deleted
    answer ← lift (build (map map_user found) total page page_size)
    pure (users answer)

  unfoldable pub create_user : CreateUserDto → Action Content
  create_user body = do
    actor ← guarded_actor platform request (lit "users:create")
    user ←
        catching (value_as conflict_error)
          (Users.create_user platform.passwords body actor (request_meta request))
    pure (one_user (map_user user))

  unfoldable pub get_user : ℕ → Action Content
  get_user user_id = do
    payload ← guard platform request (lit "users:read")
    user ← catching (value_as not_found_error) (Users.get_user user_id)
    pure (one_user (map_user user))

  unfoldable pub update_user : ℕ → Option Text → Action Content
  update_user user_id full_name = do
    actor ← guarded_actor platform request (lit "users:update")
    user ←
        catching (value_as not_found_error)
          (Users.update_user user_id full_name actor (request_meta request))
    pure (one_user (map_user user))

  unfoldable pub delete_user : ℕ → Action Content
  delete_user user_id = do
    actor ← guarded_actor platform request (lit "users:delete")
    catching (value_as not_found_error) (Users.delete_user user_id actor (request_meta request))
    pure (success (lit "User deleted"))

  unfoldable pub change_status : ℕ → Bool → Action Content
  change_status user_id is_active = do
    actor ← guarded_actor platform request (lit "users:update")
    user ←
        catching (value_as not_found_error)
          (Users.change_status user_id is_active actor (request_meta request))
    pure (one_user (map_user user))

  unfoldable pub assign_role : ℕ → ℕ → Action Content
  assign_role user_id role_id = do
    actor ← guarded_actor platform request (lit "users:update")
    user ←
        catching (value_as not_found_error)
          (Users.assign_role user_id role_id actor (request_meta request))
    pure (one_user (map_user user))

  unfoldable pub remove_role : ℕ → ℕ → Action Content
  remove_role user_id role_id = do
    actor ← guarded_actor platform request (lit "users:update")
    user ←
        catching (value_as not_found_error)
          (Users.remove_role user_id role_id actor (request_meta request))
    pure (one_user (map_user user))
