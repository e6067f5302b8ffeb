-- ===== src/Api/Roles.antt =====
-- app/api/v1/roles.py.
use financial_data.Prelude.{ℕ, Bool, Option, List, map}
use financial_data.Text.{Text, lit}
use financial_data.Result.{conflict_error, not_found_error, validation_error}
use financial_data.World.{Action, pure, lift, ◌>>=◌, ◌>>◌}
use financial_data.UseCases.Roles
use financial_data.Api.Http.{
  Platform, Request, request_meta, value_as, catching, guard, guarded_actor,
}
use financial_data.Api.Responses.{Content, one_role, roles, success, build, map_role_detail}

module _ (platform : Platform) (request : Request) where
  unfoldable pub list_roles : ℕ → ℕ → Bool → Action Content
  list_roles page page_size include_inactive = do
    payload ← guard platform request (lit "roles:manage")
    (found, total) ← Roles.get_roles page page_size include_inactive
    answer ← lift (build (map map_role_detail found) total page page_size)
    pure (roles answer)

  unfoldable pub create_role : Text → Text → List ℕ → Action Content
  create_role name description permission_ids = do
    actor ← guarded_actor platform request (lit "roles:manage")
    role ←
        catching (value_as conflict_error)
          (Roles.create_role name description permission_ids actor (request_meta request))
    pure (one_role (map_role_detail role))

  unfoldable pub get_role : ℕ → Action Content
  get_role role_id = do
    payload ← guard platform request (lit "roles:manage")
    role ← catching (value_as not_found_error) (Roles.get_role role_id)
    pure (one_role (map_role_detail role))

  unfoldable pub update_role : ℕ → Option Text → Option Text → Option Bool → Action Content
  update_role role_id name description is_active = do
    actor ← guarded_actor platform request (lit "roles:manage")
    role ←
        catching (value_as validation_error)
          (Roles.update_role role_id name description is_active actor (request_meta request))
    pure (one_role (map_role_detail role))

  unfoldable pub delete_role : ℕ → Action Content
  delete_role role_id = do
    actor ← guarded_actor platform request (lit "roles:manage")
    catching (value_as validation_error) (Roles.delete_role role_id actor (request_meta request))
    pure (success (lit "Role deleted"))

  unfoldable pub assign_permissions : ℕ → List ℕ → Action Content
  assign_permissions role_id permission_ids = do
    actor ← guarded_actor platform request (lit "roles:manage")
    role ←
        catching (value_as validation_error)
          (Roles.assign_permissions role_id permission_ids actor (request_meta request))
    pure (one_role (map_role_detail role))

  unfoldable pub remove_permissions : ℕ → List ℕ → Action Content
  remove_permissions role_id permission_ids = do
    actor ← guarded_actor platform request (lit "roles:manage")
    role ←
        catching (value_as validation_error)
          (Roles.remove_permissions role_id permission_ids actor (request_meta request))
    pure (one_role (map_role_detail role))
