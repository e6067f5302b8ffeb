-- ===== src/Api/Routes.antt =====
-- app/api/v1/router.py, app/core/exceptions.py, app/middleware/error_handler.py and request_id.py, and
-- app/main.py: every route with its endpoint, and the way from its result to a response. The layers
-- are, from the outside, the handler of unexpected exceptions, RequestIDMiddleware, and the handlers
-- of the program's own exceptions (Starlette's order).
pub mod Verdicts
pub mod Guards
pub mod Tokens
pub mod Failures
pub mod Audited
pub mod Actors
pub mod RequestIds
use financial_data.Prelude.{ℕ, Bool, true, false, Option, none, some, List, [], ◌∷◌}
use financial_data.Text.{Text, lit}
use financial_data.Result.{
  Result, ok, err, Error, Message, authentication_error, authorization_error, not_found_error,
  conflict_error, validation_error, request_validation_error,
}
use financial_data.Money.{Decimal}
use financial_data.Entities.Enums.{CategoryType}
use financial_data.World.{World, Action, pure, uuid4, ◌>>=◌}
use financial_data.Repositories.Records.{RecordFilters}
use financial_data.UseCases.Users.{CreateUserDto}
use financial_data.UseCases.Register.{RegisterDto}
use financial_data.UseCases.Records.{CreateRecordDto, UpdateRecordDto}
use financial_data.UseCases.Dashboard.{DashboardFilterDto, TrendsFilterDto}
use financial_data.Api.Http.{Platform, Request}
use financial_data.Api.Responses.{Content}
use financial_data.Api.Auth
use financial_data.Api.Users
use financial_data.Api.Roles
use financial_data.Api.Categories
use financial_data.Api.Records
use financial_data.Api.Dashboards

-- The routes with their parameters and bodies.
pub data Route : Type 0 where
  register : RegisterDto → Route
  login : Text → Text → Route
  refresh : Text → Route
  logout : Route
  list_users : ℕ → ℕ → Option Text → Bool → Route
  create_user : CreateUserDto → Route
  get_user : ℕ → Route
  update_user : ℕ → Option Text → Route
  delete_user : ℕ → Route
  change_status : ℕ → Bool → Route
  assign_role remove_role : ℕ → ℕ → Route
  list_records : RecordFilters → Route
  create_record : CreateRecordDto → Route
  get_record : ℕ → Route
  update_record : UpdateRecordDto → Route
  delete_record : ℕ → Route
  list_categories : ℕ → ℕ → Option CategoryType → Bool → Route
  create_category : Text → CategoryType → Text → Route
  get_category : ℕ → Route
  update_category : ℕ → Option Text → Option Text → Option Bool → Route
  delete_category : ℕ → Route
  list_roles : ℕ → ℕ → Bool → Route
  create_role : Text → Text → List ℕ → Route
  get_role : ℕ → Route
  update_role : ℕ → Option Text → Option Text → Option Bool → Route
  delete_role : ℕ → Route
  assign_permissions remove_permissions : ℕ → List ℕ → Route
  get_summary get_category_totals : DashboardFilterDto → Route
  get_trends : TrendsFilterDto → Route
  get_recent : Option ℕ → ℕ → Route

module _ (platform : Platform) (request : Request) where
  -- The endpoint of a route.
  unfoldable pub run : Route → Action Content
  run (register body) = Auth.register platform request body
  run (login email password) = Auth.login platform request email password
  run (refresh refresh_token) = Auth.refresh platform request refresh_token
  run logout = Auth.logout platform request
  run (list_users page page_size search include_deleted) =
      Users.list_users platform request page page_size search include_deleted
  run (create_user body) = Users.create_user platform request body
  run (get_user user_id) = Users.get_user platform request user_id
  run (update_user user_id full_name) = Users.update_user platform request user_id full_name
  run (delete_user user_id) = Users.delete_user platform request user_id
  run (change_status user_id is_active) = Users.change_status platform request user_id is_active
  run (assign_role user_id role_id) = Users.assign_role platform request user_id role_id
  run (remove_role user_id role_id) = Users.remove_role platform request user_id role_id
  run (list_records dto) = Records.list_records platform request dto
  run (create_record body) = Records.create_record platform request body
  run (get_record record_id) = Records.get_record platform request record_id
  run (update_record dto) = Records.update_record platform request dto
  run (delete_record record_id) = Records.delete_record platform request record_id
  run (list_categories page page_size category_type include_inactive) =
      Categories.list_categories platform request page page_size category_type include_inactive
  run (create_category name category_type description) =
      Categories.create_category platform request name category_type description
  run (get_category category_id) = Categories.get_category platform request category_id
  run (update_category category_id name description is_active) =
      Categories.update_category platform request category_id name description is_active
  run (delete_category category_id) = Categories.delete_category platform request category_id
  run (list_roles page page_size include_inactive) =
      Roles.list_roles platform request page page_size include_inactive
  run (create_role name description permission_ids) =
      Roles.create_role platform request name description permission_ids
  run (get_role role_id) = Roles.get_role platform request role_id
  run (update_role role_id name description is_active) =
      Roles.update_role platform request role_id name description is_active
  run (delete_role role_id) = Roles.delete_role platform request role_id
  run (assign_permissions role_id permission_ids) =
      Roles.assign_permissions platform request role_id permission_ids
  run (remove_permissions role_id permission_ids) =
      Roles.remove_permissions platform request role_id permission_ids
  run (get_summary dto) = Dashboards.get_summary platform request dto
  run (get_category_totals dto) = Dashboards.get_category_totals platform request dto
  run (get_trends dto) = Dashboards.get_trends platform request dto
  run (get_recent user_id limit) = Dashboards.get_recent platform request user_id limit

-- The permission that a route demands, where it demands one: the table that the guards are checked
-- against.
unfoldable pub permission_of : Route → Option Text
permission_of (register body) = none
permission_of (login email password) = none
permission_of (refresh refresh_token) = none
permission_of logout = none
permission_of (list_users page page_size search include_deleted) = some (lit "users:read")
permission_of (create_user body) = some (lit "users:create")
permission_of (get_user user_id) = some (lit "users:read")
permission_of (update_user user_id full_name) = some (lit "users:update")
permission_of (delete_user user_id) = some (lit "users:delete")
permission_of (change_status user_id is_active) = some (lit "users:update")
permission_of (assign_role user_id role_id) = some (lit "users:update")
permission_of (remove_role user_id role_id) = some (lit "users:update")
permission_of (list_records dto) = some (lit "records:read")
permission_of (create_record body) = some (lit "records:create")
permission_of (get_record record_id) = some (lit "records:read")
permission_of (update_record dto) = some (lit "records:update")
permission_of (delete_record record_id) = some (lit "records:delete")
permission_of (list_categories page page_size category_type include_inactive) =
    some (lit "categories:read")
permission_of (create_category name category_type description) = some (lit "categories:create")
permission_of (get_category category_id) = some (lit "categories:read")
permission_of (update_category category_id name description is_active) =
    some (lit "categories:update")
permission_of (delete_category category_id) = some (lit "categories:delete")
permission_of (list_roles page page_size include_inactive) = some (lit "roles:manage")
permission_of (create_role name description permission_ids) = some (lit "roles:manage")
permission_of (get_role role_id) = some (lit "roles:manage")
permission_of (update_role role_id name description is_active) = some (lit "roles:manage")
permission_of (delete_role role_id) = some (lit "roles:manage")
permission_of (assign_permissions role_id permission_ids) = some (lit "roles:manage")
permission_of (remove_permissions role_id permission_ids) = some (lit "roles:manage")
permission_of (get_summary dto) = some (lit "dashboard:read")
permission_of (get_category_totals dto) = some (lit "dashboard:read")
permission_of (get_trends dto) = some (lit "dashboard:read")
permission_of (get_recent user_id limit) = some (lit "dashboard:read")

-- The status_code of a route's decorator, 200 where it has none.
unfoldable pub success_status : Route → ℕ
success_status (register body) = 201
success_status (create_user body) = 201
success_status (create_record body) = 201
success_status (create_category name category_type description) = 201
success_status (create_role name description permission_ids) = 201
success_status route = 200

-- The bodies of responses: of a success, of an exception of the program, of an invalid request, and
-- of the catch-all ("An unexpected error occurred").
pub data Body : Type 0 where
  content : Content → Body
  detail invalid : Message → Body
  unexpected : Body

pub record HttpResponse : Type 0 where
  pub status_code : ℕ
  pub body : Body
  pub x_request_id : Option Text

abbrev pub answer : ℕ → Body → HttpResponse
answer status_code body = record { status_code = status_code; body = body; x_request_id = none }

-- app_error_handler, of the status codes in core/exceptions.py, and FastAPI's 422 for an invalid
-- request; any other exception is passed on.
unfoldable pub app_error_handler : Error → Result HttpResponse
app_error_handler (authentication_error m) = ok (answer 401 (detail m))
app_error_handler (authorization_error m) = ok (answer 403 (detail m))
app_error_handler (not_found_error m) = ok (answer 404 (detail m))
app_error_handler (conflict_error m) = ok (answer 409 (detail m))
app_error_handler (validation_error m) = ok (answer 422 (detail m))
app_error_handler (request_validation_error m) = ok (answer 422 (invalid m))
app_error_handler e = err e

-- What the application returns to the middleware.
unfoldable pub respond : Route → Result Content → Result HttpResponse
unfolding app_error_handler success_status
respond route (ok c) = ok (answer (success_status route) (content c))
respond route (err e) = app_error_handler e

-- request.headers.get("X-Request-ID") or str(uuid.uuid4())
unfoldable pub request_id_of : (ℕ → Text) → Option Text → Action Text
request_id_of str_uuid (some (c ∷ s)) = pure (c ∷ s)
request_id_of str_uuid given = do id ← uuid4; pure (str_uuid id)

abbrev pub with_request_id : Text → Result HttpResponse → Result HttpResponse
with_request_id request_id (ok r) = ok (record r { x_request_id = some request_id })
with_request_id request_id (err e) = err e

-- RequestIDMiddleware.dispatch
unfoldable pub dispatch : Platform → Request → Route → Action HttpResponse
unfolding request_id_of run respond
dispatch platform request route = do
  request_id ← request_id_of platform.str_uuid request.x_request_id
  (λ w.
      let (r, w') = run platform request route w in
      (with_request_id request_id (respond route r), w'))

-- unhandled_error_handler
abbrev pub unhandled_error_handler : Result HttpResponse → HttpResponse
unhandled_error_handler (ok r) = r
unhandled_error_handler (err e) = answer 500 unexpected

-- The application.
unfoldable pub serve : Platform → Request → Route → World → HttpResponse × World
unfolding dispatch
serve platform request route w =
    let (r, w') = dispatch platform request route w in (unhandled_error_handler r, w')
