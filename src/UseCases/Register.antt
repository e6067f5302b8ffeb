-- ===== src/UseCases/Register.antt =====
-- app/application/use_cases/auth/register.py.
use financial_data.Prelude.{Option, none, some, [], ◌∷◌}
use financial_data.Text.{Text, lit}
use financial_data.Json
use financial_data.Json.{JsonDict}
use financial_data.Result.{value_error, already_exists}
use financial_data.Crypto.{PasswordContext}
use financial_data.Email
use financial_data.Entities.Enums.{ActionType}
use financial_data.Entities.Role.{Role}
use financial_data.Entities.User
use financial_data.Entities.User.{User}
use financial_data.Entities.Audit.{RequestMeta}
use financial_data.World.{
  Action, pure, lift, raise_if, uuid4, utcnow, commit, with_uow, ◌>>=◌, ◌>>◌,
}
use financial_data.Repositories.Users
use financial_data.Repositories.Roles
use financial_data.UseCases.Auditing.{log_success}

pub record RegisterDto : Type 0 where
  pub email : Text
  pub password : Text
  pub full_name : Text

-- if viewer_role: user.assign_role(viewer_role)
abbrev pub assign_viewer : User → Option Role → User
assign_viewer u none = u
assign_viewer u (some role) = User.assign_role u role

-- The `after` snapshot.
abbrev pub registered : User → Option JsonDict
registered u = some (
    (lit "id", Json.id u.id)
    ∷ (lit "email", Json.text u.email.value)
    ∷ (lit "full_name", Json.text u.full_name)
    ∷ [])

-- RegisterUseCase.execute: the user is the actor
unfoldable pub register : PasswordContext → RegisterDto → RequestMeta → Action User
register context dto meta = with_uow do
  email ← lift (Email.new dto.email)
  taken ← Users.exists_by_email email
  raise_if taken (value_error already_exists)
  id ← uuid4
  salt ← uuid4
  now ← utcnow
  new_user ← lift (User.create context salt id now dto.email dto.password dto.full_name)
  viewer ← Roles.get_by_name (lit "viewer")
  let user = assign_viewer new_user viewer
  Users.add user
  log_success user ActionType.auth_register (lit "users") meta (some user.id) none (registered user)
      none
  commit
  pure user
