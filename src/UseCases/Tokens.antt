-- ===== src/UseCases/Tokens.antt =====
-- app/application/use_cases/auth/refresh.py and logout.py, and the permission check of
-- app/core/dependencies.py.
use financial_data.Prelude.{ℕ, true, not, Option, none, some, List, [], ◌∷◌}
use financial_data.Text.{Text, lit, text_in}
use financial_data.Json
use financial_data.Result.{
  Result, err, value_error, permission_error, authentication_error, authorization_error,
  inactive_user, invalid_token, bearer_required, permission_required,
}
use financial_data.Crypto.{Payload, TokenContext}
use financial_data.Entities.Enums.{ActionType}
use financial_data.Entities.User.{User, get_role_names}
use financial_data.Entities.Audit.{RequestMeta, create_success}
use financial_data.TokenService.{
  Ttl, decode_refresh_token, rotate_refresh_token, blacklist_access_token, revoke_refresh_token,
  decode_access_token,
}
use financial_data.World.{
  Action, pure, raise, raise_if, or_raise, uuid4, utcnow, commit, with_uow, ◌>>=◌, ◌>>◌,
}
use financial_data.Repositories.Audit
use financial_data.Repositories.Users
use financial_data.UseCases.Auditing.{log_success, one_entry}
use financial_data.UseCases.Login.{TokenDto, active_user}

-- The audit entry of a logout, whose actor may be gone.
abbrev pub actor_email : Option User → Text
actor_email none = lit "unknown"
actor_email (some user) = user.email.value

abbrev pub actor_roles : Option User → List Text
actor_roles none = []
actor_roles (some user) = get_role_names user

module _ (context : TokenContext) (ttl : Ttl) where
  -- RefreshTokenUseCase.execute
  unfoldable pub refresh : Text → RequestMeta → Action TokenDto
  refresh refresh_token meta = do
    payload ← decode_refresh_token context ttl refresh_token
    user_id ← or_raise payload.sub (value_error invalid_token)
    with_uow do
      found ← Users.get_by_id user_id
      user ← or_raise (active_user found) (value_error inactive_user)
      (access_token, new_refresh_token) ← rotate_refresh_token context ttl refresh_token
      log_success user ActionType.auth_token_refresh (lit "auth") meta none none none none
      commit
      pure (record { access_token = access_token; refresh_token = new_refresh_token })

  -- if dto.refresh_token: …
  abbrev pub revoke_given : ℕ → Text → Action (Unit {0})
  revoke_given user_id [] = pure tt
  revoke_given user_id (c ∷ raw) = revoke_refresh_token context ttl user_id (c ∷ raw)

  -- LogoutUseCase.execute
  unfoldable pub logout : ℕ → Text → Text → RequestMeta → Action (Unit {0})
  logout user_id access_token refresh_token meta = with_uow do
    blacklist_access_token context ttl access_token
    revoke_given user_id refresh_token
    found ← Users.get_by_id user_id
    id ← uuid4
    now ← utcnow
    Audit.log (
        create_success id now user_id (actor_email found) (actor_roles found) ActionType.auth_logout
          (lit "auth") meta none none (one_entry (lit "token_revoked") (Json.flag true)) none)
    commit
    pure tt

  -- except PermissionError, ValueError: raise AuthenticationError
  abbrev pub as_authentication : Result Payload → Result Payload
  as_authentication (err (value_error m)) = err (authentication_error m)
  as_authentication (err (permission_error m)) = err (authentication_error m)
  as_authentication r = r

  -- get_token_payload, of the token of the Authorization header
  unfoldable pub get_token_payload : Option Text → Action Payload
  get_token_payload none w = raise (authentication_error bearer_required) w
  get_token_payload (some raw) w =
      let (r, w') = decode_access_token context ttl raw w in (as_authentication r, w')

  -- require_permission(codename)
  unfoldable pub require_permission : Text → Option Text → Action (Unit {0})
  unfolding get_token_payload
  require_permission codename credentials = do
    payload ← get_token_payload credentials
    raise_if (not (text_in codename payload.permissions)) (authorization_error permission_required)
