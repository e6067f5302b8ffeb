-- ===== src/Api/Auth.antt =====
-- app/api/v1/auth.py and app/api/schemas/auth.py.
use financial_data.Prelude.{Option, none, some, [], ◌∷◌, ◌==◌, if◌then◌else◌}
use financial_data.Text.{Text, lit, strip}
use financial_data.Result.{
  Result, ok, err, Error, value_error, permission_error, attribute_error, request_validation_error,
  conflict_error, authentication_error, blank_name, malformed_json, invalid_login,
}
use financial_data.World.{Action, pure, lift, raise, ◌>>=◌, ◌>>◌}
use financial_data.UseCases.Login
use financial_data.UseCases.Register
use financial_data.UseCases.Register.{RegisterDto}
use financial_data.UseCases.Tokens
use financial_data.Api.Http.{
  Platform, Request, JsonBody, malformed, no_object, object, get_or, request_meta, value_as,
  catching, subject,
}
use financial_data.Api.Responses.{Content, one_user, tokens, success, map_user}

-- RegisterRequest.name_not_empty
unfoldable pub name_not_empty : Text → Result Text
name_not_empty v = elim (strip v) [
  | [] ↦ err (request_validation_error blank_name)
  | c ∷ s ↦ ok (c ∷ s)
]

-- What follows the prefix.
unfoldable pub after_prefix : Text → Text → Option Text
after_prefix [] s = some s
after_prefix (c ∷ prefix) [] = none
after_prefix (c ∷ prefix) (d ∷ s) =
    let rest = after_prefix prefix s in if c == d then rest else none

-- s.removeprefix(prefix)
unfoldable pub removeprefix : Text → Text → Text
unfolding after_prefix
removeprefix prefix s = elim (after_prefix prefix s) [ none ↦ s | some rest ↦ rest ]

-- (await request.json()).get("refresh_token", "") if request.headers.get("content-type") else ""
unfoldable pub refresh_field : JsonBody → Action Text
refresh_field malformed = raise (value_error malformed_json)
refresh_field no_object = raise attribute_error
refresh_field (object field) = pure (get_or field [])

unfoldable pub refresh_token_of : Request → Action Text
unfolding refresh_field
refresh_token_of request = elim (get_or request.content_type []) [
  | [] ↦ pure []
  | c ∷ s ↦ refresh_field request.body
]

-- auth_header.removeprefix("Bearer ").strip()
unfoldable pub raw_access_token : Request → Text
unfolding removeprefix
raw_access_token request = strip (removeprefix (lit "Bearer ") (get_or request.authorization []))

-- except PermissionError: its message; except ValueError: "Invalid credentials"
abbrev pub as_login : Error → Error
as_login (value_error m) = authentication_error invalid_login
as_login (permission_error m) = authentication_error m
as_login e = e

module _ (platform : Platform) (request : Request) where
  unfoldable pub register : RegisterDto → Action Content
  register body = do
    full_name ← lift (name_not_empty body.full_name)
    user ← catching (value_as conflict_error) (
        Register.register platform.passwords (record body { full_name = full_name })
          (request_meta request))
    pure (one_user (map_user user))

  unfoldable pub login : Text → Text → Action Content
  login email password = do
    issued ← catching as_login (
        Login.login platform.passwords platform.tokens platform.ttl
          (record { email = email; password = password; meta = request_meta request }))
    pure (tokens issued)

  unfoldable pub refresh : Text → Action Content
  refresh refresh_token = do
    issued ←
        catching (value_as authentication_error)
          (Tokens.refresh platform.tokens platform.ttl refresh_token (request_meta request))
    pure (tokens issued)

  unfoldable pub logout : Action Content
  unfolding raw_access_token refresh_token_of
  logout = do
    payload ←
        Tokens.get_token_payload platform.tokens platform.ttl
          (platform.bearer request.authorization)
    refresh_token ← refresh_token_of request
    user_id ← subject payload
    Tokens.logout platform.tokens platform.ttl user_id (raw_access_token request) refresh_token
        (request_meta request)
    pure (success (lit "Logged out successfully"))
