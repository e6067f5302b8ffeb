-- ===== src/Api/Http.antt =====
-- What an endpoint gets of a request, the guards of app/core/dependencies.py as the endpoints combine
-- them, and the translation of exceptions at the endpoints.
use financial_data.Prelude.{ℕ, Bool, not, Option, none, some, List, []}
use financial_data.Text.{Text, lit, text_in}
use financial_data.Result.{
  ok, Result, err, value_error, permission_error, key_error, Error, Message, authorization_error,
  permission_required,
}
use financial_data.Crypto.{PasswordContext, Payload, TokenContext}
use financial_data.TokenService.{Ttl}
use financial_data.Entities.Audit.{RequestMeta}
use financial_data.Entities.Category.{Category}
use financial_data.Entities.User.{User}
use financial_data.Database.{FinancialRecordModel}
use financial_data.Repositories.Aggregates.{Dialect}
use financial_data.World.{Action, pure, raise_if, or_raise, ◌>>=◌, ◌>>◌}
use financial_data.UseCases.Users
use financial_data.UseCases.Tokens

-- What the program takes from its libraries and its database: the hashes and the tokens, HTTPBearer's
-- reading of the Authorization header, the text of a UUID, and the operators of SQL.
pub record Platform : Type 0 where
  pub passwords : PasswordContext
  pub tokens : TokenContext
  pub ttl : Ttl
  pub bearer : Option Text → Option Text
  pub str_uuid : ℕ → Text
  pub ilike : Text → Text → Bool
  pub matches : Text → FinancialRecordModel → Bool
  pub by_date : List FinancialRecordModel → List FinancialRecordModel
  pub by_name : List Category → List Category
  pub dialect : Dialect

-- The body that `await request.json()` reads: no JSON, JSON that is no object, or an object, of which
-- only the text `refresh_token` is asked for.
pub data JsonBody : Type 0 where
  malformed no_object : JsonBody
  object : Option Text → JsonBody

-- The headers that the program reads, `none` where the request has none, the host of the client,
-- and the body.
pub record Request : Type 0 where
  pub x_request_id : Option Text
  pub user_agent : Option Text
  pub authorization : Option Text
  pub content_type : Option Text
  pub client_host : Option Text
  pub body : JsonBody

-- headers.get(name, default)
abbrev pub get_or : Option Text → Text → Text
get_or none default = default
get_or (some s) default = s

-- _request_meta, which every router has a copy of (`_meta`)
unfoldable pub request_meta : Request → RequestMeta
request_meta request = record {
  request_id = get_or request.x_request_id [];
  ip_address = get_or request.client_host (lit "unknown");
  user_agent = get_or request.user_agent [];
}

-- except ValueError as exc: raise error(str(exc))
abbrev pub value_as : (Message → Error) → Error → Error
value_as error (value_error m) = error m
value_as error e = e

-- except PermissionError as exc: raise error(str(exc))
abbrev pub permission_as : (Message → Error) → Error → Error
permission_as error (permission_error m) = error m
permission_as error e = e

abbrev pub rethrow : {A : Type 0} → (Error → Error) → Result A → Result A
rethrow handler (ok a) = ok a
rethrow handler (err e) = err (handler e)

-- try: … except …
unfoldable pub catching : {A : Type 0} → (Error → Error) → Action A → Action A
catching handler m w = let (r, w') = m w in (rethrow handler r, w')

-- Depends(get_token_payload) and Depends(require_permission(codename)): the payload is decoded once
-- for a request.
unfoldable pub guard : Platform → Request → Text → Action Payload
guard platform request codename = do
  payload ←
      Tokens.get_token_payload platform.tokens platform.ttl (platform.bearer request.authorization)
  raise_if (not (text_in codename payload.permissions)) (authorization_error permission_required)
  pure payload

-- uuid.UUID(payload["sub"])
abbrev pub subject : Payload → Action ℕ
subject payload = or_raise payload.sub key_error

-- The guard, and then `actor = await actor_uc.execute(uuid.UUID(payload["sub"]))`.
unfoldable pub guarded_actor : Platform → Request → Text → Action User
unfolding guard
guarded_actor platform request codename = do
  payload ← guard platform request codename
  actor_id ← subject payload
  Users.get_user actor_id
