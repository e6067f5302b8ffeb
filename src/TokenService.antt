-- ===== src/TokenService.antt =====
-- app/infrastructure/security/token_service.py. Its sessions are its own: a write of the table of
-- refresh tokens is committed at once, and the users are read from what is committed.
pub mod Rotation
pub mod Access
use financial_data.Prelude.{
  ℕ, ◌+◌, ◌-◌, ◌*◌, Bool, true, false, ◌&&◌, Option, none, some, List, [], ◌∷◌, ◌++◌, ◌==◌, ltb,
  if◌then◌else◌, select, find?, update_where,
}
use financial_data.Text.{Text, text_eq}
use financial_data.Result.{
  Result, ok, err, value_error, permission_error, key_error, multiple_results, invalid_token,
  missing_jti, token_revoked, token_not_found, token_expired, user_gone,
}
use financial_data.CacheKeys.{CacheValue, number, blacklist}
use financial_data.Cache
use financial_data.Crypto.{Payload, TokenContext}
use financial_data.Entities.User.{User, get_role_names, get_all_permissions}
use financial_data.Database.{map_user}
use financial_data.World.{
  RefreshTokenModel, Action, pure, raise, lift, gets, modify, raise_if, or_raise, uuid4, utcnow,
  ◌>>=◌, ◌>>◌,
}
use financial_data.Repositories.Paging.{map_found}
use financial_data.Repositories.Users.{live_id}

-- ACCESS_TOKEN_EXPIRE_MINUTES and REFRESH_TOKEN_EXPIRE_DAYS of the settings
pub record Ttl : Type 0 where
  pub access_minutes : ℕ
  pub refresh_days : ℕ

-- result.scalar_one_or_none()
unfoldable pub scalar_one_or_none : {A : Type 0} → List A → Result (Option A)
scalar_one_or_none [] = ok none
scalar_one_or_none (a ∷ []) = ok (some a)
scalar_one_or_none (a ∷ b ∷ rows) = err multiple_results

-- if blacklisted: raise PermissionError(…)
abbrev pub refuse_listed : Payload → Option CacheValue → Action Payload
refuse_listed payload none = pure payload
refuse_listed payload (some v) = raise (permission_error token_revoked)

module _ (context : TokenContext) (ttl : Ttl) where
  open context use {encode, decode, hash}

  abbrev pub access_payload : ℕ → ℕ → User → Payload
  access_payload jti now user = record {
    sub = some user.id;
    roles = get_role_names user;
    permissions = get_all_permissions user;
    jti = some jti;
    iat = now;
    exp = some (now + ttl.access_minutes * 60);
  }

  -- create_access_token, of a user's identifier, role names and permissions
  unfoldable pub create_access_token : User → Action Text
  create_access_token user = do
    now ← utcnow
    jti ← uuid4
    pure (encode (access_payload jti now user))

  -- decode_access_token
  unfoldable pub decode_access_token : Text → Action Payload
  decode_access_token raw = do
    now ← utcnow
    payload ← or_raise (decode now raw) (value_error invalid_token)
    jti ← or_raise payload.jti (value_error missing_jti)
    blacklisted ← Cache.get (blacklist jti)
    refuse_listed payload blacklisted

  -- The seconds that a token has left, where it names its identifier and its expiry.
  abbrev pub blacklist_claims : Option ℕ → Option ℕ → ℕ → Action (Unit {0})
  blacklist_claims (some jti) (some exp) now =
      if ltb now exp then Cache.set (blacklist jti) (number 1) (exp - now) else pure tt
  blacklist_claims _ _ now = pure tt

  abbrev pub blacklist_payload : Option Payload → ℕ → Action (Unit {0})
  blacklist_payload none now = pure tt
  blacklist_payload (some payload) now = blacklist_claims payload.jti payload.exp now

  -- blacklist_access_token
  unfoldable pub blacklist_access_token : Text → Action (Unit {0})
  blacklist_access_token raw = do now ← utcnow; blacklist_payload (decode now raw) now

  abbrev pub refresh_payload : ℕ → ℕ → ℕ → Payload
  refresh_payload jti now user_id = record {
    sub = some user_id;
    roles = [];
    permissions = [];
    jti = some jti;
    iat = now;
    exp = some (now + ttl.refresh_days * 86400);
  }

  abbrev pub token_row : ℕ → ℕ → ℕ → Text → RefreshTokenModel
  token_row id now user_id raw = record {
    id = id;
    user_id = user_id;
    token_hash = hash raw;
    expires_at = now + ttl.refresh_days * 86400;
    revoked = false;
  }

  -- create_and_store_refresh_token
  unfoldable pub create_and_store_refresh_token : ℕ → Action Text
  create_and_store_refresh_token user_id = do
    now ← utcnow
    jti ← uuid4
    let raw = encode (refresh_payload jti now user_id)
    id ← uuid4
    modify (λ w. record w { tokens = w.tokens ++ token_row id now user_id raw ∷ [] })
    pure raw

  -- decode_refresh_token
  unfoldable pub decode_refresh_token : Text → Action Payload
  decode_refresh_token raw = do now ← utcnow; or_raise (decode now raw) (value_error invalid_token)

  -- RefreshTokenModel.token_hash == old_hash, RefreshTokenModel.user_id == user_id
  abbrev pub is_token : ℕ → Text → RefreshTokenModel → Bool
  is_token user_id raw m = text_eq m.token_hash (hash raw) && m.user_id == user_id

  -- The stored record of a token, and the checks of step 1.
  unfoldable pub valid_record : ℕ → Text → Action RefreshTokenModel
  valid_record user_id raw = do
    now ← utcnow
    rows ← gets (λ w. select (is_token user_id raw) w.tokens)
    found ← lift (scalar_one_or_none rows)
    token ← or_raise found (value_error token_not_found)
    raise_if token.revoked (value_error token_revoked)
    raise_if (ltb token.expires_at now) (value_error token_expired)
    pure token

  abbrev pub revoke_row : RefreshTokenModel → RefreshTokenModel
  revoke_row m = record m { revoked = true }

  -- The user with fresh roles and permissions, of step 3.
  unfoldable pub load_user : ℕ → Action User
  load_user user_id = do
    loaded ←
        gets (λ w. map_found (map_user w.committed) (find? (live_id user_id) w.committed.users))
    found ← lift loaded
    or_raise found (value_error user_gone)

  -- rotate_refresh_token: nothing is written before the commit at its end
  unfoldable pub rotate_refresh_token : Text → Action (Text × Text)
  rotate_refresh_token raw = do
    payload ← decode_refresh_token raw
    user_id ← or_raise payload.sub key_error
    token ← valid_record user_id raw
    user ← load_user user_id
    access ← create_access_token user
    now ← utcnow
    jti ← uuid4
    let new_raw = encode (refresh_payload jti now user_id)
    id ← uuid4
    modify (λ w. record w {
      tokens =
          update_where (λ m. m.id == token.id) revoke_row w.tokens
          ++ token_row id now user_id new_raw ∷ [];
    })
    pure (access, new_raw)

  abbrev pub revoke_found : Option RefreshTokenModel → Action (Unit {0})
  revoke_found none = pure tt
  revoke_found (some token) =
      if token.revoked
      then pure tt
      else modify
          (λ w. record w { tokens = update_where (λ m. m.id == token.id) revoke_row w.tokens })

  -- revoke_refresh_token
  unfoldable pub revoke_refresh_token : ℕ → Text → Action (Unit {0})
  revoke_refresh_token user_id raw = do
    rows ← gets (λ w. select (is_token user_id raw) w.tokens)
    found ← lift (scalar_one_or_none rows)
    revoke_found found
