-- ===== src/Api/Routes/Verdicts.antt =====
-- What the check of a request's token comes to.
use financial_data.Prelude.{ℕ, ◌≡◌, refl, Option, none, some, if◌then◌else◌}
use financial_data.Text.{Text}
use financial_data.Result.{
  Result, ok, err, Error, Message, authentication_error, value_error, permission_error,
  token_revoked, missing_jti, invalid_token, bearer_required,
}
use financial_data.Crypto.{Payload, TokenContext}
use financial_data.Cache
use financial_data.CacheKeys.{blacklist, CacheValue}
use financial_data.World.{World, ◌>>=◌, pure, raise, utcnow, or_raise}
use financial_data.TokenService.{Ttl, decode_access_token, refuse_listed}
use financial_data.UseCases.Tokens.{get_token_payload, as_authentication}

-- What the cache answers of the blacklist.
abbrev pub listed : World → ℕ → Option CacheValue
listed w jti =
    if w.cache_up then Cache.value_of (Cache.live w.now (w.cache (blacklist jti))) else none

-- The checks of an access token, with no state.
abbrev pub answered : Payload → Option CacheValue → Result Payload
answered payload none = ok payload
answered payload (some v) = err (permission_error token_revoked)

abbrev pub named : Payload → Option ℕ → (ℕ → Option CacheValue) → Result Payload
named payload none look = err (value_error missing_jti)
named payload (some jti) look = answered payload (look jti)

abbrev pub verdict : Option Payload → (ℕ → Option CacheValue) → Result Payload
verdict none look = err (value_error invalid_token)
verdict (some payload) look = named payload payload.jti look

listed_step :
    (payload : Payload) (v : Option CacheValue) (w : World)
    → refuse_listed payload v w ≡ (answered payload v, w)
unfolding pure raise
listed_step payload none w = refl
listed_step payload (some v) w = refl

named_step :
    (payload : Payload) (jti : Option ℕ) (w : World)
    → (or_raise jti (value_error missing_jti) >>= λ j.
          Cache.get (blacklist j) >>= λ v. refuse_listed payload v)
        w
      ≡ (named payload jti (listed w), w)
unfolding ◌>>=◌ or_raise pure raise Cache.get
named_step payload none w = refl
named_step payload (some j) w = listed_step payload (listed w j) w

module _ (context : TokenContext) (ttl : Ttl) where
  verdict_step :
      (o : Option Payload) (w : World)
      → (or_raise o (value_error invalid_token) >>= λ payload.
            or_raise payload.jti (value_error missing_jti) >>= λ j.
            Cache.get (blacklist j) >>= λ v. refuse_listed payload v)
          w
        ≡ (verdict o (listed w), w)
  unfolding ◌>>=◌ or_raise pure raise
  verdict_step none w = refl
  verdict_step (some payload) w = named_step payload payload.jti w

  decode_run :
      (raw : Text) (w : World)
      → decode_access_token context ttl raw w ≡ (verdict (context.decode w.now raw) (listed w), w)
  unfolding decode_access_token ◌>>=◌ utcnow
  decode_run raw w = verdict_step (context.decode w.now raw) w

  abbrev pub verdict_of : Option Text → World → Result Payload
  verdict_of none w = err (authentication_error bearer_required)
  verdict_of (some raw) w =
      as_authentication context ttl (verdict (context.decode w.now raw) (listed w))

  -- The token of a request is checked without a change of the state.
  pub payload_run :
      (raw : Option Text) (w : World) → get_token_payload context ttl raw w ≡ (verdict_of raw w, w)
  unfolding get_token_payload raise
  payload_run none w = refl
  payload_run (some raw) w = rw (decode_run raw w) refl

answered_fails :
    (context : TokenContext) (ttl : Ttl) (payload : Payload) (v : Option CacheValue) (e : Error)
    → as_authentication context ttl (answered payload v) ≡ err e
    → (m : Message) × (e ≡ authentication_error m)
answered_fails context ttl payload none e h = cc
answered_fails context ttl payload (some v) e h = (token_revoked, cc)

named_fails :
    (context : TokenContext) (ttl : Ttl) (payload : Payload) (jti : Option ℕ)
    (look : ℕ → Option CacheValue) (e : Error)
    → as_authentication context ttl (named payload jti look) ≡ err e
    → (m : Message) × (e ≡ authentication_error m)
named_fails context ttl payload none look e h = (missing_jti, cc)
named_fails context ttl payload (some j) look e h = answered_fails context ttl payload (look j) e h

pub verdict_fails :
    (context : TokenContext) (ttl : Ttl) (o : Option Payload) (look : ℕ → Option CacheValue)
    (e : Error)
    → as_authentication context ttl (verdict o look) ≡ err e
    → (m : Message) × (e ≡ authentication_error m)
verdict_fails context ttl none look e h = (invalid_token, cc)
verdict_fails context ttl (some payload) look e h =
    named_fails context ttl payload payload.jti look e h
