-- ===== src/TokenService/Access.antt =====
-- Access tokens: what an issued token decodes to, and that a blacklisted one is refused.
use financial_data.Prelude.{
  ℕ, ◌≡◌, ◌≤◌, ◌<◌, refl, ap, ◌+◌, ◌-◌, ◌*◌, true, none, some, [], ◌∷◌, ==_refl, if◌then◌else◌,
  select, select-append, arith,
}
use financial_data.Text.{Text}
use financial_data.Text.Laws.{text_eq_refl}
use financial_data.Result.{Result, ok, err, permission_error, token_revoked}
use financial_data.CacheKeys.{CacheEntry, CacheValue, number, blacklist, key_eq}
use financial_data.Cache
use financial_data.Crypto.{Payload, TokenContext}
use financial_data.Entities.User.{User}
use financial_data.World.{World, pure, raise, or_raise, modify, uuid4, utcnow, ◌>>=◌}
use financial_data.TokenService.{
  Ttl, access_payload, refresh_payload, token_row, is_token, create_access_token,
  decode_access_token, blacklist_access_token, create_and_store_refresh_token,
}
use financial_data.TokenService.Rotation.{IsUsable}

-- The identifier is not on the blacklist, as far as the cache answers.
abbrev pub Unlisted : ℕ → World → Type 0
Unlisted jti w =
    (if w.cache_up then Cache.value_of (Cache.live w.now (w.cache (blacklist jti))) else none)
    ≡ none

module _ (context : TokenContext) (ttl : Ttl) where
  open context use {encode, decode, hash, decode-encode}

  decode_access_token_lem :
      (w : World) (raw : Text) (payload : Payload) (jti : ℕ)
      → decode w.now raw ≡ some payload
      → payload.jti ≡ some jti
      → Unlisted jti w
      → decode_access_token context ttl raw w ≡ (ok payload, w)
  unfolding decode_access_token ◌>>=◌ utcnow or_raise pure Cache.get
  decode_access_token_lem w raw payload jti d j n = ground arith

  listed_refused :
      (w : World) (raw : Text) (payload : Payload) (jti : ℕ) (v : CacheValue)
      → decode w.now raw ≡ some payload
      → payload.jti ≡ some jti
      → (if w.cache_up then Cache.value_of (Cache.live w.now (w.cache (blacklist jti))) else none)
        ≡ some v
      → decode_access_token context ttl raw w ≡ (err (permission_error token_revoked), w)
  unfolding decode_access_token ◌>>=◌ utcnow or_raise pure raise Cache.get
  listed_refused w raw payload jti v d j n = ground arith

  -- The claims of an access token that is issued in `w`.
  abbrev pub issued : World → User → Payload
  issued w user = access_payload context ttl (w.uuids 0) w.now user

  -- An issued access token is accepted, with its claims, by any state within its lifetime that does
  -- not list its identifier.
  pub access_token_accepted :
      (w v : World) (user : User)
      → v.now ≤ w.now + ttl.access_minutes * 60
      → Unlisted (w.uuids 0) v
      → ((create_access_token context ttl user w).0 ≡ ok (encode (issued w user)))
        × (decode_access_token context ttl (encode (issued w user)) v ≡ (ok (issued w user), v))
  unfolding create_access_token ◌>>=◌ utcnow uuid4 pure
  access_token_accepted w v user within n = (
    refl,
    decode_access_token_lem v (encode (issued w user)) (issued w user) (w.uuids 0)
        (decode-encode v.now (w.now + ttl.access_minutes * 60) (issued w user) refl within) refl n,
  )

  -- Blacklisting an access token that has not run out, while the cache answers, makes it refused as revoked
  -- at that time and at every later second before its expiry; but in the second of its expiry, in which it
  -- still decodes, the entry is gone, and the token is accepted again.
  pub blacklist_access_token_lem :
      (w : World) (raw : Text) (payload : Payload) (jti exp later : ℕ)
      → w.cache_up ≡ true
      → decode w.now raw ≡ some payload
      → payload.jti ≡ some jti
      → payload.exp ≡ some exp
      → later < exp
      → w.now ≤ later
      → decode later raw ≡ some payload
      → decode exp raw ≡ some payload
      → (w' : World) × (blacklist_access_token context ttl raw w ≡ (ok tt, w'))
        × (decode_access_token context ttl raw (record w' { now = later })
            ≡ (err (permission_error token_revoked), record w' { now = later }))
        × (decode_access_token context ttl raw (record w' { now = exp })
            ≡ (ok payload, record w' { now = exp }))
  unfolding blacklist_access_token ◌>>=◌ utcnow pure Cache.set Cache.put Cache.live key_eq
  blacklist_access_token_lem w raw payload jti exp later up d j e l n d' at_end =
      let entry : CacheEntry = record {
        value = number 1;
        expires_at = some (w.now + (exp - w.now));
      } in
      let w' : World = record w { cache = Cache.put (blacklist jti) (some entry) w.cache } in
      (
        w',
        ground (arith, d, j, e, up),
        listed_refused (record w' { now = later }) raw payload jti (number 1) d' j
            (rw up (ground (arith, ==_refl jti))),
        decode_access_token_lem (record w' { now = exp }) raw payload jti at_end j
            (rw up (ground (arith, ==_refl jti))),
      )

  -- A refresh token is accepted where an access token is asked for: nothing in it says which it is.
  pub refresh_token_accepted :
      (w v : World) (user_id : ℕ)
      → v.now ≤ w.now + ttl.refresh_days * 86400
      → Unlisted (w.uuids 0) v
      → (raw : Text) × ((create_and_store_refresh_token context ttl user_id w).0 ≡ ok raw)
        × ((decode_access_token context ttl raw v).0
            ≡ ok (refresh_payload context ttl (w.uuids 0) w.now user_id))
  unfolding create_and_store_refresh_token ◌>>=◌ utcnow uuid4 modify pure
  refresh_token_accepted w v user_id within n =
      let payload = refresh_payload context ttl (w.uuids 0) w.now user_id in
      (
        encode payload,
        refl,
        ap (λ (p : Result Payload × World). p.0)
            (decode_access_token_lem v (encode payload) payload (w.uuids 0)
              (decode-encode v.now (w.now + ttl.refresh_days * 86400) payload refl within) refl n),
      )

  -- A refresh token that is issued is usable at once, provided that no row of the user has its hash.
  pub issued-IsUsable :
      (w : World) (user_id : ℕ)
      → let payload = refresh_payload context ttl (w.uuids 0) w.now user_id in
        select (is_token context ttl user_id (encode payload)) w.tokens ≡ []
        → (w' : World) × (create_and_store_refresh_token context ttl user_id w
            ≡ (ok (encode payload), w'))
          × IsUsable context ttl
              (encode payload)
              w'
              user_id
              (token_row context ttl (w.uuids 1) w.now user_id (encode payload))
  unfolding create_and_store_refresh_token ◌>>=◌ utcnow uuid4 modify pure select
  issued-IsUsable w user_id none_yet =
      let payload = refresh_payload context ttl (w.uuids 0) w.now user_id in
      let row = token_row context ttl (w.uuids 1) w.now user_id (encode payload) in
      (
        _,
        refl,
        record {
          payload = payload;
          decodes =
              decode-encode w.now (w.now + ttl.refresh_days * 86400) payload refl (omega arith);
          subject = refl;
          stored =
              rw
                (
                  select-append (is_token context ttl user_id (encode payload)) w.tokens (row ∷ []),
                  none_yet,
                  text_eq_refl (hash (encode payload)),
                  ==_refl user_id,
                )
                refl;
          unrevoked = refl;
          unexpired = omega arith;
        },
      )
