-- ===== src/TokenService/Rotation.antt =====
-- Refresh tokens: rotation revokes the old token and stores a new one, and an old token is refused.
use mathlib.Core.List.{append-nil}
use financial_data.Prelude.{
  select-append, select-update_where, ==_refl, suc, ap, ◌∙◌, ℕ, ◌≡◌, ◌≤◌, refl, true, false, some,
  List, [], ◌∷◌, ◌++◌, ◌==◌, select, find?, update_where, arith,
}
use financial_data.Text.{Text, text_eq}
use financial_data.Result.{Result, ok, err, value_error, token_revoked, invalid_token}
use financial_data.Crypto.{Payload, TokenContext}
use financial_data.Entities.User.{User}
use financial_data.Database.{UserModel, map_user}
use financial_data.World.{
  World, RefreshTokenModel, raise, or_raise, raise_if, pure, gets, lift, modify, uuid4, utcnow,
  ◌>>=◌,
}
use financial_data.World.Run.{or_raise-ok}
use financial_data.Repositories.Users.{live_id}
use financial_data.Repositories.Paging.{map_found}
use financial_data.TokenService.{
  Ttl, scalar_one_or_none, access_payload, refresh_payload, token_row, is_token, revoke_row,
  valid_record, load_user, create_access_token, decode_refresh_token, rotate_refresh_token,
  revoke_refresh_token,
}

module _ (context : TokenContext) (ttl : Ttl) (raw : Text) where
  open context use {encode, decode, hash}

  -- What a token must be for a rotation: it decodes to a user, and it is stored once, not revoked
  -- and not expired.
  pub record IsUsable (w : World) (user_id : ℕ) (token : RefreshTokenModel) : Type 0 where
    pub payload : Payload
    pub decodes : decode w.now raw ≡ some payload
    pub subject : payload.sub ≡ some user_id
    pub stored : select (is_token context ttl user_id raw) w.tokens ≡ token ∷ []
    pub unrevoked : token.revoked ≡ false
    pub unexpired : w.now ≤ token.expires_at

  decode_lem :
      (w : World) {payload : Payload}
      → decode w.now raw ≡ some payload
      → decode_refresh_token context ttl raw w ≡ (ok payload, w)
  unfolding decode_refresh_token utcnow ◌>>=◌
  decode_lem w e = or_raise-ok (decode w.now raw) (value_error invalid_token) w e

  valid_record_lem :
      (w : World) (user_id : ℕ) (token : RefreshTokenModel)
      → IsUsable w user_id token
      → valid_record context ttl user_id raw w ≡ (ok token, w)
  unfolding valid_record ◌>>=◌ scalar_one_or_none utcnow gets lift or_raise raise_if pure
  valid_record_lem w user_id token u = ground arith

  -- The tokens that a rotation issues, and the state that it leaves.
  abbrev pub new_access : World → User → Text
  new_access w user = encode (access_payload context ttl (w.uuids 0) w.now user)

  abbrev pub new_refresh : World → ℕ → Text
  new_refresh w user_id = encode (refresh_payload context ttl (w.uuids 1) w.now user_id)

  abbrev pub rotated : World → ℕ → RefreshTokenModel → World
  rotated w user_id token = record w {
    uuids = λ n. w.uuids (suc (suc (suc n)));
    tokens =
        update_where (λ m. m.id == token.id) (revoke_row context ttl) w.tokens
        ++ token_row context ttl (w.uuids 2) w.now user_id (new_refresh w user_id) ∷ [];
  }

  load_user_lem :
      (w : World) (user_id : ℕ) (m : UserModel) (user : User)
      → find? (live_id user_id) w.committed.users ≡ some m
      → map_user w.committed m ≡ ok user
      → load_user context ttl user_id w ≡ (ok user, w)
  unfolding load_user ◌>>=◌ gets lift or_raise pure map_found
  load_user_lem w user_id m user f e = ground arith

  -- A usable token of a user who is not deleted is rotated: the caller has an access token with the
  -- user's current roles and permissions and a new refresh token, the old row is revoked and the new one stored.
  pub rotate_refresh_token_lem :
      (w : World) (user_id : ℕ) (token : RefreshTokenModel) (m : UserModel) (user : User)
      → IsUsable w user_id token
      → find? (live_id user_id) w.committed.users ≡ some m
      → map_user w.committed m ≡ ok user
      → rotate_refresh_token context ttl raw w
        ≡ (ok (new_access w user, new_refresh w user_id), rotated w user_id token)
  unfolding rotate_refresh_token ◌>>=◌ or_raise pure utcnow uuid4 modify create_access_token
  rotate_refresh_token_lem w user_id token m user u f e = ground (
    arith,
    decode_lem w u.decodes,
    u.subject,
    valid_record_lem w user_id token u,
    load_user_lem w user_id m user f e,
  )

  -- A token whose row is revoked is refused, and nothing is changed.
  refused_revoked :
      (w : World) (payload : Payload) (user_id : ℕ) (token : RefreshTokenModel)
      → decode w.now raw ≡ some payload
      → payload.sub ≡ some user_id
      → select (is_token context ttl user_id raw) w.tokens ≡ token ∷ []
      → token.revoked ≡ true
      → rotate_refresh_token context ttl raw w ≡ (err (value_error token_revoked), w)
  unfolding rotate_refresh_token valid_record ◌>>=◌ scalar_one_or_none utcnow gets lift or_raise
      raise_if raise pure
  refused_revoked w payload user_id token d s e r = ground (arith, decode_lem w d)

  revoked_rows :
      (w : World) (user_id : ℕ) (token : RefreshTokenModel) (extra : List RefreshTokenModel)
      → select (is_token context ttl user_id raw) w.tokens ≡ token ∷ []
      → select (is_token context ttl user_id raw) extra ≡ []
      → select
          (is_token context ttl user_id raw)
          (update_where (λ m. m.id == token.id) (revoke_row context ttl) w.tokens ++ extra)
        ≡ record token { revoked = true } ∷ []
  unfolding update_where
  revoked_rows w user_id token extra e n =
      let p = is_token context ttl user_id raw in
      let q = λ (m : RefreshTokenModel). m.id == token.id in
      let f = revoke_row context ttl in
      rw
        (
          select-append p (update_where q f w.tokens) extra,
          select-update_where p q f (λ m. refl) w.tokens,
          e,
          n,
          ==_refl token.id,
        )
        refl

  later_rows :
      (user_id : ℕ) (rows extra : List RefreshTokenModel)
      → select (is_token context ttl user_id raw) extra ≡ []
      → select (is_token context ttl user_id raw) (rows ++ extra)
        ≡ select (is_token context ttl user_id raw) rows
  later_rows user_id rows extra n =
      select-append (is_token context ttl user_id raw) rows extra
      ∙ ap (λ l. select (is_token context ttl user_id raw) rows ++ l) n
      ∙ append-nil (select (is_token context ttl user_id raw) rows)

  -- After a rotation the token that was given is refused as revoked, in every state in which it still
  -- decodes to its claims and whose refresh tokens are those after the rotation and others behind them,
  -- and nothing is changed; provided that no token behind has its hash, the new one included.
  pub rotate_once :
      (w v : World) (user_id : ℕ) (token : RefreshTokenModel) (m : UserModel) (user : User)
      (extra : List RefreshTokenModel)
      → (u : IsUsable w user_id token) → find? (live_id user_id) w.committed.users ≡ some m
      → map_user w.committed m ≡ ok user
      → text_eq (hash (new_refresh w user_id)) (hash raw) ≡ false
      → decode v.now raw ≡ some u.payload
      → v.tokens ≡ (rotate_refresh_token context ttl raw w).1.tokens ++ extra
      → select (is_token context ttl user_id raw) extra ≡ []
      → rotate_refresh_token context ttl raw v ≡ (err (value_error token_revoked), v)
  unfolding select
  rotate_once w v user_id token m user extra u f e fresh d rows others =
      refused_revoked v u.payload user_id (record token { revoked = true }) d u.subject
        (ap (λ l. select (is_token context ttl user_id raw) l)
            (rows
              ∙ ap (λ (p : Result (Text × Text) × World). p.1.tokens ++ extra)
                  (rotate_refresh_token_lem w user_id token m user u f e))
          ∙ later_rows user_id (rotated w user_id token).tokens extra others
          ∙ revoked_rows w user_id token
              (token_row context ttl (w.uuids 2) w.now user_id (new_refresh w user_id) ∷ [])
              u.stored (rw fresh))
        refl

  revoke_run :
      (w : World) (user_id : ℕ) (token : RefreshTokenModel)
      → IsUsable w user_id token
      → revoke_refresh_token context ttl user_id raw w ≡ (
        ok tt,
        record w {
          tokens = update_where (λ m. m.id == token.id) (revoke_row context ttl) w.tokens;
        },
      )
  unfolding revoke_refresh_token ◌>>=◌ gets lift modify pure scalar_one_or_none
  revoke_run w user_id token u = ground (arith, u.stored, u.unrevoked)

  -- Revoking a usable token, as a logout does, succeeds; and a rotation of it is refused as revoked
  -- in every state in which it still decodes to its claims and whose refresh tokens are those after
  -- the revocation and others behind them, of which none has its hash.
  pub revoke_refresh_token_lem :
      (w v : World) (user_id : ℕ) (token : RefreshTokenModel) (extra : List RefreshTokenModel)
      → (u : IsUsable w user_id token) → decode v.now raw ≡ some u.payload
      → v.tokens ≡ (revoke_refresh_token context ttl user_id raw w).1.tokens ++ extra
      → select (is_token context ttl user_id raw) extra ≡ []
      → ((revoke_refresh_token context ttl user_id raw w).0 ≡ ok tt)
        × (rotate_refresh_token context ttl raw v ≡ (err (value_error token_revoked), v))
  revoke_refresh_token_lem w v user_id token extra u d rows others = (
    ap (λ (p : Result (Unit {0}) × World). p.0) (revoke_run w user_id token u),
    refused_revoked v u.payload user_id (record token { revoked = true }) d u.subject
        (ap (λ l. select (is_token context ttl user_id raw) l)
            (rows
              ∙ ap (λ (p : Result (Unit {0}) × World). p.1.tokens ++ extra)
                  (revoke_run w user_id token u))
          ∙ revoked_rows w user_id token extra u.stored others)
        refl,
  )
