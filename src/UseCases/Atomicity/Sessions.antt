-- ===== src/UseCases/Atomicity/Sessions.antt =====
-- Login, refresh and logout are atomic. The token service has sessions of its own, so that the
-- refresh tokens are not part of what a unit of work commits.
use financial_data.Prelude.{ℕ, Bool, true, false, Option, none, some, [], ◌∷◌, if◌then◌else◌}
use financial_data.Text.{Text}
use financial_data.CacheKeys.{CacheKey, CacheValue}
use financial_data.Crypto.{PasswordContext, Payload, TokenContext}
use financial_data.Entities.User.{User}
use financial_data.Entities.Audit.{RequestMeta}
use financial_data.World.{Action, RefreshTokenModel}
use financial_data.World.Pending.{IsPending, IsAtomic, IsAtomic-pending, IsPending-tokens}
use financial_data.TokenService
use financial_data.TokenService.{Ttl}
use financial_data.UseCases.Login
use financial_data.UseCases.Login.{LoginDto}
use financial_data.UseCases.Tokens
use financial_data.UseCases.Atomicity.{unit_rules}

IsAtomic-if :
    {A : Type 0} (b : Bool) (m n : Action A)
    → IsAtomic m
    → IsAtomic n
    → IsAtomic (if b then m else n)
IsAtomic-if true m n km kn = km
IsAtomic-if false m n km kn = kn

ruleset session_rules = (unit_rules, IsPending-tokens)

refuse_listed-IsPending :
    (payload : Payload) (v : Option CacheValue) → IsPending (TokenService.refuse_listed payload v)
refuse_listed-IsPending payload none = search session_rules
refuse_listed-IsPending payload (some v) = search session_rules

record_failed_attempt-IsPending :
    (k : CacheKey) (dto : LoginDto) (reason : Text) (user : Option User)
    → IsPending (Login.record_failed_attempt k dto reason user)
unfolding Login.record_failed_attempt
record_failed_attempt-IsPending k dto reason none = search session_rules depth 20
record_failed_attempt-IsPending k dto reason (some user) = search session_rules depth 20

check_brute_force-IsPending : (k : CacheKey) → IsPending (Login.check_brute_force k)
unfolding Login.check_brute_force
check_brute_force-IsPending k = search session_rules depth 9

module _ (context : TokenContext) (ttl : Ttl) where
  create_access_token-IsPending :
      (user : User) → IsPending (TokenService.create_access_token context ttl user)
  unfolding TokenService.create_access_token
  create_access_token-IsPending user = search session_rules depth 12

  decode_access_token-IsPending :
      (raw : Text) → IsPending (TokenService.decode_access_token context ttl raw)
  unfolding TokenService.decode_access_token
  decode_access_token-IsPending raw = search (session_rules, refuse_listed-IsPending) depth 12

  pub decode_refresh_token-IsPending :
      (raw : Text) → IsPending (TokenService.decode_refresh_token context ttl raw)
  unfolding TokenService.decode_refresh_token
  decode_refresh_token-IsPending raw = search session_rules depth 12

  store-IsPending :
      (user_id : ℕ) → IsPending (TokenService.create_and_store_refresh_token context ttl user_id)
  unfolding TokenService.create_and_store_refresh_token
  store-IsPending user_id = search session_rules depth 12

  blacklist_claims-IsPending :
      (jti exp : Option ℕ) (now : ℕ)
      → IsPending (TokenService.blacklist_claims context ttl jti exp now)
  blacklist_claims-IsPending none exp now = search session_rules
  blacklist_claims-IsPending (some jti) none now = search session_rules
  blacklist_claims-IsPending (some jti) (some exp) now = search session_rules

  blacklist_payload-IsPending :
      (o : Option Payload) (now : ℕ) → IsPending (TokenService.blacklist_payload context ttl o now)
  blacklist_payload-IsPending none now = search session_rules
  blacklist_payload-IsPending (some payload) now =
      blacklist_claims-IsPending payload.jti payload.exp now

  blacklist_access_token-IsPending :
      (raw : Text) → IsPending (TokenService.blacklist_access_token context ttl raw)
  unfolding TokenService.blacklist_access_token
  blacklist_access_token-IsPending raw =
      search (session_rules, blacklist_payload-IsPending) depth 12

  valid_record-IsPending :
      (user_id : ℕ) (raw : Text) → IsPending (TokenService.valid_record context ttl user_id raw)
  unfolding TokenService.valid_record
  valid_record-IsPending user_id raw = search session_rules depth 16

  load_user-IsPending : (user_id : ℕ) → IsPending (TokenService.load_user context ttl user_id)
  unfolding TokenService.load_user
  load_user-IsPending user_id = search session_rules depth 12

  revoke_found-IsPending :
      (found : Option RefreshTokenModel) → IsPending (TokenService.revoke_found context ttl found)
  revoke_found-IsPending none = search session_rules
  revoke_found-IsPending (some token) = search session_rules

  revoke_refresh_token-IsPending :
      (user_id : ℕ) (raw : Text)
      → IsPending (TokenService.revoke_refresh_token context ttl user_id raw)
  unfolding TokenService.revoke_refresh_token
  revoke_refresh_token-IsPending user_id raw =
      search (session_rules, revoke_found-IsPending) depth 12

  revoke_given-IsPending :
      (user_id : ℕ) (raw : Text) → IsPending (Tokens.revoke_given context ttl user_id raw)
  revoke_given-IsPending user_id [] = search session_rules
  revoke_given-IsPending user_id (c ∷ raw) = revoke_refresh_token-IsPending user_id (c ∷ raw)

ruleset token_rules = (
  session_rules, record_failed_attempt-IsPending, create_access_token-IsPending,
  decode_access_token-IsPending, decode_refresh_token-IsPending, store-IsPending,
  blacklist_access_token-IsPending, valid_record-IsPending, load_user-IsPending,
  revoke_refresh_token-IsPending, revoke_given-IsPending,
)

module _ (context : TokenContext) (ttl : Ttl) where
  rotate_refresh_token-IsPending :
      (raw : Text) → IsPending (TokenService.rotate_refresh_token context ttl raw)
  unfolding TokenService.rotate_refresh_token
  rotate_refresh_token-IsPending raw = search token_rules depth 30

  pub refresh-IsAtomic :
      (raw : Text) (meta : RequestMeta) → IsAtomic (Tokens.refresh context ttl raw meta)
  unfolding Tokens.refresh
  refresh-IsAtomic raw meta = search (token_rules, rotate_refresh_token-IsPending) depth 30

  pub logout-IsAtomic :
      (user_id : ℕ) (access_token refresh_token : Text) (meta : RequestMeta)
      → IsAtomic (Tokens.logout context ttl user_id access_token refresh_token meta)
  unfolding Tokens.logout
  logout-IsAtomic user_id access_token refresh_token meta = search token_rules depth 30

  module _ (passwords : PasswordContext) where
    issue-IsAtomic :
        (k : CacheKey) (dto : LoginDto) (user : User)
        → IsAtomic (Login.issue passwords context ttl k dto user)
    unfolding Login.issue
    issue-IsAtomic k dto user = search token_rules depth 30

    verify_and_issue-IsAtomic :
        (k : CacheKey) (dto : LoginDto) (user : User)
        → IsAtomic (Login.verify_and_issue passwords context ttl k dto user)
    unfolding Login.verify_and_issue
    verify_and_issue-IsAtomic k dto user =
        search (token_rules, IsAtomic-if, issue-IsAtomic, IsAtomic-pending) depth 12

    authenticate-IsAtomic :
        (k : CacheKey) (dto : LoginDto) (user : Option User)
        → IsAtomic (Login.authenticate passwords context ttl k dto user)
    unfolding Login.authenticate
    authenticate-IsAtomic k dto none = IsAtomic-pending _ (search token_rules depth 9)
    authenticate-IsAtomic k dto (some user) =
        search (token_rules, verify_and_issue-IsAtomic) depth 12

    pub login-IsAtomic : (dto : LoginDto) → IsAtomic (Login.login passwords context ttl dto)
    unfolding Login.login
    login-IsAtomic dto =
        search (token_rules, check_brute_force-IsPending, authenticate-IsAtomic) depth 20
