-- ===== src/UseCases/AuditTrail/Sessions.antt =====
-- The audit log under login, refresh and logout, which also write entries for failed attempts.
use financial_data.Prelude.{ℕ, Option, none, some, List, [], ◌∷◌}
use financial_data.Text.{Text}
use financial_data.CacheKeys.{CacheKey}
use financial_data.Crypto.{PasswordContext, Payload, TokenContext}
use financial_data.Entities.User.{User}
use financial_data.Entities.Audit.{AuditLog, RequestMeta}
use financial_data.World.Keeps.{Keeps}
use financial_data.TokenService
use financial_data.TokenService.{Ttl}
use financial_data.Repositories.Users
use financial_data.UseCases.Login
use financial_data.UseCases.Login.{LoginDto}
use financial_data.UseCases.Tokens
use financial_data.UseCases.AuditTrail.{Grown, Logged, Logged-pending, trail_rules}
use financial_data.UseCases.Atomicity.Sessions.{decode_refresh_token-IsPending}

module _ (start : List AuditLog) (meta : RequestMeta) where
  record_failed_attempt-Keeps :
      (k : CacheKey) (dto : LoginDto) (reason : Text) (user : Option User)
      → Keeps (Grown start dto.meta) (Login.record_failed_attempt k dto reason user)
  unfolding Login.record_failed_attempt
  record_failed_attempt-Keeps k dto reason none = search trail_rules depth 20
  record_failed_attempt-Keeps k dto reason (some user) = search trail_rules depth 20

  check_brute_force-Keeps : (k : CacheKey) → Keeps (Grown start meta) (Login.check_brute_force k)
  unfolding Login.check_brute_force
  check_brute_force-Keeps k = search trail_rules depth 9

  module _ (context : TokenContext) (ttl : Ttl) where
    create_access_token-Keeps :
        (user : User) → Keeps (Grown start meta) (TokenService.create_access_token context ttl user)
    unfolding TokenService.create_access_token
    create_access_token-Keeps user = search trail_rules depth 12

    store-Keeps :
        (user_id : ℕ)
        → Keeps (Grown start meta) (TokenService.create_and_store_refresh_token context ttl user_id)
    unfolding TokenService.create_and_store_refresh_token
    store-Keeps user_id = search trail_rules depth 12

    blacklist_claims-Keeps :
        (jti exp : Option ℕ) (now : ℕ)
        → Keeps (Grown start meta) (TokenService.blacklist_claims context ttl jti exp now)
    blacklist_claims-Keeps none exp now = search trail_rules
    blacklist_claims-Keeps (some jti) none now = search trail_rules
    blacklist_claims-Keeps (some jti) (some exp) now = search trail_rules

    blacklist_payload-Keeps :
        (o : Option Payload) (now : ℕ)
        → Keeps (Grown start meta) (TokenService.blacklist_payload context ttl o now)
    blacklist_payload-Keeps none now = search trail_rules
    blacklist_payload-Keeps (some payload) now = blacklist_claims-Keeps payload.jti payload.exp now

    blacklist_access_token-Keeps :
        (raw : Text)
        → Keeps (Grown start meta) (TokenService.blacklist_access_token context ttl raw)
    unfolding TokenService.blacklist_access_token
    blacklist_access_token-Keeps raw = search (trail_rules, blacklist_payload-Keeps) depth 12

    rotate_refresh_token-Keeps :
        (raw : Text) → Keeps (Grown start meta) (TokenService.rotate_refresh_token context ttl raw)
    unfolding TokenService.rotate_refresh_token TokenService.decode_refresh_token
        TokenService.valid_record TokenService.load_user
    rotate_refresh_token-Keeps raw = search (trail_rules, create_access_token-Keeps) depth 40

    revoke_found-Keeps :
        (o : Option _) → Keeps (Grown start meta) (TokenService.revoke_found context ttl o)
    revoke_found-Keeps none = search trail_rules
    revoke_found-Keeps (some token) = search trail_rules

    revoke_given-Keeps :
        (user_id : ℕ) (raw : Text)
        → Keeps (Grown start meta) (Tokens.revoke_given context ttl user_id raw)
    unfolding TokenService.revoke_refresh_token
    revoke_given-Keeps user_id [] = search trail_rules
    revoke_given-Keeps user_id (c ∷ raw) = search (trail_rules, revoke_found-Keeps) depth 12

ruleset token_rules = (
  trail_rules, record_failed_attempt-Keeps, check_brute_force-Keeps, create_access_token-Keeps,
  store-Keeps, blacklist_access_token-Keeps, rotate_refresh_token-Keeps, revoke_given-Keeps,
)

module _ (start : List AuditLog) (passwords : PasswordContext) (context : TokenContext)
    (ttl : Ttl) where
  issue-Keeps :
      (k : CacheKey) (dto : LoginDto) (user : User)
      → Keeps (Grown start dto.meta) (Login.issue passwords context ttl k dto user)
  unfolding Login.issue
  issue-Keeps k dto user = search token_rules depth 30

  verify-Keeps :
      (k : CacheKey) (dto : LoginDto) (user : User)
      → Keeps (Grown start dto.meta) (Login.verify_and_issue passwords context ttl k dto user)
  unfolding Login.verify_and_issue
  verify-Keeps k dto user = search (token_rules, issue-Keeps) depth 12

  authenticate-Keeps :
      (k : CacheKey) (dto : LoginDto) (user : Option User)
      → Keeps (Grown start dto.meta) (Login.authenticate passwords context ttl k dto user)
  unfolding Login.authenticate Users.get_by_id
  authenticate-Keeps k dto none = search token_rules depth 12
  authenticate-Keeps k dto (some user) = search (token_rules, verify-Keeps) depth 12

  pub login-Keeps :
      (dto : LoginDto) → Keeps (Logged start dto.meta) (Login.login passwords context ttl dto)
  unfolding Login.login Users.get_by_email
  login-Keeps dto = search (token_rules, authenticate-Keeps) depth 20

module _ (start : List AuditLog) (meta : RequestMeta) (context : TokenContext) (ttl : Ttl) where
  decode-Keeps :
      (raw : Text) → Keeps (Logged start meta) (TokenService.decode_refresh_token context ttl raw)
  decode-Keeps raw = Logged-pending start meta _ (decode_refresh_token-IsPending context ttl raw)

  pub refresh-Keeps : (raw : Text) → Keeps (Logged start meta) (Tokens.refresh context ttl raw meta)
  unfolding Tokens.refresh Users.get_by_id
  refresh-Keeps raw = search (token_rules, decode-Keeps) depth 30

  pub logout-Keeps :
      (user_id : ℕ) (access_token refresh_token : Text)
      → Keeps
          (Logged start meta)
          (Tokens.logout context ttl user_id access_token refresh_token meta)
  unfolding Tokens.logout Users.get_by_id
  logout-Keeps user_id access_token refresh_token = search token_rules depth 30
