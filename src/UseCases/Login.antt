-- ===== src/UseCases/Login.antt =====
-- app/application/use_cases/auth/login.py.
pub mod Counter
pub mod Success
use financial_data.Prelude.{ℕ, Bool, false, Option, none, some, [], leb, if◌then◌else◌}
use financial_data.Text.{Text, lit}
use financial_data.Json
use financial_data.Result.{
  value_error, permission_error, attribute_error, invalid_credentials, locked_out,
}
use financial_data.CacheKeys.{CacheKey, CacheValue, number, login_attempts}
use financial_data.Cache
use financial_data.Crypto.{PasswordContext, TokenContext}
use financial_data.Email
use financial_data.Password
use financial_data.Entities.Enums.{ActionType}
use financial_data.Entities.User
use financial_data.Entities.User.{User, get_role_names}
use financial_data.Entities.Audit.{RequestMeta, create_failure}
use financial_data.TokenService.{Ttl, create_access_token, create_and_store_refresh_token}
use financial_data.World.{
  Action, pure, raise, lift, raise_if, or_raise, uuid4, utcnow, commit, with_uow, ◌>>=◌, ◌>>◌,
}
use financial_data.Repositories.Audit
use financial_data.Repositories.Users
use financial_data.UseCases.Auditing.{log_success, one_entry}

pub record LoginDto : Type 0 where
  pub email : Text
  pub password : Text
  pub meta : RequestMeta

pub record TokenDto : Type 0 where
  pub access_token : Text
  pub refresh_token : Text

-- MAX_ATTEMPTS and LOCKOUT_SECONDS
abbrev pub max_attempts : ℕ
max_attempts = 5

abbrev pub lockout_seconds : ℕ
lockout_seconds = 900

-- raw and int(raw) >= MAX_ATTEMPTS
abbrev pub is_locked : Option CacheValue → Bool
is_locked (some (number n)) = leb max_attempts n
is_locked _ = false

-- _check_brute_force
unfoldable pub check_brute_force : CacheKey → Action (Unit {0})
check_brute_force lock_key = do
  raw ← Cache.get lock_key
  raise_if (is_locked raw) (permission_error locked_out)

-- _record_failed_attempt: of a known user, or of an unknown actor
unfoldable pub record_failed_attempt : CacheKey → LoginDto → Text → Option User → Action (Unit {0})
record_failed_attempt lock_key dto reason none = do
  Cache.incr lock_key
  Cache.expire lock_key lockout_seconds
  actor_id ← uuid4
  id ← uuid4
  now ← utcnow
  Audit.log (
      create_failure id now actor_id (lit "unknown") [] ActionType.auth_login_failed (lit "auth")
        dto.meta reason none)
record_failed_attempt lock_key dto reason (some user) = do
  Cache.incr lock_key
  Cache.expire lock_key lockout_seconds
  id ← uuid4
  now ← utcnow
  Audit.log (
      create_failure id now user.id user.email.value (get_role_names user)
        ActionType.auth_login_failed (lit "auth") dto.meta reason none)

-- not user or not user.is_active
abbrev pub active_user : Option User → Option User
active_user none = none
active_user (some user) = if User.is_active user then some user else none

module _ (passwords : PasswordContext) (context : TokenContext) (ttl : Ttl) where
  -- From step 5 on: the counter is cleared, the tokens are issued, and the login is logged.
  unfoldable pub issue : CacheKey → LoginDto → User → Action TokenDto
  issue lock_key dto user = do
    Cache.delete lock_key
    access_token ← create_access_token context ttl user
    refresh_token ← create_and_store_refresh_token context ttl user.id
    log_success user ActionType.auth_login (lit "auth") dto.meta none none
        (one_entry (lit "status") (Json.text (lit "success"))) none
    commit
    pure (record { access_token = access_token; refresh_token = refresh_token })

  -- Step 4: the password of the user that was loaded.
  unfoldable pub verify_and_issue : CacheKey → LoginDto → User → Action TokenDto
  verify_and_issue lock_key dto user = do
    matches ← lift (Password.verify passwords user.password dto.password)
    if matches then issue lock_key dto user else (do
      record_failed_attempt lock_key dto (lit "invalid password") (some user)
      raise (value_error invalid_credentials))

  -- Steps 2 and 3: an active user of that email, and then the user with roles.
  unfoldable pub authenticate : CacheKey → LoginDto → Option User → Action TokenDto
  authenticate lock_key dto none = do
    record_failed_attempt lock_key dto (lit "user not found or inactive") none
    raise (value_error invalid_credentials)
  authenticate lock_key dto (some user) = do
    found ← Users.get_by_id user.id
    loaded ← or_raise found attribute_error
    verify_and_issue lock_key dto loaded

  -- LoginUseCase.execute
  unfoldable pub login : LoginDto → Action TokenDto
  login dto = with_uow do
    check_brute_force (login_attempts dto.email)
    email ← lift (Email.new dto.email)
    found ← Users.get_by_email email
    authenticate (login_attempts dto.email) dto (active_user found)
