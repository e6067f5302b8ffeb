-- ===== src/Crypto.antt =====
-- What the program takes from outside: SHA-256 (hashlib), bcrypt (passlib) and signed tokens
-- (python-jose). Each is a parameter with the behaviour that its documentation promises.
use financial_data.Prelude.{ℕ, ◌≡◌, ◌≤◌, Bool, true, false, ◌==◌, any, Option, some, List}
use financial_data.Result.{Result, ok, err, value_error, null_password}
use financial_data.Text.{Text}

-- A secret that bcrypt cannot take.
unfoldable pub has_nul : Text → Bool
has_nul secret = any (λ c. c == 0) secret

-- `_pwd_context` and `hashlib.sha256(raw.encode()).digest()`. The salt that `hash` draws is an
-- argument. bcrypt refuses a secret with a NUL byte (passlib's NullPasswordError, a ValueError); of any
-- other secret the hash verifies. `verify` raises on such a secret, and on a text that is no hash.
pub record PasswordContext : Type 0 where
  pub sha256 : Text → Text
  pub hash : ℕ → Text → Result Text
  pub verify : Text → Text → Result Bool
  pub needs_update : Text → Bool
  pub hash_nul :
      (salt : ℕ) (secret : Text)
      → has_nul secret ≡ true
      → hash salt secret ≡ err (value_error null_password)
  pub hash_verifies :
      (salt : ℕ) (secret : Text)
      → has_nul secret ≡ false
      → (hashed : Text) × (hash salt secret ≡ ok hashed) × (verify secret hashed ≡ ok true)

-- The claims of a token. An access token carries all of them, and a refresh token no roles and no
-- permissions; `none` is a missing claim.
pub record Payload : Type 0 where
  pub sub : Option ℕ
  pub roles : List Text
  pub permissions : List Text
  pub jti : Option ℕ
  pub iat : ℕ
  pub exp : Option ℕ

-- `jwt.encode` and `jwt.decode` under the program's secret, and the SHA-256 of a token. `decode` is
-- given the time; `none` is a JWTError. A token that was issued decodes to its claims until it expires.
pub record TokenContext : Type 0 where
  pub encode : Payload → Text
  pub decode : ℕ → Text → Option Payload
  pub hash : Text → Text
  pub decode-encode :
      (now t : ℕ) (p : Payload) → p.exp ≡ some t → now ≤ t → decode now (encode p) ≡ some p
