-- ===== src/Password.antt =====
-- app/domain/value_objects/password.py.
pub mod Laws
use financial_data.Prelude.{
  ℕ, Bool, true, false, not, ◌||◌, ◌&&◌, List, [], ◌∷◌, ◌++◌, leb, ltb, ◌==◌, if◌then◌else◌, length,
  any,
}
use financial_data.Text.{Text, lit, text_eq}
use financial_data.Result.{
  Result, ok, err, value_error, weak_password, Weakness, too_short, too_long, no_uppercase,
  no_lowercase, no_digit, no_special, ◌>>=◌, ◌>>◌,
}
use financial_data.Crypto.{PasswordContext}

pub record Password : Type 0 where
  pub hashed : Text

-- MIN_LENGTH and MAX_LENGTH
abbrev pub min_length : ℕ
min_length = 8

abbrev pub max_length : ℕ
max_length = 128

unfoldable pub is_upper : ℕ → Bool
is_upper c = leb b'A' c && leb c b'Z'

unfoldable pub is_lower : ℕ → Bool
is_lower c = leb b'a' c && leb c b'z'

unfoldable pub is_digit : ℕ → Bool
is_digit c = leb b'0' c && leb c b'9'

-- [!@#$%^&*(),.?\":{}|<>], the double quote being 34
unfoldable pub is_special : ℕ → Bool
unfolding any
is_special c = any (λ d. c == d) (34 ∷ lit "!@#$%^&*(),.?:{}|<>")

-- if b: errors.append(w)
abbrev pub append_if : Bool → Weakness → List Weakness → List Weakness
append_if b w errors = if b then errors ++ w ∷ [] else errors

-- The list `errors` of `_validate_strength`.
unfoldable pub weaknesses : Text → List Weakness
weaknesses raw =
    let errors = append_if (ltb (length raw) min_length) too_short [] in
    let errors = append_if (ltb max_length (length raw)) too_long errors in
    let errors = append_if (not (any is_upper raw)) no_uppercase errors in
    let errors = append_if (not (any is_lower raw)) no_lowercase errors in
    let errors = append_if (not (any is_digit raw)) no_digit errors in
    append_if (not (any is_special raw)) no_special errors

-- if errors: raise ValueError(…)
abbrev pub raise_weak : List Weakness → Result (Unit {0})
raise_weak [] = ok tt
raise_weak (w ∷ errors) = err (value_error (weak_password (w ∷ errors)))

-- _validate_strength
unfoldable pub validate_strength : Text → Result (Unit {0})
validate_strength raw = raise_weak (weaknesses raw)

module _ (context : PasswordContext) where
  open context use {sha256, hash, verify as context_verify, needs_update}

  -- Password(raw), with the salt that bcrypt draws
  unfoldable pub new : ℕ → Text → Result Password
  new salt raw = do
    validate_strength raw
    hashed ← hash salt (sha256 raw)
    ok (record { hashed = hashed })

  -- verify
  unfoldable pub verify : Password → Text → Result Bool
  verify p raw = context_verify (sha256 raw) p.hashed

  -- needs_rehash
  unfoldable pub needs_rehash : Password → Bool
  needs_rehash p = needs_update p.hashed

-- from_hash
unfoldable pub from_hash : Text → Password
from_hash hashed = record { hashed = hashed }

-- __eq__
unfoldable pub eq : Password → Password → Bool
unfolding text_eq
eq a b = text_eq a.hashed b.hashed
