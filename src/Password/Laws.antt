-- ===== src/Password/Laws.antt =====
-- Which passwords are strong enough, what is complained of, and that a new password verifies.
use financial_data.Prelude.{
  sym, ap, ◌∙◌, ℕ, ◌≡◌, ◌≤◌, ◌<◌, ◌↔◌, ◌⊎◌, inl, inr, refl, Bool, true, false, not, ◌&&◌, ◌||◌,
  List, [], ◌∷◌, ◌==◌, ltb, length, any, arith, Bool-cases, Some, any-Some, Some-any, any-append,
}
use financial_data.Text.{Text}
use financial_data.Result.{
  ok, err, value_error, null_password, Weakness, too_short, too_long, no_uppercase, no_lowercase,
  no_digit, no_special,
}
use financial_data.Crypto.{PasswordContext, has_nul}
use financial_data.Password.{
  Password, min_length, max_length, is_upper, is_lower, is_digit, is_special, append_if, weaknesses,
  raise_weak, validate_strength, new, verify,
}

-- The class's promise of a raw password: its length, and a character of each of four kinds.
pub record IsStrong (raw : Text) : Type 0 where
  pub long : min_length ≤ length raw
  pub short : length raw ≤ max_length
  pub upper : Some (λ c. is_upper c ≡ true) raw
  pub lower : Some (λ c. is_lower c ≡ true) raw
  pub digit : Some (λ c. is_digit c ≡ true) raw
  pub special : Some (λ c. is_special c ≡ true) raw

-- What each complaint means.
abbrev pub Fails : Weakness → Text → Type 0
Fails too_short raw = length raw < min_length
Fails too_long raw = max_length < length raw
Fails no_uppercase raw = ¬ Some (λ c. is_upper c ≡ true) raw
Fails no_lowercase raw = ¬ Some (λ c. is_lower c ≡ true) raw
Fails no_digit raw = ¬ Some (λ c. is_digit c ≡ true) raw
Fails no_special raw = ¬ Some (λ c. is_special c ≡ true) raw

abbrev rank : Weakness → ℕ
rank too_short = 0
rank too_long = 1
rank no_uppercase = 2
rank no_lowercase = 3
rank no_digit = 4
rank no_special = 5

abbrev same : Weakness → Weakness → Bool
same v w = rank v == rank w

-- Whether a complaint is in the list.
unfoldable pub listed : Weakness → List Weakness → Bool
unfolding any
listed w errors = any (same w) errors

listed-append_if :
    (b : Bool) (v w : Weakness) (errors : List Weakness)
    → listed w (append_if b v errors) ≡ (listed w errors || (b && same w v))
unfolding listed
listed-append_if false v w errors = ground arith
listed-append_if true v w errors = rw (any-append (same w) errors (v ∷ [])) (ground arith)

listed_nil : (w : Weakness) → listed w [] ≡ false
unfolding listed
listed_nil w = refl

any_false :
    {A : Type 0} (p : A → Bool) (xs : List A)
    → (not (any p xs) ≡ true) ↔ (¬ Some (λ x. p x ≡ true) xs)
any_false p xs = (
  λ e s. cc (Some-any p xs s, e),
  λ n. elim (Bool-cases (any p xs)) [ inl e ↦ absurd (n (any-Some p xs e)) | inr e ↦ rw e ],
)

-- The test behind each complaint.
abbrev test : Weakness → Text → Bool
test too_short raw = ltb (length raw) min_length
test too_long raw = ltb max_length (length raw)
test no_uppercase raw = not (any is_upper raw)
test no_lowercase raw = not (any is_lower raw)
test no_digit raw = not (any is_digit raw)
test no_special raw = not (any is_special raw)

listed-weaknesses : (raw : Text) (w : Weakness) → listed w (weaknesses raw) ≡ test w raw
unfolding weaknesses
listed-weaknesses raw too_short = simp (listed-append_if, listed_nil) (ground arith)
listed-weaknesses raw too_long = simp (listed-append_if, listed_nil) (ground arith)
listed-weaknesses raw no_uppercase = simp (listed-append_if, listed_nil) (ground arith)
listed-weaknesses raw no_lowercase = simp (listed-append_if, listed_nil) (ground arith)
listed-weaknesses raw no_digit = simp (listed-append_if, listed_nil) (ground arith)
listed-weaknesses raw no_special = simp (listed-append_if, listed_nil) (ground arith)

test_iff : (raw : Text) (w : Weakness) → (test w raw ≡ true) ↔ Fails w raw
test_iff raw too_short = ground arith
test_iff raw too_long = ground arith
test_iff raw no_uppercase = any_false is_upper raw
test_iff raw no_lowercase = any_false is_lower raw
test_iff raw no_digit = any_false is_digit raw
test_iff raw no_special = any_false is_special raw

-- Every complaint in the list is true of the password, and every true one is in the list.
pub weaknesses_iff : (raw : Text) (w : Weakness) → (listed w (weaknesses raw) ≡ true) ↔ Fails w raw
weaknesses_iff raw w = rw (listed-weaknesses raw w) (test_iff raw w)

raise_weak_ok : (errors : List Weakness) → raise_weak errors ≡ ok tt → errors ≡ []
raise_weak_ok [] h = refl
raise_weak_ok (w ∷ errors) h = cc

passes : (p : ℕ → Bool) (raw : Text) → not (any p raw) ≡ false → Some (λ c. p c ≡ true) raw
passes p raw h = any-Some p raw (ground arith)

clear : (raw : Text) → weaknesses raw ≡ [] → (w : Weakness) → test w raw ≡ false
clear raw h w = sym (listed-weaknesses raw w) ∙ ap (listed w) h ∙ listed_nil w

IsStrong-of_nil : (raw : Text) → weaknesses raw ≡ [] → IsStrong raw
IsStrong-of_nil raw h = record {
  long = ground (arith, clear raw h too_short);
  short = ground (arith, clear raw h too_long);
  upper = passes is_upper raw (clear raw h no_uppercase);
  lower = passes is_lower raw (clear raw h no_lowercase);
  digit = passes is_digit raw (clear raw h no_digit);
  special = passes is_special raw (clear raw h no_special);
}

nil_of_strong : (raw : Text) → IsStrong raw → weaknesses raw ≡ []
unfolding weaknesses
nil_of_strong raw s =
    rw
      (
        Some-any is_upper raw s.upper,
        Some-any is_lower raw s.lower,
        Some-any is_digit raw s.digit,
        Some-any is_special raw s.special,
      )
      (ground arith)

-- A raw password passes the check exactly when it is strong.
pub validate_strength_iff : (raw : Text) → (validate_strength raw ≡ ok tt) ↔ IsStrong raw
unfolding validate_strength
validate_strength_iff raw = (
  λ h. IsStrong-of_nil raw (raise_weak_ok (weaknesses raw) h),
  λ s. rw (nil_of_strong raw s) refl,
)

-- A strong raw password gives a `Password` that verifies that raw password, whatever the salt, unless
-- its SHA-256 digest has a NUL byte: then it is refused with bcrypt's ValueError.
pub new-verify :
    (context : PasswordContext) (salt : ℕ) (raw : Text)
    → IsStrong raw
    → ((has_nul (context.sha256 raw) ≡ false)
        × ((p : Password) × (new context salt raw ≡ ok p) × (verify context p raw ≡ ok true)))
      ⊎ ((has_nul (context.sha256 raw) ≡ true)
          × (new context salt raw ≡ err (value_error null_password)))
unfolding new verify
new-verify context salt raw s =
    let e = (validate_strength_iff raw).1 s in
    elim (Bool-cases (has_nul (context.sha256 raw))) [
      | inl nul ↦ inr (nul, rw (e, context.hash_nul salt (context.sha256 raw) nul) refl)
      | inr clean ↦
          let (hashed, h, v) = context.hash_verifies salt (context.sha256 raw) clean in
          inl (clean, (record { hashed = hashed }, rw (e, h) refl, v))
    ]
