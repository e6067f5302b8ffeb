-- ===== src/Text/Laws.antt =====
-- The laws of comparison, `strip` and `lower`.
use mathlib.Core.List.{reverse, reverse-reverse}
use financial_data.Prelude.{
  not, true, all, all-reverse, ℕ, ◌≡◌, ◌↔◌, refl, ap, sym, ◌∙◌, true, [], ◌∷◌, arith,
}
use financial_data.Text.{is_space, strip, Text, text_eq, lstrip, lower_char, lower}

pub text_eq_refl : (s : Text) → text_eq s s ≡ true
unfolding text_eq
text_eq_refl [] = refl
text_eq_refl (c ∷ s) = ground (arith, text_eq_refl s)

pub eq_of_text_eq : (s t : Text) → text_eq s t ≡ true → s ≡ t
unfolding text_eq
eq_of_text_eq [] [] h = refl
eq_of_text_eq [] (d ∷ t) h = cc
eq_of_text_eq (c ∷ s) [] h = cc
eq_of_text_eq (c ∷ s) (d ∷ t) h = ground (arith, eq_of_text_eq s t)

pub text_eq_iff : (s t : Text) → (text_eq s t ≡ true) ↔ (s ≡ t)
text_eq_iff s t = (eq_of_text_eq s t, λ e. ap (text_eq s) (sym e) ∙ text_eq_refl s)

pub lower_char_idem : (c : ℕ) → lower_char (lower_char c) ≡ lower_char c
unfolding lower_char
lower_char_idem c = ground arith

pub lower-lower : (s : Text) → lower (lower s) ≡ lower s
unfolding lower
lower-lower [] = refl
lower-lower (c ∷ s) = cc (lower_char_idem c, lower-lower s)

-- No white space at the front, and none at the back, stay as they are.
pub lstrip-lstrip : (s : Text) → lstrip (lstrip s) ≡ lstrip s
unfolding lstrip
lstrip-lstrip [] = refl
lstrip-lstrip (c ∷ s) = ground (arith, lstrip-lstrip s)

lstrip_of_solid : (s : Text) → all (λ c. not (is_space c)) s ≡ true → lstrip s ≡ s
unfolding lstrip all
lstrip_of_solid [] h = refl
lstrip_of_solid (c ∷ s) h = ground arith

-- A text with no white space at all is stripped to itself.
pub strip_of_solid : (s : Text) → all (λ c. not (is_space c)) s ≡ true → strip s ≡ s
unfolding strip
strip_of_solid s h = rw (
  lstrip_of_solid s h,
  lstrip_of_solid (reverse s) (all-reverse (λ c. not (is_space c)) s ∙ h),
  reverse-reverse s,
)

pub text_eq_comm : (s t : Text) → text_eq s t ≡ text_eq t s
unfolding text_eq
text_eq_comm [] [] = refl
text_eq_comm [] (d ∷ t) = refl
text_eq_comm (c ∷ s) [] = refl
text_eq_comm (c ∷ s) (d ∷ t) = ground (arith, text_eq_comm s t)
