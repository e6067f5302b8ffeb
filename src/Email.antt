-- ===== src/Email.antt =====
-- app/domain/value_objects/email.py.
pub mod Grammar
pub mod Laws
use financial_data.Prelude.{
  ℕ, Bool, true, false, not, ◌&&◌, ◌||◌, List, [], ◌∷◌, Option, none, some, leb, ltb, ◌==◌,
  if◌then◌else◌, length, all,
}
use financial_data.Text.{Text, strip, lower, text_eq}
use financial_data.Result.{
  Result, ok, value_error, email_empty, email_too_long, email_format, raise_if, ◌>>=◌, ◌>>◌,
}

pub record Email : Type 0 where
  pub value : Text

-- MAX_LENGTH
abbrev pub max_length : ℕ
max_length = 254

-- [a-zA-Z]
unfoldable pub is_letter : ℕ → Bool
is_letter c = (leb b'a' c && leb c b'z') || (leb b'A' c && leb c b'Z')

-- [a-zA-Z0-9.\-]
unfoldable pub is_domain : ℕ → Bool
unfolding is_letter
is_domain c = is_letter c || (leb b'0' c && leb c b'9') || c == b'.' || c == b'-'

-- [a-zA-Z0-9._%+\-]
unfoldable pub is_local : ℕ → Bool
unfolding is_domain
is_local c = is_domain c || c == b'_' || c == b'%' || c == b'+'

-- [a-zA-Z]{2,}$ (a stripped text has no line feed at its end)
unfoldable pub is_tld : Text → Bool
unfolding is_letter all
is_tld s = leb 2 (length s) && all is_letter s

-- [a-zA-Z0-9.\-]+\.[a-zA-Z]{2,}$, with backtracking; `seen` says that the + has had a character
unfoldable pub match_domain : Bool → Text → Bool
match_domain seen [] = false
match_domain seen (c ∷ s) = (seen && c == b'.' && is_tld s) || (is_domain c && match_domain true s)

-- [a-zA-Z0-9._%+\-]+@ and then the domain
unfoldable pub match_local : Bool → Text → Bool
match_local seen [] = false
match_local seen (c ∷ s) =
    (seen && c == b'@' && match_domain false s) || (is_local c && match_local true s)

-- _PATTERN.match(s)
unfoldable pub matches : Text → Bool
matches s = match_local false s

abbrev pub is_empty : Text → Bool
is_empty [] = true
is_empty (c ∷ s) = false

-- The tests of `__init__` on the normalized text.
unfoldable pub check : Text → Result Email
check normalized = do
  raise_if (is_empty normalized) (value_error email_empty)
  raise_if (ltb max_length (length normalized)) (value_error email_too_long)
  raise_if (not (matches normalized)) (value_error email_format)
  ok (record { value = normalized })

-- Email(value)
unfoldable pub new : Text → Result Email
unfolding check
new value = check (lower (strip value))

abbrev pub first : List Text → Option Text
first [] = none
first (s ∷ l) = some s

abbrev pub second : List Text → Option Text
second [] = none
second (s ∷ l) = first l

-- One more character in front of a text that has been split.
abbrev pub split_step : ℕ → ℕ → List Text → List Text
split_step c d [] = []
split_step c d (s ∷ l) = if d == c then [] ∷ s ∷ l else (d ∷ s) ∷ l

-- s.split(c)
unfoldable pub split : ℕ → Text → List Text
split c [] = [] ∷ []
split c (d ∷ s) = split_step c d (split c s)

-- self._value.split("@")[1]; `none` is an IndexError
unfoldable pub domain : Email → Option Text
unfolding split
domain e = second (split b'@' e.value)

-- self._value.split("@")[0]
unfoldable pub local_part : Email → Option Text
unfolding split
local_part e = first (split b'@' e.value)

-- __eq__
unfoldable pub eq : Email → Email → Bool
unfolding text_eq
eq a b = text_eq a.value b.value
