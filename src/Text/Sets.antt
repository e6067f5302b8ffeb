-- ===== src/Text/Sets.antt =====
-- Python's sets of texts, as lists without repetition. The order in which a set is listed is not
-- specified, so what is proved of a set is what it contains.
use financial_data.Prelude.{
  ◌≡◌, refl, ◌∙◌, ◌||◌, List, [], ◌∷◌, ◌++◌, arith, if◌then◌else◌, any-append,
}
use financial_data.Text.{Text, text_eq, text_in}
use financial_data.Text.Laws.{eq_of_text_eq}

-- {t for t in texts}
unfoldable pub to_set : List Text → List Text
to_set [] = []
to_set (t ∷ texts) = let rest = to_set texts in if text_in t rest then rest else t ∷ rest

-- a | b
unfoldable pub union : List Text → List Text → List Text
unfolding to_set
union a b = to_set (a ++ b)

text_in_cons :
    (s t : Text) (texts : List Text) → text_in s (t ∷ texts) ≡ (text_eq s t || text_in s texts)
unfolding text_in
text_in_cons s t texts = refl

pub text_in-append :
    (s : Text) (a b : List Text) → text_in s (a ++ b) ≡ (text_in s a || text_in s b)
unfolding text_in
text_in-append s a b = any-append (text_eq s) a b

pub text_in-to_set : (s : Text) (texts : List Text) → text_in s (to_set texts) ≡ text_in s texts
unfolding to_set
text_in-to_set s [] = refl
text_in-to_set s (t ∷ texts) = ground (
  arith,
  text_in-to_set s texts,
  text_in_cons s t texts,
  text_in_cons s t (to_set texts),
  eq_of_text_eq s t,
)

pub text_in-union :
    (s : Text) (a b : List Text) → text_in s (union a b) ≡ (text_in s a || text_in s b)
unfolding union
text_in-union s a b = text_in-to_set s (a ++ b) ∙ text_in-append s a b
