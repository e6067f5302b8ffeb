-- ===== src/Json.antt =====
-- The dictionaries that the audit log stores, and the comprehension that compares two of them.
-- A value is kept before it is printed: `str(id)`, `str(amount)` and `isoformat()` are injective,
-- so comparing the values is comparing their texts.
pub mod Laws
use financial_data.Prelude.{
  ℕ, Bool, true, false, not, ◌&&◌, List, [], ◌∷◌, Option, none, some, ◌==◌, if◌then◌else◌,
}
use financial_data.Prelude.Int.{ℤ, eqb_ℤ}
use financial_data.Text.{Text, text_eq}
use financial_data.Result.{Result, ok, err, key_error, ◌>>=◌}

pub data Json : Type 0 where
  null : Json
  text : Text → Json
  flag : Bool → Json
  texts : List Text → Json
  id date time : ℕ → Json
  cents : ℤ → Json
  -- {"from": a, "to": b}
  change : Json → Json → Json

abbrev pub JsonDict : Type 0
JsonDict = List (Text × Json)

abbrev pub bool_eq : Bool → Bool → Bool
bool_eq true b = b
bool_eq false b = not b

unfoldable pub texts_eq : List Text → List Text → Bool
texts_eq [] [] = true
texts_eq [] (t ∷ b) = false
texts_eq (s ∷ a) [] = false
texts_eq (s ∷ a) (t ∷ b) = text_eq s t && texts_eq a b

unfoldable pub json_eq : Json → Json → Bool
unfolding texts_eq
json_eq null null = true
json_eq (text s) (text t) = text_eq s t
json_eq (flag a) (flag b) = bool_eq a b
json_eq (texts a) (texts b) = texts_eq a b
json_eq (id a) (id b) = a == b
json_eq (date a) (date b) = a == b
json_eq (time a) (time b) = a == b
json_eq (cents a) (cents b) = eqb_ℤ a b
json_eq (change a b) (change c d) = json_eq a c && json_eq b d
json_eq _ _ = false

-- d[k] where it is there
unfoldable pub get : Text → JsonDict → Option Json
get k [] = none
get k ((j, v) ∷ d) = if text_eq k j then some v else get k d

-- d[k]
unfoldable pub item : Text → JsonDict → Result Json
unfolding get
item k d = elim (get k d) [ none ↦ err key_error | some v ↦ ok v ]

-- {k: {"from": before[k], "to": after[k]} for k in before if before[k] != after[k]}
unfoldable pub compute_diff : JsonDict → JsonDict → Result JsonDict
compute_diff [] after = ok []
compute_diff ((k, v) ∷ before) after = do
  w ← item k after
  rest ← compute_diff before after
  ok (if json_eq v w then rest else (k, change v w) ∷ rest)
