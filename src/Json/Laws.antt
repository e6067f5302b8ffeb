-- ===== src/Json/Laws.antt =====
-- A diff holds exactly the keys whose values differ.
use financial_data.Prelude.{
  ◌≡◌, refl, ap, true, List, [], ◌∷◌, Option, none, some, arith, if◌then◌else◌,
}
use financial_data.Prelude.Int.{eq_of_parts}
use financial_data.Text.{Text}
use financial_data.Text.Laws.{eq_of_text_eq, text_eq_refl}
use financial_data.Result.{ok}
use financial_data.Json.{
  Json, JsonDict, null, text, flag, texts, id, date, time, cents, change, json_eq, texts_eq, get,
  item, compute_diff,
}

eq_of_texts_eq : (a b : List Text) → texts_eq a b ≡ true → a ≡ b
unfolding texts_eq
eq_of_texts_eq [] [] h = refl
eq_of_texts_eq [] (t ∷ b) h = cc
eq_of_texts_eq (s ∷ a) [] h = cc
eq_of_texts_eq (s ∷ a) (t ∷ b) h = ground (arith, eq_of_text_eq s t, eq_of_texts_eq a b)

-- Values that compare as equal are equal.
pub eq_of_json_eq : (v w : Json) → json_eq v w ≡ true → v ≡ w
unfolding json_eq
eq_of_json_eq null null h = refl
eq_of_json_eq (text s) (text t) h = ap text (eq_of_text_eq s t h)
eq_of_json_eq (flag a) (flag b) h = ground arith
eq_of_json_eq (texts a) (texts b) h = ap texts (eq_of_texts_eq a b h)
eq_of_json_eq (id a) (id b) h = ground arith
eq_of_json_eq (date a) (date b) h = ground arith
eq_of_json_eq (time a) (time b) h = ground arith
eq_of_json_eq (cents a) (cents b) h = ap cents (eq_of_parts a b (ground arith))
eq_of_json_eq (change a b) (change c d) h = ground (arith, eq_of_json_eq a c, eq_of_json_eq b d)
eq_of_json_eq _ _ h = cc

-- No key of the dictionary is listed twice.
abbrev pub Distinct : JsonDict → Type 0
Distinct [] = Unit
Distinct ((k, v) ∷ d) = (get k d ≡ none) × Distinct d

-- The entry that a diff should have for two values.
abbrev pub changed : Option Json → Option Json → Option Json
changed (some v) (some w) = if json_eq v w then none else some (change v w)
changed _ _ = none

-- Every key of the one dictionary is a key of the other.
abbrev pub Covers : JsonDict → JsonDict → Type 0
Covers [] after = Unit
Covers ((k, v) ∷ before) after = ((w : Json) × (get k after ≡ some w)) × Covers before after

-- Over the same keys no KeyError is raised, and the diff has at every key the pair of the two values
-- where they differ, and nothing where they are equal or the key is new.
pub compute_diff_lem :
    (before after : JsonDict)
    → Distinct before
    → Covers before after
    → (d : JsonDict) × (compute_diff before after ≡ ok d)
      × ((k : Text) → get k d ≡ changed (get k before) (get k after))
unfolding compute_diff item get
compute_diff_lem [] after u c = ([], refl, λ k. refl)
compute_diff_lem ((k, v) ∷ before) after (fresh, u) ((w, e), c) =
    let (rest, eq, at) = compute_diff_lem before after u c in
    (
      (if json_eq v w then rest else (k, change v w) ∷ rest),
      ground (arith, e, eq),
      λ j. ground (arith, at j, at k, eq_of_text_eq j k, text_eq_refl k),
    )
