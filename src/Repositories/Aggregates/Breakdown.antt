-- ===== src/Repositories/Aggregates/Breakdown.antt =====
-- The category totals are a breakdown of the rows.
use financial_data.Prelude.{
  ℕ, ◌+◌, Bool, true, false, ◌&&◌, ◌≡◌, refl, Option, none, some, List, [], ◌∷◌, ◌==◌, any, find?,
  if◌then◌else◌, length, ◌||◌, Bool-cases, inl, inr, arith,
}
use financial_data.Prelude.Int.{ℤ, pos, ◌+ℤ◌, int_laws}
use financial_data.CacheKeys.{CategoryTotal}
use financial_data.Entities.Category.{Category}
use financial_data.Entities.Enums.{RecordType}
use financial_data.Database.{FinancialRecordModel}
use financial_data.Repositories.Records.{same_type, sum_of}
use financial_data.Repositories.Aggregates.{same_group, tally, tally_joined, totals_of}

-- The sum of the totals of a type.
unfoldable pub sum_totals : RecordType → List CategoryTotal → ℤ
sum_totals t [] = pos 0
sum_totals t (g ∷ groups) =
    if same_type g.record_type t then g.total +ℤ sum_totals t groups else sum_totals t groups

-- The number of rows that the totals count.
unfoldable pub count_totals : List CategoryTotal → ℕ
count_totals [] = 0
count_totals (g ∷ groups) = g.count + count_totals groups

-- Every row has a category.
unfoldable pub covered : List Category → List FinancialRecordModel → Bool
covered categories [] = true
covered categories (m ∷ rows) =
    any (λ c. c.id == m.category_id) categories && covered categories rows

-- No group stands twice.
abbrev pub Grouped : List CategoryTotal → Type 0
Grouped [] = Unit
Grouped (g ∷ groups) =
    (any (same_group g.category_id g.record_type) groups ≡ false) × Grouped groups

add_swap : (a b c : ℤ) → a +ℤ (b +ℤ c) ≡ b +ℤ (a +ℤ c)
add_swap a b c = grind int_laws

add_assoc : (a b c : ℤ) → (a +ℤ b) +ℤ c ≡ a +ℤ (b +ℤ c)
add_assoc a b c = grind int_laws

same_type_refl : (t : RecordType) → same_type t t ≡ true
same_type_refl RecordType.income = refl
same_type_refl RecordType.expense = refl

same_type_eq : (a b : RecordType) → same_type a b ≡ true → a ≡ b
same_type_eq RecordType.income RecordType.income h = refl
same_type_eq RecordType.expense RecordType.expense h = refl
same_type_eq RecordType.income RecordType.expense h = cc
same_type_eq RecordType.expense RecordType.income h = cc

sum_totals-tally :
    (t : RecordType) (c : Category) (m : FinancialRecordModel) (groups : List CategoryTotal)
    → sum_totals t (tally c m groups)
      ≡ (if same_type m.record_type t then m.amount +ℤ sum_totals t groups else sum_totals t groups)
unfolding sum_totals tally
sum_totals-tally t c m [] = refl
sum_totals-tally t c m (g ∷ groups) = elim (Bool-cases (same_type g.record_type m.record_type)) [
  | inl e ↦
      let q : g.record_type ≡ m.record_type = same_type_eq g.record_type m.record_type e in
      ground (
        arith,
        q,
        sum_totals-tally t c m groups,
        add_assoc m.amount g.total (sum_totals t groups),
        add_swap m.amount g.total (sum_totals t groups),
      )
  | inr e ↦
      ground (arith, sum_totals-tally t c m groups, add_swap m.amount g.total (sum_totals t groups))
]

count_totals-tally :
    (c : Category) (m : FinancialRecordModel) (groups : List CategoryTotal)
    → count_totals (tally c m groups) ≡ count_totals groups + 1
unfolding count_totals tally
count_totals-tally c m [] = refl
count_totals-tally c m (g ∷ groups) = ground (arith, count_totals-tally c m groups)

any-tally :
    (k : ℕ) (u : RecordType) (c : Category) (m : FinancialRecordModel) (groups : List CategoryTotal)
    → any (same_group k u) (tally c m groups)
      ≡ (any (same_group k u) groups || (m.category_id == k && same_type m.record_type u))
unfolding any tally
any-tally k u c m [] = ground arith
any-tally k u c m (g ∷ groups) = elim (Bool-cases (same_group m.category_id m.record_type g)) [
  | inl e ↦
      let p : g.category_id ≡ m.category_id = ground arith in
      let q : g.record_type ≡ m.record_type =
        same_type_eq g.record_type m.record_type (ground arith) in
      rw (e, p, q) (ground arith)
  | inr e ↦ rw (e, any-tally k u c m groups) (ground arith)
]

Grouped-tally :
    (c : Category) (m : FinancialRecordModel) (groups : List CategoryTotal)
    → Grouped groups
    → Grouped (tally c m groups)
unfolding any tally
Grouped-tally c m [] d = (refl, tt)
Grouped-tally c m (g ∷ groups) d = elim (Bool-cases (same_group m.category_id m.record_type g)) [
  | inl e ↦ rw e d
  | inr e ↦ rw e (
    rw (any-tally g.category_id g.record_type c m groups) ground (arith, d.0),
    Grouped-tally c m groups d.1,
  )
]

found_of_any :
    (id : ℕ) (categories : List Category)
    → any (λ c. c.id == id) categories ≡ true
    → (c : Category) × (find? (λ c. c.id == id) categories ≡ some c)
unfolding any find?
found_of_any id [] h = cc
found_of_any id (c ∷ categories) h = elim (Bool-cases (c.id == id)) [
  | inl e ↦ (c, rw e refl)
  | inr e ↦ let (d, p) = found_of_any id categories (ground arith) in (d, rw e p)
]

Grouped-joined :
    (o : Option Category) (m : FinancialRecordModel) (groups : List CategoryTotal)
    → Grouped groups
    → Grouped (tally_joined o m groups)
Grouped-joined none m groups d = d
Grouped-joined (some c) m groups d = Grouped-tally c m groups d

Grouped-totals_of :
    (categories : List Category) (rows : List FinancialRecordModel)
    → Grouped (totals_of categories rows)
unfolding totals_of
Grouped-totals_of categories [] = tt
Grouped-totals_of categories (m ∷ rows) =
    Grouped-joined (find? (λ c. c.id == m.category_id) categories) m _
      (Grouped-totals_of categories rows)

module _ (categories : List Category) where
  sums :
      (t : RecordType) (rows : List FinancialRecordModel)
      → covered categories rows ≡ true
      → sum_totals t (totals_of categories rows) ≡ sum_of t rows
  unfolding totals_of covered sum_of sum_totals
  sums t [] h = refl
  sums t (m ∷ rows) h =
      let (c, e) = found_of_any m.category_id categories (ground arith) in
      rw (e, sum_totals-tally t c m (totals_of categories rows), sums t rows (ground arith)) refl

  counts :
      (rows : List FinancialRecordModel)
      → covered categories rows ≡ true
      → count_totals (totals_of categories rows) ≡ length rows
  unfolding totals_of covered count_totals
  counts [] h = refl
  counts (m ∷ rows) h =
      let (c, e) = found_of_any m.category_id categories (ground arith) in
      rw (e, count_totals-tally c m (totals_of categories rows), counts rows (ground arith))
        (omega arith)

  -- The category totals of rows that all have a category hold each category and type once; the
  -- totals of a type add up to the rows' sum of that type, and the counts to the number of rows.
  pub totals_of_breakdown :
      (rows : List FinancialRecordModel)
      → covered categories rows ≡ true
      → Grouped (totals_of categories rows)
        × ((t : RecordType) → sum_totals t (totals_of categories rows) ≡ sum_of t rows)
        × (count_totals (totals_of categories rows) ≡ length rows)
  totals_of_breakdown rows h =
      (Grouped-totals_of categories rows, λ t. sums t rows h, counts rows h)
