-- ===== src/UseCases/Records/Ownership.antt =====
-- Rows have identifiers of their own, so that a row with the identifier of a record that was loaded
-- belongs to the owner of that record, and a write of it shows to nobody else.
use financial_data.Prelude.{
  ℕ, true, false, ◌==◌, ◌≡◌, refl, sym, ap, ◌∙◌, Option, none, some, List, [], ◌∷◌, ◌++◌, any,
  select, any-append, find?, update_where, Bool-cases, inl, inr, arith,
}
use financial_data.Entities.Record.{FinancialRecord}
use financial_data.Database.{FinancialRecordModel}
use financial_data.Repositories.Records.{in_scope, live_id, assign_row}
use financial_data.Repositories.Cached.Coherence.{SameOutside}

-- The primary key: no two rows have one identifier.
abbrev pub DistinctIds : List FinancialRecordModel → Type 0
DistinctIds [] = Unit
DistinctIds (m ∷ rows) = (any (λ n. n.id == m.id) rows ≡ false) × DistinctIds rows

-- Every row with the identifier belongs to the user.
abbrev pub Owns : ℕ → ℕ → List FinancialRecordModel → Type 0
Owns id u [] = Unit
Owns id u (m ∷ rows) = ((m.id == id) ≡ true → m.user_id ≡ u) × Owns id u rows

-- Where no row has the identifier, any user will do.
none_owned :
    (id u : ℕ) (rows : List FinancialRecordModel)
    → any (λ m. m.id == id) rows ≡ false
    → Owns id u rows
unfolding any
none_owned id u [] h = tt
none_owned id u (m ∷ rows) h = (λ e. ground arith, none_owned id u rows (ground arith))

found_any :
    (id : ℕ) (rows : List FinancialRecordModel) (m : FinancialRecordModel)
    → find? (live_id id) rows ≡ some m
    → any (λ n. n.id == id) rows ≡ true
unfolding find? any
found_any id [] m h = cc
found_any id (n ∷ rows) m h = elim (Bool-cases (n.id == id)) [
  | inl e ↦ rw e refl
  | inr e ↦ rw e (found_any id rows m (ground arith))
]

some_row : {m n : FinancialRecordModel} → some m ≡ some n → m ≡ n
some_row {m} h = ap (λ (o : Option FinancialRecordModel). elim o [ none ↦ m | some t ↦ t ]) h

pub found_owner :
    (id : ℕ) (rows : List FinancialRecordModel) (m : FinancialRecordModel)
    → DistinctIds rows
    → find? (live_id id) rows ≡ some m
    → (m.id ≡ id) × Owns id m.user_id rows
unfolding find?
found_owner id [] m d h = cc
found_owner id (n ∷ rows) m (new, d) h = elim (Bool-cases (live_id id n)) [
  | inl e ↦
      let same : n ≡ m = some_row (rw e at h) in
      let named : n.id ≡ id = ground arith in
      (
        ap (λ (r : FinancialRecordModel). r.id) (sym same) ∙ named,
        (
          λ x. ap (λ (r : FinancialRecordModel). r.user_id) same,
          none_owned id m.user_id rows
              (ap (λ (k : ℕ). any (λ x. x.id == k) rows) (sym named) ∙ new),
        ),
      )
  | inr e ↦
      let rest : find? (live_id id) rows ≡ some m = rw e at h in
      let (named, owned) = found_owner id rows m d rest in
      (
        named,
        (λ x. clash n.id n.user_id m.user_id (ground arith) new (found_any id rows m rest), owned),
      )
]
  where
    clash :
        (k a b : ℕ)
        → k ≡ id
        → any (λ x. x.id == k) rows ≡ false
        → any (λ x. x.id == id) rows ≡ true
        → a ≡ b
    clash k a b e f t = let same = ap (λ (j : ℕ). any (λ x. x.id == j) rows) e in cc

pub not_in_scope :
    (u v : ℕ) (a b : Option ℕ) (m : FinancialRecordModel)
    → m.user_id ≡ u
    → (v == u) ≡ false
    → in_scope (some v) a b m ≡ false
unfolding in_scope
not_in_scope u v a b m e other = ground (arith, e, other)

-- A change of the rows with an identifier, all of one user, which keeps the user, shows to nobody else.
pub update_hidden :
    (id u : ℕ) (r : FinancialRecord) (rows : List FinancialRecordModel)
    → Owns id u rows
    → SameOutside u rows (update_where (λ m. m.id == id) (assign_row r) rows)
unfolding update_where select
update_hidden id u r [] owned v a b other = refl
update_hidden id u r (m ∷ rows) (here, owned) v a b other =
    let ih = update_hidden id u r rows owned v a b other in
    elim (Bool-cases (m.id == id)) [
      | inl e ↦
          rw
            (
              e,
              not_in_scope u v a b (assign_row r m) (here e) other,
              not_in_scope u v a b m (here e) other,
            )
            ih
      | inr e ↦ rw (e, ih) refl
    ]

ids_kept :
    (id k : ℕ) (r : FinancialRecord) (rows : List FinancialRecordModel)
    → any (λ n. n.id == k) (update_where (λ m. m.id == id) (assign_row r) rows)
      ≡ any (λ n. n.id == k) rows
unfolding update_where any
ids_kept id k r [] = refl
ids_kept id k r (m ∷ rows) = elim (Bool-cases (m.id == id)) [
  | inl e ↦ rw (e, ids_kept id k r rows) refl
  | inr e ↦ rw (e, ids_kept id k r rows) refl
]

pub DistinctIds-update_where :
    (id : ℕ) (r : FinancialRecord) (rows : List FinancialRecordModel)
    → DistinctIds rows
    → DistinctIds (update_where (λ m. m.id == id) (assign_row r) rows)
unfolding update_where any
DistinctIds-update_where id r [] d = tt
DistinctIds-update_where id r (m ∷ rows) (new, d) = elim (Bool-cases (m.id == id)) [
  | inl e ↦ rw e (ids_kept id m.id r rows ∙ new, DistinctIds-update_where id r rows d)
  | inr e ↦ rw e (ids_kept id m.id r rows ∙ new, DistinctIds-update_where id r rows d)
]

pub DistinctIds-append :
    (m : FinancialRecordModel) (rows : List FinancialRecordModel)
    → any (λ n. n.id == m.id) rows ≡ false
    → DistinctIds rows
    → DistinctIds (rows ++ m ∷ [])
unfolding any
DistinctIds-append m [] new d = (refl, tt)
DistinctIds-append m (n ∷ rows) new (here, d) = (
  rw (any-append (λ (x : FinancialRecordModel). x.id == n.id) rows (m ∷ []), here) (ground arith),
  DistinctIds-append m rows (ground arith) d,
)
