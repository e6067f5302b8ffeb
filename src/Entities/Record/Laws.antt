-- ===== src/Entities/Record/Laws.antt =====
-- The diff that `update` returns, and that a record is deleted once.
use financial_data.Prelude.{ℕ, ◌≡◌, refl, false, Option, arith}
use financial_data.Text.{Text, text_eq}
use financial_data.Result.{ok, err, value_error, already_deleted, deleted_not_updatable}
use financial_data.Money.{Money}
use financial_data.Json.{JsonDict, get}
use financial_data.Json.Laws.{changed, Distinct, Covers, compute_diff_lem}
use financial_data.Entities.Enums.{RecordType}
use financial_data.Entities.Record.{FinancialRecord, snapshot, assign, update, soft_delete}

snapshot-Distinct : (r : FinancialRecord) → Distinct (snapshot r)
unfolding snapshot get text_eq
snapshot-Distinct r = (refl, (refl, (refl, (refl, (refl, tt)))))

snapshot-Covers : (r s : FinancialRecord) → Covers (snapshot r) (snapshot s)
unfolding snapshot get text_eq
snapshot-Covers r s = ((_, refl), ((_, refl), ((_, refl), ((_, refl), ((_, refl), tt)))))

-- Updating a record that is not deleted succeeds and assigns the given fields; the diff has at
-- every key the old and the new value where they differ, and no entry where they are equal.
pub update_lem :
    (now : ℕ) (amount : Option Money) (record_type : Option RecordType)
    (category_id record_date : Option ℕ) (notes : Option Text) (r : FinancialRecord)
    → let s = assign now amount record_type category_id record_date notes r in
      r.is_deleted ≡ false
      → (d : JsonDict) × (update now amount record_type category_id record_date notes r ≡ ok (s, d))
        × ((k : Text) → get k d ≡ changed (get k (snapshot r)) (get k (snapshot s)))
unfolding update
update_lem now amount record_type category_id record_date notes r h =
    let s = assign now amount record_type category_id record_date notes r in
    let (d, e, at) =
      compute_diff_lem (snapshot r) (snapshot s) (snapshot-Distinct r) (snapshot-Covers r s) in
    (d, ground (arith, e), at)

-- A deleted record can neither be deleted again nor updated.
pub deleted_record_final :
    (now by : ℕ) (r s : FinancialRecord)
    → soft_delete now by r ≡ ok s
    → ((later other : ℕ) → soft_delete later other s ≡ err (value_error already_deleted))
      × ((later : ℕ) (amount : Option Money) (record_type : Option RecordType)
            (category_id record_date : Option ℕ) (notes : Option Text)
          → update later amount record_type category_id record_date notes s
            ≡ err (value_error deleted_not_updatable))
unfolding soft_delete update
deleted_record_final now by r s h = (
  (λ later other. ground arith),
  (λ later amount record_type category_id record_date notes. ground arith),
)
