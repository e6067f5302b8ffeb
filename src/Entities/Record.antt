-- ===== src/Entities/Record.antt =====
-- app/domain/entities/record.py.
pub mod Laws
use financial_data.Prelude.{
  ℕ, Bool, true, false, Option, none, some, List, [], ◌∷◌, ◌++◌, ◌==◌, if◌then◌else◌,
}
use financial_data.Text.{Text, lit}
use financial_data.Result.{
  Result, ok, err, value_error, already_deleted, deleted_not_updatable, raise_if, ◌>>=◌, ◌>>◌,
}
use financial_data.Money.{Money}
use financial_data.Json
use financial_data.Json.{Json, JsonDict, compute_diff}
use financial_data.Entities.Enums.{RecordType, record_type_value}
use financial_data.Entities.Category.{given}

pub record FinancialRecord : Type 0 where
  pub id : ℕ
  pub user_id : ℕ
  pub amount : Money
  pub record_type : RecordType
  pub category_id : ℕ
  pub record_date : ℕ
  pub notes : Option Text
  pub is_deleted : Bool
  pub deleted_at : Option ℕ
  pub deleted_by : Option ℕ
  pub created_at : ℕ
  pub updated_at : ℕ
  pub category_name : Option Text

-- FinancialRecord.create
unfoldable pub create : ℕ → ℕ → ℕ → Money → RecordType → ℕ → ℕ → Option Text → FinancialRecord
create id now user_id amount record_type category_id record_date notes = record {
  id = id;
  user_id = user_id;
  amount = amount;
  record_type = record_type;
  category_id = category_id;
  record_date = record_date;
  notes = notes;
  is_deleted = false;
  deleted_at = none;
  deleted_by = none;
  created_at = now;
  updated_at = now;
  category_name = none;
}

abbrev pub text_or_null : Option Text → Json
text_or_null none = Json.null
text_or_null (some s) = Json.text s

-- _snapshot
unfoldable pub snapshot : FinancialRecord → JsonDict
snapshot r =
    (lit "amount", Json.cents r.amount.cents)
    ∷ (lit "record_type", Json.text (record_type_value r.record_type))
    ∷ (lit "category_id", Json.id r.category_id)
    ∷ (lit "record_date", Json.date r.record_date)
    ∷ (lit "notes", text_or_null r.notes)
    ∷ []

-- notes are kept unless new ones are given
abbrev pub given_notes : Option Text → Option Text → Option Text
given_notes none notes = notes
given_notes (some s) notes = some s

-- The assignments of `update`.
unfoldable pub assign :
    ℕ
    → Option Money
    → Option RecordType
    → Option ℕ
    → Option ℕ
    → Option Text
    → FinancialRecord
    → FinancialRecord
assign now amount record_type category_id record_date notes r = record r {
  amount = given amount r.amount;
  record_type = given record_type r.record_type;
  category_id = given category_id r.category_id;
  record_date = given record_date r.record_date;
  notes = given_notes notes r.notes;
  updated_at = now;
}

-- update: the record after it, and the diff that it returns
unfoldable pub update :
    ℕ
    → Option Money
    → Option RecordType
    → Option ℕ
    → Option ℕ
    → Option Text
    → FinancialRecord
    → Result (FinancialRecord × JsonDict)
update now amount record_type category_id record_date notes r = do
  raise_if r.is_deleted (value_error deleted_not_updatable)
  let r' = assign now amount record_type category_id record_date notes r
  diff ← compute_diff (snapshot r) (snapshot r')
  ok (r', diff)

unfoldable pub soft_delete : ℕ → ℕ → FinancialRecord → Result FinancialRecord
soft_delete now deleted_by r = do
  raise_if r.is_deleted (value_error already_deleted)
  ok (record r { is_deleted = true; deleted_at = some now; deleted_by = some deleted_by })

unfoldable pub belongs_to : FinancialRecord → ℕ → Bool
belongs_to r user_id = r.user_id == user_id

-- to_dict
unfoldable pub to_dict : FinancialRecord → JsonDict
to_dict r =
    (lit "id", Json.id r.id)
    ∷ (lit "user_id", Json.id r.user_id)
    ∷ (snapshot r
        ++ (lit "is_deleted", Json.flag r.is_deleted)
          ∷ (lit "created_at", Json.time r.created_at)
          ∷ (lit "updated_at", Json.time r.updated_at)
          ∷ [])
