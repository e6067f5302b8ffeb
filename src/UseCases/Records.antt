-- ===== src/UseCases/Records.antt =====
-- app/application/use_cases/records.
pub mod Access
pub mod Creation
pub mod Coherence
pub mod Ownership
pub mod Held
pub mod Loading
pub mod Changes
use financial_data.Prelude.{ℕ, Bool, not, ◌||◌, ◌&&◌, Option, none, some, List, if◌then◌else◌}
use financial_data.Text.{Text, lit}
use financial_data.Result.{Result, ok, err, value_error, permission_error, not_found, not_owner}
use financial_data.Money
use financial_data.Money.{Money, Decimal}
use financial_data.Cache.{invalidate}
use financial_data.Entities.Enums.{ActionType, RecordType}
use financial_data.Entities.Category.{Category}
use financial_data.Entities.Record
use financial_data.Entities.Record.{FinancialRecord, belongs_to, to_dict, snapshot}
use financial_data.Entities.User.{User, has_permission}
use financial_data.Entities.Audit.{RequestMeta}
use financial_data.Database.{FinancialRecordModel}
use financial_data.World.{
  Action, pure, lift, raise_if, or_raise, uuid4, utcnow, commit, with_uow, ◌>>=◌, ◌>>◌,
}
use financial_data.Repositories.Categories
use financial_data.Repositories.Records
use financial_data.Repositories.Records.{RecordFilters}
use financial_data.UseCases.Auditing.{log_success}

-- `if not category or not category.is_active or category.is_deleted: raise ValueError(…)`
unfoldable pub load_category : ℕ → Action Category
load_category category_id = do
  found ← Categories.get_by_id category_id
  category ← or_raise found (value_error not_found)
  raise_if (not category.is_active || category.is_deleted) (value_error not_found)
  pure category

pub record CreateRecordDto : Type 0 where
  pub amount : Decimal
  pub record_type : RecordType
  pub category_id : ℕ
  pub record_date : ℕ
  pub notes : Option Text

-- CreateRecordUseCase.execute
unfoldable pub create_record : CreateRecordDto → User → RequestMeta → Action FinancialRecord
create_record dto actor meta = do
  stored ← with_uow do
    category ← load_category dto.category_id
    id ← uuid4
    now ← utcnow
    amount ← lift (Money.new (some dto.amount))
    let created =
        Record.create id now actor.id amount dto.record_type dto.category_id dto.record_date
          dto.notes
    let stored = record created { category_name = some category.name }
    Records.add stored
    log_success actor ActionType.records_create (lit "financial_records") meta (some stored.id) none
        (some (to_dict stored)) none
    commit
    pure stored
  invalidate actor.id
  pure stored

-- The record, which must exist, and which the actor must own or be permitted to handle.
unfoldable pub load_record : ℕ → Text → User → Action FinancialRecord
load_record record_id codename actor = do
  found ← Records.get_by_id record_id
  loaded ← or_raise found (value_error not_found)
  raise_if loaded.is_deleted (value_error not_found)
  raise_if (not (has_permission actor codename) && not (belongs_to loaded actor.id))
      (permission_error not_owner)
  pure loaded

-- GetRecordUseCase.execute
unfoldable pub get_record : ℕ → User → Action FinancialRecord
get_record record_id actor = with_uow (load_record record_id (lit "records:read") actor)

-- GetRecordsUseCase.execute: without the permission, the actor's own records
unfoldable pub get_records :
    (Text → FinancialRecordModel → Bool)
    → (List FinancialRecordModel → List FinancialRecordModel)
    → RecordFilters
    → User
    → Action (List FinancialRecord × ℕ)
get_records matches by_date dto actor =
    let user_id =
      if not (has_permission actor (lit "records:read")) then some actor.id else dto.user_id in
    with_uow (Records.get_all matches by_date (record dto { user_id = user_id }))

pub record UpdateRecordDto : Type 0 where
  pub record_id : ℕ
  pub amount : Option Decimal
  pub record_type : Option RecordType
  pub category_id : Option ℕ
  pub record_date : Option ℕ
  pub notes : Option Text

-- if dto.category_id: …
unfoldable pub check_category : Option ℕ → Action (Unit {0})
check_category none = pure tt
check_category (some category_id) = do category ← load_category category_id; pure tt

-- Money(dto.amount) if dto.amount is not None else None
abbrev pub money_given : Option Decimal → Result (Option Money)
money_given none = ok none
money_given (some d) = elim (Money.new (some d)) [ ok m ↦ ok (some m) | err e ↦ err e ]

-- UpdateRecordUseCase.execute
unfoldable pub update_record : UpdateRecordDto → User → RequestMeta → Action FinancialRecord
update_record dto actor meta = do
  stored ← with_uow do
    loaded ← load_record dto.record_id (lit "records:update") actor
    check_category dto.category_id
    amount ← lift (money_given dto.amount)
    now ← utcnow
    (updated, diff) ←
        lift (
          Record.update now amount dto.record_type dto.category_id dto.record_date dto.notes loaded)
    Records.update updated
    log_success actor ActionType.records_update (lit "financial_records") meta (some updated.id)
        (some (snapshot loaded)) (some (snapshot updated)) (some diff)
    commit
    pure updated
  invalidate actor.id
  pure stored

-- DeleteRecordUseCase.execute
unfoldable pub delete_record : ℕ → User → RequestMeta → Action (Unit {0})
delete_record record_id actor meta = do
  with_uow do
    loaded ← load_record record_id (lit "records:delete") actor
    now ← utcnow
    deleted ← lift (Record.soft_delete now actor.id loaded)
    Records.update deleted
    log_success actor ActionType.records_delete (lit "financial_records") meta (some deleted.id)
        (some (to_dict loaded)) none none
    commit
    pure tt
  invalidate actor.id
  pure tt
