-- ===== src/UseCases/AuditTrail/Ledger.antt =====
-- The audit log under the use cases of categories and records.
use financial_data.Prelude.{ℕ, Bool, Option, none, some, List, [], ◌∷◌}
use financial_data.Text.{Text}
use financial_data.Entities.Enums.{CategoryType}
use financial_data.Entities.Category.{Category}
use financial_data.Entities.Record.{FinancialRecord}
use financial_data.Entities.User.{User}
use financial_data.Entities.Audit.{AuditLog, RequestMeta}
use financial_data.World.Keeps.{Keeps}
use financial_data.Repositories.Categories
use financial_data.Repositories.Records
use financial_data.UseCases.Categories.{
  create_category, update_category, delete_category, check_name,
}
use financial_data.UseCases.Records.{
  CreateRecordDto, UpdateRecordDto, load_category, load_record, check_category, create_record,
  update_record, delete_record,
}
use financial_data.UseCases.AuditTrail.{Grown, Logged, trail_rules}

module _ (start : List AuditLog) (meta : RequestMeta) where
  check_name-Keeps :
      (name : Option Text) (c : Category) → Keeps (Grown start meta) (check_name name c)
  unfolding check_name Categories.exists_by_name
  check_name-Keeps none c = search trail_rules
  check_name-Keeps (some []) c = search trail_rules
  check_name-Keeps (some (x ∷ name)) c = search trail_rules depth 14

  add_category-Keeps : (c : Category) → Keeps (Grown start meta) (Categories.add c)
  unfolding Categories.add
  add_category-Keeps c = search trail_rules depth 14

  update_row-Keeps : (c : Category) → Keeps (Grown start meta) (Categories.update c)
  unfolding Categories.update
  update_row-Keeps c = search trail_rules depth 14

  get_by_id-Keeps : (id : ℕ) → Keeps (Grown start meta) (Categories.get_by_id id)
  unfolding Categories.get_by_id
  get_by_id-Keeps id = search trail_rules

  load_category-Keeps : (id : ℕ) → Keeps (Grown start meta) (load_category id)
  unfolding load_category
  load_category-Keeps id = search (trail_rules, get_by_id-Keeps) depth 14

  check_category-Keeps : (id : Option ℕ) → Keeps (Grown start meta) (check_category id)
  unfolding check_category
  check_category-Keeps none = search trail_rules
  check_category-Keeps (some id) = search (trail_rules, load_category-Keeps) depth 9

  load_record-Keeps :
      (id : ℕ) (codename : Text) (actor : User)
      → Keeps (Grown start meta) (load_record id codename actor)
  unfolding load_record Records.get_by_id
  load_record-Keeps id codename actor = search trail_rules depth 14

  add_record-Keeps : (r : FinancialRecord) → Keeps (Grown start meta) (Records.add r)
  unfolding Records.add
  add_record-Keeps r = search trail_rules depth 14

  change_row-Keeps : (r : FinancialRecord) → Keeps (Grown start meta) (Records.update r)
  unfolding Records.update
  change_row-Keeps r = search trail_rules depth 14

ruleset ledger_rules = (
  trail_rules, check_name-Keeps, add_category-Keeps, update_row-Keeps, get_by_id-Keeps,
  load_category-Keeps, check_category-Keeps, load_record-Keeps, add_record-Keeps, change_row-Keeps,
)

module _ (start : List AuditLog) (meta : RequestMeta) (actor : User) where
  pub create_category-Keeps :
      (name : Text) (t : CategoryType) (description : Text)
      → Keeps (Logged start meta) (create_category name t description actor meta)
  unfolding create_category Categories.exists_by_name
  create_category-Keeps name t description = search ledger_rules depth 40

  pub update_category-Keeps :
      (id : ℕ) (name description : Option Text) (is_active : Option Bool)
      → Keeps (Logged start meta) (update_category id name description is_active actor meta)
  unfolding update_category
  update_category-Keeps id name description is_active = search ledger_rules depth 40

  pub delete_category-Keeps : (id : ℕ) → Keeps (Logged start meta) (delete_category id actor meta)
  unfolding delete_category
  delete_category-Keeps id = search ledger_rules depth 40

  pub create_record-Keeps :
      (dto : CreateRecordDto) → Keeps (Logged start meta) (create_record dto actor meta)
  unfolding create_record
  create_record-Keeps dto = search ledger_rules depth 40

  pub update_record-Keeps :
      (dto : UpdateRecordDto) → Keeps (Logged start meta) (update_record dto actor meta)
  unfolding update_record
  update_record-Keeps dto = search ledger_rules depth 40

  pub delete_record-Keeps :
      (record_id : ℕ) → Keeps (Logged start meta) (delete_record record_id actor meta)
  unfolding delete_record
  delete_record-Keeps record_id = search ledger_rules depth 40
