-- ===== src/UseCases/Records/Creation.antt =====
-- Creating a record: what is returned, stored, logged and dropped from the cache.
use financial_data.Prelude.{none, some}
use financial_data.Text.{lit}
use financial_data.Money
use financial_data.Money.{Money}
use financial_data.Entities.Enums.{ActionType}
use financial_data.Entities.Category.{Category}
use financial_data.Entities.Record
use financial_data.Entities.Record.{FinancialRecord, to_dict}
use financial_data.Entities.User.{User, get_role_names}
use financial_data.Entities.Audit.{AuditLog, RequestMeta, create_success}
use financial_data.World
use financial_data.World.{World}
use financial_data.Repositories.Audit
use financial_data.Repositories.Categories
use financial_data.Repositories.Records
use financial_data.UseCases.Records.{CreateRecordDto}

-- The record that the request asks for, and its audit entry.
abbrev pub asked : CreateRecordDto → User → Category → Money → World → FinancialRecord
asked dto actor category amount w =
    record (Record.create (w.uuids 0) w.now actor.id amount dto.record_type dto.category_id
      dto.record_date dto.notes) { category_name = some category.name }

abbrev pub entry_of : CreateRecordDto → User → RequestMeta → Category → Money → World → AuditLog
entry_of dto actor meta category amount w =
    create_success (w.uuids 1) w.now actor.id actor.email.value (get_role_names actor)
      ActionType.records_create (lit "financial_records") meta (some (w.uuids 0)) none
      (some (to_dict (asked dto actor category amount w))) none
