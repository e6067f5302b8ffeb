-- ===== src/Repositories/Records.antt =====
-- app/infrastructure/repositories/record_repo.py, and the writes of the decorator around it,
-- cached_repo.py. The queries that group are in Repositories/Aggregates.
pub mod Laws
use financial_data.Prelude.{
  ℕ, ◌+◌, Bool, true, false, not, ◌&&◌, ◌||◌, Option, none, some, List, [], ◌∷◌, ◌++◌, map, ◌==◌,
  leb, if◌then◌else◌, any, select, find?, update_where, length, take,
}
use financial_data.Prelude.Int.{ℤ, pos, ◌+ℤ◌, ◌-ℤ◌, leb_ℤ}
use financial_data.Text.{Text}
use financial_data.Result.{Result, ok, integrity_error, no_result_found}
use financial_data.CacheKeys.{DashboardSummary}
use financial_data.Cache.{invalidate}
use financial_data.Entities.Record.{FinancialRecord}
use financial_data.Entities.Enums.{RecordType}
use financial_data.Database.{Db, FinancialRecordModel, map_record}
use financial_data.World.{Action, query, write, raise_if, utcnow, ◌>>=◌, ◌>>◌}
use financial_data.Repositories.Paging.{map_found, map_rows, listing}

abbrev pub live_id : ℕ → FinancialRecordModel → Bool
live_id id m = m.id == id && not m.is_deleted

-- get_by_id and get_by_id_with_category, which calls it
unfoldable pub get_by_id : ℕ → Action (Option FinancialRecord)
get_by_id id = query (λ db. map_found (map_record db) (find? (live_id id) db.records))

-- domain/repositories/record_repo.py; `search` is the text for the full-text index
pub record RecordFilters : Type 0 where
  pub user_id : Option ℕ
  pub record_type : Option RecordType
  pub category_id : Option ℕ
  pub date_from : Option ℕ
  pub date_to : Option ℕ
  pub min_amount : Option ℤ
  pub max_amount : Option ℤ
  pub search : Option Text
  pub page : ℕ
  pub page_size : ℕ

abbrev pub same_type : RecordType → RecordType → Bool
same_type RecordType.income RecordType.income = true
same_type RecordType.expense RecordType.expense = true
same_type _ _ = false

-- `if x: stmt = stmt.where(…)`
abbrev pub where_given {ℓ} : {A : Type ℓ} → Option A → (A → Bool) → Bool
where_given none p = true
where_given (some a) p = p a

-- A zero amount is falsy, so it sets no bound.
abbrev pub where_amount : Option ℤ → (ℤ → Bool) → Bool
where_amount none p = true
where_amount (some (pos ℕ.zero)) p = true
where_amount (some a) p = p a

-- An empty search is falsy too.
abbrev pub where_search : Option Text → (Text → Bool) → Bool
where_search none p = true
where_search (some []) p = true
where_search (some (c ∷ s)) p = p (c ∷ s)

-- The WHERE clauses of get_all; `matches` is the full-text operator of the database.
unfoldable pub fits :
    (Text → FinancialRecordModel → Bool) → RecordFilters → FinancialRecordModel → Bool
fits matches f m =
    not m.is_deleted
    && where_given f.user_id (λ u. m.user_id == u)
    && where_given f.record_type (λ t. same_type m.record_type t)
    && where_given f.category_id (λ c. m.category_id == c)
    && where_given f.date_from (λ d. leb d m.record_date)
    && where_given f.date_to (λ d. leb m.record_date d)
    && where_amount f.min_amount (λ a. leb_ℤ a m.amount)
    && where_amount f.max_amount (λ a. leb_ℤ m.amount a)
    && where_search f.search (λ s. matches s m)

-- get_all; `by_date` is the database's ORDER BY record_date DESC
unfoldable pub get_all :
    (Text → FinancialRecordModel → Bool)
    → (List FinancialRecordModel → List FinancialRecordModel)
    → RecordFilters
    → Action (List FinancialRecord × ℕ)
unfolding fits
get_all matches by_date f = query (λ db.
    listing (map_record db) f.page f.page_size (by_date (select (fits matches f) db.records)))

-- get_recent
unfoldable pub get_recent :
    (List FinancialRecordModel → List FinancialRecordModel)
    → Option ℕ
    → ℕ
    → Action (List FinancialRecord)
get_recent by_date user_id limit = query (λ db. map_rows (map_record db) (
    take limit (
      by_date
        (select (λ m. not m.is_deleted && where_given user_id (λ u. m.user_id == u)) db.records))))

-- The WHERE clauses of the dashboard queries.
unfoldable pub in_scope : Option ℕ → Option ℕ → Option ℕ → FinancialRecordModel → Bool
in_scope user_id date_from date_to m =
    not m.is_deleted
    && where_given user_id (λ u. m.user_id == u)
    && where_given date_from (λ d. leb d m.record_date)
    && where_given date_to (λ d. leb m.record_date d)

-- coalesce(sum(amount) filter (where record_type = t), 0)
unfoldable pub sum_of : RecordType → List FinancialRecordModel → ℤ
sum_of t [] = pos 0
sum_of t (m ∷ rows) = if same_type m.record_type t then m.amount +ℤ sum_of t rows else sum_of t rows

-- The row that the query of get_dashboard_summary returns.
unfoldable pub summary_of : List FinancialRecordModel → DashboardSummary
unfolding sum_of
summary_of rows =
    let income = sum_of RecordType.income rows in
    let expense = sum_of RecordType.expense rows in
    record {
      total_income = income;
      total_expense = expense;
      net_balance = income -ℤ expense;
      total_records = length rows;
    }

-- get_dashboard_summary
unfoldable pub get_dashboard_summary : Option ℕ → Option ℕ → Option ℕ → Action DashboardSummary
get_dashboard_summary user_id date_from date_to =
    query (λ db. ok (summary_of (select (in_scope user_id date_from date_to) db.records)))

abbrev pub row_of : ℕ → FinancialRecord → FinancialRecordModel
row_of now r = record {
  id = r.id;
  user_id = r.user_id;
  amount = r.amount.cents;
  record_type = r.record_type;
  category_id = r.category_id;
  record_date = r.record_date;
  notes = r.notes;
  is_deleted = false;
  deleted_at = none;
  deleted_by = none;
  created_at = now;
  updated_at = now;
}

-- The decorator's add: the database first, then the cache.
unfoldable pub add : FinancialRecord → Action (Unit {0})
add r = do
  now ← utcnow
  clash ← query (λ db. ok (any (λ m. m.id == r.id) db.records))
  raise_if clash integrity_error
  write (λ db. record db { records = db.records ++ row_of now r ∷ [] })
  invalidate r.user_id

-- The owner is not written again.
abbrev pub assign_row : FinancialRecord → FinancialRecordModel → FinancialRecordModel
assign_row r m = record m {
  amount = r.amount.cents;
  record_type = r.record_type;
  category_id = r.category_id;
  record_date = r.record_date;
  notes = r.notes;
  is_deleted = r.is_deleted;
  deleted_at = r.deleted_at;
  deleted_by = r.deleted_by;
}

-- The decorator's update.
unfoldable pub update : FinancialRecord → Action (Unit {0})
update r = do
  there ← query (λ db. ok (any (λ m. m.id == r.id) db.records))
  raise_if (not there) no_result_found
  write (λ db. record db { records = update_where (λ m. m.id == r.id) (assign_row r) db.records })
  invalidate r.user_id

-- The decorator's delete.
unfoldable pub delete : FinancialRecord → Action (Unit {0})
delete r = do
  there ← query (λ db. ok (any (λ m. m.id == r.id) db.records))
  raise_if (not there) no_result_found
  write (λ db. record db { records = select (λ m. not (m.id == r.id)) db.records })
  invalidate r.user_id
