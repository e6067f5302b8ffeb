-- ===== src/UseCases/Dashboard.antt =====
-- app/application/use_cases/dashboard. Each use case looks the cache up by the key that the
-- repository uses too, asks the repository on a miss, and caches what it got once more.
pub mod Refinement
pub mod History
pub mod Expiry
use financial_data.Prelude.{
  [], ℕ, Bool, true, false, not, ◌||◌, Option, none, some, List, leb, if◌then◌else◌,
}
use financial_data.Text.{Text, text_eq, lit}
use financial_data.Result.{value_error, invalid_period, type_error}
use financial_data.CacheKeys.{
  CacheValue, summary, totals, trends, summary_key, categories_key, trends_key, DashboardSummary,
  CategoryTotal, TrendPoint,
}
use financial_data.Cache
use financial_data.Entities.Record.{FinancialRecord}
use financial_data.Entities.User.{User, has_permission}
use financial_data.Database.{FinancialRecordModel}
use financial_data.World.{Action, pure, raise, raise_if, with_uow, ◌>>=◌, ◌>>◌}
use financial_data.Repositories.Aggregates.{Dialect}
use financial_data.Repositories.Records
use financial_data.Repositories.Cached
use financial_data.Repositories.Cached.{cache_ttl, fill}

pub record DashboardFilterDto : Type 0 where
  pub user_id : Option ℕ
  pub date_from : Option ℕ
  pub date_to : Option ℕ

pub record TrendsFilterDto : Type 0 where
  pub period : Text
  pub user_id : Option ℕ
  pub limit : ℕ

-- SummaryResponseDTO: the summary, and whether it came from the cache
pub record SummaryDto : Type 0 where
  pub shown : DashboardSummary
  pub cached : Bool

-- Without `records:read`, the actor's own data.
abbrev pub scope_of : User → Option ℕ → Option ℕ
scope_of actor user_id =
    if not (has_permission actor (lit "records:read")) then some actor.id else user_id

-- A cached text is truthy whatever it holds.
abbrev pub summary_cached : Option CacheValue → Action SummaryDto → Action SummaryDto
summary_cached none miss = miss
summary_cached (some (summary s)) miss = pure (record { shown = s; cached = true })
summary_cached (some v) miss = raise type_error

abbrev pub totals_cached :
    Option CacheValue → Action (List CategoryTotal) → Action (List CategoryTotal)
totals_cached none miss = miss
totals_cached (some (totals l)) miss = pure l
totals_cached (some (trends [])) miss = pure []
totals_cached (some v) miss = raise type_error

abbrev pub trends_cached : Option CacheValue → Action (List TrendPoint) → Action (List TrendPoint)
trends_cached none miss = miss
trends_cached (some (trends l)) miss = pure l
trends_cached (some (totals [])) miss = pure []
trends_cached (some v) miss = raise type_error

-- GetDashboardSummaryUseCase.execute
unfoldable pub get_summary : DashboardFilterDto → User → Action SummaryDto
unfolding fill
get_summary dto actor = do
  cached ← Cache.get (summary_key (scope_of actor dto.user_id) dto.date_from dto.date_to)
  summary_cached cached (do
    s ← fill (summary_key (scope_of actor dto.user_id) dto.date_from dto.date_to) summary (
        with_uow
          (Cached.get_dashboard_summary (scope_of actor dto.user_id) dto.date_from dto.date_to))
    pure (record { shown = s; cached = false }))

-- GetRecentActivityUseCase.execute: at most 50, and not cached
unfoldable pub get_recent :
    (List FinancialRecordModel → List FinancialRecordModel)
    → DashboardFilterDto
    → User
    → ℕ
    → Action (List FinancialRecord)
get_recent by_date dto actor limit =
    with_uow
      (Records.get_recent by_date (scope_of actor dto.user_id) (if leb limit 50 then limit else 50))

module _ (dialect : Dialect) where
  -- GetCategoryTotalsUseCase.execute
  unfoldable pub get_category_totals : DashboardFilterDto → User → Action (List CategoryTotal)
  unfolding fill
  get_category_totals dto actor = do
    cached ← Cache.get (categories_key (scope_of actor dto.user_id) dto.date_from dto.date_to)
    totals_cached cached (
        fill (categories_key (scope_of actor dto.user_id) dto.date_from dto.date_to) totals (
          with_uow (
            Cached.get_category_totals dialect (scope_of actor dto.user_id) dto.date_from
              dto.date_to)))

  -- dto.period not in ("monthly", "weekly")
  abbrev pub is_unknown_period : Text → Bool
  is_unknown_period period = not (text_eq period (lit "monthly") || text_eq period (lit "weekly"))

  -- GetTrendsUseCase.execute
  unfoldable pub get_trends : TrendsFilterDto → User → Action (List TrendPoint)
  unfolding fill
  get_trends dto actor = do
    raise_if (is_unknown_period dto.period) (value_error invalid_period)
    cached ← Cache.get (trends_key (scope_of actor dto.user_id) dto.period dto.limit)
    trends_cached cached (
        fill (trends_key (scope_of actor dto.user_id) dto.period dto.limit) trends
          (with_uow (Cached.get_trends dialect dto.period (scope_of actor dto.user_id) dto.limit)))
