-- ===== src/UseCases/Atomicity/Reads.antt =====
-- The use cases that only read commit nothing.
use financial_data.Prelude.{ℕ, suc, zero, Bool, Option, none, some, List, [], ◌∷◌}
use financial_data.Text.{Text}
use financial_data.Entities.Enums.{CategoryType}
use financial_data.Entities.Category.{Category}
use financial_data.Entities.User.{User}
use financial_data.Database.{FinancialRecordModel}
use financial_data.CacheKeys.{
  CacheValue, number, summary, totals, trends, CategoryTotal, TrendPoint, DashboardSummary,
}
use financial_data.World.{Action}
use financial_data.World.Pending.{IsPending, IsPending-with_uow}
use financial_data.Repositories.Pending.{repository_rules}
use financial_data.Repositories.Aggregates
use financial_data.Repositories.Aggregates.{Dialect}
use financial_data.Repositories.Users
use financial_data.Repositories.Roles
use financial_data.Repositories.Categories
use financial_data.Repositories.Records
use financial_data.Repositories.Records.{RecordFilters}
use financial_data.Repositories.Cached
use financial_data.UseCases.Dashboard
use financial_data.UseCases.Atomicity.Ledger.{load_record-IsPending}

ruleset read_rules = (repository_rules, IsPending-with_uow, load_record-IsPending)

pub get_user-IsPending : (id : ℕ) → IsPending (financial_data.UseCases.Users.get_user id)
unfolding financial_data.UseCases.Users.get_user
get_user-IsPending id = search read_rules depth 12

pub get_users-IsPending :
    (ilike : Text → Text → Bool) (page page_size : ℕ) (search_text : Option Text) (b : Bool)
    → IsPending (financial_data.UseCases.Users.get_users ilike page page_size search_text b)
unfolding financial_data.UseCases.Users.get_users Users.get_all
get_users-IsPending ilike page page_size search_text b = search read_rules depth 12

pub get_role-IsPending : (id : ℕ) → IsPending (financial_data.UseCases.Roles.get_role id)
unfolding financial_data.UseCases.Roles.get_role
get_role-IsPending id = search read_rules depth 12

pub get_roles-IsPending :
    (page page_size : ℕ) (b : Bool)
    → IsPending (financial_data.UseCases.Roles.get_roles page page_size b)
unfolding financial_data.UseCases.Roles.get_roles Roles.get_all
get_roles-IsPending page page_size b = search read_rules depth 12

pub get_category-IsPending :
    (id : ℕ) → IsPending (financial_data.UseCases.Categories.get_category id)
unfolding financial_data.UseCases.Categories.get_category
get_category-IsPending id = search read_rules depth 12

pub get_categories-IsPending :
    (by_name : List Category → List Category) (page page_size : ℕ) (t : Option CategoryType)
    (b : Bool)
    → IsPending (financial_data.UseCases.Categories.get_categories by_name page page_size t b)
unfolding financial_data.UseCases.Categories.get_categories Categories.get_all
get_categories-IsPending by_name page page_size t b = search read_rules depth 12

pub get_record-IsPending :
    (id : ℕ) (actor : User) → IsPending (financial_data.UseCases.Records.get_record id actor)
unfolding financial_data.UseCases.Records.get_record
get_record-IsPending id actor = search read_rules depth 12

pub get_records-IsPending :
    (matches : Text → FinancialRecordModel → Bool)
    (by_date : List FinancialRecordModel → List FinancialRecordModel) (dto : RecordFilters)
    (actor : User)
    → IsPending (financial_data.UseCases.Records.get_records matches by_date dto actor)
unfolding financial_data.UseCases.Records.get_records Records.get_all
get_records-IsPending matches by_date dto actor = search read_rules depth 12

-- A cached value of any shape is returned, refused or passed over.
summary_or-IsPending :
    (o : Option CacheValue) (m : Action DashboardSummary)
    → IsPending m
    → IsPending (Cached.summary_or o m)
summary_or-IsPending none m k = k
summary_or-IsPending (some (summary s)) m k = search read_rules
summary_or-IsPending (some (number zero)) m k = k
summary_or-IsPending (some (number (suc n))) m k = search read_rules
summary_or-IsPending (some (totals [])) m k = k
summary_or-IsPending (some (totals (t ∷ l))) m k = search read_rules
summary_or-IsPending (some (trends [])) m k = k
summary_or-IsPending (some (trends (t ∷ l))) m k = search read_rules

totals_or-IsPending :
    (o : Option CacheValue) (m : Action (List CategoryTotal))
    → IsPending m
    → IsPending (Cached.totals_or o m)
totals_or-IsPending none m k = k
totals_or-IsPending (some (summary s)) m k = search read_rules
totals_or-IsPending (some (number zero)) m k = k
totals_or-IsPending (some (number (suc n))) m k = search read_rules
totals_or-IsPending (some (totals [])) m k = k
totals_or-IsPending (some (totals (t ∷ l))) m k = search read_rules
totals_or-IsPending (some (trends [])) m k = k
totals_or-IsPending (some (trends (t ∷ l))) m k = search read_rules

trends_or-IsPending :
    (o : Option CacheValue) (m : Action (List TrendPoint))
    → IsPending m
    → IsPending (Cached.trends_or o m)
trends_or-IsPending none m k = k
trends_or-IsPending (some (summary s)) m k = search read_rules
trends_or-IsPending (some (number zero)) m k = k
trends_or-IsPending (some (number (suc n))) m k = search read_rules
trends_or-IsPending (some (totals [])) m k = k
trends_or-IsPending (some (totals (t ∷ l))) m k = search read_rules
trends_or-IsPending (some (trends [])) m k = k
trends_or-IsPending (some (trends (t ∷ l))) m k = search read_rules

summary_cached-IsPending :
    (o : Option CacheValue) (m : Action Dashboard.SummaryDto)
    → IsPending m
    → IsPending (Dashboard.summary_cached o m)
summary_cached-IsPending none m k = k
summary_cached-IsPending (some (summary s)) m k = search read_rules
summary_cached-IsPending (some (number n)) m k = search read_rules
summary_cached-IsPending (some (totals l)) m k = search read_rules
summary_cached-IsPending (some (trends l)) m k = search read_rules

totals_cached-IsPending :
    (o : Option CacheValue) (m : Action (List CategoryTotal))
    → IsPending m
    → IsPending (Dashboard.totals_cached o m)
totals_cached-IsPending none m k = k
totals_cached-IsPending (some (summary s)) m k = search read_rules
totals_cached-IsPending (some (number n)) m k = search read_rules
totals_cached-IsPending (some (totals l)) m k = search read_rules
totals_cached-IsPending (some (trends [])) m k = search read_rules
totals_cached-IsPending (some (trends (t ∷ l))) m k = search read_rules

trends_cached-IsPending :
    (o : Option CacheValue) (m : Action (List TrendPoint))
    → IsPending m
    → IsPending (Dashboard.trends_cached o m)
trends_cached-IsPending none m k = k
trends_cached-IsPending (some (summary s)) m k = search read_rules
trends_cached-IsPending (some (number n)) m k = search read_rules
trends_cached-IsPending (some (trends l)) m k = search read_rules
trends_cached-IsPending (some (totals [])) m k = search read_rules
trends_cached-IsPending (some (totals (t ∷ l))) m k = search read_rules

ruleset cached_rules = (
  read_rules, summary_or-IsPending, totals_or-IsPending, trends_or-IsPending,
  summary_cached-IsPending, totals_cached-IsPending, trends_cached-IsPending,
)

pub get_summary-IsPending :
    (dto : Dashboard.DashboardFilterDto) (actor : User)
    → IsPending (Dashboard.get_summary dto actor)
unfolding Dashboard.get_summary Cached.get_dashboard_summary Cached.fill
    Records.get_dashboard_summary
get_summary-IsPending dto actor = search cached_rules depth 30

pub get_recent-IsPending :
    (by_date : List FinancialRecordModel → List FinancialRecordModel)
    (dto : Dashboard.DashboardFilterDto) (actor : User) (limit : ℕ)
    → IsPending (Dashboard.get_recent by_date dto actor limit)
unfolding Dashboard.get_recent Records.get_recent
get_recent-IsPending by_date dto actor limit = search cached_rules depth 12

module _ (dialect : Dialect) where
  pub get_category_totals-IsPending :
      (dto : Dashboard.DashboardFilterDto) (actor : User)
      → IsPending (Dashboard.get_category_totals dialect dto actor)
  unfolding Dashboard.get_category_totals Cached.get_category_totals Cached.fill
      Aggregates.get_category_totals
  get_category_totals-IsPending dto actor = search cached_rules depth 30

  pub get_trends-IsPending :
      (dto : Dashboard.TrendsFilterDto) (actor : User)
      → IsPending (Dashboard.get_trends dialect dto actor)
  unfolding Dashboard.get_trends Cached.get_trends Cached.fill Aggregates.get_trends
  get_trends-IsPending dto actor = search cached_rules depth 30

pub ruleset reading_rules = (
  get_user-IsPending, get_users-IsPending, get_role-IsPending, get_roles-IsPending,
  get_category-IsPending, get_categories-IsPending, get_record-IsPending, get_records-IsPending,
  get_summary-IsPending, get_recent-IsPending, get_category_totals-IsPending, get_trends-IsPending,
)
