-- ===== src/Repositories/Cached.antt =====
-- The cached reads of app/infrastructure/repositories/cached_repo.py, with a time to live of five
-- minutes. The other methods pass through; the writes are in Repositories/Records.
pub mod Coherence
pub mod Expiry
use financial_data.Prelude.{ℕ, zero, suc, Option, none, some, List, [], ◌∷◌}
use financial_data.Text.{Text}
use financial_data.Result.{type_error, key_error}
use financial_data.CacheKeys.{
  CacheKey, CacheValue, number, summary, totals, trends, summary_key, categories_key, trends_key,
  DashboardSummary, CategoryTotal, TrendPoint,
}
use financial_data.Cache
use financial_data.World.{Action, pure, raise, ◌>>=◌, ◌>>◌}
use financial_data.Repositories.Records
use financial_data.Repositories.Aggregates
use financial_data.Repositories.Aggregates.{Dialect}

-- CACHE_TTL
abbrev pub cache_ttl : ℕ
cache_ttl = 300

-- On a miss the database is asked, and the answer is cached.
unfoldable pub fill : {A : Type 0} → CacheKey → (A → CacheValue) → Action A → Action A
fill key wrap load = do fresh ← load; Cache.set key (wrap fresh) cache_ttl; pure fresh

-- `if cached: return …`: a zero and an empty list are falsy; a value of another shape cannot be
-- taken apart.
abbrev pub summary_or : Option CacheValue → Action DashboardSummary → Action DashboardSummary
summary_or none miss = miss
summary_or (some (summary s)) miss = pure s
summary_or (some (number zero)) miss = miss
summary_or (some (totals [])) miss = miss
summary_or (some (trends [])) miss = miss
summary_or (some (number (suc n))) miss = raise type_error
summary_or (some (totals (t ∷ l))) miss = raise type_error
summary_or (some (trends (t ∷ l))) miss = raise type_error

abbrev pub totals_or : Option CacheValue → Action (List CategoryTotal) → Action (List CategoryTotal)
totals_or none miss = miss
totals_or (some (totals [])) miss = miss
totals_or (some (totals (t ∷ l))) miss = pure (t ∷ l)
totals_or (some (number zero)) miss = miss
totals_or (some (trends [])) miss = miss
totals_or (some (number (suc n))) miss = raise type_error
totals_or (some (summary s)) miss = raise type_error
totals_or (some (trends (t ∷ l))) miss = raise key_error

abbrev pub trends_or : Option CacheValue → Action (List TrendPoint) → Action (List TrendPoint)
trends_or none miss = miss
trends_or (some (trends [])) miss = miss
trends_or (some (trends (t ∷ l))) miss = pure (t ∷ l)
trends_or (some (number zero)) miss = miss
trends_or (some (totals [])) miss = miss
trends_or (some (number (suc n))) miss = raise type_error
trends_or (some (summary s)) miss = raise type_error
trends_or (some (totals (t ∷ l))) miss = raise key_error

-- get_dashboard_summary
unfoldable pub get_dashboard_summary : Option ℕ → Option ℕ → Option ℕ → Action DashboardSummary
unfolding fill
get_dashboard_summary user_id date_from date_to = do
  cached ← Cache.get (summary_key user_id date_from date_to)
  summary_or cached (
      fill (summary_key user_id date_from date_to) summary
        (Records.get_dashboard_summary user_id date_from date_to))

module _ (dialect : Dialect) where
  -- get_category_totals
  unfoldable pub get_category_totals : Option ℕ → Option ℕ → Option ℕ → Action (List CategoryTotal)
  unfolding fill
  get_category_totals user_id date_from date_to = do
    cached ← Cache.get (categories_key user_id date_from date_to)
    totals_or cached (
        fill (categories_key user_id date_from date_to) totals
          (Aggregates.get_category_totals dialect user_id date_from date_to))

  -- get_trends
  unfoldable pub get_trends : Text → Option ℕ → ℕ → Action (List TrendPoint)
  unfolding fill
  get_trends period user_id limit = do
    cached ← Cache.get (trends_key user_id period limit)
    trends_or cached (
        fill (trends_key user_id period limit) trends
          (Aggregates.get_trends dialect period user_id limit))
