-- ===== src/Api/Dashboards.antt =====
-- app/api/v1/dashboard.py.
use financial_data.Prelude.{ℕ, Option, none, map}
use financial_data.Text.{lit}
use financial_data.World.{Action, pure, ◌>>=◌}
use financial_data.UseCases.Dashboard
use financial_data.UseCases.Dashboard.{DashboardFilterDto, TrendsFilterDto}
use financial_data.Api.Http.{Platform, Request, guarded_actor}
use financial_data.Api.Responses.{
  Content, shown_summary, category_totals, trend_points, recent, map_record,
}

module _ (platform : Platform) (request : Request) where
  unfoldable pub get_summary : DashboardFilterDto → Action Content
  get_summary dto = do
    actor ← guarded_actor platform request (lit "dashboard:read")
    result ← Dashboard.get_summary dto actor
    pure (shown_summary result)

  unfoldable pub get_category_totals : DashboardFilterDto → Action Content
  get_category_totals dto = do
    actor ← guarded_actor platform request (lit "dashboard:read")
    totals ← Dashboard.get_category_totals platform.dialect dto actor
    pure (category_totals totals)

  unfoldable pub get_trends : TrendsFilterDto → Action Content
  get_trends dto = do
    actor ← guarded_actor platform request (lit "dashboard:read")
    trends ← Dashboard.get_trends platform.dialect dto actor
    pure (trend_points trends)

  unfoldable pub get_recent : Option ℕ → ℕ → Action Content
  get_recent user_id limit = do
    actor ← guarded_actor platform request (lit "dashboard:read")
    found ←
        Dashboard.get_recent platform.by_date
          (record { user_id = user_id; date_from = none; date_to = none }) actor limit
    pure (recent (map map_record found))
