-- ===== src/UseCases/Dashboard/Expiry.antt =====
-- app/application/use_cases/dashboard with the records: a cached dashboard is gone five minutes after it was last filled, whatever requests fill and drop
-- dashboards, and whether the cache server answers or not.
use financial_data.Prelude.{ℕ, ◌+◌, ◌≡◌, ap, Bool, true, Option, none, some, List, [], ◌∷◌, arith}
use financial_data.Result.{ok}
use financial_data.Text.{Text}
use financial_data.Json.{JsonDict}
use financial_data.CacheKeys.{
  CacheKey, CacheValue, number, summary, totals, trends, CategoryTotal, TrendPoint,
}
use financial_data.Cache
use financial_data.Cache.{CacheStore, put, on_cache}
use financial_data.Entities.Audit.{RequestMeta}
use financial_data.Entities.Enums.{ActionType}
use financial_data.Entities.Record.{FinancialRecord}
use financial_data.Entities.User.{User}
use financial_data.World.{World, Action}
use financial_data.World.Keeps.{Keeps, keeps_rules}
use financial_data.Repositories.Aggregates.{Dialect}
use financial_data.Repositories.Cached.Expiry.{
  IsBounded, is_dashboard, cache_rules, bounded_rules, later, expired, missed,
}
use financial_data.Repositories.Categories
use financial_data.Repositories.Records as Rows
use financial_data.Repositories.Cached.{cache_ttl}
use financial_data.UseCases.Auditing.{log_success}
use financial_data.UseCases.Dashboard
use financial_data.UseCases.Dashboard.{
  DashboardFilterDto, TrendsFilterDto, SummaryDto, summary_cached, totals_cached, trends_cached,
}
use financial_data.UseCases.Records
use financial_data.UseCases.Records.{CreateRecordDto, UpdateRecordDto}

log_success-IsBounded :
    (u : User) (a : ActionType) (resource : Text) (meta : RequestMeta) (id : Option ℕ)
    (before after diff : Option JsonDict)
    → Keeps IsBounded (log_success u a resource meta id before after diff)
unfolding log_success
log_success-IsBounded u a resource meta id before after diff = search cache_rules depth 14

get_category-IsBounded : (id : ℕ) → Keeps IsBounded (Categories.get_by_id id)
unfolding Categories.get_by_id
get_category-IsBounded id = search cache_rules

load_category-IsBounded : (id : ℕ) → Keeps IsBounded (Records.load_category id)
unfolding Records.load_category
load_category-IsBounded id = search (cache_rules, get_category-IsBounded) depth 14

check_category-IsBounded : (id : Option ℕ) → Keeps IsBounded (Records.check_category id)
unfolding Records.check_category
check_category-IsBounded none = search cache_rules
check_category-IsBounded (some id) = search (cache_rules, load_category-IsBounded) depth 9

load_record-IsBounded :
    (id : ℕ) (codename : Text) (actor : User)
    → Keeps IsBounded (Records.load_record id codename actor)
unfolding Records.load_record Rows.get_by_id
load_record-IsBounded id codename actor = search cache_rules depth 14

add-IsBounded : (r : FinancialRecord) → Keeps IsBounded (Rows.add r)
unfolding Rows.add
add-IsBounded r = search cache_rules depth 14

update-IsBounded : (r : FinancialRecord) → Keeps IsBounded (Rows.update r)
unfolding Rows.update
update-IsBounded r = search cache_rules depth 14

ruleset record_rules = (
  cache_rules, log_success-IsBounded, load_category-IsBounded, check_category-IsBounded,
  load_record-IsBounded, add-IsBounded, update-IsBounded,
)

module _ (actor : User) (meta : RequestMeta) where
  create_record-IsBounded :
      (dto : CreateRecordDto) → Keeps IsBounded (Records.create_record dto actor meta)
  unfolding Records.create_record
  create_record-IsBounded dto = search record_rules depth 40

  update_record-IsBounded :
      (dto : UpdateRecordDto) → Keeps IsBounded (Records.update_record dto actor meta)
  unfolding Records.update_record
  update_record-IsBounded dto = search record_rules depth 40

  delete_record-IsBounded : (id : ℕ) → Keeps IsBounded (Records.delete_record id actor meta)
  unfolding Records.delete_record
  delete_record-IsBounded id = search record_rules depth 40

pub summary_cached-Keeps :
    {P : World → Type 0} (o : Option CacheValue) (m : Action SummaryDto)
    → Keeps P m
    → Keeps P (summary_cached o m)
summary_cached-Keeps none m k = search keeps_rules
summary_cached-Keeps (some (summary s)) m k = search keeps_rules
summary_cached-Keeps (some (number n)) m k = search keeps_rules
summary_cached-Keeps (some (totals [])) m k = search keeps_rules
summary_cached-Keeps (some (totals (t ∷ l))) m k = search keeps_rules
summary_cached-Keeps (some (trends [])) m k = search keeps_rules
summary_cached-Keeps (some (trends (t ∷ l))) m k = search keeps_rules

pub totals_cached-Keeps :
    {P : World → Type 0} (o : Option CacheValue) (m : Action (List CategoryTotal))
    → Keeps P m
    → Keeps P (totals_cached o m)
totals_cached-Keeps none m k = search keeps_rules
totals_cached-Keeps (some (summary s)) m k = search keeps_rules
totals_cached-Keeps (some (number n)) m k = search keeps_rules
totals_cached-Keeps (some (totals [])) m k = search keeps_rules
totals_cached-Keeps (some (totals (t ∷ l))) m k = search keeps_rules
totals_cached-Keeps (some (trends [])) m k = search keeps_rules
totals_cached-Keeps (some (trends (t ∷ l))) m k = search keeps_rules

pub trends_cached-Keeps :
    {P : World → Type 0} (o : Option CacheValue) (m : Action (List TrendPoint))
    → Keeps P m
    → Keeps P (trends_cached o m)
trends_cached-Keeps none m k = search keeps_rules
trends_cached-Keeps (some (summary s)) m k = search keeps_rules
trends_cached-Keeps (some (number n)) m k = search keeps_rules
trends_cached-Keeps (some (totals [])) m k = search keeps_rules
trends_cached-Keeps (some (totals (t ∷ l))) m k = search keeps_rules
trends_cached-Keeps (some (trends [])) m k = search keeps_rules
trends_cached-Keeps (some (trends (t ∷ l))) m k = search keeps_rules

ruleset dashboard_rules =
    (bounded_rules, summary_cached-Keeps, totals_cached-Keeps, trends_cached-Keeps)

module _ (actor : User) where
  get_summary-IsBounded :
      (dto : DashboardFilterDto) → Keeps IsBounded (Dashboard.get_summary dto actor)
  unfolding Dashboard.get_summary
  get_summary-IsBounded dto = search dashboard_rules depth 14

  module _ (dialect : Dialect) where
    get_category_totals-IsBounded :
        (dto : DashboardFilterDto)
        → Keeps IsBounded (Dashboard.get_category_totals dialect dto actor)
    unfolding Dashboard.get_category_totals
    get_category_totals-IsBounded dto = search dashboard_rules depth 14

    get_trends-IsBounded :
        (dto : TrendsFilterDto) → Keeps IsBounded (Dashboard.get_trends dialect dto actor)
    unfolding Dashboard.get_trends
    get_trends-IsBounded dto = search dashboard_rules depth 14

-- A request by some user, whether it succeeds or fails; the cache server comes or goes; time passes.
pub data Event : Type 0 where
  created : CreateRecordDto → User → RequestMeta → Event
  updated : UpdateRecordDto → User → RequestMeta → Event
  deleted : ℕ → User → RequestMeta → Event
  summed : DashboardFilterDto → User → Event
  totaled : Dialect → DashboardFilterDto → User → Event
  trended : Dialect → TrendsFilterDto → User → Event
  switched : Bool → Event
  passed : ℕ → Event

abbrev pub after : Event → World → World
after (created dto actor meta) w = (Records.create_record dto actor meta w).1
after (updated dto actor meta) w = (Records.update_record dto actor meta w).1
after (deleted id actor meta) w = (Records.delete_record id actor meta w).1
after (summed dto actor) w = (Dashboard.get_summary dto actor w).1
after (totaled dialect dto actor) w = (Dashboard.get_category_totals dialect dto actor w).1
after (trended dialect dto actor) w = (Dashboard.get_trends dialect dto actor w).1
after (switched up) w = record w { cache_up = up }
after (passed seconds) w = record w { now = w.now + seconds }

abbrev pub after_all : List Event → World → World
after_all [] w = w
after_all (e ∷ events) w = after_all events (after e w)

after-IsBounded : (e : Event) (w : World) → IsBounded w → IsBounded (after e w)
after-IsBounded (created dto actor meta) w h = (create_record-IsBounded actor meta dto).at w h
after-IsBounded (updated dto actor meta) w h = (update_record-IsBounded actor meta dto).at w h
after-IsBounded (deleted id actor meta) w h = (delete_record-IsBounded actor meta id).at w h
after-IsBounded (summed dto actor) w h = (get_summary-IsBounded actor dto).at w h
after-IsBounded (totaled dialect dto actor) w h =
    (get_category_totals-IsBounded actor dialect dto).at w h
after-IsBounded (trended dialect dto actor) w h = (get_trends-IsBounded actor dialect dto).at w h
after-IsBounded (switched up) w h = record { bound = h.bound }
after-IsBounded (passed n) w h = record {
  bound = λ k d.
      later (w.now + cache_ttl) (w.now + n + cache_ttl) (w.cache k) (omega arith) (h.bound k d);
}

after_all-IsBounded :
    (events : List Event) (w : World) → IsBounded w → IsBounded (after_all events w)
after_all-IsBounded [] w h = h
after_all-IsBounded (e ∷ events) w h =
    after_all-IsBounded events (after e w) (after-IsBounded e w h)

-- After any history of changes of records, of dashboard reads by any users, of outages of the cache server
-- and of time, from a state whose dashboards all expire within their time to live, every dashboard that is
-- cached then misses 300 seconds later.
pub dashboard_expires :
    (events : List Event) (w : World)
    → IsBounded w
    → (k : CacheKey) → is_dashboard k ≡ true
    → let v = record (after_all events w) { now = (after_all events w).now + 300 } in
      Cache.get k v ≡ (ok none, v)
unfolding Cache.get
dashboard_expires events w h k d =
    let u = after_all events w in
    let v = record u { now = u.now + 300 } in
    ap (λ (o : Option CacheValue). (ok o, v))
      (missed u.cache_up _ (
        expired (u.now + 300) (u.now + 300) (u.cache k) (omega arith)
          ((after_all-IsBounded events w h).bound k d)))
