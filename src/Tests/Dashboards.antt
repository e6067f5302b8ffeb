-- ===== src/Tests/Dashboards.antt =====
-- Dashboards, cached and not.
use financial_data.Prelude.{◌≡◌, ◌+◌, refl, List, false, length, true, none, some, [], ◌∷◌, arith}
use financial_data.Text.{lit}
use financial_data.Result.{ok}
use financial_data.CacheKeys.{CacheKey, summary_key}
use financial_data.Cache
use financial_data.Entities.Enums.{RecordType}
use financial_data.Prelude.Int.{pos}
use financial_data.Money.{finite}
use financial_data.World.Keeps.{Keeps}
use financial_data.Repositories.Records.{sum_of}
use financial_data.Repositories.Aggregates.{totals_of}
use financial_data.Repositories.Aggregates.Breakdown.{
  Grouped, sum_totals, count_totals, totals_of_breakdown,
}
use financial_data.Repositories.Cached.Coherence.{IsCoherent}
use financial_data.UseCases.Records.{CreateRecordDto, UpdateRecordDto, update_record}
use financial_data.UseCases.Records.Coherence.{IsFresh}
use financial_data.UseCases.Records.Changes.{update_record-IsFresh}
use financial_data.UseCases.Dashboard.{DashboardFilterDto}
use financial_data.UseCases.Dashboard.Refinement.{IsFaithful, get_summary-IsFaithful}
use financial_data.UseCases.Dashboard.Expiry
use financial_data.UseCases.Dashboard.Expiry.{dashboard_expires}
use financial_data.UseCases.Dashboard.History.{
  created, deleted, shown, passed as waited, after_all, after_all-IsFaithful,
}
use financial_data.Tests.Sample.{ann, bob, meta, world}

abbrev all_time : DashboardFilterDto
all_time = record { user_id = none; date_from = none; date_to = none }

nothing_cached : IsCoherent world.committed.records world.cache
nothing_cached = record { shows = λ k. tt }

fresh : IsFresh world
unfolding financial_data.Prelude.any
fresh = record {
  up = refl;
  outside = nothing_cached;
  inside = nothing_cached;
  outside_ids = (refl, tt);
  inside_ids = (refl, tt);
}

abbrev tea : CreateRecordDto
tea = record {
  amount = finite (pos 5) 1;
  record_type = RecordType.expense;
  category_id = 4;
  record_date = 21;
  notes = none;
}

abbrev renoted : UpdateRecordDto
renoted = record {
  record_id = 9;
  amount = none;
  record_type = none;
  category_id = none;
  record_date = none;
  notes = some (lit "lunch");
}

after_all-IsFaithful_example : IsFaithful all_time ann (
    after_all
      (shown all_time ann ∷ created tea ann meta ∷ waited 60 ∷ deleted 9 ann meta ∷ [])
      world)
after_all-IsFaithful_example =
    after_all-IsFaithful
      (shown all_time ann ∷ created tea ann meta ∷ waited 60 ∷ deleted 9 ann meta ∷ []) all_time ann
      world fresh

get_summary-IsFaithful_example : IsFaithful all_time bob world
get_summary-IsFaithful_example = get_summary-IsFaithful all_time bob world nothing_cached

update_record-IsFresh_example : Keeps IsFresh (update_record renoted ann meta)
update_record-IsFresh_example = update_record-IsFresh renoted ann meta

abbrev everyone : CacheKey
everyone = summary_key none none none

-- A dashboard is read, a record is created, and the cache server is away for a while.
abbrev busy : List Expiry.Event
busy =
    Expiry.summed all_time ann
    ∷ Expiry.created tea ann meta
    ∷ Expiry.switched false
    ∷ Expiry.passed 60
    ∷ Expiry.switched true
    ∷ Expiry.summed all_time bob
    ∷ []

dashboard_expires_example :
    let v = record (Expiry.after_all busy world) {
      now = (Expiry.after_all busy world).now + 300;
    } in
    Cache.get everyone v ≡ (ok none, v)
dashboard_expires_example =
    dashboard_expires busy world (record { bound = λ k d. tt }) everyone refl

totals_of_breakdown_example :
    Grouped (totals_of world.committed.categories world.committed.records)
    × ((t : RecordType)
        → sum_totals t (totals_of world.committed.categories world.committed.records)
          ≡ sum_of t world.committed.records)
    × (count_totals (totals_of world.committed.categories world.committed.records)
        ≡ length world.committed.records)
unfolding financial_data.Repositories.Aggregates.Breakdown.covered financial_data.Prelude.any
totals_of_breakdown_example =
    totals_of_breakdown world.committed.categories world.committed.records refl
