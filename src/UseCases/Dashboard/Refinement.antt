-- ===== src/UseCases/Dashboard/Refinement.antt =====
-- The cached dashboard summary refines the uncached one.
use financial_data.Prelude.{
  List, ◌+◌, Bool, true, false, ◌≡◌, refl, Option, none, some, Option-cases, inl, inr,
  if◌then◌else◌, select,
}
use financial_data.Result.{ok}
use financial_data.CacheKeys.{
  CacheKey, CacheEntry, CacheValue, summary, summary_key, DashboardSummary,
}
use financial_data.Cache
use financial_data.Entities.User.{User}
use financial_data.Database.{FinancialRecordModel}
use financial_data.World
use financial_data.World.{World, pure, query, with_uow, close_session}
use financial_data.Repositories.Records
use financial_data.Repositories.Records.{in_scope, summary_of}
use financial_data.Repositories.Cached
use financial_data.Repositories.Cached.{cache_ttl}
use financial_data.Repositories.Cached.Coherence.{Shows, IsCoherent, IsCoherent-put, hit-Shows}
use financial_data.UseCases.Dashboard.{DashboardFilterDto, scope_of, get_summary}

-- What the cache answers.
abbrev pub hit : CacheKey → World → Option CacheValue
hit k w = if w.cache_up then Cache.value_of (Cache.live w.now (w.cache k)) else none

-- The repository and the use case cache the same value, one after the other.
set_twice :
    (rows : List FinancialRecordModel) (k : CacheKey) (e : CacheEntry) (cache : Cache.CacheStore)
    (up : Bool)
    → Shows rows k e.value
    → IsCoherent rows cache
    → IsCoherent rows (
        if up
        then Cache.put k (some e) (if up then Cache.put k (some e) cache else cache)
        else (if up then Cache.put k (some e) cache else cache))
set_twice rows k e cache false s c = c
set_twice rows k e cache true s c = IsCoherent-put rows k e _ s (IsCoherent-put rows k e cache s c)

reached :
    (up : Bool) (o : Option CacheValue) (v : CacheValue)
    → (if up then o else none) ≡ some v
    → o ≡ some v
reached true o v h = h
reached false o v h = cc

module _ (dto : DashboardFilterDto) (actor : User) where
  abbrev key : CacheKey
  key = summary_key (scope_of actor dto.user_id) dto.date_from dto.date_to

  -- The specification: the sums over the committed records in scope, with no cache at all.
  abbrev pub expected : World → DashboardSummary
  expected w =
      summary_of (
        select (in_scope (scope_of actor dto.user_id) dto.date_from dto.date_to)
          w.committed.records)

  -- What a read of the dashboard must do in `w`.
  abbrev pub IsFaithful : World → Type 0
  IsFaithful w =
      let (r, w') = get_summary dto actor w in
      ((cached : Bool) × (r ≡ ok (record { shown = expected w; cached = cached })))
      × (w'.committed ≡ w.committed)
      × (w'.cache_up ≡ w.cache_up)
      × IsCoherent w.committed.records w'.cache

  on_hit :
      (w : World) (v : CacheValue)
      → hit key w ≡ some v
      → v ≡ summary (expected w)
      → IsCoherent w.committed.records w.cache
      → IsFaithful w
  unfolding get_summary World.◌>>=◌ Cache.get pure
  on_hit w v h e c = rw (h, e) ((true, refl), refl, refl, c)

  -- The entry that a miss leaves.
  abbrev entry : World → CacheEntry
  entry w = record { value = summary (expected w); expires_at = some (w.now + cache_ttl) }

  abbrev filled : World → World
  filled w = record w {
    session = w.committed;
    cache = if w.cache_up then Cache.put key (some (entry w)) w.cache else w.cache;
  }

  -- The repository misses too, under the same key.
  repository_miss :
      (w : World)
      → hit key w ≡ none
      → with_uow
          (Cached.get_dashboard_summary (scope_of actor dto.user_id) dto.date_from dto.date_to)
          w
        ≡ (ok (expected w), filled w)
  unfolding Cached.get_dashboard_summary Records.get_dashboard_summary World.◌>>=◌ Cache.get pure
      with_uow close_session query Cache.set
  repository_miss w h = rw (h) refl

  on_miss : (w : World) → hit key w ≡ none → IsCoherent w.committed.records w.cache → IsFaithful w
  unfolding get_summary World.◌>>=◌ Cache.get pure Cache.set
  on_miss w h c =
      rw (h, repository_miss w h)
        (
          (false, refl),
          refl,
          refl,
          set_twice w.committed.records key (entry w) w.cache w.cache_up refl c,
        )

  -- With a cache that is coherent with the committed records, the dashboard summary is the sum over
  -- those records, whether it was cached or not and whether the cache answers or not; and the read changes no
  -- record and leaves the cache coherent.
  pub get_summary-IsFaithful : (w : World) → IsCoherent w.committed.records w.cache → IsFaithful w
  get_summary-IsFaithful w c = elim (Option-cases (hit key w)) [
    | inl h ↦ on_miss w h c
    | inr (v, h) ↦
        on_hit w v h
          (hit-Shows w.committed.records key w.now (w.cache key) v (c.shows key)
            (reached w.cache_up _ v h))
          c
  ]
