-- ===== src/UseCases/Dashboard/History.antt =====
-- The dashboard after any history of requests to the records, one after the other.
use financial_data.Prelude.{ℕ, ◌+◌, subst, sym, ◌∙◌, List, [], ◌∷◌}
use financial_data.Entities.User.{User}
use financial_data.Entities.Audit.{RequestMeta}
use financial_data.Database.{Db}
use financial_data.World.{World, close_session}
use financial_data.Repositories.Cached.Coherence.{IsCoherent}
use financial_data.UseCases.Records.{
  CreateRecordDto, UpdateRecordDto, create_record, update_record, delete_record,
}
use financial_data.UseCases.Records.Coherence.{IsFresh, create_record-IsFresh}
use financial_data.UseCases.Records.Ownership.{DistinctIds}
use financial_data.UseCases.Records.Changes.{update_record-IsFresh, delete_record-IsFresh}
use financial_data.UseCases.Dashboard.{DashboardFilterDto, get_summary}
use financial_data.UseCases.Dashboard.Refinement.{IsFaithful, get_summary-IsFaithful}

-- A request by some user, whether it succeeds or fails, or the passing of some seconds.
pub data Event : Type 0 where
  created : CreateRecordDto → User → RequestMeta → Event
  updated : UpdateRecordDto → User → RequestMeta → Event
  deleted : ℕ → User → RequestMeta → Event
  shown : DashboardFilterDto → User → Event
  passed : ℕ → Event

-- The session of a request is closed at its end.
unfoldable pub after : Event → World → World
after (created dto actor meta) w = close_session (create_record dto actor meta w).1
after (updated dto actor meta) w = close_session (update_record dto actor meta w).1
after (deleted id actor meta) w = close_session (delete_record id actor meta w).1
after (shown dto actor) w = close_session (get_summary dto actor w).1
after (passed seconds) w = record w { now = w.now + seconds }

unfoldable pub after_all : List Event → World → World
unfolding after
after_all [] w = w
after_all (e ∷ events) w = after_all events (after e w)

IsFresh-close : (w : World) → IsFresh w → IsFresh (close_session w)
unfolding close_session
IsFresh-close w h = record {
  up = h.up;
  outside = h.outside;
  inside = h.outside;
  outside_ids = h.outside_ids;
  inside_ids = h.outside_ids;
}

shown_fresh :
    (dto : DashboardFilterDto) (actor : User) (w : World)
    → IsFresh w
    → IsFresh (close_session (get_summary dto actor w).1)
unfolding close_session
shown_fresh dto actor w h =
    let (answer, same, up, coherent) = get_summary-IsFaithful dto actor w h.outside in
    let w' = (get_summary dto actor w).1 in
    let c : IsCoherent w'.committed.records w'.cache =
      subst (λ (db : Db). IsCoherent db.records w'.cache) (sym same) coherent in
    let d : DistinctIds w'.committed.records =
      subst (λ (db : Db). DistinctIds db.records) (sym same) h.outside_ids in
    record { up = up ∙ h.up; outside = c; inside = c; outside_ids = d; inside_ids = d }

IsFresh-after : (e : Event) (w : World) → IsFresh w → IsFresh (after e w)
unfolding after
IsFresh-after (created dto actor meta) w h =
    IsFresh-close _ ((create_record-IsFresh dto actor meta).at w h)
IsFresh-after (updated dto actor meta) w h =
    IsFresh-close _ ((update_record-IsFresh dto actor meta).at w h)
IsFresh-after (deleted id actor meta) w h =
    IsFresh-close _ ((delete_record-IsFresh id actor meta).at w h)
IsFresh-after (shown dto actor) w h = shown_fresh dto actor w h
IsFresh-after (passed seconds) w h = record {
  up = h.up;
  outside = h.outside;
  inside = h.inside;
  outside_ids = h.outside_ids;
  inside_ids = h.inside_ids;
}

-- After any history of creations, updates and deletions of records by any users, of dashboard reads
-- and of time passing, one after the other and each of the requests successful or not, a dashboard
-- summary is the sum over the records that are committed then, whether it was cached or not. The
-- history begins where the cache answers and is coherent and the identifiers are distinct.
pub after_all-IsFaithful :
    (events : List Event) (dto : DashboardFilterDto) (actor : User) (w : World)
    → IsFresh w
    → IsFaithful dto actor (after_all events w)
unfolding after_all
after_all-IsFaithful [] dto actor w h = get_summary-IsFaithful dto actor w h.outside
after_all-IsFaithful (e ∷ events) dto actor w h =
    after_all-IsFaithful events dto actor (after e w) (IsFresh-after e w h)
