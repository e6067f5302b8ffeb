-- ===== src/UseCases/Records/Held.antt =====
-- A record whose rows are held by its owner, and actions that end in a fresh state from there.
use financial_data.Prelude.{Bool, true, false, not, ◌==◌, ◌≡◌, refl, any, update_where}
use financial_data.Result.{Result, ok, err, no_result_found}
use financial_data.Cache.{invalidate, on_cache}
use financial_data.Entities.Record.{FinancialRecord}
use financial_data.World.{World, Action, pure, raise, raise_if, lift, query, write, continue, ◌>>=◌}
use financial_data.World.Keeps.{Keeps}
use financial_data.Repositories.Records
use financial_data.Repositories.Records.{assign_row, live_id}
use financial_data.Repositories.Cached.Coherence.{IsCoherent-forgotten}
use financial_data.UseCases.Records.Ownership.{Owns, update_hidden, DistinctIds-update_where}
use financial_data.UseCases.Records.Coherence.{IsFresh, nothing_changed}

-- The rows with the identifier of `r` are the rows of its owner.
pub record Held (r : FinancialRecord) (w : World) : Type 0 where
  pub fresh : IsFresh w
  pub owns : Owns r.id r.user_id w.session.records

-- From a state in which `r` is held, the action leads to a fresh one, whether it returns or raises.
pub record Ends {A : Type 0} (r : FinancialRecord) (m : Action A) : Type 0 where
  pub at : (w : World) → Held r w → IsFresh (m w).1

module _ {A B : Type 0} (r : FinancialRecord) where
  ends_continue :
      (x : Result A) (f : A → Action B) (w : World)
      → Held r w
      → ((a : A) → Ends r (f a))
      → IsFresh (continue x f w).1
  ends_continue (ok a) f w h k = (k a).at w h
  ends_continue (err e) f w h k = h.fresh

  -- A step that keeps the record held.
  pub Ends-bind :
      (m : Action A) (f : A → Action B)
      → Keeps (Held r) m
      → ((a : A) → Ends r (f a))
      → Ends r (m >>= f)
  unfolding ◌>>=◌
  Ends-bind m f k g = record { at = λ w h. ends_continue (m w).0 f (m w).1 (k.at w h) g }

  -- A computation whose value matters.
  pub Ends-lift :
      (x : Result A) (f : A → Action B)
      → ((a : A) → x ≡ ok a → Ends r (f a))
      → Ends r (lift x >>= f)
  unfolding ◌>>=◌ lift
  Ends-lift (ok a) f g = record { at = λ w h. (g a refl).at w h }
  Ends-lift (err e) f g = record { at = λ w h. h.fresh }

  fresh_continue :
      (x : Result A) (f : A → Action B) (w : World)
      → IsFresh w
      → ((a : A) → Keeps IsFresh (f a))
      → IsFresh (continue x f w).1
  fresh_continue (ok a) f w h k = (k a).at w h
  fresh_continue (err e) f w h k = h

  -- What follows may forget the record.
  pub Ends-then :
      (m : Action A) (f : A → Action B)
      → Ends r m
      → ((a : A) → Keeps IsFresh (f a))
      → Ends r (m >>= f)
  unfolding ◌>>=◌
  Ends-then m f k g = record { at = λ w h. fresh_continue (m w).0 f (m w).1 (k.at w h) g }

module _ (r r' : FinancialRecord) (named : r'.id ≡ r.id) (owner : r'.user_id ≡ r.user_id) where
  written :
      (w : World)
      → Held r w
      → IsFresh
          (invalidate r'.user_id (record w {
            session = record w.session {
              records = update_where (λ m. m.id == r'.id) (assign_row r') w.session.records;
            };
          })).1
  unfolding invalidate on_cache
  written w h =
      let owns : Owns r'.id r'.user_id w.session.records = rw (named, owner) h.owns in
      record {
        up = h.fresh.up;
        outside = rw (h.fresh.up) (
            IsCoherent-forgotten r'.user_id w.committed.records w.committed.records w.cache
              (nothing_changed r'.user_id w.committed.records) h.fresh.outside);
        inside = rw (h.fresh.up) (
            IsCoherent-forgotten r'.user_id w.session.records _ w.cache
              (update_hidden r'.id r'.user_id r' w.session.records owns) h.fresh.inside);
        outside_ids = h.fresh.outside_ids;
        inside_ids = DistinctIds-update_where r'.id r' w.session.records h.fresh.inside_ids;
      }

  update_there :
      (there : Bool) (w : World)
      → Held r w
      → IsFresh
          ((raise_if (not there) no_result_found >>= λ (u : Unit {0}).
              write (λ db. record db {
                records = update_where (λ m. m.id == r'.id) (assign_row r') db.records;
              })
              >>= λ (v : Unit {0}). invalidate r'.user_id)
            w).1
  unfolding ◌>>=◌ raise_if raise pure write
  update_there true w h = written w h
  update_there false w h = h.fresh

  pub Ends-update : Ends r (Records.update r')
  unfolding Records.update ◌>>=◌ query
  Ends-update = record { at = λ w h. update_there (any (λ m. m.id == r'.id) w.session.records) w h }
