-- ===== src/UseCases/Records/Coherence.antt =====
-- Creating a record keeps the cached summaries coherent with what is committed.
use financial_data.Prelude.{
  ℕ, Bool, true, false, ◌==◌, ◌≡◌, refl, Option, some, List, [], ◌∷◌, ◌++◌, any, select,
  select-append,
}
use mathlib.Core.List.{append-nil}
use financial_data.Text.{Text}
use financial_data.Json.{JsonDict}
use financial_data.Result.{integrity_error}
use financial_data.Cache.{invalidate, on_cache}
use financial_data.Entities.Enums.{ActionType}
use financial_data.Entities.Record.{FinancialRecord}
use financial_data.Entities.User.{User}
use financial_data.Entities.Audit.{AuditLog, RequestMeta}
use financial_data.Database.{FinancialRecordModel}
use financial_data.World.{
  World, Action, pure, raise, raise_if, query, write, commit, with_uow, close_session, uuid4,
  utcnow, ◌>>=◌,
}
use financial_data.World.Keeps.{Keeps, keeps_rules, Keeps-bind}
use financial_data.Repositories.Audit
use financial_data.Repositories.Audit.Laws.{log-Keeps}
use financial_data.Repositories.Categories
use financial_data.Repositories.Records
use financial_data.Repositories.Records.{in_scope, row_of, where_given}
use financial_data.Repositories.Cached.Coherence.{IsCoherent, IsCoherent-forgotten, SameOutside}
use financial_data.UseCases.Records.Ownership.{not_in_scope, DistinctIds, DistinctIds-append}
use financial_data.UseCases.Auditing.{log_success}
use financial_data.UseCases.Records.{CreateRecordDto, load_category, create_record}

-- The cache answers, and is coherent with what is committed and with what the session sees; in both,
-- identifiers are distinct.
pub record IsFresh (w : World) : Type 0 where
  pub up : w.cache_up ≡ true
  pub outside : IsCoherent w.committed.records w.cache
  pub inside : IsCoherent w.session.records w.cache
  pub outside_ids : DistinctIds w.committed.records
  pub inside_ids : DistinctIds w.session.records

-- A row of one user does not show to another.
new_row_hidden :
    (u : ℕ) (rows : List FinancialRecordModel) (m : FinancialRecordModel)
    → m.user_id ≡ u
    → SameOutside u rows (rows ++ m ∷ [])
unfolding select
new_row_hidden u rows m e v a b other =
    rw (select-append (in_scope (some v) a b) rows (m ∷ []), not_in_scope u v a b m e other)
      (append-nil (select (in_scope (some v) a b) rows))

pub nothing_changed : (u : ℕ) (rows : List FinancialRecordModel) → SameOutside u rows rows
nothing_changed u rows v a b other = refl

-- The dropped dashboards leave the rest coherent.
pub IsFresh-invalidate : (u : ℕ) → Keeps IsFresh (invalidate u)
unfolding invalidate on_cache
IsFresh-invalidate u = record {
  at = λ w h. record {
    up = h.up;
    outside = rw (h.up) (
        IsCoherent-forgotten u w.committed.records w.committed.records w.cache
          (nothing_changed u w.committed.records) h.outside);
    inside = rw (h.up) (
        IsCoherent-forgotten u w.session.records w.session.records w.cache
          (nothing_changed u w.session.records) h.inside);
    outside_ids = h.outside_ids;
    inside_ids = h.inside_ids;
  };
}

-- The repository's add writes a row of the record's owner, and drops what could show it.
stored :
    (r : FinancialRecord) (w : World)
    → any (λ m. m.id == r.id) w.session.records ≡ false
    → IsFresh w
    → IsFresh
        (invalidate r.user_id (record w {
          session = record w.session { records = w.session.records ++ row_of w.now r ∷ [] };
        })).1
unfolding invalidate on_cache
stored r w new h = record {
  up = h.up;
  outside = rw (h.up) (
      IsCoherent-forgotten r.user_id w.committed.records w.committed.records w.cache
        (nothing_changed r.user_id w.committed.records) h.outside);
  inside = rw (h.up) (
      IsCoherent-forgotten r.user_id w.session.records (w.session.records ++ row_of w.now r ∷ [])
        w.cache (new_row_hidden r.user_id w.session.records (row_of w.now r) refl) h.inside);
  outside_ids = h.outside_ids;
  inside_ids = DistinctIds-append (row_of w.now r) w.session.records new h.inside_ids;
}

add_by_clash :
    (clash : Bool) (r : FinancialRecord) (w : World)
    → any (λ m. m.id == r.id) w.session.records ≡ clash
    → IsFresh w
    → IsFresh
        ((raise_if clash integrity_error >>= λ (u : Unit {0}).
            write (λ db. record db { records = db.records ++ row_of w.now r ∷ [] })
            >>= λ (v : Unit {0}). invalidate r.user_id)
          w).1
unfolding ◌>>=◌ raise_if raise pure write
add_by_clash true r w e h = h
add_by_clash false r w e h = stored r w e h

pub IsFresh-add : (r : FinancialRecord) → Keeps IsFresh (Records.add r)
unfolding Records.add ◌>>=◌ utcnow query
IsFresh-add r = record {
  at = λ w h. add_by_clash (any (λ m. m.id == r.id) w.session.records) r w refl h;
}

pub IsFresh-uuid4 : Keeps IsFresh uuid4
unfolding uuid4
IsFresh-uuid4 = record {
  at = λ w h. record {
    up = h.up;
    outside = h.outside;
    inside = h.inside;
    outside_ids = h.outside_ids;
    inside_ids = h.inside_ids;
  };
}

pub IsFresh-log : (a : AuditLog) → Keeps IsFresh (Audit.log a)
unfolding write
IsFresh-log a = log-Keeps a (record {
  at = λ w h. record {
    up = h.up;
    outside = h.outside;
    inside = h.inside;
    outside_ids = h.outside_ids;
    inside_ids = h.inside_ids;
  };
})

pub IsFresh-commit : Keeps IsFresh commit
unfolding commit
IsFresh-commit = record {
  at = λ w h. record {
    up = h.up;
    outside = h.inside;
    inside = h.inside;
    outside_ids = h.inside_ids;
    inside_ids = h.inside_ids;
  };
}

pub IsFresh-with_uow : {A : Type 0} (m : Action A) → Keeps IsFresh m → Keeps IsFresh (with_uow m)
unfolding with_uow close_session
IsFresh-with_uow m k = record {
  at = λ w h.
      let h' =
        k.at (record w { session = w.committed })
          (record {
            up = h.up;
            outside = h.outside;
            inside = h.outside;
            outside_ids = h.outside_ids;
            inside_ids = h.outside_ids;
          }) in
      record {
        up = h'.up;
        outside = h'.outside;
        inside = h'.outside;
        outside_ids = h'.outside_ids;
        inside_ids = h'.outside_ids;
      };
}

pub get_category-IsFresh : (id : ℕ) → Keeps IsFresh (Categories.get_by_id id)
unfolding Categories.get_by_id
get_category-IsFresh id = search keeps_rules depth 9

pub ruleset fresh_rules = (
  keeps_rules, IsFresh-invalidate, IsFresh-add, IsFresh-uuid4, IsFresh-log, IsFresh-commit,
  IsFresh-with_uow, get_category-IsFresh,
)

pub load_category-IsFresh : (id : ℕ) → Keeps IsFresh (load_category id)
unfolding load_category
load_category-IsFresh id = search fresh_rules depth 12

pub log_success-IsFresh :
    (actor : User) (action : ActionType) (resource : Text) (meta : RequestMeta) (id : Option ℕ)
    (before after diff : Option JsonDict)
    → Keeps IsFresh (log_success actor action resource meta id before after diff)
unfolding log_success
log_success-IsFresh actor action resource meta id before after diff = search fresh_rules depth 12

-- The creation of a record, whether it succeeds or raises, keeps the cache coherent: while the cache
-- answers, every cached summary is still the one of the records that are then committed.
pub create_record-IsFresh :
    (dto : CreateRecordDto) (actor : User) (meta : RequestMeta)
    → Keeps IsFresh (create_record dto actor meta)
unfolding create_record
create_record-IsFresh dto actor meta =
    search (fresh_rules, load_category-IsFresh, log_success-IsFresh) depth 40
