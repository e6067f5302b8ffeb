-- ===== src/Repositories/Cached/Expiry.antt =====
-- Every cached dashboard expires within five minutes: what the cached reads keep of it.
use financial_data.Prelude.{
  ℕ, zero, suc, ◌+◌, ◌≤◌, ◌≡◌, refl, Bool, true, false, ◌||◌, Option, none, some, List, [], ◌∷◌,
  Bool-cases, inl, inr, leb, if◌then◌else◌, arith,
}
use financial_data.Text.{Text}
use financial_data.CacheKeys.{
  CacheKey, CacheValue, CacheEntry, summary_key, categories_key, trends_key, login_attempts,
  blacklist, key_eq, fits, number, summary, totals, trends, DashboardSummary, CategoryTotal,
  TrendPoint,
}
use financial_data.Cache
use financial_data.Cache.{CacheStore, put, on_cache}
use financial_data.Database.{Db}
use financial_data.World.{World, Action, write, uuid4, commit, with_uow, close_session}
use financial_data.World.Keeps.{Keeps, keeps_rules}
use financial_data.Repositories.Aggregates
use financial_data.Repositories.Aggregates.{Dialect}
use financial_data.Repositories.Audit.Laws.{log-Keeps}
use financial_data.Repositories.Cached.{
  cache_ttl, fill, summary_or, totals_or, trends_or, get_dashboard_summary, get_category_totals,
  get_trends,
}
use financial_data.Repositories.Records

-- The keys that start with `dashboard:`.
abbrev pub is_dashboard : CacheKey → Bool
is_dashboard (summary_key u a b) = true
is_dashboard (categories_key u a b) = true
is_dashboard (trends_key u p n) = true
is_dashboard (login_attempts s) = false
is_dashboard (blacklist j) = false

-- The entry, where there is one, expires by the second T.
abbrev pub ExpiresBy : ℕ → Option CacheEntry → Type 0
ExpiresBy T none = Unit
ExpiresBy T (some e) = (t : ℕ) × (e.expires_at ≡ some t) × (t ≤ T)

-- Every dashboard expires within its time to live.
pub record IsBounded (w : World) : Type 0 where
  pub bound : (k : CacheKey) → is_dashboard k ≡ true → ExpiresBy (w.now + cache_ttl) (w.cache k)

-- What one key holds after another is written, or after some are dropped.
module _ (T : ℕ) (cache : CacheStore) (j : CacheKey) where
  put_by :
      (up : Bool) (k : CacheKey) (o : Option CacheEntry)
      → (key_eq k j ≡ true → ExpiresBy T o)
      → ExpiresBy T (cache j)
      → ExpiresBy T ((if up then put k o cache else cache) j)
  unfolding put
  put_by false k o new h = h
  put_by true k o new h = elim (Bool-cases (key_eq k j)) [ inl e ↦ rw e (new e) | inr e ↦ rw e h ]

  drop_by :
      (up b : Bool)
      → ExpiresBy T (cache j)
      → ExpiresBy T (if up then (if b then none else cache j) else cache j)
  drop_by false b h = h
  drop_by true true h = tt
  drop_by true false h = h

drop_at :
    (up : Bool) (f g : CacheStore) (j : CacheKey)
    → (if up then f else g) j ≡ (if up then f j else g j)
drop_at true f g j = refl
drop_at false f g j = refl

pub later : (a b : ℕ) (o : Option CacheEntry) → a ≤ b → ExpiresBy a o → ExpiresBy b o
later a b none h e = tt
later a b (some x) h (t, p, q) = (t, p, omega arith)

pub IsBounded-uuid4 : Keeps IsBounded uuid4
unfolding uuid4
IsBounded-uuid4 = record { at = λ w h. record { bound = h.bound } }

pub IsBounded-commit : Keeps IsBounded commit
unfolding commit
IsBounded-commit = record { at = λ w h. record { bound = h.bound } }

pub IsBounded-write : (f : Db → Db) → Keeps IsBounded (write f)
unfolding write
IsBounded-write f = record { at = λ w h. record { bound = h.bound } }

pub IsBounded-with_uow :
    {A : Type 0} (m : Action A) → Keeps IsBounded m → Keeps IsBounded (with_uow m)
unfolding with_uow close_session
IsBounded-with_uow m k = record {
  at = λ w h. record {
    bound = (k.at (record w { session = w.committed }) (record { bound = h.bound })).bound;
  };
}

pub IsBounded-get : (k : CacheKey) → Keeps IsBounded (Cache.get k)
unfolding Cache.get
IsBounded-get k = record { at = λ w h. h }

-- What is cached for five minutes is bounded.
pub IsBounded-set : (k : CacheKey) (v : CacheValue) → Keeps IsBounded (Cache.set k v cache_ttl)
unfolding Cache.set on_cache
IsBounded-set k v = record {
  at = λ w h. record {
    bound = λ j d.
        put_by (w.now + cache_ttl) w.cache j w.cache_up k
          (some (record { value = v; expires_at = some (w.now + cache_ttl) }))
          (λ e. (w.now + cache_ttl, refl, omega arith)) (h.bound j d);
  };
}

pub IsBounded-invalidate : (user_id : ℕ) → Keeps IsBounded (Cache.invalidate user_id)
unfolding Cache.invalidate on_cache
IsBounded-invalidate u = record {
  at = λ w h. record {
    bound = λ k d.
        rw
          (drop_at w.cache_up (λ i. if fits (some u) i || fits none i then none else w.cache i)
            w.cache k)
          (drop_by (w.now + cache_ttl) w.cache k w.cache_up (fits (some u) k || fits none k)
            (h.bound k d));
  };
}

pub ruleset cache_rules = (
  keeps_rules, IsBounded-uuid4, IsBounded-commit, IsBounded-write, IsBounded-with_uow,
  IsBounded-get, IsBounded-set, IsBounded-invalidate, log-Keeps,
)

pub fill-IsBounded :
    {A : Type 0} (k : CacheKey) (wrap : A → CacheValue) (m : Action A)
    → Keeps IsBounded m
    → Keeps IsBounded (fill k wrap m)
unfolding fill
fill-IsBounded k wrap m h = search cache_rules depth 9

-- A cached value is returned, refused, or computed again.
pub summary_or-Keeps :
    {P : World → Type 0} (o : Option CacheValue) (m : Action DashboardSummary)
    → Keeps P m
    → Keeps P (summary_or o m)
summary_or-Keeps none m k = search keeps_rules
summary_or-Keeps (some (summary s)) m k = search keeps_rules
summary_or-Keeps (some (number zero)) m k = search keeps_rules
summary_or-Keeps (some (number (suc n))) m k = search keeps_rules
summary_or-Keeps (some (totals [])) m k = search keeps_rules
summary_or-Keeps (some (totals (t ∷ l))) m k = search keeps_rules
summary_or-Keeps (some (trends [])) m k = search keeps_rules
summary_or-Keeps (some (trends (t ∷ l))) m k = search keeps_rules

pub totals_or-Keeps :
    {P : World → Type 0} (o : Option CacheValue) (m : Action (List CategoryTotal))
    → Keeps P m
    → Keeps P (totals_or o m)
totals_or-Keeps none m k = search keeps_rules
totals_or-Keeps (some (summary s)) m k = search keeps_rules
totals_or-Keeps (some (number zero)) m k = search keeps_rules
totals_or-Keeps (some (number (suc n))) m k = search keeps_rules
totals_or-Keeps (some (totals [])) m k = search keeps_rules
totals_or-Keeps (some (totals (t ∷ l))) m k = search keeps_rules
totals_or-Keeps (some (trends [])) m k = search keeps_rules
totals_or-Keeps (some (trends (t ∷ l))) m k = search keeps_rules

pub trends_or-Keeps :
    {P : World → Type 0} (o : Option CacheValue) (m : Action (List TrendPoint))
    → Keeps P m
    → Keeps P (trends_or o m)
trends_or-Keeps none m k = search keeps_rules
trends_or-Keeps (some (summary s)) m k = search keeps_rules
trends_or-Keeps (some (number zero)) m k = search keeps_rules
trends_or-Keeps (some (number (suc n))) m k = search keeps_rules
trends_or-Keeps (some (totals [])) m k = search keeps_rules
trends_or-Keeps (some (totals (t ∷ l))) m k = search keeps_rules
trends_or-Keeps (some (trends [])) m k = search keeps_rules
trends_or-Keeps (some (trends (t ∷ l))) m k = search keeps_rules

ruleset read_rules =
    (cache_rules, fill-IsBounded, summary_or-Keeps, totals_or-Keeps, trends_or-Keeps)

pub get_dashboard_summary-IsBounded :
    (user_id date_from date_to : Option ℕ)
    → Keeps IsBounded (get_dashboard_summary user_id date_from date_to)
unfolding get_dashboard_summary Records.get_dashboard_summary
get_dashboard_summary-IsBounded user_id date_from date_to = search read_rules depth 12

module _ (dialect : Dialect) where
  pub get_category_totals-IsBounded :
      (user_id date_from date_to : Option ℕ)
      → Keeps IsBounded (get_category_totals dialect user_id date_from date_to)
  unfolding get_category_totals Aggregates.get_category_totals
  get_category_totals-IsBounded user_id date_from date_to = search read_rules depth 12

  pub get_trends-IsBounded :
      (period : Text) (user_id : Option ℕ) (limit : ℕ)
      → Keeps IsBounded (get_trends dialect period user_id limit)
  unfolding get_trends Aggregates.get_trends
  get_trends-IsBounded period user_id limit = search read_rules depth 14

pub ruleset bounded_rules = (
  cache_rules, fill-IsBounded, get_dashboard_summary-IsBounded, get_category_totals-IsBounded,
  get_trends-IsBounded,
)

pub expired :
    (T now : ℕ) (o : Option CacheEntry)
    → T ≤ now
    → ExpiresBy T o
    → Cache.value_of (Cache.live now o) ≡ none
unfolding Cache.live
expired T now none l h = refl
expired T now (some e) l (t, p, q) = let due : leb t now ≡ true = ground arith in rw (p, due) refl

pub missed : (up : Bool) (o : Option CacheValue) → o ≡ none → (if up then o else none) ≡ none
missed true o e = e
missed false o e = refl
