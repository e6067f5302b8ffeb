-- ===== src/Repositories/Cached/Coherence.antt =====
-- A cache is coherent with the records when every cached summary is the one that the database
-- would compute. What the reads and the writes of the repository do to that.
use financial_data.Prelude.{
  ℕ, true, false, ◌==◌, ◌≡◌, refl, ap, subst, Option, none, some, List, Bool-cases, inl, inr,
  select, if◌then◌else◌, arith,
}
use financial_data.CacheKeys.{
  CacheKey, CacheValue, CacheEntry, summary, summary_key, categories_key, trends_key,
  login_attempts, blacklist, option_eq, key_eq, fits,
}
use financial_data.Cache
use financial_data.Database.{FinancialRecordModel}
use financial_data.Repositories.Records.{in_scope, summary_of}
use financial_data.Repositories.Records.Laws.{is_stale}

-- The summary that the database computes.
abbrev pub true_summary : Option ℕ → Option ℕ → Option ℕ → List FinancialRecordModel → CacheValue
true_summary u a b rows = summary (summary_of (select (in_scope u a b) rows))

-- What the value of a key must be.
abbrev pub Shows : List FinancialRecordModel → CacheKey → CacheValue → Type 0
Shows rows (summary_key u a b) v = v ≡ true_summary u a b rows
Shows rows (categories_key u a b) v = Unit
Shows rows (trends_key u p n) v = Unit
Shows rows (login_attempts s) v = Unit
Shows rows (blacklist j) v = Unit

-- What an entry must be; a missing one is all right.
abbrev pub EntryShows : List FinancialRecordModel → CacheKey → Option CacheEntry → Type 0
EntryShows rows k none = Unit
EntryShows rows k (some e) = Shows rows k e.value

-- Every cached summary is what these records sum up to.
pub record IsCoherent (rows : List FinancialRecordModel) (cache : Cache.CacheStore) : Type 0 where
  pub shows : (k : CacheKey) → EntryShows rows k (cache k)

option_eq_lem : (u v : Option ℕ) → option_eq u v ≡ true → u ≡ v
option_eq_lem none none h = refl
option_eq_lem (some a) (some b) h = ap some (ground arith)
option_eq_lem none (some b) h = cc
option_eq_lem (some a) none h = cc

Shows-key_eq :
    (rows : List FinancialRecordModel) (k j : CacheKey) (v : CacheValue)
    → key_eq k j ≡ true
    → Shows rows k v
    → Shows rows j v
unfolding key_eq
Shows-key_eq rows (summary_key u a b) (summary_key x c d) v h s =
    let p : u ≡ x = option_eq_lem u x (ground arith) in
    let q : a ≡ c = option_eq_lem a c (ground arith) in
    let r : b ≡ d = option_eq_lem b d (ground arith) in rw (← p, ← q, ← r) s
Shows-key_eq rows (categories_key u a b) (summary_key x c d) v h s = cc
Shows-key_eq rows (trends_key u p n) (summary_key x c d) v h s = cc
Shows-key_eq rows (login_attempts t) (summary_key x c d) v h s = cc
Shows-key_eq rows (blacklist i) (summary_key x c d) v h s = cc
Shows-key_eq rows k (categories_key x c d) v h s = tt
Shows-key_eq rows k (trends_key x p n) v h s = tt
Shows-key_eq rows k (login_attempts t) v h s = tt
Shows-key_eq rows k (blacklist i) v h s = tt

-- Caching a true value keeps the cache coherent.
pub IsCoherent-put :
    (rows : List FinancialRecordModel) (k : CacheKey) (e : CacheEntry) (cache : Cache.CacheStore)
    → Shows rows k e.value
    → IsCoherent rows cache
    → IsCoherent rows (Cache.put k (some e) cache)
unfolding Cache.put
IsCoherent-put rows k e cache s c = record {
  shows = λ j. elim (Bool-cases (key_eq k j)) [
    | inl p ↦ rw p (Shows-key_eq rows k j e.value p s)
    | inr p ↦ rw p (c.shows j)
  ];
}

live_value :
    (now : ℕ) (e : CacheEntry) (v : CacheValue)
    → Cache.value_of (Cache.live now (some e)) ≡ some v
    → e.value ≡ v
unfolding Cache.live
live_value now e v h = ground arith

-- A hit of a coherent cache is true.
pub hit-Shows :
    (rows : List FinancialRecordModel) (k : CacheKey) (now : ℕ) (o : Option CacheEntry)
    (v : CacheValue)
    → EntryShows rows k o
    → Cache.value_of (Cache.live now o) ≡ some v
    → Shows rows k v
unfolding Cache.live
hit-Shows rows k now none v s h = cc
hit-Shows rows k now (some e) v s h = subst (Shows rows k) (live_value now e v h) s

-- What is left of a cache when the dashboards of a user and of all users are dropped.
abbrev pub forgotten : ℕ → Cache.CacheStore → Cache.CacheStore
forgotten u cache k = if is_stale u k then none else cache k

-- Two tables that show the same to every user but one.
abbrev pub SameOutside : ℕ → List FinancialRecordModel → List FinancialRecordModel → Type 0
SameOutside u rows rows' =
    (v : ℕ) (a b : Option ℕ)
    → (v == u) ≡ false
    → select (in_scope (some v) a b) rows' ≡ select (in_scope (some v) a b) rows

eq_swap : (u v : ℕ) → (u == v) ≡ false → (v == u) ≡ false
eq_swap u v h = ground arith

kept-Shows :
    (u : ℕ) (rows rows' : List FinancialRecordModel) (k : CacheKey) (v : CacheValue)
    → SameOutside u rows rows'
    → is_stale u k ≡ false
    → Shows rows k v
    → Shows rows' k v
unfolding fits
kept-Shows u rows rows' (summary_key none a b) v same h s = cc
kept-Shows u rows rows' (summary_key (some x) a b) v same h s =
    rw (same x a b (eq_swap u x (ground arith))) s
kept-Shows u rows rows' (categories_key x c d) v same h s = tt
kept-Shows u rows rows' (trends_key x p n) v same h s = tt
kept-Shows u rows rows' (login_attempts t) v same h s = tt
kept-Shows u rows rows' (blacklist i) v same h s = tt

kept_entry :
    (u : ℕ) (rows rows' : List FinancialRecordModel) (k : CacheKey) (o : Option CacheEntry)
    → SameOutside u rows rows'
    → is_stale u k ≡ false
    → EntryShows rows k o
    → EntryShows rows' k o
kept_entry u rows rows' k none same h s = tt
kept_entry u rows rows' k (some e) same h s = kept-Shows u rows rows' k e.value same h s

-- After a change of one user's records, dropping the dashboards of that user and of all users
-- makes the cache coherent again.
pub IsCoherent-forgotten :
    (u : ℕ) (rows rows' : List FinancialRecordModel) (cache : Cache.CacheStore)
    → SameOutside u rows rows'
    → IsCoherent rows cache
    → IsCoherent rows' (forgotten u cache)
IsCoherent-forgotten u rows rows' cache same c = record {
  shows = λ k. elim (Bool-cases (is_stale u k)) [
    | inl e ↦ rw e tt
    | inr e ↦ rw e (kept_entry u rows rows' k (cache k) same e (c.shows k))
  ];
}
