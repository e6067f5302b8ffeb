-- ===== src/Cache.antt =====
-- app/infrastructure/redis/cache_service.py over a key-value store with expiry. Every method
-- catches every exception: while the server does not answer, a read misses and a write is lost.
use financial_data.Prelude.{ℕ, ◌+◌, ◌||◌, Option, none, some, leb, if◌then◌else◌}
use financial_data.Result.{ok}
use financial_data.CacheKeys.{CacheKey, CacheValue, number, CacheEntry, key_eq, fits}
use financial_data.World.{World, Action}

abbrev pub CacheStore : Type 0
CacheStore = CacheKey → Option CacheEntry

-- The entry of a key that has not expired.
unfoldable pub live : ℕ → Option CacheEntry → Option CacheEntry
live now none = none
live now (some e) = elim e.expires_at [
  | none ↦ some e
  | some t ↦ if leb t now then none else some e
]

abbrev pub value_of : Option CacheEntry → Option CacheValue
value_of none = none
value_of (some e) = some e.value

-- One key of the store is given a new entry.
unfoldable pub put : CacheKey → Option CacheEntry → CacheStore → CacheStore
put k e c j = if key_eq k j then e else c j

-- The changes of the store take effect only while the server answers.
unfoldable pub on_cache : (World → CacheStore) → World → World
on_cache f w = record w { cache = if w.cache_up then f w else w.cache }

-- get
unfoldable pub get : CacheKey → Action (Option CacheValue)
unfolding live
get k w = (ok (if w.cache_up then value_of (live w.now (w.cache k)) else none), w)

-- set (SETEX)
unfoldable pub set : CacheKey → CacheValue → ℕ → Action (Unit {0})
unfolding on_cache put
set k v ttl w = (
  ok tt,
  on_cache (λ w. put k (some (record { value = v; expires_at = some (w.now + ttl) })) w.cache) w,
)

-- delete, of one key
unfoldable pub delete : CacheKey → Action (Unit {0})
unfolding on_cache put
delete k w = (ok tt, on_cache (λ w. put k none w.cache) w)

-- The next value of a counter. INCR starts a missing key at 1, and fails on what is no number.
abbrev pub next_entry : Option CacheEntry → Option CacheEntry
next_entry none = some (record { value = number 1; expires_at = none })
next_entry (some e) = elim e.value [
  | number n ↦ some (record e { value = number (n + 1) })
  | _ ↦ some e
]

-- incr
unfoldable pub incr : CacheKey → Action (Unit {0})
unfolding on_cache put live
incr k w = (ok tt, on_cache (λ w. put k (next_entry (live w.now (w.cache k))) w.cache) w)

abbrev pub expiring : ℕ → Option CacheEntry → Option CacheEntry
expiring t none = none
expiring t (some e) = some (record e { expires_at = some t })

-- expire
unfoldable pub expire : CacheKey → ℕ → Action (Unit {0})
unfolding on_cache put live
expire k seconds w =
    (ok tt, on_cache (λ w. put k (expiring (w.now + seconds) (live w.now (w.cache k))) w.cache) w)

-- keys(f"dashboard:*:{uid}:*") + keys("dashboard:*:global:*"), and then delete(*all_keys)
unfoldable pub invalidate : ℕ → Action (Unit {0})
unfolding on_cache fits
invalidate user_id w =
    (ok tt, on_cache (λ w k. if fits (some user_id) k || fits none k then none else w.cache k) w)
