-- ===== src/Api/Health.antt =====
-- app/api/v1/health.py. The query `SELECT 1` of the database is given by its outcome.
use financial_data.Prelude.{◌≡◌, refl, Bool, true, false, ◌&&◌, if◌then◌else◌}
use financial_data.Text.{Text, lit}
use financial_data.Result.{Result, ok, err}
use financial_data.CacheKeys.{CacheKey}
use financial_data.Cache
use financial_data.World.{World}

pub record HealthResponse : Type 0 where
  pub status : Text
  pub db : Text
  pub cache : Text

-- health
abbrev pub health : HealthResponse
health = record { status = lit "ok"; db = lit "unknown"; cache = lit "unknown" }

-- Whether a probe raised, `"ok"` or `"error"` in the source.
abbrev pub is_ok : {A : Type 0} → Result A → Bool
is_ok (ok a) = true
is_ok (err e) = false

abbrev pub status_of : Bool → Text
status_of true = lit "ok"
status_of false = lit "error"

-- HTTPException(503) with the two states, or the response
pub data Readiness : Type 0 where
  ready : HealthResponse → Readiness
  unavailable : Text → Text → Readiness

abbrev pub judged : Bool → Bool → Readiness
judged db cache =
    if db && cache
    then ready (record { status = lit "ok"; db = status_of db; cache = status_of cache })
    else unavailable (status_of db) (status_of cache)

-- readiness, where `probe_key` is the key `__readiness__`, which the program never sets
unfoldable pub readiness : {A : Type 0} → CacheKey → Result A → World → Readiness × World
readiness probe_key select_one w =
    let (r, w') = Cache.get probe_key w in (judged (is_ok select_one) (is_ok r), w')

-- The readiness probe answers by the state of the database alone: it is ready exactly where the
-- query succeeds, also while the cache server does not answer, and it never reports the cache as failing.
pub readiness_ignores_cache :
    {A : Type 0} (k : CacheKey) (select_one : Result A) (w : World)
    → readiness k select_one w ≡ (
      if is_ok select_one
          then ready (record { status = lit "ok"; db = lit "ok"; cache = lit "ok" })
          else unavailable (lit "error") (lit "ok"),
      w,
    )
unfolding readiness Cache.get
readiness_ignores_cache k (ok a) w = refl
readiness_ignores_cache k (err e) w = refl
