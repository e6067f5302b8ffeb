-- ===== src/Repositories/Audit/Laws.antt =====
-- When the database takes an audit entry.
use financial_data.Prelude.{◌≡◌, refl, true, false, ◌++◌, [], ◌∷◌}
use financial_data.Result.{ok, err, integrity_error}
use financial_data.Entities.Audit.{AuditLog}
use financial_data.Database.{Db}
use financial_data.World.{World, raise_if, raise, pure, query, write, ◌>>=◌}
use financial_data.World.Keeps.{Keeps, keeps_rules}
use financial_data.Repositories.Audit.{log, too_long, violates}

-- The entry fits its columns and breaks no key.
pub record IsLoggable (a : AuditLog) (db : Db) : Type 0 where
  pub fitting : too_long a ≡ false
  pub allowed : violates a db ≡ false

pub log_lem :
    (a : AuditLog) (w : World)
    → IsLoggable a w.session
    → log a w
      ≡ (ok tt, record w { session = record w.session { audit = w.session.audit ++ a ∷ [] } })
unfolding log raise_if raise pure query write ◌>>=◌
log_lem a w h = rw (h.fitting, h.allowed) refl

-- What the insertion keeps, the log keeps.
pub log-Keeps :
    {P : World → Type 0} (a : AuditLog)
    → Keeps P (write (λ db. record db { audit = db.audit ++ a ∷ [] }))
    → Keeps P (log a)
unfolding log
log-Keeps a k = search keeps_rules depth 14

-- An entry whose actor is no user, or whose identifier is taken, is refused.
pub log_violated :
    (a : AuditLog) (w : World)
    → too_long a ≡ false
    → violates a w.session ≡ true
    → log a w ≡ (err integrity_error, w)
unfolding log raise_if raise pure query write ◌>>=◌
log_violated a w f v = rw (f, v) refl
