-- ===== src/UseCases/Auditing.antt =====
-- How every use case writes its audit entry, and the exceptions of the guards.
use financial_data.Prelude.{ℕ, Option, some, [], ◌∷◌}
use financial_data.Text.{Text}
use financial_data.Json.{Json, JsonDict, change}
use financial_data.Entities.User.{User, get_role_names}
use financial_data.Entities.Audit.{RequestMeta, create_success}
use financial_data.Entities.Enums.{ActionType}
use financial_data.World.{Action, uuid4, utcnow, ◌>>=◌}
use financial_data.Repositories.Audit

-- audit = AuditLog.create_success(actor_id=actor.id, …); await uow.audit.log(audit)
unfoldable pub log_success :
    User
    → ActionType
    → Text
    → RequestMeta
    → Option ℕ
    → Option JsonDict
    → Option JsonDict
    → Option JsonDict
    → Action (Unit {0})
log_success actor action resource meta resource_id before after diff = do
  id ← uuid4
  now ← utcnow
  Audit.log (
      create_success id now actor.id actor.email.value (get_role_names actor) action resource meta
        resource_id before after diff)

-- {key: {"from": a, "to": b}}
abbrev pub one_change : Text → Json → Json → Option JsonDict
one_change key a b = some ((key, change a b) ∷ [])

-- {key: value}
abbrev pub one_entry : Text → Json → Option JsonDict
one_entry key value = some ((key, value) ∷ [])
