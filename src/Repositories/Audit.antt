-- ===== src/Repositories/Audit.antt =====
-- app/infrastructure/repositories/audit_repo.py.
pub mod Laws
use financial_data.Prelude.{
  ℕ, Bool, true, false, not, any, ltb, length, ◌||◌, ◌&&◌, Option, none, some, List, [], ◌∷◌, ◌++◌,
  ◌==◌, leb, select, find?,
}
use financial_data.Text.{Text, text_eq}
use financial_data.Result.{ok, not_implemented, database_error, integrity_error}
use financial_data.Database.{Db, UserModel}
use financial_data.Entities.Audit.{AuditLog}
use financial_data.Entities.Enums.{ActionType, action_value}
use financial_data.World.{Action, query, write, raise, raise_if, ◌>>=◌, ◌>>◌}
use financial_data.Repositories.Paging.{listing}
use financial_data.Repositories.Records.{where_given}

-- A text that is longer than its column (models/audit.py).
abbrev pub reason_too_long : Option Text → Bool
reason_too_long none = false
reason_too_long (some s) = ltb 500 (length s)

unfoldable pub too_long : AuditLog → Bool
too_long a =
    ltb 254 (length a.actor_email)
    || ltb 100 (length a.resource)
    || ltb 100 (length a.request_id)
    || ltb 45 (length a.ip_address)
    || ltb 500 (length a.user_agent)
    || reason_too_long a.failure_reason

-- The identifier is the primary key, and actor_id is a foreign key of users.id.
unfoldable pub violates : AuditLog → Db → Bool
violates a db =
    any (λ m. m.id == a.id) db.audit || not (any (λ (u : UserModel). u.id == a.actor_id) db.users)

-- log, whose flush raises where the database refuses the row
unfoldable pub log : AuditLog → Action (Unit {0})
log a = do
  raise_if (too_long a) database_error
  violated ← query (λ db. ok (violates a db))
  raise_if violated integrity_error
  write (λ db. record db { audit = db.audit ++ a ∷ [] })

unfoldable pub get_by_id : ℕ → Action (Option AuditLog)
get_by_id id = query (λ db. ok (find? (λ m. m.id == id) db.audit))

-- `if resource: …`: an empty text sets no bound
abbrev pub where_text : Option Text → Text → Bool
where_text none s = true
where_text (some []) s = true
where_text (some (c ∷ t)) s = text_eq s (c ∷ t)

-- The filters of get_all.
pub record AuditFilters : Type 0 where
  pub actor_id : Option ℕ
  pub resource : Option Text
  pub action : Option ActionType
  pub from_timestamp : Option ℕ
  pub to_timestamp : Option ℕ

unfoldable pub fits : AuditFilters → AuditLog → Bool
fits f m =
    where_given f.actor_id (λ a. m.actor_id == a)
    && where_text f.resource m.resource
    && where_given f.action (λ a. text_eq (action_value m.action) (action_value a))
    && where_given f.from_timestamp (λ t. leb t m.timestamp)
    && where_given f.to_timestamp (λ t. leb m.timestamp t)

-- AuditLogModel.resource == resource, AuditLogModel.resource_id == resource_id
abbrev pub has_id : ℕ → Option ℕ → Bool
has_id resource_id none = false
has_id resource_id (some id) = id == resource_id

abbrev pub is_about : Text → ℕ → AuditLog → Bool
is_about resource resource_id m = text_eq m.resource resource && has_id resource_id m.resource_id

-- `newest` is the database's ORDER BY timestamp DESC.
module _ (newest : List AuditLog → List AuditLog) where
  unfoldable pub get_all : AuditFilters → ℕ → ℕ → Action (List AuditLog × ℕ)
  get_all f page page_size =
      query (λ db. listing (λ m. ok m) page page_size (newest (select (fits f) db.audit)))

  unfoldable pub get_by_resource : Text → ℕ → ℕ → ℕ → Action (List AuditLog × ℕ)
  get_by_resource resource resource_id page page_size = query (λ db.
      listing (λ m. ok m) page page_size (newest (select (is_about resource resource_id) db.audit)))

unfoldable pub add : AuditLog → Action (Unit {0})
unfolding log
add a = log a

-- Audit logs are immutable.
unfoldable pub update : AuditLog → Action (Unit {0})
update a = raise not_implemented

unfoldable pub delete : AuditLog → Action (Unit {0})
delete a = raise not_implemented
