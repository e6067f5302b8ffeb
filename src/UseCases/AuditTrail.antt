-- ===== src/UseCases/AuditTrail.antt =====
-- The audit log only grows: what is committed of it stays, with new entries behind.
pub mod Users
pub mod Roles
pub mod Ledger
pub mod Sessions
use financial_data.Prelude.{
  ℕ, ◌≡◌, refl, sym, ap, subst, Bool, true, false, if◌then◌else◌, ◌∙◌, Option, List, [], ◌∷◌, ◌++◌,
}
use mathlib.Core.List.{append_assoc}
use financial_data.CacheKeys.{CacheKey, CacheValue}
use financial_data.Cache
use financial_data.Entities.Permission.{Permission}
use financial_data.Entities.Category.{Category}
use financial_data.Entities.Audit.{AuditLog, RequestMeta, create_success, create_failure}
use financial_data.Database.{
  Db, UserModel, UserRoleModel, RoleModel, RolePermissionModel, FinancialRecordModel,
}
use financial_data.World.{
  World, RefreshTokenModel, Action, write, modify, uuid4, commit, with_uow, close_session,
}
use financial_data.World.Keeps.{Keeps, keeps_rules}
use financial_data.World.Pending.{IsPending}
use financial_data.Repositories.Audit
use financial_data.Repositories.Audit.Laws.{log-Keeps}
use financial_data.UseCases.Auditing.{log_success}
use financial_data.Text.{Text}
use financial_data.Json.{JsonDict}
use financial_data.Entities.Enums.{ActionType}
use financial_data.Entities.User.{User}

-- `log` begins with the entries of `start`.
abbrev pub Extends : List AuditLog → List AuditLog → Type 0
Extends start log = (new : List AuditLog) × (log ≡ start ++ new)

-- Entries that all carry one request identifier.
abbrev pub Carry : Text → List AuditLog → Type 0
Carry id [] = Unit
Carry id (a ∷ log) = (a.request_id ≡ id) × Carry id log

-- `log` begins with the entries of `start`, and the entries behind carry the request identifier.
abbrev pub ExtendsFor : RequestMeta → List AuditLog → List AuditLog → Type 0
ExtendsFor meta start log = (new : List AuditLog) × (log ≡ start ++ new) × Carry meta.request_id new

Carry-append :
    (id : Text) (log : List AuditLog) (a : AuditLog)
    → Carry id log
    → a.request_id ≡ id
    → Carry id (log ++ a ∷ [])
Carry-append id [] a h e = (e, tt)
Carry-append id (b ∷ log) a (p, h) e = (p, Carry-append id log a h e)

-- What is committed and what the session sees both begin with the entries of `start`.
pub record Grown (start : List AuditLog) (meta : RequestMeta) (w : World) : Type 0 where
  pub outside : ExtendsFor meta start w.committed.audit
  pub inside : ExtendsFor meta start w.session.audit

-- What is committed begins with the entries of `start`.
pub record Logged (start : List AuditLog) (meta : RequestMeta) (w : World) : Type 0 where
  pub outside : ExtendsFor meta start w.committed.audit

audit_unless :
    (b : Bool) (db db' : Db) → db'.audit ≡ db.audit → (if b then db else db').audit ≡ db.audit
audit_unless true db db' e = refl
audit_unless false db db' e = e

module _ (start : List AuditLog) (meta : RequestMeta) where
  pub Grown-uuid4 : Keeps (Grown start meta) uuid4
  unfolding uuid4
  Grown-uuid4 = record { at = λ w h. record { outside = h.outside; inside = h.inside } }

  pub Grown-commit : Keeps (Grown start meta) commit
  unfolding commit
  Grown-commit = record { at = λ w h. record { outside = h.inside; inside = h.inside } }

  -- A unit of work begins with what is committed.
  pub Logged-with_uow :
      {A : Type 0} (m : Action A)
      → Keeps (Grown start meta) m
      → Keeps (Logged start meta) (with_uow m)
  unfolding with_uow close_session
  Logged-with_uow m k = record {
    at = λ w h. record {
      outside =
          (k.at (record w { session = w.committed })
            (record { outside = h.outside; inside = h.outside })).outside;
    };
  }

  -- What commits nothing.
  pub Logged-pending : {A : Type 0} (m : Action A) → IsPending m → Keeps (Logged start meta) m
  Logged-pending m k = record {
    at = λ w h. record {
      outside = subst (λ db. ExtendsFor meta start db.audit) (sym (k.at w)) h.outside;
    };
  }

  pub Logged-invalidate : (user_id : ℕ) → Keeps (Logged start meta) (Cache.invalidate user_id)
  unfolding Cache.invalidate Cache.on_cache
  Logged-invalidate user_id = record { at = λ w h. record { outside = h.outside } }

  -- A new entry stands behind the old ones.
  Grown-append :
      (a : AuditLog)
      → a.request_id ≡ meta.request_id
      → Keeps (Grown start meta) (write (λ db. record db { audit = db.audit ++ a ∷ [] }))
  unfolding write
  Grown-append a named = record {
    at = λ w h.
        let (new, e, c) = h.inside in
        record {
          outside = h.outside;
          inside = (
            new ++ a ∷ [],
            ap (λ (l : List AuditLog). l ++ a ∷ []) e ∙ append_assoc start new (a ∷ []),
            Carry-append meta.request_id new a c named,
          );
        };
  }

  pub Grown-create_success :
      (id now actor_id : ℕ) (email : Text) (roles : List Text) (action : ActionType)
      (resource : Text) (resource_id : Option ℕ) (before after diff : Option JsonDict)
      → Keeps (Grown start meta) (
          Audit.log (
            create_success id now actor_id email roles action resource meta resource_id before after
              diff))
  unfolding create_success
  Grown-create_success id now actor_id email roles action resource resource_id before after diff =
      log-Keeps _ (Grown-append _ refl)

  pub Grown-create_failure :
      (id now actor_id : ℕ) (email : Text) (roles : List Text) (action : ActionType)
      (resource reason : Text) (resource_id : Option ℕ)
      → Keeps (Grown start meta) (
          Audit.log
            (create_failure id now actor_id email roles action resource meta reason resource_id))
  unfolding create_failure
  Grown-create_failure id now actor_id email roles action resource reason resource_id =
      log-Keeps _ (Grown-append _ refl)

  -- A write of another table.
  pub Grown-users :
      (g : Db → List UserModel)
      → Keeps (Grown start meta) (write (λ db. record db { users = g db }))
  unfolding write
  Grown-users g = record { at = λ w h. record { outside = h.outside; inside = h.inside } }

  pub Grown-user_roles :
      (g : Db → List UserRoleModel)
      → Keeps (Grown start meta) (write (λ db. record db { user_roles = g db }))
  unfolding write
  Grown-user_roles g = record { at = λ w h. record { outside = h.outside; inside = h.inside } }

  pub Grown-roles :
      (g : Db → List RoleModel)
      → Keeps (Grown start meta) (write (λ db. record db { roles = g db }))
  unfolding write
  Grown-roles g = record { at = λ w h. record { outside = h.outside; inside = h.inside } }

  pub Grown-role_permissions :
      (g : Db → List RolePermissionModel)
      → Keeps (Grown start meta) (write (λ db. record db { role_permissions = g db }))
  unfolding write
  Grown-role_permissions g = record {
    at = λ w h. record { outside = h.outside; inside = h.inside };
  }

  pub Grown-permissions :
      (g : Db → List Permission)
      → Keeps (Grown start meta) (write (λ db. record db { permissions = g db }))
  unfolding write
  Grown-permissions g = record { at = λ w h. record { outside = h.outside; inside = h.inside } }

  pub Grown-categories :
      (g : Db → List Category)
      → Keeps (Grown start meta) (write (λ db. record db { categories = g db }))
  unfolding write
  Grown-categories g = record { at = λ w h. record { outside = h.outside; inside = h.inside } }

  pub Grown-records :
      (g : Db → List FinancialRecordModel)
      → Keeps (Grown start meta) (write (λ db. record db { records = g db }))
  unfolding write
  Grown-records g = record { at = λ w h. record { outside = h.outside; inside = h.inside } }

  -- A link that is written unless it is there.
  pub Grown-unless :
      (there : Db → Bool) (g : Db → Db)
      → ((db : Db) → (g db).audit ≡ db.audit)
      → Keeps (Grown start meta) (write (λ db. if there db then db else g db))
  unfolding write
  Grown-unless there g e = record {
    at = λ w h. record {
      outside = h.outside;
      inside =
          subst (ExtendsFor meta start)
            (sym (audit_unless (there w.session) w.session (g w.session) (e w.session))) h.inside;
    };
  }

  pub Grown-tokens :
      (f : World → List RefreshTokenModel)
      → Keeps (Grown start meta) (modify (λ w. record w { tokens = f w }))
  unfolding modify
  Grown-tokens f = record { at = λ w h. record { outside = h.outside; inside = h.inside } }

  module _ (k : CacheKey) where
    pub Grown-get : Keeps (Grown start meta) (Cache.get k)
    unfolding Cache.get
    Grown-get = record { at = λ w h. record { outside = h.outside; inside = h.inside } }

    pub Grown-set : (v : CacheValue) (ttl : ℕ) → Keeps (Grown start meta) (Cache.set k v ttl)
    unfolding Cache.set Cache.on_cache
    Grown-set v ttl = record { at = λ w h. record { outside = h.outside; inside = h.inside } }

    pub Grown-delete : Keeps (Grown start meta) (Cache.delete k)
    unfolding Cache.delete Cache.on_cache
    Grown-delete = record { at = λ w h. record { outside = h.outside; inside = h.inside } }

    pub Grown-incr : Keeps (Grown start meta) (Cache.incr k)
    unfolding Cache.incr Cache.on_cache
    Grown-incr = record { at = λ w h. record { outside = h.outside; inside = h.inside } }

    pub Grown-expire : (seconds : ℕ) → Keeps (Grown start meta) (Cache.expire k seconds)
    unfolding Cache.expire Cache.on_cache
    Grown-expire seconds = record { at = λ w h. record { outside = h.outside; inside = h.inside } }

  pub Grown-invalidate : (user_id : ℕ) → Keeps (Grown start meta) (Cache.invalidate user_id)
  unfolding Cache.invalidate Cache.on_cache
  Grown-invalidate user_id = record {
    at = λ w h. record { outside = h.outside; inside = h.inside };
  }

  pub Grown-log_success :
      (u : User) (a : ActionType) (resource : Text) (id : Option ℕ)
      (before after diff : Option JsonDict)
      → Keeps (Grown start meta) (log_success u a resource meta id before after diff)
  unfolding log_success
  Grown-log_success u a resource id before after diff =
      search (keeps_rules, Grown-uuid4, Grown-create_success) depth 14

pub ruleset trail_rules = (
  keeps_rules, Grown-uuid4, Grown-commit, Logged-with_uow, Logged-invalidate, Grown-create_success,
  Grown-create_failure, Grown-log_success, Grown-users, Grown-user_roles, Grown-roles,
  Grown-role_permissions, Grown-permissions, Grown-categories, Grown-records, Grown-tokens,
  Grown-get, Grown-set, Grown-delete, Grown-incr, Grown-expire, Grown-invalidate,
)
