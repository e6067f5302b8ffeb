-- ===== src/UseCases/TokenStore.antt =====
-- The table of refresh tokens under the steps of use cases that have no session to write.
use financial_data.Prelude.{ℕ, Bool, true, false, ◌≡◌, Option, none, some, List, [], ◌∷◌}
use financial_data.Text.{Text}
use financial_data.Result.{Error}
use financial_data.CacheKeys.{CacheKey, CacheValue}
use financial_data.Cache
use financial_data.Database.{Db}
use financial_data.Entities.Category.{Category}
use financial_data.Entities.Permission.{Permission}
use financial_data.Entities.Role.{Role}
use financial_data.Entities.User.{User}
use financial_data.World.{
  World, Action, RefreshTokenModel, write, uuid4, commit, with_uow, close_session,
}
use financial_data.World.Keeps.{Keeps, keeps_rules}
use financial_data.Repositories.Audit.Laws.{log-Keeps}
use financial_data.Repositories.Roles as RoleRows
use financial_data.Repositories.Permissions as PermissionRows
use financial_data.Repositories.Categories as CategoryRows
use financial_data.Repositories.Cached.Expiry.{summary_or-Keeps, totals_or-Keeps, trends_or-Keeps}
use financial_data.UseCases.Dashboard.Expiry.{
  summary_cached-Keeps, totals_cached-Keeps, trends_cached-Keeps,
}
use financial_data.UseCases.Users as UserCases
use financial_data.UseCases.Roles as RoleCases
use financial_data.UseCases.Categories as CategoryCases
use financial_data.UseCases.Records as RecordCases
use financial_data.UseCases.Tokens.{get_token_payload}
use financial_data.Api.Http.{Platform, catching}
use financial_data.Api.Routes.Verdicts.{payload_run}

-- The refresh tokens are these.
pub record Holds (tokens : List RefreshTokenModel) (w : World) : Type 0 where
  pub same : w.tokens ≡ tokens

module _ (tokens : List RefreshTokenModel) where
  pub Holds-uuid4 : Keeps (Holds tokens) uuid4
  unfolding uuid4
  Holds-uuid4 = record { at = λ w h. record { same = h.same } }

  pub Holds-commit : Keeps (Holds tokens) commit
  unfolding commit
  Holds-commit = record { at = λ w h. record { same = h.same } }

  pub Holds-write : (f : Db → Db) → Keeps (Holds tokens) (write f)
  unfolding write
  Holds-write f = record { at = λ w h. record { same = h.same } }

  pub Holds-with_uow :
      {A : Type 0} (m : Action A) → Keeps (Holds tokens) m → Keeps (Holds tokens) (with_uow m)
  unfolding with_uow close_session
  Holds-with_uow m k = record {
    at = λ w h. record {
      same = (k.at (record w { session = w.committed }) (record { same = h.same })).same;
    };
  }

  pub Holds-catching :
      {A : Type 0} (handler : Error → Error) (m : Action A)
      → Keeps (Holds tokens) m
      → Keeps (Holds tokens) (catching handler m)
  unfolding catching
  Holds-catching handler m k = record { at = λ w h. record { same = (k.at w h).same } }

  pub Holds-get : (k : CacheKey) → Keeps (Holds tokens) (Cache.get k)
  unfolding Cache.get
  Holds-get k = record { at = λ w h. record { same = h.same } }

  pub Holds-set :
      (k : CacheKey) (v : CacheValue) (ttl : ℕ) → Keeps (Holds tokens) (Cache.set k v ttl)
  unfolding Cache.set Cache.on_cache
  Holds-set k v ttl = record { at = λ w h. record { same = h.same } }

  pub Holds-invalidate : (user_id : ℕ) → Keeps (Holds tokens) (Cache.invalidate user_id)
  unfolding Cache.invalidate Cache.on_cache
  Holds-invalidate user_id = record { at = λ w h. record { same = h.same } }

  pub Holds-payload :
      (platform : Platform) (raw : Option Text)
      → Keeps (Holds tokens) (get_token_payload platform.tokens platform.ttl raw)
  Holds-payload platform raw = record {
    at = λ w h. rw (payload_run platform.tokens platform.ttl raw w) h;
  }

pub ruleset token_rules = (
  keeps_rules, log-Keeps, Holds-uuid4, Holds-commit, Holds-write, Holds-with_uow, Holds-catching,
  Holds-get, Holds-set, Holds-invalidate, Holds-payload, summary_or-Keeps, totals_or-Keeps,
  trends_or-Keeps, summary_cached-Keeps, totals_cached-Keeps, trends_cached-Keeps,
)

module _ (tokens : List RefreshTokenModel) where
  pub load_roles-Holds : (names : List Text) → Keeps (Holds tokens) (UserCases.load_roles names)
  unfolding UserCases.load_roles RoleRows.get_by_name
  load_roles-Holds [] = search token_rules
  load_roles-Holds (name ∷ names) = let rest = load_roles-Holds names in search token_rules depth 20

  pub switch-Holds : (b : Bool) (u : User) → Keeps (Holds tokens) (UserCases.switch b u)
  switch-Holds true u = search token_rules
  switch-Holds false u = search token_rules

  pub store_all-Holds :
      (id : ℕ) (permissions : List Permission)
      → Keeps (Holds tokens) (RoleCases.store_all id permissions)
  unfolding RoleCases.store_all RoleRows.assign_permission
  store_all-Holds id [] = search token_rules
  store_all-Holds id (p ∷ permissions) =
      let rest = store_all-Holds id permissions in search token_rules depth 9

  pub unstore_all-Holds :
      (id : ℕ) (ids : List ℕ) → Keeps (Holds tokens) (RoleCases.unstore_all id ids)
  unfolding RoleCases.unstore_all RoleRows.remove_permission
  unstore_all-Holds id [] = search token_rules
  unstore_all-Holds id (i ∷ ids) = let rest = unstore_all-Holds id ids in search token_rules depth 9

  pub load_permissions-Holds :
      (ids : List ℕ) → Keeps (Holds tokens) (RoleCases.load_permissions ids)
  unfolding RoleCases.load_permissions PermissionRows.get_by_ids
  load_permissions-Holds ids = search token_rules depth 9

  pub load_given-Holds : (ids : List ℕ) → Keeps (Holds tokens) (RoleCases.load_given ids)
  load_given-Holds [] = search token_rules
  load_given-Holds (id ∷ ids) = load_permissions-Holds (id ∷ ids)

  pub role_name-Holds :
      (name : Option Text) (r : Role) → Keeps (Holds tokens) (RoleCases.check_name name r)
  unfolding RoleCases.check_name RoleRows.exists_by_name
  role_name-Holds none r = search token_rules
  role_name-Holds (some name) r = search token_rules depth 14

  pub category_name-Holds :
      (name : Option Text) (c : Category) → Keeps (Holds tokens) (CategoryCases.check_name name c)
  unfolding CategoryCases.check_name CategoryRows.exists_by_name
  category_name-Holds none c = search token_rules
  category_name-Holds (some []) c = search token_rules
  category_name-Holds (some (x ∷ name)) c = search token_rules depth 14

  pub check_category-Holds : (id : Option ℕ) → Keeps (Holds tokens) (RecordCases.check_category id)
  unfolding RecordCases.check_category RecordCases.load_category CategoryRows.get_by_id
  check_category-Holds none = search token_rules
  check_category-Holds (some id) = search token_rules depth 20

pub ruleset route_rules = (
  token_rules, load_roles-Holds, switch-Holds, store_all-Holds, unstore_all-Holds,
  load_permissions-Holds, load_given-Holds, role_name-Holds, category_name-Holds,
  check_category-Holds,
)
