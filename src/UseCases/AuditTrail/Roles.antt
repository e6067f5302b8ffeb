-- ===== src/UseCases/AuditTrail/Roles.antt =====
-- The audit log under the use cases of roles.
use financial_data.Prelude.{ℕ, refl, ◌++◌, Bool, Option, none, some, List, [], ◌∷◌, any}
use financial_data.Text.{Text}
use financial_data.Entities.Permission.{Permission}
use financial_data.Entities.Role.{Role}
use financial_data.Entities.User.{User}
use financial_data.Entities.Audit.{AuditLog, RequestMeta}
use financial_data.World.Keeps.{Keeps}
use financial_data.Repositories.Permissions
use financial_data.Repositories.Roles
use financial_data.Repositories.Roles.{links}
use financial_data.UseCases.Roles.{
  load_permissions, load_given, store_all, unstore_all, check_name, create_role, update_role,
  delete_role, assign_permissions, remove_permissions,
}
use financial_data.UseCases.AuditTrail.{Grown, Logged, Grown-unless, trail_rules}

module _ (start : List AuditLog) (meta : RequestMeta) where
  add-Keeps : (r : Role) → Keeps (Grown start meta) (Roles.add r)
  unfolding Roles.add
  add-Keeps r = search trail_rules depth 14

  update-Keeps : (r : Role) → Keeps (Grown start meta) (Roles.update r)
  unfolding Roles.update
  update-Keeps r = search trail_rules depth 14

  get_by_id-Keeps : (id : ℕ) → Keeps (Grown start meta) (Roles.get_by_id id)
  unfolding Roles.get_by_id
  get_by_id-Keeps id = search trail_rules

  -- A permission that the role has is not assigned again.
  assign_link-Keeps :
      (role_id permission_id : ℕ)
      → Keeps (Grown start meta) (Roles.assign_permission role_id permission_id)
  unfolding Roles.assign_permission
  assign_link-Keeps role_id permission_id =
      Grown-unless start meta (λ db. any (links role_id permission_id) db.role_permissions)
        (λ db. record db {
          role_permissions =
              db.role_permissions
              ++ record { role_id = role_id; permission_id = permission_id } ∷ [];
        })
        (λ db. refl)

  store_all-Keeps :
      (role_id : ℕ) (permissions : List Permission)
      → Keeps (Grown start meta) (store_all role_id permissions)
  unfolding store_all
  store_all-Keeps role_id [] = search trail_rules
  store_all-Keeps role_id (p ∷ permissions) =
      let rest = store_all-Keeps role_id permissions in
      search (trail_rules, assign_link-Keeps) depth 9

  unstore_all-Keeps :
      (role_id : ℕ) (ids : List ℕ) → Keeps (Grown start meta) (unstore_all role_id ids)
  unfolding unstore_all Roles.remove_permission
  unstore_all-Keeps role_id [] = search trail_rules
  unstore_all-Keeps role_id (id ∷ ids) =
      let rest = unstore_all-Keeps role_id ids in search trail_rules depth 9

  load_permissions-Keeps : (ids : List ℕ) → Keeps (Grown start meta) (load_permissions ids)
  unfolding load_permissions Permissions.get_by_ids
  load_permissions-Keeps ids = search trail_rules depth 9

  load_given-Keeps : (ids : List ℕ) → Keeps (Grown start meta) (load_given ids)
  load_given-Keeps [] = search trail_rules
  load_given-Keeps (id ∷ ids) = load_permissions-Keeps (id ∷ ids)

  check_name-Keeps : (name : Option Text) (r : Role) → Keeps (Grown start meta) (check_name name r)
  unfolding check_name Roles.exists_by_name
  check_name-Keeps none r = search trail_rules
  check_name-Keeps (some name) r = search trail_rules depth 14

ruleset role_rules = (
  trail_rules, add-Keeps, update-Keeps, get_by_id-Keeps, store_all-Keeps, unstore_all-Keeps,
  load_permissions-Keeps, load_given-Keeps, check_name-Keeps,
)

module _ (start : List AuditLog) (meta : RequestMeta) (actor : User) where
  pub create_role-Keeps :
      (name description : Text) (permission_ids : List ℕ)
      → Keeps (Logged start meta) (create_role name description permission_ids actor meta)
  unfolding create_role Roles.exists_by_name
  create_role-Keeps name description permission_ids = search role_rules depth 40

  pub update_role-Keeps :
      (role_id : ℕ) (name description : Option Text) (is_active : Option Bool)
      → Keeps (Logged start meta) (update_role role_id name description is_active actor meta)
  unfolding update_role
  update_role-Keeps role_id name description is_active = search role_rules depth 40

  pub delete_role-Keeps : (role_id : ℕ) → Keeps (Logged start meta) (delete_role role_id actor meta)
  unfolding delete_role
  delete_role-Keeps role_id = search role_rules depth 40

  pub assign_permissions-Keeps :
      (role_id : ℕ) (permission_ids : List ℕ)
      → Keeps (Logged start meta) (assign_permissions role_id permission_ids actor meta)
  unfolding assign_permissions
  assign_permissions-Keeps role_id permission_ids = search role_rules depth 40

  pub remove_permissions-Keeps :
      (role_id : ℕ) (permission_ids : List ℕ)
      → Keeps (Logged start meta) (remove_permissions role_id permission_ids actor meta)
  unfolding remove_permissions
  remove_permissions-Keeps role_id permission_ids = search role_rules depth 40
