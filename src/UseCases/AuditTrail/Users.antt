-- ===== src/UseCases/AuditTrail/Users.antt =====
-- The audit log under the use cases of users and of registration.
use financial_data.Prelude.{ℕ, refl, ◌++◌, Bool, true, false, Option, List, [], ◌∷◌, any}
use financial_data.Text.{Text}
use financial_data.Crypto.{PasswordContext}
use financial_data.Entities.User.{User}
use financial_data.Entities.Audit.{AuditLog, RequestMeta}
use financial_data.World.Keeps.{Keeps}
use financial_data.Repositories.Users
use financial_data.Repositories.Users.{links}
use financial_data.Repositories.Roles
use financial_data.UseCases.Register.{RegisterDto, register}
use financial_data.UseCases.Users.{
  CreateUserDto, load_roles, switch, create_user, update_user, change_status, delete_user,
  assign_role, remove_role,
}
use financial_data.UseCases.AuditTrail.{Grown, Logged, Grown-unless, trail_rules}

module _ (start : List AuditLog) (meta : RequestMeta) where
  load_roles-Keeps : (names : List Text) → Keeps (Grown start meta) (load_roles names)
  unfolding load_roles Roles.get_by_name
  load_roles-Keeps [] = search trail_rules
  load_roles-Keeps (name ∷ names) = let rest = load_roles-Keeps names in search trail_rules depth 20

  add-Keeps : (u : User) → Keeps (Grown start meta) (Users.add u)
  unfolding Users.add
  add-Keeps u = search trail_rules depth 14

  update-Keeps : (u : User) → Keeps (Grown start meta) (Users.update u)
  unfolding Users.update
  update-Keeps u = search trail_rules depth 14

  switch-Keeps : (b : Bool) (u : User) → Keeps (Grown start meta) (switch b u)
  switch-Keeps true u = search trail_rules
  switch-Keeps false u = search trail_rules

  get_by_id-Keeps : (id : ℕ) → Keeps (Grown start meta) (Users.get_by_id id)
  unfolding Users.get_by_id
  get_by_id-Keeps id = search trail_rules

  remove_link-Keeps :
      (user_id role_id : ℕ) → Keeps (Grown start meta) (Users.remove_role user_id role_id)
  unfolding Users.remove_role
  remove_link-Keeps user_id role_id = search trail_rules

  -- A role that the user has is not assigned again.
  assign_link-Keeps :
      (user_id role_id : ℕ) → Keeps (Grown start meta) (Users.assign_role user_id role_id)
  unfolding Users.assign_role
  assign_link-Keeps user_id role_id =
      Grown-unless start meta (λ db. any (links user_id role_id) db.user_roles)
        (λ db. record db {
          user_roles = db.user_roles ++ record { user_id = user_id; role_id = role_id } ∷ [];
        })
        (λ db. refl)

ruleset user_rules = (
  trail_rules, load_roles-Keeps, add-Keeps, update-Keeps, switch-Keeps, get_by_id-Keeps,
  assign_link-Keeps, remove_link-Keeps,
)

module _ (start : List AuditLog) (meta : RequestMeta) where
  pub register-Keeps :
      (passwords : PasswordContext) (dto : RegisterDto)
      → Keeps (Logged start meta) (register passwords dto meta)
  unfolding register Users.exists_by_email Roles.get_by_name
  register-Keeps passwords dto = search user_rules depth 40

  module _ (actor : User) where
    pub create_user-Keeps :
        (passwords : PasswordContext) (dto : CreateUserDto)
        → Keeps (Logged start meta) (create_user passwords dto actor meta)
    unfolding create_user Users.exists_by_email
    create_user-Keeps passwords dto = search user_rules depth 40

    pub update_user-Keeps :
        (user_id : ℕ) (full_name : Option Text)
        → Keeps (Logged start meta) (update_user user_id full_name actor meta)
    unfolding update_user
    update_user-Keeps user_id full_name = search user_rules depth 40

    pub change_status-Keeps :
        (user_id : ℕ) (is_active : Bool)
        → Keeps (Logged start meta) (change_status user_id is_active actor meta)
    unfolding change_status
    change_status-Keeps user_id is_active = search user_rules depth 40

    pub delete_user-Keeps :
        (user_id : ℕ) → Keeps (Logged start meta) (delete_user user_id actor meta)
    unfolding delete_user
    delete_user-Keeps user_id = search user_rules depth 40

    pub assign_role-Keeps :
        (user_id role_id : ℕ) → Keeps (Logged start meta) (assign_role user_id role_id actor meta)
    unfolding assign_role Roles.get_by_id
    assign_role-Keeps user_id role_id = search user_rules depth 40

    pub remove_role-Keeps :
        (user_id role_id : ℕ) → Keeps (Logged start meta) (remove_role user_id role_id actor meta)
    unfolding remove_role
    remove_role-Keeps user_id role_id = search user_rules depth 40
