-- ===== src/UseCases/Atomicity/RoleCases.antt =====
-- The use cases of the roles are atomic.
use financial_data.Prelude.{ℕ, Bool, Option, none, some, List, [], ◌∷◌}
use financial_data.Entities.Role.{Role}
use financial_data.Entities.Permission.{Permission}
use financial_data.Text.{Text}
use financial_data.Entities.User.{User}
use financial_data.Entities.Audit.{RequestMeta}
use financial_data.World.Pending.{IsPending, IsPending-bind, IsAtomic}
use financial_data.Repositories.Pending.{repository_rules}
use financial_data.UseCases.Roles
use financial_data.UseCases.Atomicity.{unit_rules}

pub load_permissions-IsPending : (ids : List ℕ) → IsPending (Roles.load_permissions ids)
unfolding Roles.load_permissions
load_permissions-IsPending ids = search repository_rules depth 9

pub load_given-IsPending : (ids : List ℕ) → IsPending (Roles.load_given ids)
load_given-IsPending [] = search repository_rules
load_given-IsPending (id ∷ ids) = load_permissions-IsPending (id ∷ ids)

pub store_all-IsPending :
    (role_id : ℕ) (permissions : List Permission) → IsPending (Roles.store_all role_id permissions)
unfolding Roles.store_all
store_all-IsPending role_id [] = search repository_rules
store_all-IsPending role_id (p ∷ permissions) =
    IsPending-bind _ _ (search repository_rules) (λ done. store_all-IsPending role_id permissions)

pub unstore_all-IsPending : (role_id : ℕ) (ids : List ℕ) → IsPending (Roles.unstore_all role_id ids)
unfolding Roles.unstore_all
unstore_all-IsPending role_id [] = search repository_rules
unstore_all-IsPending role_id (id ∷ ids) =
    IsPending-bind _ _ (search repository_rules) (λ done. unstore_all-IsPending role_id ids)

pub check_role_name-IsPending :
    (name : Option Text) (r : Role) → IsPending (Roles.check_name name r)
unfolding Roles.check_name
check_role_name-IsPending none r = search repository_rules
check_role_name-IsPending (some name) r = search repository_rules depth 9

pub ruleset role_rules = (
  unit_rules, load_permissions-IsPending, load_given-IsPending, store_all-IsPending,
  unstore_all-IsPending, check_role_name-IsPending,
)

pub create_role-IsAtomic :
    (name description : Text) (ids : List ℕ) (actor : User) (meta : RequestMeta)
    → IsAtomic (Roles.create_role name description ids actor meta)
unfolding Roles.create_role
create_role-IsAtomic name description ids actor meta = search role_rules depth 30

pub update_role-IsAtomic :
    (id : ℕ) (name description : Option Text) (b : Option Bool) (actor : User) (meta : RequestMeta)
    → IsAtomic (Roles.update_role id name description b actor meta)
unfolding Roles.update_role
update_role-IsAtomic id name description b actor meta = search role_rules depth 30

pub delete_role-IsAtomic :
    (id : ℕ) (actor : User) (meta : RequestMeta) → IsAtomic (Roles.delete_role id actor meta)
unfolding Roles.delete_role
delete_role-IsAtomic id actor meta = search role_rules depth 30

pub assign_permissions-IsAtomic :
    (id : ℕ) (ids : List ℕ) (actor : User) (meta : RequestMeta)
    → IsAtomic (Roles.assign_permissions id ids actor meta)
unfolding Roles.assign_permissions
assign_permissions-IsAtomic id ids actor meta = search role_rules depth 30

pub remove_permissions-IsAtomic :
    (id : ℕ) (ids : List ℕ) (actor : User) (meta : RequestMeta)
    → IsAtomic (Roles.remove_permissions id ids actor meta)
unfolding Roles.remove_permissions
remove_permissions-IsAtomic id ids actor meta = search role_rules depth 30

-- The use cases of the roles: where one raises, what is committed is as it was, also where some of
-- a list of permissions have been stored in the session already.
pub roles-IsAtomic :
    (actor : User) (meta : RequestMeta)
    → ((name description : Text) (ids : List ℕ)
        → IsAtomic (Roles.create_role name description ids actor meta))
      × ((id : ℕ) (name description : Option Text) (b : Option Bool)
          → IsAtomic (Roles.update_role id name description b actor meta))
      × ((id : ℕ) → IsAtomic (Roles.delete_role id actor meta))
      × ((id : ℕ) (ids : List ℕ) → IsAtomic (Roles.assign_permissions id ids actor meta))
      × ((id : ℕ) (ids : List ℕ) → IsAtomic (Roles.remove_permissions id ids actor meta))
roles-IsAtomic actor meta = (
  λ name description ids. create_role-IsAtomic name description ids actor meta,
  λ id name description b. update_role-IsAtomic id name description b actor meta,
  λ id. delete_role-IsAtomic id actor meta,
  λ id ids. assign_permissions-IsAtomic id ids actor meta,
  λ id ids. remove_permissions-IsAtomic id ids actor meta,
)
