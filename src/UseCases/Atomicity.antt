-- ===== src/UseCases/Atomicity.antt =====
-- Use cases are atomic: where one raises, the committed database is unchanged. The users here, the
-- roles, the categories and the records in the modules below.
pub mod RoleCases
pub mod Ledger
pub mod Reads
pub mod Sessions
use financial_data.Prelude.{ℕ, Bool, true, false, Option, none, some, List, [], ◌∷◌}
use financial_data.Entities.Enums.{ActionType, CategoryType}
use financial_data.Entities.Role.{Role}
use financial_data.Entities.Category.{Category}
use financial_data.Entities.Permission.{Permission}
use financial_data.Text.{Text}
use financial_data.Json.{JsonDict}
use financial_data.Crypto.{PasswordContext}
use financial_data.Entities.User.{User}
use financial_data.Entities.Audit.{RequestMeta}
use financial_data.Cache.{invalidate}
use financial_data.World.{World, pure, ◌>>=◌}
use financial_data.World.Pending.{
  IsPending, IsPending-bind, IsAtomic, atomic_rules, IsAtomic-then, Failed,
}
use financial_data.Repositories.Pending.{repository_rules}
use financial_data.UseCases.Auditing.{log_success}
use financial_data.UseCases.Users
use financial_data.UseCases.Roles
use financial_data.UseCases.Categories
use financial_data.UseCases.Register
use financial_data.UseCases.Records

pub log_success-IsPending :
    (actor : User) (action : ActionType) (resource : Text) (meta : RequestMeta) (id : Option ℕ)
    (before after diff : Option JsonDict)
    → IsPending (log_success actor action resource meta id before after diff)
unfolding log_success
log_success-IsPending actor action resource meta id before after diff =
    search repository_rules depth 9

pub load_roles-IsPending : (names : List Text) → IsPending (Users.load_roles names)
unfolding Users.load_roles
load_roles-IsPending [] = search repository_rules
load_roles-IsPending (name ∷ names) = IsPending-bind _ _ (search repository_rules) (λ found.
    IsPending-bind _ _ (search repository_rules)
      (λ role. IsPending-bind _ _ (load_roles-IsPending names) (λ rest. search repository_rules)))

pub switch-IsPending : (b : Bool) (u : User) → IsPending (Users.switch b u)
switch-IsPending true u = search repository_rules
switch-IsPending false u = search repository_rules

pub ruleset unit_rules = (repository_rules, atomic_rules, log_success-IsPending)

pub ruleset user_rules = (unit_rules, load_roles-IsPending, switch-IsPending)

-- CreateUserUseCase and RegisterUseCase.
pub create_user-IsAtomic :
    (context : PasswordContext) (dto : Users.CreateUserDto) (actor : User) (meta : RequestMeta)
    → IsAtomic (Users.create_user context dto actor meta)
unfolding Users.create_user
create_user-IsAtomic context dto actor meta = search user_rules depth 30

pub register-IsAtomic :
    (context : PasswordContext) (dto : Register.RegisterDto) (meta : RequestMeta)
    → IsAtomic (Register.register context dto meta)
unfolding Register.register
register-IsAtomic context dto meta = search user_rules depth 30

pub update_user-IsAtomic :
    (id : ℕ) (name : Option Text) (actor : User) (meta : RequestMeta)
    → IsAtomic (Users.update_user id name actor meta)
unfolding Users.update_user
update_user-IsAtomic id name actor meta = search user_rules depth 30

pub change_status-IsAtomic :
    (id : ℕ) (b : Bool) (actor : User) (meta : RequestMeta)
    → IsAtomic (Users.change_status id b actor meta)
unfolding Users.change_status
change_status-IsAtomic id b actor meta = search user_rules depth 30

pub delete_user-IsAtomic :
    (id : ℕ) (actor : User) (meta : RequestMeta) → IsAtomic (Users.delete_user id actor meta)
unfolding Users.delete_user
delete_user-IsAtomic id actor meta = search user_rules depth 30

pub assign_role-IsAtomic :
    (u r : ℕ) (actor : User) (meta : RequestMeta) → IsAtomic (Users.assign_role u r actor meta)
unfolding Users.assign_role
assign_role-IsAtomic u r actor meta = search user_rules depth 30

pub remove_role-IsAtomic :
    (u r : ℕ) (actor : User) (meta : RequestMeta) → IsAtomic (Users.remove_role u r actor meta)
unfolding Users.remove_role
remove_role-IsAtomic u r actor meta = search user_rules depth 30

-- The use cases of the users: where one raises, what is committed is as it was.
pub users-IsAtomic :
    (context : PasswordContext) (actor : User) (meta : RequestMeta)
    → ((dto : Users.CreateUserDto) → IsAtomic (Users.create_user context dto actor meta))
      × ((dto : Register.RegisterDto) → IsAtomic (Register.register context dto meta))
      × ((id : ℕ) (name : Option Text) → IsAtomic (Users.update_user id name actor meta))
      × ((id : ℕ) (b : Bool) → IsAtomic (Users.change_status id b actor meta))
      × ((id : ℕ) → IsAtomic (Users.delete_user id actor meta))
      × ((u r : ℕ) → IsAtomic (Users.assign_role u r actor meta))
      × ((u r : ℕ) → IsAtomic (Users.remove_role u r actor meta))
users-IsAtomic context actor meta = (
  λ dto. create_user-IsAtomic context dto actor meta,
  λ dto. register-IsAtomic context dto meta,
  λ id name. update_user-IsAtomic id name actor meta,
  λ id b. change_status-IsAtomic id b actor meta,
  λ id. delete_user-IsAtomic id actor meta,
  λ u r. assign_role-IsAtomic u r actor meta,
  λ u r. remove_role-IsAtomic u r actor meta,
)
