-- ===== src/Repositories/Pending.antt =====
-- No repository commits: until the unit of work does, other sessions see none of its writes.
use financial_data.Prelude.{ℕ, List}
use financial_data.Text.{Text}
use financial_data.Email.{Email}
use financial_data.Entities.User.{User}
use financial_data.Entities.Role.{Role}
use financial_data.Entities.Category.{Category}
use financial_data.Entities.Record.{FinancialRecord}
use financial_data.Entities.Audit.{AuditLog}
use financial_data.World.Pending.{IsPending, pending_rules}
use financial_data.Repositories.Users
use financial_data.Repositories.Roles
use financial_data.Repositories.Permissions
use financial_data.Repositories.Categories
use financial_data.Repositories.Records
use financial_data.Repositories.Audit

pub users_get_by_id-IsPending : (id : ℕ) → IsPending (Users.get_by_id id)
unfolding Users.get_by_id
users_get_by_id-IsPending id = search pending_rules

pub get_by_email-IsPending : (email : Email) → IsPending (Users.get_by_email email)
unfolding Users.get_by_email
get_by_email-IsPending email = search pending_rules

pub exists_by_email-IsPending : (email : Email) → IsPending (Users.exists_by_email email)
unfolding Users.exists_by_email
exists_by_email-IsPending email = search pending_rules

pub users_add-IsPending : (u : User) → IsPending (Users.add u)
unfolding Users.add
users_add-IsPending u = search pending_rules depth 12

pub users_update-IsPending : (u : User) → IsPending (Users.update u)
unfolding Users.update
users_update-IsPending u = search pending_rules depth 12

pub users_assign_role-IsPending : (u r : ℕ) → IsPending (Users.assign_role u r)
unfolding Users.assign_role
users_assign_role-IsPending u r = search pending_rules

pub users_remove_role-IsPending : (u r : ℕ) → IsPending (Users.remove_role u r)
unfolding Users.remove_role
users_remove_role-IsPending u r = search pending_rules

pub roles_get_by_id-IsPending : (id : ℕ) → IsPending (Roles.get_by_id id)
unfolding Roles.get_by_id
roles_get_by_id-IsPending id = search pending_rules

pub roles_get_by_name-IsPending : (name : Text) → IsPending (Roles.get_by_name name)
unfolding Roles.get_by_name
roles_get_by_name-IsPending name = search pending_rules

pub roles_exists_by_name-IsPending : (name : Text) → IsPending (Roles.exists_by_name name)
unfolding Roles.exists_by_name
roles_exists_by_name-IsPending name = search pending_rules

pub assign_permission-IsPending : (r p : ℕ) → IsPending (Roles.assign_permission r p)
unfolding Roles.assign_permission
assign_permission-IsPending r p = search pending_rules

pub remove_permission-IsPending : (r p : ℕ) → IsPending (Roles.remove_permission r p)
unfolding Roles.remove_permission
remove_permission-IsPending r p = search pending_rules

pub roles_add-IsPending : (r : Role) → IsPending (Roles.add r)
unfolding Roles.add
roles_add-IsPending r = search pending_rules depth 12

pub roles_update-IsPending : (r : Role) → IsPending (Roles.update r)
unfolding Roles.update
roles_update-IsPending r = search pending_rules depth 12

pub get_by_ids-IsPending : (ids : List ℕ) → IsPending (Permissions.get_by_ids ids)
unfolding Permissions.get_by_ids
get_by_ids-IsPending ids = search pending_rules

pub categories_get_by_id-IsPending : (id : ℕ) → IsPending (Categories.get_by_id id)
unfolding Categories.get_by_id
categories_get_by_id-IsPending id = search pending_rules

pub categories_exists_by_name-IsPending : (name : Text) → IsPending (Categories.exists_by_name name)
unfolding Categories.exists_by_name
categories_exists_by_name-IsPending name = search pending_rules

pub categories_add-IsPending : (c : Category) → IsPending (Categories.add c)
unfolding Categories.add
categories_add-IsPending c = search pending_rules depth 12

pub categories_update-IsPending : (c : Category) → IsPending (Categories.update c)
unfolding Categories.update
categories_update-IsPending c = search pending_rules depth 12

pub records_get_by_id-IsPending : (id : ℕ) → IsPending (Records.get_by_id id)
unfolding Records.get_by_id
records_get_by_id-IsPending id = search pending_rules

pub records_add-IsPending : (r : FinancialRecord) → IsPending (Records.add r)
unfolding Records.add
records_add-IsPending r = search pending_rules depth 12

pub records_update-IsPending : (r : FinancialRecord) → IsPending (Records.update r)
unfolding Records.update
records_update-IsPending r = search pending_rules depth 12

pub log-IsPending : (a : AuditLog) → IsPending (Audit.log a)
unfolding Audit.log
log-IsPending a = search pending_rules depth 14

pub ruleset repository_rules = (
  pending_rules, users_get_by_id-IsPending, get_by_email-IsPending, exists_by_email-IsPending,
  users_add-IsPending, users_update-IsPending, users_assign_role-IsPending,
  users_remove_role-IsPending, roles_get_by_id-IsPending, roles_get_by_name-IsPending,
  roles_exists_by_name-IsPending, assign_permission-IsPending, remove_permission-IsPending,
  roles_add-IsPending, roles_update-IsPending, get_by_ids-IsPending, categories_get_by_id-IsPending,
  categories_exists_by_name-IsPending, categories_add-IsPending, categories_update-IsPending,
  records_get_by_id-IsPending, records_add-IsPending, records_update-IsPending, log-IsPending,
)
