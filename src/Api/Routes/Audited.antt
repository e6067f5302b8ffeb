-- ===== src/Api/Routes/Audited.antt =====
-- The audit log is append-only for every request.
use financial_data.Prelude.{sym, List, [], ℕ}
use mathlib.Core.List.{append-nil}
use financial_data.Text.{Text}
use financial_data.Result.{Error}
use financial_data.Entities.Audit.{AuditLog, RequestMeta}
use financial_data.World.{World, Action}
use financial_data.World.Keeps.{Keeps, keeps_rules}
use financial_data.UseCases.AuditTrail.{Extends, ExtendsFor, Logged, Logged-pending}
use financial_data.UseCases.AuditTrail.Users.{
  register-Keeps, create_user-Keeps, update_user-Keeps, change_status-Keeps, delete_user-Keeps,
  assign_role-Keeps, remove_role-Keeps,
}
use financial_data.UseCases.AuditTrail.Roles.{
  create_role-Keeps, update_role-Keeps, delete_role-Keeps, assign_permissions-Keeps,
  remove_permissions-Keeps,
}
use financial_data.UseCases.AuditTrail.Ledger.{
  create_category-Keeps, update_category-Keeps, delete_category-Keeps, create_record-Keeps,
  update_record-Keeps, delete_record-Keeps,
}
use financial_data.UseCases.AuditTrail.Sessions.{login-Keeps, refresh-Keeps, logout-Keeps}
use financial_data.Api.Http.{Platform, Request, guard, guarded_actor, catching, request_meta}
use financial_data.Api.Auth
use financial_data.Api.Auth.{refresh_field, refresh_token_of}
use financial_data.Api.Users
use financial_data.Api.Roles
use financial_data.Api.Categories
use financial_data.Api.Records
use financial_data.Api.Dashboards
use financial_data.Api.Routes.{
  Route, run, serve, register, login, refresh, logout, list_users, get_user, create_record,
  list_categories, get_category, list_roles, get_role, create_user, update_user, delete_user,
  change_status, assign_role, remove_role, list_records, get_record, update_record, delete_record,
  create_category, update_category, delete_category, create_role, update_role, delete_role,
  assign_permissions, remove_permissions, get_summary, get_category_totals, get_trends, get_recent,
}
use financial_data.Api.Routes.Guards.{serve-run}
use financial_data.Api.Routes.Failures.{
  endpoint_rules, payload-IsPending, guard-IsPending, guarded_actor-IsPending,
  refresh_token_of-IsPending,
}
use financial_data.UseCases.Users.{get_user as load_actor}
use financial_data.UseCases.Atomicity.Reads.{get_user-IsPending}
use financial_data.UseCases.Tokens.{get_token_payload}
use financial_data.Prelude.{Option}

module _ (start : List AuditLog) (meta : RequestMeta) where
  Logged-catching :
      {A : Type 0} (handler : Error → Error) (m : Action A)
      → Keeps (Logged start meta) m
      → Keeps (Logged start meta) (catching handler m)
  unfolding catching
  Logged-catching handler m k = record { at = λ w h. record { outside = (k.at w h).outside } }

  module _ (platform : Platform) (request : Request) where
    guarded_actor-Keeps :
        (codename : Text) → Keeps (Logged start meta) (guarded_actor platform request codename)
    guarded_actor-Keeps codename =
        Logged-pending start meta _ (guarded_actor-IsPending platform request codename)

    guard-Keeps : (codename : Text) → Keeps (Logged start meta) (guard platform request codename)
    guard-Keeps codename = Logged-pending start meta _ (guard-IsPending platform request codename)

    payload-Keeps :
        (raw : Option Text)
        → Keeps (Logged start meta) (get_token_payload platform.tokens platform.ttl raw)
    payload-Keeps raw = Logged-pending start meta _ (payload-IsPending platform request raw)

  get_user-Keeps : (user_id : ℕ) → Keeps (Logged start meta) (load_actor user_id)
  get_user-Keeps user_id = Logged-pending start meta _ (get_user-IsPending user_id)

  refresh_token_of-Keeps :
      (request : Request) → Keeps (Logged start meta) (refresh_token_of request)
  refresh_token_of-Keeps request = Logged-pending start meta _ (refresh_token_of-IsPending request)

ruleset write_rules = (
  keeps_rules, Logged-catching, get_user-Keeps, guard-Keeps, guarded_actor-Keeps, payload-Keeps,
  refresh_token_of-Keeps, register-Keeps, create_user-Keeps, update_user-Keeps, change_status-Keeps,
  delete_user-Keeps, assign_role-Keeps, remove_role-Keeps, create_role-Keeps, update_role-Keeps,
  delete_role-Keeps, assign_permissions-Keeps, remove_permissions-Keeps, create_category-Keeps,
  update_category-Keeps, delete_category-Keeps, create_record-Keeps, update_record-Keeps,
  delete_record-Keeps, login-Keeps, refresh-Keeps, logout-Keeps,
)

module _ (start : List AuditLog) (platform : Platform) (request : Request) where
  run-Keeps :
      (route : Route) → Keeps (Logged start (request_meta request)) (run platform request route)
  unfolding run Auth.register Auth.login Auth.refresh Auth.logout Users.list_users Users.get_user
      Records.create_record Categories.list_categories Categories.get_category Roles.list_roles
      Roles.get_role Users.create_user Users.update_user Users.delete_user Users.change_status
      Users.assign_role Users.remove_role Records.list_records Records.get_record
      Records.update_record Records.delete_record Categories.create_category
      Categories.update_category Categories.delete_category Roles.create_role Roles.update_role
      Roles.delete_role Roles.assign_permissions Roles.remove_permissions Dashboards.get_summary
      Dashboards.get_category_totals Dashboards.get_trends Dashboards.get_recent
  run-Keeps (register a) = search write_rules depth 14
  run-Keeps (login a b) = search write_rules depth 14
  run-Keeps (refresh a) = search write_rules depth 14
  run-Keeps logout = search write_rules depth 14
  run-Keeps (list_users a b c d) =
      Logged-pending start (request_meta request) _ (search endpoint_rules depth 14)
  run-Keeps (get_user a) =
      Logged-pending start (request_meta request) _ (search endpoint_rules depth 14)
  run-Keeps (create_record a) = search write_rules depth 14
  run-Keeps (list_categories a b c d) =
      Logged-pending start (request_meta request) _ (search endpoint_rules depth 14)
  run-Keeps (get_category a) =
      Logged-pending start (request_meta request) _ (search endpoint_rules depth 14)
  run-Keeps (list_roles a b c) =
      Logged-pending start (request_meta request) _ (search endpoint_rules depth 14)
  run-Keeps (get_role a) =
      Logged-pending start (request_meta request) _ (search endpoint_rules depth 14)
  run-Keeps (create_user a) = search write_rules depth 14
  run-Keeps (update_user a b) = search write_rules depth 14
  run-Keeps (delete_user a) = search write_rules depth 14
  run-Keeps (change_status a b) = search write_rules depth 14
  run-Keeps (assign_role a b) = search write_rules depth 14
  run-Keeps (remove_role a b) = search write_rules depth 14
  run-Keeps (list_records a) =
      Logged-pending start (request_meta request) _ (search endpoint_rules depth 14)
  run-Keeps (get_record a) =
      Logged-pending start (request_meta request) _ (search endpoint_rules depth 14)
  run-Keeps (update_record a) = search write_rules depth 14
  run-Keeps (delete_record a) = search write_rules depth 14
  run-Keeps (create_category a b c) = search write_rules depth 14
  run-Keeps (update_category a b c d) = search write_rules depth 14
  run-Keeps (delete_category a) = search write_rules depth 14
  run-Keeps (create_role a b c) = search write_rules depth 14
  run-Keeps (update_role a b c d) = search write_rules depth 14
  run-Keeps (delete_role a) = search write_rules depth 14
  run-Keeps (assign_permissions a b) = search write_rules depth 14
  run-Keeps (remove_permissions a b) = search write_rules depth 14
  run-Keeps (get_summary a) =
      Logged-pending start (request_meta request) _ (search endpoint_rules depth 14)
  run-Keeps (get_category_totals a) =
      Logged-pending start (request_meta request) _ (search endpoint_rules depth 14)
  run-Keeps (get_trends a) =
      Logged-pending start (request_meta request) _ (search endpoint_rules depth 14)
  run-Keeps (get_recent a b) =
      Logged-pending start (request_meta request) _ (search endpoint_rules depth 14)

module _ (platform : Platform) (request : Request) where
  pub serve-ExtendsFor :
      (route : Route) (w : World)
      → ExtendsFor
          (request_meta request)
          w.committed.audit
          (serve platform request route w).1.committed.audit
  serve-ExtendsFor route w =
      let (id, u, s) = serve-run platform request route w in
      rw s (
        ((run-Keeps w.committed.audit platform request route).at (record w { uuids = u })
          (record { outside = ([], sym (append-nil w.committed.audit), tt) })).outside)

  -- Whatever a request asks for and however it ends, what is committed of the audit log afterwards is
  -- what was committed before, in its order, with the new entries behind it.
  pub audit_log_grows :
      (route : Route) (w : World)
      → Extends w.committed.audit (serve platform request route w).1.committed.audit
  audit_log_grows route w = let (new, e, c) = serve-ExtendsFor route w in (new, e)
