-- ===== src/Api/Routes/Tokens.antt =====
-- The refresh tokens change under no route but those of the sessions.
use financial_data.Prelude.{Bool, true, false, ◌≡◌, ◌⊎◌, inl, inr, refl, List, ap, ◌∙◌}
use financial_data.World.{World, RefreshTokenModel}
use financial_data.World.Keeps.{Keeps}
use financial_data.Repositories.Users as UserRows
use financial_data.Repositories.Roles as RoleRows
use financial_data.Repositories.Categories as CategoryRows
use financial_data.Repositories.Records as RecordRows
use financial_data.Repositories.Aggregates
use financial_data.Repositories.Cached
use financial_data.UseCases.Auditing.{log_success}
use financial_data.UseCases.Dashboard as DashboardCases
use financial_data.UseCases.Users as UserCases
use financial_data.UseCases.Register as RegisterCase
use financial_data.UseCases.Roles as RoleCases
use financial_data.UseCases.Categories as CategoryCases
use financial_data.UseCases.Records as RecordCases
use financial_data.Api.Http.{Platform, Request, guard, guarded_actor}
use financial_data.Api.Auth
use financial_data.Api.Auth.{refresh_field, refresh_token_of}
use financial_data.Api.Users
use financial_data.Api.Roles
use financial_data.Api.Categories
use financial_data.Api.Records
use financial_data.Api.Dashboards
use financial_data.Api.Routes.{
  Route, run, serve, HttpResponse, register, login, refresh, logout, list_users, get_user,
  create_record, list_categories, get_category, list_roles, get_role, create_user, update_user,
  delete_user, change_status, assign_role, remove_role, list_records, get_record, update_record,
  delete_record, create_category, update_category, delete_category, create_role, update_role,
  delete_role, assign_permissions, remove_permissions, get_summary, get_category_totals, get_trends,
  get_recent,
}
use financial_data.UseCases.TokenStore.{Holds, route_rules}
use financial_data.Api.Routes.Guards.{serve-run}

-- The routes that issue, rotate or revoke refresh tokens.
abbrev pub stores_tokens : Route → Bool
stores_tokens (login a b) = true
stores_tokens (refresh a) = true
stores_tokens logout = true
stores_tokens route = false

module _ (tokens : List RefreshTokenModel) (platform : Platform) (request : Request) where
  -- A route that does not store tokens leaves them as they are.
  run-Holds :
      (route : Route)
      → (stores_tokens route ≡ true) ⊎ Keeps (Holds tokens) (run platform request route)
  unfolding run Auth.register Auth.login Auth.refresh Auth.logout Users.list_users Users.get_user
      Records.create_record Categories.list_categories Categories.get_category Roles.list_roles
      Roles.get_role Users.create_user Users.update_user Users.delete_user Users.change_status
      Users.assign_role Users.remove_role Records.list_records Records.get_record
      Records.update_record Records.delete_record Categories.create_category
      Categories.update_category Categories.delete_category Roles.create_role Roles.update_role
      Roles.delete_role Roles.assign_permissions Roles.remove_permissions Dashboards.get_summary
      Dashboards.get_category_totals Dashboards.get_trends Dashboards.get_recent guard guarded_actor
      log_success UserCases.create_user UserCases.get_user UserCases.update_user
      UserCases.change_status UserCases.delete_user UserCases.assign_role UserCases.remove_role
      UserCases.get_users RegisterCase.register RoleCases.create_role RoleCases.update_role
      RoleCases.delete_role RoleCases.assign_permissions RoleCases.remove_permissions
      RoleCases.get_role RoleCases.get_roles CategoryCases.create_category
      CategoryCases.update_category CategoryCases.delete_category CategoryCases.get_category
      CategoryCases.get_categories RecordCases.create_record RecordCases.update_record
      RecordCases.delete_record RecordCases.get_record RecordCases.get_records
      RecordCases.load_record RecordCases.load_category DashboardCases.get_summary
      DashboardCases.get_category_totals DashboardCases.get_trends DashboardCases.get_recent
      Cached.get_dashboard_summary Cached.get_category_totals Cached.get_trends Cached.fill
      Aggregates.get_category_totals Aggregates.get_trends UserRows.get_by_id UserRows.get_by_email
      UserRows.exists_by_email UserRows.get_all UserRows.add UserRows.update UserRows.assign_role
      UserRows.remove_role RoleRows.get_by_id RoleRows.get_by_name RoleRows.exists_by_name
      RoleRows.get_all RoleRows.add RoleRows.update CategoryRows.get_by_id
      CategoryRows.exists_by_name CategoryRows.get_all CategoryRows.add CategoryRows.update
      RecordRows.get_by_id RecordRows.get_all RecordRows.get_recent RecordRows.get_dashboard_summary
      RecordRows.add RecordRows.update
  run-Holds (register a) = inr (search route_rules depth 50)
  run-Holds (login a b) = inl refl
  run-Holds (refresh a) = inl refl
  run-Holds logout = inl refl
  run-Holds (list_users a b c d) = inr (search route_rules depth 50)
  run-Holds (get_user a) = inr (search route_rules depth 50)
  run-Holds (create_record a) = inr (search route_rules depth 50)
  run-Holds (list_categories a b c d) = inr (search route_rules depth 50)
  run-Holds (get_category a) = inr (search route_rules depth 50)
  run-Holds (list_roles a b c) = inr (search route_rules depth 50)
  run-Holds (get_role a) = inr (search route_rules depth 50)
  run-Holds (create_user a) = inr (search route_rules depth 50)
  run-Holds (update_user a b) = inr (search route_rules depth 50)
  run-Holds (delete_user a) = inr (search route_rules depth 50)
  run-Holds (change_status a b) = inr (search route_rules depth 50)
  run-Holds (assign_role a b) = inr (search route_rules depth 50)
  run-Holds (remove_role a b) = inr (search route_rules depth 50)
  run-Holds (list_records a) = inr (search route_rules depth 50)
  run-Holds (get_record a) = inr (search route_rules depth 50)
  run-Holds (update_record a) = inr (search route_rules depth 50)
  run-Holds (delete_record a) = inr (search route_rules depth 50)
  run-Holds (create_category a b c) = inr (search route_rules depth 50)
  run-Holds (update_category a b c d) = inr (search route_rules depth 50)
  run-Holds (delete_category a) = inr (search route_rules depth 50)
  run-Holds (create_role a b c) = inr (search route_rules depth 50)
  run-Holds (update_role a b c d) = inr (search route_rules depth 50)
  run-Holds (delete_role a) = inr (search route_rules depth 50)
  run-Holds (assign_permissions a b) = inr (search route_rules depth 50)
  run-Holds (remove_permissions a b) = inr (search route_rules depth 50)
  run-Holds (get_summary a) = inr (search route_rules depth 50)
  run-Holds (get_category_totals a) = inr (search route_rules depth 50)
  run-Holds (get_trends a) = inr (search route_rules depth 50)
  run-Holds (get_recent a b) = inr (search route_rules depth 50)

module _ (platform : Platform) (request : Request) where
  kept :
      (route : Route) (w w₁ v : World)
      → v ≡ (run platform request route w₁).1
      → w₁.tokens ≡ w.tokens
      → (stores_tokens route ≡ true) ⊎ (v.tokens ≡ w.tokens)
  kept route w w₁ v e same = elim (run-Holds w.tokens platform request route) [
    | inl stores ↦ inl stores
    | inr k ↦ inr (ap (λ (u : World). u.tokens) e ∙ (k.at w₁ (record { same = same })).same)
  ]

  pub tokens_kept :
      (route : Route) (w : World)
      → (stores_tokens route ≡ true) ⊎ ((serve platform request route w).1.tokens ≡ w.tokens)
  tokens_kept route w =
      let (id, u, s) = serve-run platform request route w in
      kept route w (record w { uuids = u }) (serve platform request route w).1
        (ap (λ (p : HttpResponse × World). p.1) s) refl
