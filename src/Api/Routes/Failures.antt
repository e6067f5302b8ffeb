-- ===== src/Api/Routes/Failures.antt =====
-- A request that fails commits nothing.
use financial_data.Prelude.{◌≡◌, ◌⊎◌, true, ◌≢◌, ◌∙◌, refl, ap, Option, [], ◌∷◌}
use financial_data.Text.{Text}
use financial_data.Result.{Result, ok, err, Error}
use financial_data.Database.{Db}
use financial_data.World.{World, Action, pure, ◌>>=◌}
use financial_data.World.Pending.{
  IsPending, IsAtomic, IsAtomic-pending, IsAtomic-then, IsAtomic-bind, Settled,
}
use financial_data.Repositories.Pending.{repository_rules}
use financial_data.UseCases.Tokens.{get_token_payload}
use financial_data.UseCases.Atomicity.{
  create_user-IsAtomic, register-IsAtomic, update_user-IsAtomic, change_status-IsAtomic,
  delete_user-IsAtomic, assign_role-IsAtomic, remove_role-IsAtomic,
}
use financial_data.UseCases.Atomicity.RoleCases.{
  create_role-IsAtomic, update_role-IsAtomic, delete_role-IsAtomic, assign_permissions-IsAtomic,
  remove_permissions-IsAtomic,
}
use financial_data.UseCases.Atomicity.Ledger.{
  create_category-IsAtomic, update_category-IsAtomic, delete_category-IsAtomic,
  create_record-IsAtomic, update_record-IsAtomic, delete_record-IsAtomic,
}
use financial_data.UseCases.Atomicity.Reads.{reading_rules, get_user-IsPending}
use financial_data.UseCases.Atomicity.Sessions.{login-IsAtomic, refresh-IsAtomic, logout-IsAtomic}
use financial_data.Api.Http.{
  Platform, Request, JsonBody, malformed, no_object, object, guard, guarded_actor, catching,
  rethrow, get_or,
}
use financial_data.Api.Responses.{Content}
use financial_data.Api.Auth
use financial_data.Api.Auth.{refresh_field, refresh_token_of}
use financial_data.Api.Users
use financial_data.Api.Roles
use financial_data.Api.Categories
use financial_data.Api.Records
use financial_data.Api.Dashboards
use financial_data.Api.Routes.{
  Route, run, serve, respond, success_status, with_request_id, unhandled_error_handler,
  HttpResponse, register, login, refresh, logout, list_users, get_user, create_record,
  list_categories, get_category, list_roles, get_role, create_user, update_user, delete_user,
  change_status, assign_role, remove_role, list_records, get_record, update_record, delete_record,
  create_category, update_category, delete_category, create_role, update_role, delete_role,
  assign_permissions, remove_permissions, get_summary, get_category_totals, get_trends, get_recent,
}
use financial_data.Api.Routes.Verdicts.{payload_run}
use financial_data.Api.Routes.Guards.{serve-run}
use financial_data.Api.Routes.Tokens.{stores_tokens, tokens_kept}

module _ {A : Type 0} (handler : Error → Error) where
  rethrown :
      (r : Result A) (before after : Db)
      → Settled r before after
      → Settled (rethrow handler r) before after
  rethrown (ok a) before after s = s
  rethrown (err e) before after s = s

  -- A handler that raises another exception commits nothing either.
  IsAtomic-catching : (m : Action A) → IsAtomic m → IsAtomic (catching handler m)
  unfolding catching
  IsAtomic-catching m k = record {
    at = λ w. rethrown (m w).0 w.committed (m w).1.committed (k.at w);
  }

  pub IsPending-catching : (m : Action A) → IsPending m → IsPending (catching handler m)
  unfolding catching
  IsPending-catching m k = record { at = λ w. k.at w }

-- The body of an answer is built after the unit of work.
IsAtomic-answer :
    {A B : Type 0} (m : Action A) (f : A → B) → IsAtomic m → IsAtomic (m >>= λ a. pure (f a))
unfolding pure
IsAtomic-answer m f k = IsAtomic-then m (λ a. pure (f a)) k (λ a w h. h)

pub refresh_token_of-IsPending : (request : Request) → IsPending (refresh_token_of request)
unfolding refresh_token_of
refresh_token_of-IsPending request = pending (get_or request.content_type []) request.body
  where
    field : (body : JsonBody) → IsPending (refresh_field body)
    field malformed = search repository_rules
    field no_object = search repository_rules
    field (object o) = search repository_rules

    pending :
        (t : Text) (body : JsonBody)
        → IsPending {A = Text} (elim t [ [] ↦ pure [] | c ∷ s ↦ refresh_field body ])
    pending [] body = search repository_rules
    pending (c ∷ s) body = field body

module _ (platform : Platform) (request : Request) where
  pub payload-IsPending :
      (raw : Option Text) → IsPending (get_token_payload platform.tokens platform.ttl raw)
  payload-IsPending raw = record {
    at = λ w. rw (payload_run platform.tokens platform.ttl raw w) refl;
  }

  pub guard-IsPending : (codename : Text) → IsPending (guard platform request codename)
  unfolding guard
  guard-IsPending codename = search (repository_rules, payload-IsPending) depth 9

  pub guarded_actor-IsPending :
      (codename : Text) → IsPending (guarded_actor platform request codename)
  unfolding guarded_actor
  guarded_actor-IsPending codename =
      search (repository_rules, guard-IsPending, get_user-IsPending) depth 9

pub ruleset endpoint_rules = (
  repository_rules, reading_rules, payload-IsPending, guard-IsPending, guarded_actor-IsPending,
  IsPending-catching,
)

ruleset write_rules = (
  endpoint_rules, IsAtomic-bind, IsAtomic-answer, IsAtomic-catching, create_user-IsAtomic,
  register-IsAtomic, update_user-IsAtomic, change_status-IsAtomic, delete_user-IsAtomic,
  assign_role-IsAtomic, remove_role-IsAtomic, create_role-IsAtomic, update_role-IsAtomic,
  delete_role-IsAtomic, assign_permissions-IsAtomic, remove_permissions-IsAtomic,
  create_category-IsAtomic, update_category-IsAtomic, delete_category-IsAtomic,
  create_record-IsAtomic, update_record-IsAtomic, delete_record-IsAtomic, login-IsAtomic,
  refresh-IsAtomic, logout-IsAtomic, refresh_token_of-IsPending,
)

module _ (platform : Platform) (request : Request) where
  run-IsAtomic : (route : Route) → IsAtomic (run platform request route)
  unfolding run Auth.register Auth.login Auth.refresh Auth.logout Users.list_users Users.get_user
      Records.create_record Categories.list_categories Categories.get_category Roles.list_roles
      Roles.get_role Users.create_user Users.update_user Users.delete_user Users.change_status
      Users.assign_role Users.remove_role Records.list_records Records.get_record
      Records.update_record Records.delete_record Categories.create_category
      Categories.update_category Categories.delete_category Roles.create_role Roles.update_role
      Roles.delete_role Roles.assign_permissions Roles.remove_permissions Dashboards.get_summary
      Dashboards.get_category_totals Dashboards.get_trends Dashboards.get_recent
  run-IsAtomic (register a) = search write_rules depth 14
  run-IsAtomic (login a b) = search write_rules depth 14
  run-IsAtomic (refresh a) = search write_rules depth 14
  run-IsAtomic logout = search write_rules depth 14
  run-IsAtomic (list_users a b c d) = IsAtomic-pending _ (search endpoint_rules depth 14)
  run-IsAtomic (get_user a) = IsAtomic-pending _ (search endpoint_rules depth 14)
  run-IsAtomic (create_record a) = search write_rules depth 14
  run-IsAtomic (list_categories a b c d) = IsAtomic-pending _ (search endpoint_rules depth 14)
  run-IsAtomic (get_category a) = IsAtomic-pending _ (search endpoint_rules depth 14)
  run-IsAtomic (list_roles a b c) = IsAtomic-pending _ (search endpoint_rules depth 14)
  run-IsAtomic (get_role a) = IsAtomic-pending _ (search endpoint_rules depth 14)
  run-IsAtomic (create_user a) = search write_rules depth 14
  run-IsAtomic (update_user a b) = search write_rules depth 14
  run-IsAtomic (delete_user a) = search write_rules depth 14
  run-IsAtomic (change_status a b) = search write_rules depth 14
  run-IsAtomic (assign_role a b) = search write_rules depth 14
  run-IsAtomic (remove_role a b) = search write_rules depth 14
  run-IsAtomic (list_records a) = IsAtomic-pending _ (search endpoint_rules depth 14)
  run-IsAtomic (get_record a) = IsAtomic-pending _ (search endpoint_rules depth 14)
  run-IsAtomic (update_record a) = search write_rules depth 14
  run-IsAtomic (delete_record a) = search write_rules depth 14
  run-IsAtomic (create_category a b c) = search write_rules depth 14
  run-IsAtomic (update_category a b c d) = search write_rules depth 14
  run-IsAtomic (delete_category a) = search write_rules depth 14
  run-IsAtomic (create_role a b c) = search write_rules depth 14
  run-IsAtomic (update_role a b c d) = search write_rules depth 14
  run-IsAtomic (delete_role a) = search write_rules depth 14
  run-IsAtomic (assign_permissions a b) = search write_rules depth 14
  run-IsAtomic (remove_permissions a b) = search write_rules depth 14
  run-IsAtomic (get_summary a) = IsAtomic-pending _ (search endpoint_rules depth 14)
  run-IsAtomic (get_category_totals a) = IsAtomic-pending _ (search endpoint_rules depth 14)
  run-IsAtomic (get_trends a) = IsAtomic-pending _ (search endpoint_rules depth 14)
  run-IsAtomic (get_recent a b) = IsAtomic-pending _ (search endpoint_rules depth 14)

  answered :
      (route : Route) (r : Result Content) (id : Text) (before after : Db)
      → Settled r before after
      → (unhandled_error_handler (with_request_id id (respond route r))).status_code
        ≢ success_status route
      → after ≡ before
  unfolding respond
  answered route (ok c) id before after s n = absurd (n refl)
  answered route (err e) id before after s n = s

  committed_kept :
      (route : Route) (w : World)
      → (serve platform request route w).0.status_code ≢ success_status route
      → (serve platform request route w).1.committed ≡ w.committed
  committed_kept route w n =
      let (id, u, s) = serve-run platform request route w in
      let w₁ : World = record w { uuids = u } in
      let (r, w') = run platform request route w₁ in
      rw s (
        answered route r id w.committed w'.committed ((run-IsAtomic route).at w₁)
          (λ e. n (ap (λ (p : HttpResponse × World). p.0.status_code) s ∙ e)))

  -- A request that is not answered by the status of its success leaves every table as it was but that of
  -- the refresh tokens, which the token service writes in sessions of its own; and that one too, unless the
  -- request is a login, a refresh or a logout.
  pub failed_request_uncommitted :
      (route : Route) (w : World)
      → (serve platform request route w).0.status_code ≢ success_status route
      → ((serve platform request route w).1.committed ≡ w.committed)
        × ((stores_tokens route ≡ true) ⊎ ((serve platform request route w).1.tokens ≡ w.tokens))
  failed_request_uncommitted route w n =
      (committed_kept route w n, tokens_kept platform request route w)
