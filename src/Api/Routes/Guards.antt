-- ===== src/Api/Routes/Guards.antt =====
-- Without a token that carries the permission of a route, the request is refused.
use financial_data.Prelude.{
  ℕ, ◌≡◌, ◌∙◌, ◌⊎◌, inl, inr, refl, sym, ap, true, Option, none, some, [], ◌∷◌, Bool-cases,
}
use financial_data.Text.{Text, text_in}
use financial_data.Result.{
  Result, ok, err, Error, Message, authentication_error, authorization_error, permission_required,
  bearer_required,
}
use financial_data.Crypto.{Payload}
use financial_data.Entities.User.{User}
use financial_data.World.{World, Action, ◌>>=◌, pure, uuid4}
use financial_data.World.Run.{bind-err, bind-ok, raise_if-err}
use financial_data.UseCases.Tokens.{get_token_payload}
use financial_data.Api.Routes.Verdicts.{listed, verdict_of, payload_run, verdict_fails}
use financial_data.Api.Http.{Platform, Request, guard, guarded_actor}
use financial_data.Api.Users
use financial_data.Api.Roles
use financial_data.Api.Categories
use financial_data.Api.Records
use financial_data.Api.Dashboards
use financial_data.Api.Routes.{
  Route, run, permission_of, serve, dispatch, respond, request_id_of, with_request_id,
  unhandled_error_handler, HttpResponse, app_error_handler, register, login, refresh, logout,
  list_users, get_user, create_record, list_categories, get_category, list_roles, get_role,
  create_user, update_user, delete_user, change_status, assign_role, remove_role, list_records,
  get_record, update_record, delete_record, create_category, update_category, delete_category,
  create_role, update_role, delete_role, assign_permissions, remove_permissions, get_summary,
  get_category_totals, get_trends, get_recent,
}

pub some_inj : {a b : Text} → some a ≡ some b → a ≡ b
some_inj h = ap (λ (o : Option Text). elim o [ none ↦ [] | some t ↦ t ]) h

module _ (platform : Platform) (request : Request) where
  -- What the token of the request decodes to.
  abbrev pub decoded : World → Result Payload
  decoded w =
      (get_token_payload platform.tokens platform.ttl (platform.bearer request.authorization) w).0

  -- The request has a valid token with the permission.
  abbrev pub Admitted : Text → World → Type 0
  Admitted codename w =
      (payload : Payload) × (decoded w ≡ ok payload) × (text_in codename payload.permissions ≡ true)

  -- The two exceptions of the guards.
  abbrev pub IsRefusal : Error → Type 0
  IsRefusal e =
      ((m : Message) × (e ≡ authentication_error m)) ⊎ (e ≡ authorization_error permission_required)

  verdict_drawn :
      (raw : Option Text) (w : World) (u : ℕ → ℕ)
      → verdict_of platform.tokens platform.ttl raw (record w { uuids = u })
        ≡ verdict_of platform.tokens platform.ttl raw w
  verdict_drawn none w u = refl
  verdict_drawn (some raw) w u = refl

  -- Drawing identifiers does not matter to the token.
  pub decoded_drawn : (w : World) (u : ℕ → ℕ) → decoded (record w { uuids = u }) ≡ decoded w
  decoded_drawn w u =
      let raw = platform.bearer request.authorization in
      let run_of = λ (v : World).
        ap (λ (p : Result Payload × World). p.0) (payload_run platform.tokens platform.ttl raw v) in
      run_of (record w { uuids = u }) ∙ verdict_drawn raw w u ∙ sym (run_of w)

  -- A token that is refused is refused as unauthenticated.
  decoded_fails :
      (w : World) (e : Error) → decoded w ≡ err e → (m : Message) × (e ≡ authentication_error m)
  decoded_fails w e h = fails (platform.bearer request.authorization) w e (
      sym (
        ap (λ (p : Result Payload × World). p.0)
          (payload_run platform.tokens platform.ttl (platform.bearer request.authorization) w))
      ∙ h)
    where
      fails :
          (raw : Option Text) (w : World) (e : Error)
          → verdict_of platform.tokens platform.ttl raw w ≡ err e
          → (m : Message) × (e ≡ authentication_error m)
      fails none w e h = (bearer_required, cc)
      fails (some raw) w e h =
          verdict_fails platform.tokens platform.ttl (platform.tokens.decode w.now raw) (listed w) e
            h

  pub payload_step :
      (w : World)
      → get_token_payload platform.tokens platform.ttl (platform.bearer request.authorization) w
        ≡ (decoded w, w)
  payload_step w =
      let e = payload_run platform.tokens platform.ttl (platform.bearer request.authorization) w in
      e ∙ ap (λ (p : Result Payload × World). (p.0, w)) (sym e)

  guard_fails :
      (codename : Text) (w : World) (r : Result Payload)
      → decoded w ≡ r
      → ¬ Admitted codename w
      → (e : Error) × IsRefusal e × (guard platform request codename w ≡ (err e, w))
  unfolding guard
  guard_fails codename w (err e) h n = (
    e,
    inl (decoded_fails w e h),
    bind-err _ _ w (payload_step w ∙ ap (λ (r : Result Payload). (r, w)) h),
  )
  guard_fails codename w (ok payload) h n =
      elim (Bool-cases (text_in codename payload.permissions)) [
        | inl p ↦ absurd (n (payload, h, p))
        | inr p ↦ (
          authorization_error permission_required,
          inr refl,
          bind-ok _ _ w (payload_step w ∙ ap (λ (r : Result Payload). (r, w)) h)
              ∙ bind-err _ _ w (raise_if-err _ _ w (rw p refl)),
        )
      ]

  module _ (w : World) (e : Error) (codename : Text) where
    by_guard :
        {A : Type 0} (c : Text) (f : Payload → Action A)
        → some c ≡ some codename
        → guard platform request codename w ≡ (err e, w)
        → (guard platform request c >>= f) w ≡ (err e, w)
    by_guard c f h g = bind-err _ f w (rw (some_inj h) g)

    by_actor :
        {A : Type 0} (c : Text) (f : User → Action A)
        → some c ≡ some codename
        → guard platform request codename w ≡ (err e, w)
        → (guarded_actor platform request c >>= f) w ≡ (err e, w)
    unfolding guarded_actor
    by_actor c f h g = bind-err _ f w (bind-err _ _ w (rw (some_inj h) g))

    -- A guard that raises ends every endpoint that has it.
    run_refused :
        (route : Route)
        → permission_of route ≡ some codename
        → guard platform request codename w ≡ (err e, w)
        → run platform request route w ≡ (err e, w)
    unfolding run permission_of Users.list_users Users.get_user Records.create_record
        Categories.list_categories Categories.get_category Roles.list_roles Roles.get_role
        Users.create_user Users.update_user Users.delete_user Users.change_status Users.assign_role
        Users.remove_role Records.list_records Records.get_record Records.update_record
        Records.delete_record Categories.create_category Categories.update_category
        Categories.delete_category Roles.create_role Roles.update_role Roles.delete_role
        Roles.assign_permissions Roles.remove_permissions Dashboards.get_summary
        Dashboards.get_category_totals Dashboards.get_trends Dashboards.get_recent
    run_refused (register a) h g = cc
    run_refused (login a b) h g = cc
    run_refused (refresh a) h g = cc
    run_refused logout h g = cc
    run_refused (list_users a b c d) h g = by_guard _ _ h g
    run_refused (get_user a) h g = by_guard _ _ h g
    run_refused (create_record a) h g = by_guard _ _ h g
    run_refused (list_categories a b c d) h g = by_guard _ _ h g
    run_refused (get_category a) h g = by_guard _ _ h g
    run_refused (list_roles a b c) h g = by_guard _ _ h g
    run_refused (get_role a) h g = by_guard _ _ h g
    run_refused (create_user a) h g = by_actor _ _ h g
    run_refused (update_user a b) h g = by_actor _ _ h g
    run_refused (delete_user a) h g = by_actor _ _ h g
    run_refused (change_status a b) h g = by_actor _ _ h g
    run_refused (assign_role a b) h g = by_actor _ _ h g
    run_refused (remove_role a b) h g = by_actor _ _ h g
    run_refused (list_records a) h g = by_actor _ _ h g
    run_refused (get_record a) h g = by_actor _ _ h g
    run_refused (update_record a) h g = by_actor _ _ h g
    run_refused (delete_record a) h g = by_actor _ _ h g
    run_refused (create_category a b c) h g = by_actor _ _ h g
    run_refused (update_category a b c d) h g = by_actor _ _ h g
    run_refused (delete_category a) h g = by_actor _ _ h g
    run_refused (create_role a b c) h g = by_actor _ _ h g
    run_refused (update_role a b c d) h g = by_actor _ _ h g
    run_refused (delete_role a) h g = by_actor _ _ h g
    run_refused (assign_permissions a b) h g = by_actor _ _ h g
    run_refused (remove_permissions a b) h g = by_actor _ _ h g
    run_refused (get_summary a) h g = by_actor _ _ h g
    run_refused (get_category_totals a) h g = by_actor _ _ h g
    run_refused (get_trends a) h g = by_actor _ _ h g
    run_refused (get_recent a b) h g = by_actor _ _ h g

  request_id_run :
      (given : Option Text) (w : World)
      → (id : Text) × (u : ℕ → ℕ) × (request_id_of platform.str_uuid given w
          ≡ (ok id, record w { uuids = u }))
  unfolding request_id_of uuid4 pure ◌>>=◌
  request_id_run none w = (_, _, refl)
  request_id_run (some []) w = (_, _, refl)
  request_id_run (some (c ∷ s)) w = (c ∷ s, w.uuids, refl)

  -- A request is answered after at most one identifier is drawn.
  pub serve-run :
      (route : Route) (w : World)
      → (id : Text) × (u : ℕ → ℕ) × (serve platform request route w ≡ (
          let (r, w') = run platform request route (record w { uuids = u }) in
          (unhandled_error_handler (with_request_id id (respond route r)), w')))
  unfolding serve dispatch
  serve-run route w =
      let (id, u, e) = request_id_run request.x_request_id w in
      (
        id,
        u,
        ap (λ (p : Result HttpResponse × World). (unhandled_error_handler p.0, p.1))
            (bind-ok _ _ w e),
      )

  refusal_status :
      (e : Error) (route : Route) (id : Text)
      → IsRefusal e
      → let r = unhandled_error_handler (with_request_id id (respond route (err e))) in
        (r.status_code ≡ 401) ⊎ (r.status_code ≡ 403)
  unfolding respond app_error_handler
  refusal_status e route id (inl (m, h)) = inl (rw (h) refl)
  refusal_status e route id (inr h) = inr (rw (h) refl)

  -- A request to a route with a permission, whose token is missing, invalid, expired, revoked or
  -- without that permission, is answered by 401 or 403, and changes nothing but that an identifier may be drawn.
  pub unadmitted_refused :
      (route : Route) (codename : Text) (w : World)
      → permission_of route ≡ some codename
      → ¬ Admitted codename w
      → let (r, w') = serve platform request route w in
        ((r.status_code ≡ 401) ⊎ (r.status_code ≡ 403)) × (w' ≡ record w { uuids = w'.uuids })
  unadmitted_refused route codename w p n =
      let (id, u, s) = serve-run route w in
      let w₁ : World = record w { uuids = u } in
      let (e, is_refusal, g) =
        guard_fails codename w₁ (decoded w₁) refl (λ ((payload, d, t) : Admitted codename w₁).
          n (payload, sym (decoded_drawn w u) ∙ d, t)) in
      rw (s, run_refused w₁ e codename route p g) (refusal_status e route id is_refusal, refl)
