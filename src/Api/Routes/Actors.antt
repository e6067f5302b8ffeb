-- ===== src/Api/Routes/Actors.antt =====
-- The routes that load the user of the token as the actor, and what they do when that user is gone.
use financial_data.Prelude.{ℕ, ◌≡◌, refl, ap, ◌∙◌, Bool, true, false, not, none, some, find?}
use financial_data.Text.{Text, lit, text_in}
use financial_data.Result.{Result, ok, err, Error, value_error, not_found}
use financial_data.Crypto.{Payload}
use financial_data.Entities.User.{User}
use financial_data.World.{
  World, Action, ◌>>=◌, continue, pure, lift, raise, or_raise, raise_if, query, with_uow,
  close_session,
}
use financial_data.World.Run.{bind-ok, bind-err, or_raise-ok}
use financial_data.Repositories.Paging.{map_found}
use financial_data.Repositories.Users.{live_id}
use financial_data.UseCases.Users.{get_user}
use financial_data.UseCases.Records.{CreateRecordDto}
use financial_data.Api.Http.{Platform, Request, guard, guarded_actor, subject}
use financial_data.Api.Users
use financial_data.Api.Roles
use financial_data.Api.Categories
use financial_data.Api.Records
use financial_data.Api.Dashboards
use financial_data.Api.Routes
use financial_data.Api.Routes.{
  Route, HttpResponse, run, permission_of, serve, respond, app_error_handler, with_request_id,
  unhandled_error_handler, answer, unexpected,
}
use financial_data.Api.Routes.Guards.{decoded, decoded_drawn, payload_step, some_inj, serve-run}

-- The routes with `actor = await actor_uc.execute(…)`.
abbrev pub loads_actor : Route → Bool
loads_actor (Routes.register a) = false
loads_actor (Routes.login a b) = false
loads_actor (Routes.refresh a) = false
loads_actor Routes.logout = false
loads_actor (Routes.list_users a b c d) = false
loads_actor (Routes.get_user a) = false
loads_actor (Routes.create_record a) = true
loads_actor (Routes.list_categories a b c d) = false
loads_actor (Routes.get_category a) = false
loads_actor (Routes.list_roles a b c) = false
loads_actor (Routes.get_role a) = false
loads_actor (Routes.create_user a) = true
loads_actor (Routes.update_user a b) = true
loads_actor (Routes.delete_user a) = true
loads_actor (Routes.change_status a b) = true
loads_actor (Routes.assign_role a b) = true
loads_actor (Routes.remove_role a b) = true
loads_actor (Routes.list_records a) = true
loads_actor (Routes.get_record a) = true
loads_actor (Routes.update_record a) = true
loads_actor (Routes.delete_record a) = true
loads_actor (Routes.create_category a b c) = true
loads_actor (Routes.update_category a b c d) = true
loads_actor (Routes.delete_category a) = true
loads_actor (Routes.create_role a b c) = true
loads_actor (Routes.update_role a b c d) = true
loads_actor (Routes.delete_role a) = true
loads_actor (Routes.assign_permissions a b) = true
loads_actor (Routes.remove_permissions a b) = true
loads_actor (Routes.get_summary a) = true
loads_actor (Routes.get_category_totals a) = true
loads_actor (Routes.get_trends a) = true
loads_actor (Routes.get_recent a b) = true

-- The body of create_record is validated before the actor is loaded.
abbrev pub HasValidBody : Route → Type 0
HasValidBody (Routes.create_record body) = Records.amount_positive body.amount ≡ ok tt
HasValidBody route = Unit

-- Where what follows an action fails, so does what follows it as well in a longer one.
module _ {P A B : Type 0} (k : P → Action A) (k' : P → Action B) (e : Error) (w' : World)
    (longer : (p : P) (w : World) → k p w ≡ (err e, w') → k' p w ≡ (err e, w')) where
  abbrev relabel : Result A → Result B
  relabel (ok a) = err e
  relabel (err y) = err y

  longer_continue :
      (r : Result P) (w : World) → continue r k w ≡ (err e, w') → continue r k' w ≡ (err e, w')
  longer_continue (ok p) w h = longer p w h
  longer_continue (err x) w h = ap (λ (q : Result A × World). (relabel q.0, q.1)) h

  longer_bind : (m : Action P) (w : World) → (m >>= k) w ≡ (err e, w') → (m >>= k') w ≡ (err e, w')
  unfolding ◌>>=◌
  longer_bind m w h = longer_continue (m w).0 (m w).1 h

permits :
    (b : Bool) (e : Error) (payload : Payload) (w : World)
    → b ≡ true
    → (raise_if (not b) e >>= λ (u : Unit {0}). pure payload) w ≡ (ok payload, w)
unfolding raise_if pure raise ◌>>=◌
permits b e payload w t = rw t refl

module _ (platform : Platform) (request : Request) where
  module _ (w : World) (e : Error) (w' : World) (codename : Text) where
    ends :
        {A : Type 0} (c : Text) (f : User → Action A)
        → some c ≡ some codename
        → guarded_actor platform request codename w ≡ (err e, w')
        → (guarded_actor platform request c >>= f) w ≡ (err e, w')
    ends c f h g = bind-err _ f w (rw (some_inj h) g)

    -- A guard that does not find the actor ends every endpoint that has it.
    create_ends :
        (body : CreateRecordDto)
        → some (lit "records:create") ≡ some codename
        → Records.amount_positive body.amount ≡ ok tt
        → guarded_actor platform request codename w ≡ (err e, w')
        → Records.create_record platform request body w ≡ (err e, w')
    unfolding Records.create_record guarded_actor lift
    create_ends body h valid g =
        longer_bind _ _ e w'
          (λ payload v failed.
            bind-ok (lift (Records.amount_positive body.amount)) _ v
              (ap (λ (r : Result (Unit {0})). (r, v)) valid)
            ∙ longer_bind _ _ e w' (λ id u gone. bind-err (get_user id) _ u gone) (subject payload)
                v failed)
          (guard platform request (lit "records:create")) w (rw (some_inj h) g)

    run_ends :
        (route : Route)
        → loads_actor route ≡ true
        → HasValidBody route
        → permission_of route ≡ some codename
        → guarded_actor platform request codename w ≡ (err e, w')
        → run platform request route w ≡ (err e, w')
    unfolding run permission_of Users.create_user Users.update_user Users.delete_user
        Users.change_status Users.assign_role Users.remove_role Records.list_records
        Records.get_record Records.update_record Records.delete_record Categories.create_category
        Categories.update_category Categories.delete_category Roles.create_role Roles.update_role
        Roles.delete_role Roles.assign_permissions Roles.remove_permissions Dashboards.get_summary
        Dashboards.get_category_totals Dashboards.get_trends Dashboards.get_recent
    run_ends (Routes.register a) l v h g = cc
    run_ends (Routes.login a b) l v h g = cc
    run_ends (Routes.refresh a) l v h g = cc
    run_ends (Routes.list_users a b c d) l v h g = cc
    run_ends (Routes.get_user a) l v h g = cc
    run_ends (Routes.create_record a) l v h g = create_ends a h v g
    run_ends (Routes.list_categories a b c d) l v h g = cc
    run_ends (Routes.get_category a) l v h g = cc
    run_ends (Routes.list_roles a b c) l v h g = cc
    run_ends (Routes.get_role a) l v h g = cc
    run_ends Routes.logout l v h g = cc
    run_ends (Routes.create_user a) l v h g = ends _ _ h g
    run_ends (Routes.update_user a b) l v h g = ends _ _ h g
    run_ends (Routes.delete_user a) l v h g = ends _ _ h g
    run_ends (Routes.change_status a b) l v h g = ends _ _ h g
    run_ends (Routes.assign_role a b) l v h g = ends _ _ h g
    run_ends (Routes.remove_role a b) l v h g = ends _ _ h g
    run_ends (Routes.list_records a) l v h g = ends _ _ h g
    run_ends (Routes.get_record a) l v h g = ends _ _ h g
    run_ends (Routes.update_record a) l v h g = ends _ _ h g
    run_ends (Routes.delete_record a) l v h g = ends _ _ h g
    run_ends (Routes.create_category a b c) l v h g = ends _ _ h g
    run_ends (Routes.update_category a b c d) l v h g = ends _ _ h g
    run_ends (Routes.delete_category a) l v h g = ends _ _ h g
    run_ends (Routes.create_role a b c) l v h g = ends _ _ h g
    run_ends (Routes.update_role a b c d) l v h g = ends _ _ h g
    run_ends (Routes.delete_role a) l v h g = ends _ _ h g
    run_ends (Routes.assign_permissions a b) l v h g = ends _ _ h g
    run_ends (Routes.remove_permissions a b) l v h g = ends _ _ h g
    run_ends (Routes.get_summary a) l v h g = ends _ _ h g
    run_ends (Routes.get_category_totals a) l v h g = ends _ _ h g
    run_ends (Routes.get_trends a) l v h g = ends _ _ h g
    run_ends (Routes.get_recent a b) l v h g = ends _ _ h g

  user_gone :
      (id : ℕ) (w : World)
      → find? (live_id id) w.committed.users ≡ none
      → get_user id w ≡ (err (value_error not_found), record w { session = w.committed })
  unfolding get_user financial_data.Repositories.Users.get_by_id query with_uow close_session ◌>>=◌
      or_raise raise map_found
  user_gone id w n = rw n refl

  module _ (w : World) (codename : Text) (payload : Payload) (id : ℕ) where
    actor_gone :
        decoded platform request w ≡ ok payload
        → text_in codename payload.permissions ≡ true
        → payload.sub ≡ some id
        → find? (live_id id) w.committed.users ≡ none
        → guarded_actor platform request codename w
          ≡ (err (value_error not_found), record w { session = w.committed })
    unfolding guarded_actor guard
    actor_gone d t s n =
        bind-ok _ _ w (
          bind-ok _ _ w (payload_step platform request w ∙ ap (λ (r : Result Payload). (r, w)) d)
          ∙ permits (text_in codename payload.permissions) _ payload w t)
        ∙ bind-ok _ _ w (or_raise-ok payload.sub _ w s)
        ∙ user_gone id w n

  -- A token that is valid and has the permission of the route, but whose user is deleted or gone, is
  -- answered by the catch-all's 500 on every route that loads the actor, that of create_record with a
  -- positive amount, and nothing is committed.
  pub gone_actor_unexpected :
      (route : Route) (codename : Text) (w : World) (payload : Payload) (id : ℕ)
      → loads_actor route ≡ true
      → HasValidBody route
      → permission_of route ≡ some codename
      → decoded platform request w ≡ ok payload
      → text_in codename payload.permissions ≡ true
      → payload.sub ≡ some id
      → find? (live_id id) w.committed.users ≡ none
      → let (r, w') = serve platform request route w in
        (r ≡ answer 500 unexpected) × (w'.committed ≡ w.committed)
  unfolding respond app_error_handler
  gone_actor_unexpected route codename w payload id l v p d t s n =
      let (drawn, u, e) = serve-run platform request route w in
      let w₁ : World = record w { uuids = u } in
      let g = actor_gone w₁ codename payload id (decoded_drawn platform request w u ∙ d) t s n in
      rw (e, run_ends w₁ _ _ codename route l v p g) (refl, refl)
