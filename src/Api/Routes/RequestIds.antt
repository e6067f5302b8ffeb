-- ===== src/Api/Routes/RequestIds.antt =====
-- The identifier of a request, in the response and in the audit entries.
use financial_data.Prelude.{
  suc, ◌≡◌, ◌⊎◌, inl, inr, refl, ap, sym, subst, Option, none, some, List, [], ◌++◌,
}
use financial_data.Text.{Text}
use financial_data.Result.{Result, ok, err}
use financial_data.World.{World, pure, uuid4, ◌>>=◌}
use financial_data.World.Run.{bind-ok}
use financial_data.Api.Http.{Platform, Request, get_or, request_meta}
use financial_data.Entities.Audit.{AuditLog}
use financial_data.UseCases.AuditTrail.{Carry}
use financial_data.Api.Routes.Audited.{serve-ExtendsFor}
use financial_data.Api.Routes.{
  Route, HttpResponse, run, serve, dispatch, respond, request_id_of, with_request_id,
  unhandled_error_handler, unexpected, answer,
}

-- The response carries the identifier, or it is the catch-all's, which carries none.
abbrev pub Carries : Text → HttpResponse → Type 0
Carries id r = (r.x_request_id ≡ some id) ⊎ (r ≡ answer 500 unexpected)

carried :
    (r : Result HttpResponse) (id : Text)
    → Carries id (unhandled_error_handler (with_request_id id r))
carried (ok r) id = inl refl
carried (err e) id = inr refl

module _ (platform : Platform) (request : Request) where
  -- For a request without X-Request-ID, the identifier that is drawn for it is in the response, unless
  -- that is the catch-all's; but every audit entry that the request commits has the empty text in its place.
  pub drawn_id_unaudited :
      (route : Route) (w : World)
      → request.x_request_id ≡ none
      → Carries (platform.str_uuid (w.uuids 0)) (serve platform request route w).0
        × ((new : List AuditLog) × ((serve platform request route w).1.committed.audit
              ≡ w.committed.audit ++ new)
            × Carry [] new)
  unfolding serve dispatch request_id_of request_meta uuid4 pure ◌>>=◌
  drawn_id_unaudited route w none_sent =
      let w₁ : World = record w { uuids = λ n. w.uuids (suc n) } in
      let drawn : request_id_of platform.str_uuid request.x_request_id w
          ≡ (ok (platform.str_uuid (w.uuids 0)), w₁) =
        ap (λ (o : Option Text). request_id_of platform.str_uuid o w) none_sent in
      let (new, grown, c) = serve-ExtendsFor platform request route w in
      let served =
        ap (λ (p : Result HttpResponse × World). unhandled_error_handler p.0)
          (bind-ok (request_id_of platform.str_uuid request.x_request_id) _ w drawn) in
      (
        subst (Carries (platform.str_uuid (w.uuids 0))) (sym served) (
            carried (respond route (run platform request route w₁).0)
              (platform.str_uuid (w.uuids 0))),
        (new, grown, subst (λ (o : Option Text). Carry (get_or o []) new) none_sent c),
      )
