-- ===== src/Tests/Answers.antt =====
-- Requests and answers of the API.
use financial_data.Prelude.{
  ◌≡◌, ◌≢◌, ◌⊎◌, ◌∙◌, ◌*◌, ◌-◌, ◌<◌, ℕ, refl, sym, ap, subst, List, ◌++◌, length, true, false, none,
  some, [], ◌∷◌, inl, inr, arith,
}
use financial_data.Text.{Text, lit}
use financial_data.Result.{Result, ok, err, database_error}
use financial_data.CacheKeys.{blacklist}
use financial_data.Crypto.{Payload}
use financial_data.World.{World}
use financial_data.Repositories.Paging.Laws.{pages}
use financial_data.UseCases.AuditTrail.{Extends, Carry}
use financial_data.Entities.Audit.{AuditLog}
use financial_data.Api.Http.{Platform, Request, malformed}
use financial_data.Api.Responses.{PaginatedResponse, build}
use financial_data.Api.Responses.Laws.{build_lem}
use financial_data.Api.Health.{readiness, readiness_ignores_cache, unavailable}
use financial_data.Api.Routes.{
  Route, HttpResponse, serve, register, delete_user, get_summary, answer, unexpected,
}
use financial_data.Api.Routes.Guards.{Admitted, decoded, unadmitted_refused}
use financial_data.Api.Routes.Tokens.{stores_tokens}
use financial_data.Api.Routes.Failures.{failed_request_uncommitted}
use financial_data.Api.Routes.Audited.{audit_log_grows}
use financial_data.Api.Routes.Actors.{gone_actor_unexpected}
use financial_data.Api.Routes.RequestIds.{Carries, drawn_id_unaudited}
use financial_data.Tests.Codec.{tokens}
use financial_data.Tests.Sample.{passwords, ttl, world}

abbrev platform : Platform
platform = record {
  passwords = passwords;
  tokens = tokens;
  ttl = ttl;
  bearer = λ header. header;
  str_uuid = λ n. n ∷ [];
  ilike = λ s pattern. true;
  matches = λ s m. true;
  by_date = λ rows. rows;
  by_name = λ categories. categories;
  dialect = record {
    trunc = λ period day. day;
    label = λ period day. [];
    by_total = λ l. l;
    by_period = λ l. l;
  };
}

abbrev anonymous : Request
anonymous = record {
  x_request_id = none;
  user_agent = none;
  authorization = none;
  content_type = none;
  client_host = none;
  body = malformed;
}

abbrev IsErr : Result Payload → Type 0
IsErr (ok p) = ⊥
IsErr (err e) = Unit

not_ok : (r : Result Payload) (p : Payload) → IsErr r → r ≡ ok p → ⊥
not_ok r p e h = subst IsErr h e

unauthorized : ¬ Admitted platform anonymous (lit "users:delete") world
unfolding financial_data.UseCases.Tokens.get_token_payload financial_data.World.raise
unauthorized (p, d, t) = not_ok (decoded platform anonymous world) p tt d

unadmitted_refused_example :
    let (r, w') = serve platform anonymous (delete_user 1) world in
    ((r.status_code ≡ 401) ⊎ (r.status_code ≡ 403)) × (w' ≡ record world { uuids = w'.uuids })
unfolding financial_data.Api.Routes.permission_of
unadmitted_refused_example =
    unadmitted_refused platform anonymous (delete_user 1) (lit "users:delete") world refl
      unauthorized

-- The claims of a user that is in no table.
abbrev ghost : Payload
ghost = record {
  sub = some 55;
  roles = [];
  permissions = lit "users:delete" ∷ [];
  jti = some 3;
  iat = 900;
  exp = some 1900;
}

abbrev haunted : Request
haunted = record anonymous { authorization = some (tokens.encode ghost) }

gone_actor_unexpected_example :
    let (r, w') = serve platform haunted (delete_user 1) world in
    (r ≡ answer 500 unexpected) × (w'.committed ≡ world.committed)
unfolding financial_data.Api.Routes.permission_of financial_data.UseCases.Tokens.get_token_payload
    financial_data.TokenService.decode_access_token financial_data.World.◌>>=◌
    financial_data.World.utcnow financial_data.World.or_raise financial_data.Cache.get
    financial_data.Text.text_in financial_data.Prelude.find?
gone_actor_unexpected_example =
    gone_actor_unexpected platform haunted (delete_user 1) (lit "users:delete") world ghost 55 refl
      tt refl refl refl refl refl

not_deleted : ◌≢◌ {A = ℕ} 500 200
not_deleted h = absurd (omega arith)

haunted_status : (serve platform haunted (delete_user 1) world).0.status_code ≡ 500
unfolding financial_data.Api.Routes.permission_of financial_data.UseCases.Tokens.get_token_payload
    financial_data.TokenService.decode_access_token financial_data.World.◌>>=◌
    financial_data.World.utcnow financial_data.World.or_raise financial_data.Cache.get
    financial_data.Text.text_in financial_data.Prelude.find?
haunted_status =
    ap (λ (r : HttpResponse). r.status_code)
      (gone_actor_unexpected platform haunted (delete_user 1) (lit "users:delete") world ghost 55
        refl tt refl refl refl refl refl).0

failed_request_uncommitted_example :
    ((serve platform haunted (delete_user 1) world).1.committed ≡ world.committed)
    × ((stores_tokens (delete_user 1) ≡ true)
        ⊎ ((serve platform haunted (delete_user 1) world).1.tokens ≡ world.tokens))
unfolding financial_data.Api.Routes.success_status
failed_request_uncommitted_example =
    failed_request_uncommitted platform haunted (delete_user 1) world
      (λ h. not_deleted (sym haunted_status ∙ h))

drawn_id_unaudited_example :
    Carries (100 ∷ []) (serve platform haunted (delete_user 1) world).0
    × ((new : List AuditLog) × ((serve platform haunted (delete_user 1) world).1.committed.audit
          ≡ world.committed.audit ++ new)
        × Carry [] new)
drawn_id_unaudited_example = drawn_id_unaudited platform haunted (delete_user 1) world refl

abbrev rows : List ℕ
rows = 1 ∷ 2 ∷ 3 ∷ []

build_example :
    (a : PaginatedResponse ℕ) × (build (7 ∷ 8 ∷ []) (length rows) 1 2 ≡ ok a)
    × (pages a.pages 2 rows ≡ rows)
    × ((a.pages ≡ 1) ⊎ ((a.pages - 1) * 2 < length rows))
build_example = build_lem rows (7 ∷ 8 ∷ []) 1 2 (omega arith)

abbrev refused_query : Result ℕ
refused_query = err database_error

readiness_ignores_cache_example :
    readiness (blacklist 0) refused_query (record world { cache_up = false })
    ≡ (unavailable (lit "error") (lit "ok"), record world { cache_up = false })
readiness_ignores_cache_example =
    readiness_ignores_cache (blacklist 0) refused_query (record world { cache_up = false })

abbrev newcomer : Route
newcomer = register (record {
  email = lit "new@example.org";
  password = lit "Str0ng!pass";
  full_name = lit "New One";
})

audit_log_grows_example :
    Extends world.committed.audit (serve platform anonymous newcomer world).1.committed.audit
audit_log_grows_example = audit_log_grows platform anonymous newcomer world
