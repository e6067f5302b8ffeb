-- ===== src/Tests/Sessions.antt =====
-- Tokens and logins.
use mathlib.Core.List.{append-nil}
use financial_data.Prelude.{
  sym, ℕ, ◌≡◌, ◌+◌, true, false, none, some, inl, inr, [], ◌∷◌, refl, arith,
}
use financial_data.Text.{Text, text_eq, lit}
use financial_data.Result.{
  ok, err, value_error, permission_error, token_revoked, locked_out, invalid_credentials,
}
use financial_data.CacheKeys.{number, login_attempts, key_eq}
use financial_data.Cache
use financial_data.Crypto.{Payload}
use financial_data.Email
use financial_data.Database.{map_user}
use financial_data.TokenService.{
  refresh_payload, token_row, create_access_token, decode_access_token, blacklist_access_token,
  create_and_store_refresh_token, rotate_refresh_token, revoke_refresh_token,
}
use financial_data.TokenService.Access.{
  issued, access_token_accepted, blacklist_access_token_lem, refresh_token_accepted,
  issued-IsUsable,
}
use financial_data.TokenService.Rotation.{
  IsUsable, new_access, new_refresh, rotated, rotate_refresh_token_lem, rotate_once,
  revoke_refresh_token_lem,
}
use financial_data.UseCases.Login.{LoginDto, login}
use financial_data.UseCases.Login.Counter.{Counted, wrong_entry, failed_login-Counted}
use financial_data.UseCases.Login.Success.{tokens_of, entry_of, login_succeeds, lockout_threshold}
use financial_data.Repositories.Audit.Laws.{IsLoggable}
use financial_data.World.{World, close_session}
use financial_data.Tests.Codec.{tokens}
use financial_data.Tests.Sample.{strong, passwords, ttl, meta, address, email, ann, ann_row, world}

access_token_accepted_example :
    ((create_access_token tokens ttl ann world).0
      ≡ ok (tokens.encode (issued tokens ttl world ann)))
    × (decode_access_token tokens ttl
          (tokens.encode (issued tokens ttl world ann))
          (record world { now = 1500 })
        ≡ (ok (issued tokens ttl world ann), record world { now = 1500 }))
unfolding Cache.live
access_token_accepted_example =
    access_token_accepted tokens ttl world (record world { now = 1500 }) ann (omega arith) refl

abbrev claims : Payload
claims = issued tokens ttl world ann

blacklist_access_token_example :
    (w' : World) × (blacklist_access_token tokens ttl (tokens.encode claims) world ≡ (ok tt, w'))
    × (decode_access_token tokens ttl (tokens.encode claims) (record w' { now = 1500 })
        ≡ (err (permission_error token_revoked), record w' { now = 1500 }))
    × (decode_access_token tokens ttl (tokens.encode claims) (record w' { now = 1900 })
        ≡ (ok claims, record w' { now = 1900 }))
unfolding financial_data.Entities.User.get_role_names
    financial_data.Entities.User.get_all_permissions financial_data.Entities.User.collect
    financial_data.Text.Sets.union financial_data.Entities.Role.get_permission_strings
blacklist_access_token_example =
    blacklist_access_token_lem tokens ttl world (tokens.encode claims) claims 100 1900 1500 refl
      refl refl refl (omega arith) (omega arith) refl refl

refresh_token_accepted_example :
    (raw : Text) × ((create_and_store_refresh_token tokens ttl 1 world).0 ≡ ok raw)
    × ((decode_access_token tokens ttl raw world).0 ≡ ok (refresh_payload tokens ttl 100 1000 1))
unfolding Cache.live
refresh_token_accepted_example = refresh_token_accepted tokens ttl world world 1 (omega arith) refl

abbrev stored : Payload
stored = refresh_payload tokens ttl 100 1000 1

abbrev raw : Text
raw = tokens.encode stored

issued-IsUsable_example :
    (w' : World) × (create_and_store_refresh_token tokens ttl 1 world ≡ (ok raw, w'))
    × IsUsable tokens ttl raw w' 1 (token_row tokens ttl 101 1000 1 raw)
unfolding financial_data.Prelude.select
issued-IsUsable_example = issued-IsUsable tokens ttl world 1 refl

-- A later state in which the token is stored.
abbrev later : World
later = record world {
  tokens = token_row tokens ttl 101 1000 1 raw ∷ [];
  now = 2000;
  uuids = λ n. n + 200;
}

later_usable : IsUsable tokens ttl raw later 1 (token_row tokens ttl 101 1000 1 raw)
unfolding financial_data.Prelude.select text_eq
later_usable = record {
  payload = stored;
  decodes = refl;
  subject = refl;
  stored = refl;
  unrevoked = refl;
  unexpired = omega arith;
}

rotate_refresh_token_example : rotate_refresh_token tokens ttl raw later ≡ (
  ok (new_access tokens ttl raw later ann, new_refresh tokens ttl raw later 1),
  rotated tokens ttl raw later 1 (token_row tokens ttl 101 1000 1 raw),
)
unfolding financial_data.Prelude.find? map_user Email.new financial_data.Text.lower
    financial_data.Text.strip Email.matches Email.match_local Email.is_local Email.match_domain
    Email.is_tld financial_data.Password.from_hash financial_data.Database.roles_of
    financial_data.Prelude.select financial_data.Database.map_role
    financial_data.Database.permissions_of
rotate_refresh_token_example =
    rotate_refresh_token_lem tokens ttl raw later 1 (token_row tokens ttl 101 1000 1 raw) ann_row
      ann later_usable refl refl

-- An hour after the rotation, with nothing else done.
abbrev hour_after : World
hour_after = record (rotate_refresh_token tokens ttl raw later).1 { now = 5600 }

rotate_once_example :
    rotate_refresh_token tokens ttl raw hour_after ≡ (err (value_error token_revoked), hour_after)
unfolding text_eq later_usable financial_data.Prelude.find? map_user Email.new
    financial_data.Text.lower financial_data.Text.strip Email.matches Email.match_local
    Email.is_local Email.match_domain Email.is_tld financial_data.Password.from_hash
    financial_data.Database.roles_of financial_data.Prelude.select financial_data.Database.map_role
    financial_data.Database.permissions_of
rotate_once_example =
    rotate_once tokens ttl raw later hour_after 1 (token_row tokens ttl 101 1000 1 raw) ann_row ann
      [] later_usable refl refl refl refl (sym (append-nil hour_after.tokens)) refl

abbrev after_logout : World
after_logout = record (revoke_refresh_token tokens ttl 1 raw later).1 { now = 5600 }

revoke_refresh_token_example :
    ((revoke_refresh_token tokens ttl 1 raw later).0 ≡ ok tt)
    × (rotate_refresh_token tokens ttl raw after_logout
        ≡ (err (value_error token_revoked), after_logout))
unfolding later_usable financial_data.Prelude.select
revoke_refresh_token_example =
    revoke_refresh_token_lem tokens ttl raw later after_logout 1
      (token_row tokens ttl 101 1000 1 raw) [] later_usable refl
      (sym (append-nil after_logout.tokens)) refl

abbrev wrong : LoginDto
wrong = record { email = address; password = lit "guess"; meta = meta }

abbrev right : LoginDto
right = record wrong { password = strong }

-- Five failures have been counted.
abbrev locked : World
locked = record world {
  cache =
      Cache.put (login_attempts address)
        (some (record { value = number 5; expires_at = some 1900 })) world.cache;
}

wrong-IsLoggable : IsLoggable (wrong_entry wrong world ann) world.committed
unfolding financial_data.Repositories.Audit.too_long financial_data.Repositories.Audit.violates
    financial_data.Entities.Audit.create_success financial_data.Entities.Audit.create_failure
    financial_data.Prelude.any
wrong-IsLoggable = record { fitting = refl; allowed = refl }

right-IsLoggable : IsLoggable (entry_of passwords tokens ttl right world ann) world.committed
unfolding financial_data.Repositories.Audit.too_long financial_data.Repositories.Audit.violates
    financial_data.Entities.Audit.create_success financial_data.Entities.Audit.create_failure
    financial_data.Prelude.any
right-IsLoggable = record { fitting = refl; allowed = refl }

lockout_threshold_example :
    (login passwords tokens ttl right locked).0 ≡ err (permission_error locked_out)
unfolding Cache.live Cache.put key_eq Email.new financial_data.Text.lower financial_data.Text.strip
    Email.matches Email.match_local Email.is_local Email.match_domain Email.is_tld
    financial_data.Repositories.Users.get_by_email financial_data.Repositories.Users.get_by_id
    financial_data.World.query financial_data.Repositories.Paging.map_found
    financial_data.Prelude.find? text_eq map_user financial_data.Password.from_hash
    financial_data.Database.roles_of financial_data.Prelude.select financial_data.Database.map_role
    financial_data.Database.permissions_of financial_data.Entities.User.is_active
    financial_data.Password.verify
lockout_threshold_example =
    lockout_threshold passwords tokens ttl right locked 5 email ann ann refl refl refl refl refl
      refl right-IsLoggable

failed_login-Counted_example :
    Counted passwords tokens ttl wrong (value_error invalid_credentials) world
unfolding Cache.live Email.new financial_data.Text.lower financial_data.Text.strip Email.matches
    Email.match_local Email.is_local Email.match_domain Email.is_tld
    financial_data.Repositories.Users.get_by_email financial_data.Repositories.Users.get_by_id
    financial_data.World.query financial_data.Repositories.Paging.map_found
    financial_data.Prelude.find? text_eq map_user financial_data.Password.from_hash
    financial_data.Database.roles_of financial_data.Prelude.select financial_data.Database.map_role
    financial_data.Database.permissions_of financial_data.Entities.User.is_active
    financial_data.Password.verify
failed_login-Counted_example =
    failed_login-Counted passwords tokens ttl wrong world email (some ann) refl tt refl refl
      (inr (ann, ann, refl, refl, refl, refl, wrong-IsLoggable))

login_succeeds_example :
    let (r, w') = login passwords tokens ttl right world in
    (r ≡ ok (tokens_of passwords tokens ttl right world ann))
    × (w'.cache (login_attempts address) ≡ none)
    × (w'.tokens
        ≡ token_row tokens ttl 102 1000 1
            (tokens_of passwords tokens ttl right world ann).refresh_token
          ∷ [])
    × (w'.committed
        ≡ record world.committed { audit = entry_of passwords tokens ttl right world ann ∷ [] })
unfolding Cache.live Email.new financial_data.Text.lower financial_data.Text.strip Email.matches
    Email.match_local Email.is_local Email.match_domain Email.is_tld
    financial_data.Repositories.Users.get_by_email financial_data.Repositories.Users.get_by_id
    financial_data.World.query financial_data.Repositories.Paging.map_found
    financial_data.Prelude.find? text_eq map_user financial_data.Password.from_hash
    financial_data.Database.roles_of financial_data.Prelude.select financial_data.Database.map_role
    financial_data.Database.permissions_of financial_data.Entities.User.is_active
    financial_data.Password.verify
login_succeeds_example =
    login_succeeds passwords tokens ttl right world email ann ann refl refl refl refl refl refl
      right-IsLoggable
