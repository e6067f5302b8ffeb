-- ===== src/UseCases/Login/Success.antt =====
-- A login with the right password: the tokens, the counter and the audit entry.
use financial_data.Prelude.{
  ℕ, leb, Bool-cases, inl, inr, ◌≡◌, refl, Bool, if◌then◌else◌, true, false, none, some, [], ◌∷◌,
  ◌++◌,
}
use financial_data.Text.{lit}
use financial_data.Text.Laws.{text_eq_refl}
use financial_data.Json
use financial_data.Result.{ok, err, permission_error, locked_out}
use financial_data.CacheKeys.{CacheKey, number, login_attempts, key_eq}
use financial_data.Cache
use financial_data.Cache.{CacheStore}
use financial_data.Crypto.{PasswordContext, TokenContext}
use financial_data.Email
use financial_data.Email.{Email}
use financial_data.Password
use financial_data.Entities.Enums.{ActionType}
use financial_data.Entities.User
use financial_data.Entities.User.{User, get_role_names}
use financial_data.Entities.Audit.{AuditLog, create_success}
use financial_data.TokenService.{
  Ttl, access_payload, refresh_payload, token_row, create_access_token,
  create_and_store_refresh_token,
}
use financial_data.World
use financial_data.World.{
  World, pure, raise, lift, write, raise_if, or_raise, uuid4, utcnow, modify, query, commit,
  with_uow, close_session,
}
use financial_data.Repositories.Users
use financial_data.Repositories.Audit
use financial_data.Repositories.Audit.Laws.{IsLoggable}
use financial_data.UseCases.Auditing.{log_success, one_entry}
use financial_data.UseCases.Login.{
  LoginDto, TokenDto, is_locked, check_brute_force, verify_and_issue, issue, authenticate, login,
}
use financial_data.UseCases.Login.Counter.{counter, locked_login}

deleted_at :
    (k : CacheKey) (c : CacheStore) (up : Bool)
    → key_eq k k ≡ true
    → (if up then Cache.put k none c else c) k ≡ (if up then none else c k)
unfolding Cache.put
deleted_at k c true e = rw e refl
deleted_at k c false e = refl

module _ (passwords : PasswordContext) (context : TokenContext) (ttl : Ttl) (dto : LoginDto) where
  open context use {encode}

  -- The tokens that a login in `w` hands out.
  abbrev pub tokens_of : World → User → TokenDto
  tokens_of w user = record {
    access_token = encode (access_payload context ttl (w.uuids 0) w.now user);
    refresh_token = encode (refresh_payload context ttl (w.uuids 1) w.now user.id);
  }

  -- Its audit entry.
  abbrev pub entry_of : World → User → AuditLog
  entry_of w user =
      create_success (w.uuids 3) w.now user.id user.email.value (get_role_names user)
        ActionType.auth_login (lit "auth") dto.meta none none
        (one_entry (lit "status") (Json.text (lit "success"))) none

  -- A login that is not locked out, with the email and the password of an active user, and with an
  -- audit entry that the database takes, returns an access token and a refresh token; where the cache answers it clears the counter; the refresh
  -- token is stored, and the audit entry is committed, and it is all that is.
  pub login_succeeds :
      (w : World) (email : Email) (user loaded : User)
      → is_locked (counter (login_attempts dto.email) w) ≡ false
      → Email.new dto.email ≡ ok email
      → Users.get_by_email email (record w { session = w.committed })
        ≡ (ok (some user), record w { session = w.committed })
      → User.is_active user ≡ true
      → Users.get_by_id user.id (record w { session = w.committed })
        ≡ (ok (some loaded), record w { session = w.committed })
      → Password.verify passwords loaded.password dto.password ≡ ok true
      → IsLoggable (entry_of w loaded) w.committed
      → let (r, w') = login passwords context ttl dto w in
        (r ≡ ok (tokens_of w loaded))
        × (w'.cache (login_attempts dto.email)
            ≡ (if w.cache_up then none else w.cache (login_attempts dto.email)))
        × (w'.tokens
            ≡ w.tokens
              ++ token_row context ttl
                  (w.uuids 2)
                  w.now
                  loaded.id
                  (tokens_of w loaded).refresh_token
                ∷ [])
        × (w'.committed
            ≡ record w.committed { audit = w.committed.audit ++ entry_of w loaded ∷ [] })
  unfolding login check_brute_force authenticate verify_and_issue issue with_uow close_session
      World.◌>>=◌ raise_if raise pure lift or_raise uuid4 utcnow modify commit write Cache.get
      Cache.delete create_access_token create_and_store_refresh_token log_success Audit.log
      Audit.violates query key_eq
  login_succeeds w email user loaded open_ e f a g v l =
      rw (open_, e, f, a, g, v, l.fitting, l.allowed)
        (
          refl,
          deleted_at (login_attempts dto.email) w.cache w.cache_up (text_eq_refl dto.email),
          refl,
          refl,
        )

  -- The right password of an active user, with an audit entry that the database takes, is refused as locked
  -- out exactly where the counter of the email shows five failures or more; below that it logs in.
  pub lockout_threshold :
      (w : World) (n : ℕ) (email : Email) (user loaded : User)
      → counter (login_attempts dto.email) w ≡ some (number n)
      → Email.new dto.email ≡ ok email
      → Users.get_by_email email (record w { session = w.committed })
        ≡ (ok (some user), record w { session = w.committed })
      → User.is_active user ≡ true
      → Users.get_by_id user.id (record w { session = w.committed })
        ≡ (ok (some loaded), record w { session = w.committed })
      → Password.verify passwords loaded.password dto.password ≡ ok true
      → IsLoggable (entry_of w loaded) w.committed
      → (login passwords context ttl dto w).0
        ≡ (if leb 5 n then err (permission_error locked_out) else ok (tokens_of w loaded))
  lockout_threshold w n email user loaded c e f a g v l = elim (Bool-cases (leb 5 n)) [
    | inl full ↦ rw (locked_login passwords context ttl dto w (rw c full), full) refl
    | inr free ↦ rw free (login_succeeds w email user loaded (rw c free) e f a g v l).0
  ]
