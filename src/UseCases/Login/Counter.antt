-- ===== src/UseCases/Login/Counter.antt =====
-- The brute-force counter: what a failed login does to it, and what a full counter does to a login.
use financial_data.Prelude.{
  subst, ap, suc, ◌∙◌, Bool, Bool-cases, any, ◌||◌, ◌==◌, [], ◌⊎◌, ℕ, ◌≡◌, refl, sym, ◌+◌, true,
  false, Option, none, some, if◌then◌else◌, arith, inl, inr,
}
use financial_data.Text.{Text, lit}
use financial_data.Text.Laws.{text_eq_refl}
use financial_data.Result.{
  Error, integrity_error, ok, err, value_error, permission_error, invalid_credentials, locked_out,
}
use financial_data.CacheKeys.{CacheKey, CacheEntry, CacheValue, number, login_attempts, key_eq}
use financial_data.Cache
use financial_data.Crypto.{PasswordContext, TokenContext}
use financial_data.Email
use financial_data.Email.{Email}
use financial_data.Password
use financial_data.Entities.User
use financial_data.Entities.User.{User, get_role_names}
use financial_data.TokenService.{Ttl}
use financial_data.World.{
  World, pure, raise, lift, query, write, raise_if, or_raise, uuid4, utcnow, with_uow,
  close_session, ◌>>=◌,
}
use financial_data.Repositories.Users
use financial_data.Repositories.Audit
use financial_data.Repositories.Audit.Laws.{IsLoggable}
use financial_data.Entities.Audit.{AuditLog, create_failure}
use financial_data.Entities.Enums.{ActionType}
use financial_data.Database.{UserModel}
use financial_data.UseCases.Login.{
  LoginDto, lockout_seconds, is_locked, check_brute_force, record_failed_attempt, active_user,
  verify_and_issue, authenticate, login,
}

-- The counter of a key, as far as the cache answers.
abbrev pub counter : CacheKey → World → Option CacheValue
counter k w = if w.cache_up then Cache.value_of (Cache.live w.now (w.cache k)) else none

-- A key that five failures have filled.
abbrev pub Full : CacheKey → World → Type 0
Full k w = is_locked (counter k w) ≡ true

module _ (passwords : PasswordContext) (context : TokenContext) (ttl : Ttl) (dto : LoginDto) where
  -- While the counter of an email is full, every login with that email is refused as locked out,
  -- whatever the password, and changes nothing but that the session is closed: no token is issued, and
  -- the counter stays.
  pub locked_login :
      (w : World)
      → Full (login_attempts dto.email) w
      → login passwords context ttl dto w
        ≡ (err (permission_error locked_out), record w { session = w.committed })
  unfolding login check_brute_force with_uow close_session ◌>>=◌ raise_if raise pure Cache.get
  locked_login w full = ground arith

-- The number that a counter shows.
abbrev pub attempts : Option CacheValue → ℕ
attempts (some (number n)) = n
attempts _ = 0

-- A counter that is missing or a number.
abbrev pub IsCounter : Option CacheValue → Type 0
IsCounter none = Unit
IsCounter (some (number n)) = Unit
IsCounter (some _) = ⊥

key_refl : (s : Text) → key_eq (login_attempts s) (login_attempts s) ≡ true
unfolding key_eq
key_refl s = text_eq_refl s

-- The counter's next state: one more, for another 15 minutes.
abbrev bumped : ℕ → Option CacheEntry → Option CacheEntry
bumped now e =
    Cache.expiring (now + lockout_seconds) (Cache.live now (Cache.next_entry (Cache.live now e)))

bumped_value :
    (now : ℕ) (e : Option CacheEntry)
    → IsCounter (Cache.value_of (Cache.live now e))
    → Cache.value_of (Cache.live now (bumped now e))
      ≡ some (number (attempts (Cache.value_of (Cache.live now e)) + 1))
unfolding Cache.live
bumped_value now none h = ground arith
bumped_value now (some e) h = elim_value now e h
  where
    elim_value :
        (now : ℕ) (e : CacheEntry)
        → IsCounter (Cache.value_of (Cache.live now (some e)))
        → Cache.value_of (Cache.live now (bumped now (some e)))
          ≡ some (number (attempts (Cache.value_of (Cache.live now (some e))) + 1))
    elim_value now e h = ground arith

-- The state after the counter of a key is bumped.
abbrev pub bumped_world : CacheKey → World → World
bumped_world k w = (Cache.expire k lockout_seconds (Cache.incr k w).1).1

counter_up :
    (s : Text) (w : World)
    → w.cache_up ≡ true
    → IsCounter (counter (login_attempts s) w)
    → counter (login_attempts s) (bumped_world (login_attempts s) w)
      ≡ some (number (attempts (counter (login_attempts s) w) + 1))
unfolding Cache.incr Cache.expire Cache.put
counter_up s w up c =
    let c' =
      subst
        (λ b.
          IsCounter
            (if b then Cache.value_of (Cache.live w.now (w.cache (login_attempts s))) else none))
        up c in
    rw (up, key_refl s) (bumped_value w.now (w.cache (login_attempts s)) c')

counter_down :
    (s : Text) (w : World)
    → w.cache_up ≡ false
    → counter (login_attempts s) (bumped_world (login_attempts s) w) ≡ none
unfolding Cache.incr Cache.expire
counter_down s w down = rw down refl

-- One attempt more, where the cache answers.
counter_bumped :
    (s : Text) (w : World)
    → IsCounter (counter (login_attempts s) w)
    → counter (login_attempts s) (bumped_world (login_attempts s) w)
      ≡ (if w.cache_up then some (number (attempts (counter (login_attempts s) w) + 1)) else none)
counter_bumped s w c = elim (Bool-cases w.cache_up) [
  | inl up ↦
      counter_up s w up c
      ∙ sym (
          ap
            (λ (b : Bool).
              if b then some (number (attempts (counter (login_attempts s) w) + 1)) else none)
            up)
  | inr down ↦
      counter_down s w down
      ∙ sym (
          ap
            (λ (b : Bool).
              if b then some (number (attempts (counter (login_attempts s) w) + 1)) else none)
            down)
]

-- The audit entries of a failed login: of nobody, under an identifier that is drawn, and of a user.
abbrev pub unknown_entry : LoginDto → World → AuditLog
unknown_entry dto w =
    create_failure (w.uuids 1) w.now (w.uuids 0) (lit "unknown") [] ActionType.auth_login_failed
      (lit "auth") dto.meta (lit "user not found or inactive") none

abbrev pub wrong_entry : LoginDto → World → User → AuditLog
wrong_entry dto w user =
    create_failure (w.uuids 0) w.now user.id user.email.value (get_role_names user)
      ActionType.auth_login_failed (lit "auth") dto.meta (lit "invalid password") none

or_true : (b : Bool) → (b || true) ≡ true
or_true true = refl
or_true false = refl

module _ (passwords : PasswordContext) (context : TokenContext) (ttl : Ttl) (dto : LoginDto) where
  -- The state of the session in which the login looks its user up.
  abbrev pub opened : World → World
  opened w = record w { session = w.committed }

  -- What a failed login must leave: its error; one more attempt on the counter, where the cache
  -- answers; and the committed database as it was, its audit log included.
  abbrev pub Counted : Error → World → Type 0
  Counted e w =
      let (r, w') = login passwords context ttl dto w in
      (r ≡ err e)
      × (counter (login_attempts dto.email) w' ≡ (
          if w.cache_up
          then some (number (attempts (counter (login_attempts dto.email) w) + 1))
          else none))
      × (w'.committed ≡ w.committed)

  -- No active user was found, and the identifier that is drawn is no user's either.
  abbrev pub IsUnknown : Option User → World → Type 0
  IsUnknown found w =
      (active_user found ≡ none)
      × (Audit.too_long (unknown_entry dto w) ≡ false)
      × (any (λ (m : UserModel). m.id == w.uuids 0) w.committed.users ≡ false)

  -- An active user was found, whose password is another, and whose audit entry the database takes.
  abbrev pub IsMistaken : Option User → World → Type 0
  IsMistaken found w =
      (user : User) × (loaded : User) × (found ≡ some user)
      × (User.is_active user ≡ true)
      × (Users.get_by_id user.id (opened w) ≡ (ok (some loaded), opened w))
      × (Password.verify passwords loaded.password dto.password ≡ ok false)
      × IsLoggable (wrong_entry dto w loaded) w.committed

  -- The error that each way to fail ends in.
  abbrev pub failure_of :
      (found : Option User) (w : World) → IsUnknown found w ⊎ IsMistaken found w → Error
  failure_of found w (inl n) = integrity_error
  failure_of found w (inr p) = value_error invalid_credentials

  unknown_run :
      (w : World) (email : Email) (found : Option User)
      → is_locked (counter (login_attempts dto.email) w) ≡ false
      → Email.new dto.email ≡ ok email
      → Users.get_by_email email (opened w) ≡ (ok found, opened w)
      → IsUnknown found w
      → login passwords context ttl dto w ≡ (
        err integrity_error,
        close_session (record (bumped_world (login_attempts dto.email) w) {
          uuids = λ n. w.uuids (suc (suc n));
        }),
      )
  unfolding login check_brute_force record_failed_attempt authenticate with_uow close_session ◌>>=◌
      raise_if raise pure lift query uuid4 utcnow Cache.get Cache.incr Cache.expire Audit.log
      Audit.violates key_eq create_failure
  unknown_run w email found open_ e f (n, short, nobody) =
      rw
        (
          open_,
          e,
          f,
          n,
          short,
          nobody,
          or_true (any (λ (m : AuditLog). m.id == w.uuids 1) w.committed.audit),
        )
        refl

  mistaken_run :
      (w : World) (email : Email) (user loaded : User)
      → is_locked (counter (login_attempts dto.email) w) ≡ false
      → Email.new dto.email ≡ ok email
      → Users.get_by_email email (opened w) ≡ (ok (some user), opened w)
      → User.is_active user ≡ true
      → Users.get_by_id user.id (opened w) ≡ (ok (some loaded), opened w)
      → Password.verify passwords loaded.password dto.password ≡ ok false
      → IsLoggable (wrong_entry dto w loaded) w.committed
      → login passwords context ttl dto w ≡ (
        err (value_error invalid_credentials),
        close_session
            (record (bumped_world (login_attempts dto.email) w) { uuids = λ n. w.uuids (suc n) }),
      )
  unfolding login check_brute_force record_failed_attempt authenticate verify_and_issue with_uow
      close_session ◌>>=◌ raise_if raise pure lift or_raise query write uuid4 utcnow Cache.get
      Cache.incr Cache.expire Audit.log Audit.violates
  mistaken_run w email user loaded open_ e f a g v l =
      rw (open_, e, f, a, g, v, l.fitting, l.allowed) refl

  -- Where the texts of its audit entry fit their columns, a login that is not locked out fails: with an
  -- IntegrityError where the well-formed email is of no active user, since the entry names an identifier
  -- that is drawn and is no user's; and with the error that hides the reason where the password is wrong
  -- and the database takes the entry. Either way the counter of that email, which must be missing or a
  -- number, shows one more, where the cache answers; and the entry is lost: what is committed is as it was.
  pub failed_login-Counted :
      (w : World) (email : Email) (found : Option User)
      → is_locked (counter (login_attempts dto.email) w) ≡ false
      → IsCounter (counter (login_attempts dto.email) w)
      → Email.new dto.email ≡ ok email
      → Users.get_by_email email (opened w) ≡ (ok found, opened w)
      → (failed : IsUnknown found w ⊎ IsMistaken found w) → Counted (failure_of found w failed) w
  unfolding close_session Cache.incr Cache.expire
  failed_login-Counted w email found open_ c e f (inl n) =
      rw (unknown_run w email found open_ e f n) (refl, counter_bumped dto.email w c, refl)
  failed_login-Counted w email found open_ c e f (inr (user, loaded, s, a, g, v, l)) =
      rw (mistaken_run w email user loaded open_ e (rw (sym s) f) a g v l)
        (refl, counter_bumped dto.email w c, refl)
