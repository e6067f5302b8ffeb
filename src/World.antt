-- ===== src/World.antt =====
-- The state that a request works on, and the actions over it: the committed database, the session
-- of the unit of work (app/infrastructure/database/uow.py), the refresh tokens, the cache, and what
-- the environment supplies (identifiers, salts and the clock).
pub mod Keeps
pub mod Run
pub mod Pending
use financial_data.Prelude.{
  ℕ, suc, zero, Bool, true, false, Option, none, some, List, [], ◌∷◌, ◌++◌, ◌==◌, if◌then◌else◌,
}
use financial_data.Text.{Text}
use financial_data.Result.{Result, ok, err, Error}
use financial_data.CacheKeys.{CacheKey, CacheEntry}
use financial_data.Database.{Db}

-- refresh_tokens, which only the token service reads and writes, in sessions of its own
pub record RefreshTokenModel : Type 0 where
  pub id : ℕ
  pub user_id : ℕ
  pub token_hash : Text
  pub expires_at : ℕ
  pub revoked : Bool

pub record World : Type 0 where
  -- what every other session sees
  pub committed : Db
  -- the database as this session sees it, its own pending changes included
  pub session : Db
  pub tokens : List RefreshTokenModel
  pub cache : CacheKey → Option CacheEntry
  -- whether the cache server answers
  pub cache_up : Bool
  -- what uuid4 and the salt generator will draw
  pub uuids : ℕ → ℕ
  -- the clock, in seconds, read once for a request
  pub now : ℕ

-- The state comes back after a raise too: what was written stays written.
abbrev pub Action : Type 0 → Type 0
Action A = World → Result A × World

module _ {A : Type 0} where
  unfoldable pub pure : A → Action A
  pure a w = (ok a, w)

  unfoldable pub raise : Error → Action A
  raise e w = (err e, w)

  unfoldable pub lift : Result A → Action A
  lift r w = (r, w)

  unfoldable pub gets : (World → A) → Action A
  gets f w = (ok (f w), w)

  -- A query of the session, which may raise while its rows are mapped.
  unfoldable pub query : (Db → Result A) → Action A
  query q w = (q w.session, w)

unfoldable pub modify : (World → World) → Action (Unit {0})
modify f w = (ok tt, f w)

-- A write of the session.
unfoldable pub write : (Db → Db) → Action (Unit {0})
write f w = (ok tt, record w { session = f w.session })

abbrev pub continue : {A B : Type 0} → Result A → (A → Action B) → Action B
continue (ok a) f w = f a w
continue (err e) f w = (err e, w)

infixl 5 ◌>>=◌ ◌>>◌
unfoldable pub ◌>>=◌ : {A B : Type 0} → Action A → (A → Action B) → Action B
unfolding pure raise lift gets query modify write
◌>>=◌ m f w = let (r, w') = m w in continue r f w'

abbrev pub ◌>>◌ : {B : Type 0} → Action (Unit {0}) → Action B → Action B
m >> k = m >>= λ _. k

-- if b: raise e
unfoldable pub raise_if : Bool → Error → Action (Unit {0})
unfolding raise pure
raise_if b e = if b then raise e else pure tt

-- `if not x: raise e`, and the value where there is one
unfoldable pub or_raise : {A : Type 0} → Option A → Error → Action A
unfolding raise pure
or_raise none e = raise e
or_raise (some a) e = pure a

-- uuid.uuid4(); bcrypt draws its salt likewise
unfoldable pub uuid4 : Action ℕ
uuid4 w = (ok (w.uuids 0), record w { uuids = λ n. w.uuids (suc n) })

-- datetime.utcnow()
unfoldable pub utcnow : Action ℕ
utcnow w = (ok w.now, w)

-- uow.commit()
unfoldable pub commit : Action (Unit {0})
commit w = (ok tt, record w { committed = w.session })

-- __aexit__: after an exception the session is rolled back, and then it is closed: what was not
-- committed is gone
unfoldable pub close_session : World → World
close_session w = record w { session = w.committed }

-- async with self._uow as uow: a new session begins from what is committed
unfoldable pub with_uow : {A : Type 0} → Action A → Action A
unfolding close_session
with_uow body w = let (r, w') = body (record w { session = w.committed }) in (r, close_session w')
