-- ===== src/World/Pending.antt =====
-- Actions that leave the committed database alone, and units of work that commit all or nothing.
use financial_data.Prelude.{
  subst, ℕ, ◌≡◌, refl, ◌∙◌, Bool, true, false, Option, none, some, List, if◌then◌else◌,
}
use financial_data.Result.{Result, ok, err, Error}
use financial_data.Database.{Db}
use financial_data.CacheKeys.{CacheKey, CacheValue}
use financial_data.Cache
use financial_data.World.{
  World, Action, pure, raise, lift, gets, query, write, ◌>>=◌, continue, raise_if, or_raise, uuid4,
  utcnow, commit, with_uow, modify, RefreshTokenModel,
}

-- The action changes nothing that other sessions see of the database.
pub record IsPending {A : Type 0} (m : Action A) : Type 0 where
  pub at : (w : World) → (m w).1.committed ≡ w.committed

module _ {A : Type 0} where
  pub IsPending-pure : (a : A) → IsPending (pure a)
  unfolding pure
  IsPending-pure a = record { at = λ w. refl }

  pub IsPending-raise : (e : Error) → IsPending (raise {A = A} e)
  unfolding raise
  IsPending-raise e = record { at = λ w. refl }

  pub IsPending-lift : (r : Result A) → IsPending (lift r)
  unfolding lift
  IsPending-lift r = record { at = λ w. refl }

  pub IsPending-gets : (f : World → A) → IsPending (gets f)
  unfolding gets
  IsPending-gets f = record { at = λ w. refl }

  pub IsPending-query : (q : Db → Result A) → IsPending (query q)
  unfolding query
  IsPending-query q = record { at = λ w. refl }

  pub IsPending-or_raise : (o : Option A) (e : Error) → IsPending (or_raise o e)
  unfolding or_raise
  IsPending-or_raise none e = record { at = λ w. refl }
  IsPending-or_raise (some a) e = record { at = λ w. refl }

  pub IsPending-if :
      (b : Bool) (m n : Action A) → IsPending m → IsPending n → IsPending (if b then m else n)
  IsPending-if true m n km kn = km
  IsPending-if false m n km kn = kn

pub IsPending-raise_if : (b : Bool) (e : Error) → IsPending (raise_if b e)
unfolding raise_if
IsPending-raise_if true e = record { at = λ w. refl }
IsPending-raise_if false e = record { at = λ w. refl }

pub IsPending-utcnow : IsPending utcnow
unfolding utcnow
IsPending-utcnow = record { at = λ w. refl }

pub IsPending-uuid4 : IsPending uuid4
unfolding uuid4
IsPending-uuid4 = record { at = λ w. refl }

pub IsPending-write : (f : Db → Db) → IsPending (write f)
unfolding write
IsPending-write f = record { at = λ w. refl }

module _ (k : CacheKey) where
  pub IsPending-get : IsPending (Cache.get k)
  unfolding Cache.get
  IsPending-get = record { at = λ w. refl }

  pub IsPending-set : (v : CacheValue) (ttl : ℕ) → IsPending (Cache.set k v ttl)
  unfolding Cache.set
  IsPending-set v ttl = record { at = λ w. refl }

  pub IsPending-delete : IsPending (Cache.delete k)
  unfolding Cache.delete
  IsPending-delete = record { at = λ w. refl }

  pub IsPending-incr : IsPending (Cache.incr k)
  unfolding Cache.incr
  IsPending-incr = record { at = λ w. refl }

  pub IsPending-expire : (seconds : ℕ) → IsPending (Cache.expire k seconds)
  unfolding Cache.expire
  IsPending-expire seconds = record { at = λ w. refl }

pub IsPending-invalidate : (user_id : ℕ) → IsPending (Cache.invalidate user_id)
unfolding Cache.invalidate
IsPending-invalidate user_id = record { at = λ w. refl }

module _ {A B : Type 0} where
  IsPending-continue :
      (r : Result A) (f : A → Action B) (w : World)
      → ((a : A) → IsPending (f a))
      → (continue r f w).1.committed ≡ w.committed
  IsPending-continue (ok a) f w kf = (kf a).at w
  IsPending-continue (err e) f w kf = refl

  pub IsPending-bind :
      (m : Action A) (f : A → Action B)
      → IsPending m
      → ((a : A) → IsPending (f a))
      → IsPending (m >>= f)
  unfolding ◌>>=◌
  IsPending-bind m f km kf = record {
    at = λ w. let (r, w') = m w in IsPending-continue r f w' kf ∙ km.at w;
  }

pub ruleset pending_rules = (
  IsPending-pure, IsPending-raise, IsPending-lift, IsPending-gets, IsPending-query,
  IsPending-or_raise, IsPending-if, IsPending-raise_if, IsPending-utcnow, IsPending-uuid4,
  IsPending-write, IsPending-get, IsPending-set, IsPending-delete, IsPending-incr, IsPending-expire,
  IsPending-invalidate, IsPending-bind,
)

abbrev pub Failed : {A : Type 0} → Result A → Type 0
Failed (ok a) = ⊥
Failed (err e) = Unit

-- After an exception, nothing is committed.
abbrev pub Settled : {A : Type 0} → Result A → Db → Db → Type 0
Settled (ok a) before after = Unit
Settled (err e) before after = after ≡ before

-- Where the action raises, the committed database is as it was.
pub record IsAtomic {A : Type 0} (m : Action A) : Type 0 where
  pub at : (w : World) → Settled (m w).0 w.committed (m w).1.committed

-- A commit is the last thing that a unit of work does before it returns.
pub IsAtomic-commit : {A : Type 0} (a : A) → IsAtomic (commit >>= λ (u : Unit {0}). pure a)
unfolding commit pure ◌>>=◌
IsAtomic-commit a = record { at = λ w. tt }

module _ {A : Type 0} where
  settled : (r : Result A) (before after : Db) → after ≡ before → Settled r before after
  settled (ok a) before after e = tt
  settled (err x) before after e = e

  Settled-ok : (r : Result A) (before after : Db) → ¬ Failed r → Settled r before after
  Settled-ok (ok a) before after n = tt
  Settled-ok (err x) before after n = absurd (n tt)

  pub IsAtomic-pending : (m : Action A) → IsPending m → IsAtomic m
  IsAtomic-pending m k = record { at = λ w. settled (m w).0 w.committed (m w).1.committed (k.at w) }

module _ {A B : Type 0} where
  IsAtomic-continue :
      (r : Result A) (f : A → Action B) (w' : World) (db : Db)
      → w'.committed ≡ db
      → ((a : A) → IsAtomic (f a))
      → Settled (continue r f w').0 db (continue r f w').1.committed
  IsAtomic-continue (ok a) f w' db e kf =
      subst (λ d. Settled (f a w').0 d (f a w').1.committed) e ((kf a).at w')
  IsAtomic-continue (err x) f w' db e kf = e

  pub IsAtomic-bind :
      (m : Action A) (f : A → Action B)
      → IsPending m
      → ((a : A) → IsAtomic (f a))
      → IsAtomic (m >>= f)
  unfolding ◌>>=◌
  IsAtomic-bind m f km kf = record {
    at = λ w. let (r, w') = m w in IsAtomic-continue r f w' w.committed (km.at w) kf;
  }

  then_continue :
      (f : A → Action B) (r : Result A) (w' : World) (db : Db)
      → ((a : A) (w : World) → ¬ Failed (f a w).0)
      → Settled r db w'.committed
      → Settled (continue r f w').0 db (continue r f w').1.committed
  then_continue f (ok a) w' db kf k = Settled-ok (f a w').0 db (f a w').1.committed (kf a w')
  then_continue f (err x) w' db kf k = k

  -- After a unit of work, what follows cannot raise.
  pub IsAtomic-then :
      (m : Action A) (f : A → Action B)
      → IsAtomic m
      → ((a : A) (w : World) → ¬ Failed (f a w).0)
      → IsAtomic (m >>= f)
  unfolding ◌>>=◌
  IsAtomic-then m f km kf = record {
    at = λ w. let (r, w') = m w in then_continue f r w' w.committed kf (km.at w);
  }

pub IsAtomic-with_uow : {A : Type 0} (m : Action A) → IsAtomic m → IsAtomic (with_uow m)
unfolding with_uow
IsAtomic-with_uow m k = record { at = λ w. k.at (record w { session = w.committed }) }

pub IsPending-with_uow : {A : Type 0} (m : Action A) → IsPending m → IsPending (with_uow m)
unfolding with_uow
IsPending-with_uow m k = record { at = λ w. k.at (record w { session = w.committed }) }

-- The refresh tokens are not in the database of the unit of work.
pub IsPending-tokens :
    (f : World → List RefreshTokenModel) → IsPending (modify (λ w. record w { tokens = f w }))
unfolding modify
IsPending-tokens f = record { at = λ w. refl }

pub ruleset atomic_rules = (IsAtomic-bind, IsAtomic-commit, IsAtomic-with_uow)
