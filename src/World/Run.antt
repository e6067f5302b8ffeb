-- ===== src/World/Run.antt =====
-- Running an action step by step, and reading off what a finished run did.
use financial_data.Prelude.{◌≡◌, refl, ap, Bool, true, false, Option, none, some}
use financial_data.Result.{Result, ok, err, Error}
use financial_data.Database.{Db}
use financial_data.World.{
  World, Action, pure, raise, query, or_raise, raise_if, ◌>>=◌, continue, with_uow, close_session,
}

module _ {A B : Type 0} where
  -- A step that returns hands its value and its state on.
  pub bind-ok :
      (m : Action A) (f : A → Action B) (w : World) {a : A} {w' : World}
      → m w ≡ (ok a, w')
      → (m >>= f) w ≡ f a w'
  unfolding ◌>>=◌
  bind-ok m f w e = ap (λ (p : Result A × World). continue p.0 f p.1) e

  -- A step that raises ends the block.
  pub bind-err :
      (m : Action A) (f : A → Action B) (w : World) {x : Error} {w' : World}
      → m w ≡ (err x, w')
      → (m >>= f) w ≡ (err x, w')
  unfolding ◌>>=◌
  bind-err m f w e = ap (λ (p : Result A × World). continue p.0 f p.1) e

  inv :
      (p : Result A × World) (f : A → Action B) {b : B} {w'' : World}
      → continue p.0 f p.1 ≡ (ok b, w'')
      → (a : A) × (w' : World) × (p ≡ (ok a, w')) × (f a w' ≡ (ok b, w''))
  inv (ok a, w') f h = (a, w', refl, h)
  inv (err x, w') f h = absurd (go (ap (λ (p : Result B × World). p.0) h))
    where
      go : {x : Error} {b : B} → ◌≡◌ {A = Result B} (err x) (ok b) → ⊥
      go h = cc

  -- A block that returned has run its first step to an end.
  pub bind-inv :
      (m : Action A) (f : A → Action B) (w : World) {b : B} {w'' : World}
      → (m >>= f) w ≡ (ok b, w'')
      → (a : A) × (w' : World) × (m w ≡ (ok a, w')) × (f a w' ≡ (ok b, w''))
  unfolding ◌>>=◌
  bind-inv m f w h = inv (m w) f h

module _ {A : Type 0} where
  pub with_uow-run :
      (m : Action A) (w : World) {r : Result A} {w' : World}
      → m (record w { session = w.committed }) ≡ (r, w')
      → with_uow m w ≡ (r, close_session w')
  unfolding with_uow
  with_uow-run m w e = ap (λ (p : Result A × World). (p.0, close_session p.1)) e

  pub query-ok :
      (q : Db → Result A) (w : World) {a : A} → q w.session ≡ ok a → query q w ≡ (ok a, w)
  unfolding query
  query-ok q w e = ap (λ (r : Result A). (r, w)) e

  pub query-err :
      (q : Db → Result A) (w : World) {x : Error} → q w.session ≡ err x → query q w ≡ (err x, w)
  unfolding query
  query-err q w e = ap (λ (r : Result A). (r, w)) e

  -- A query leaves the state as it is.
  pub query-inv :
      (q : Db → Result A) (w : World) {a : A} {w' : World}
      → query q w ≡ (ok a, w')
      → (q w.session ≡ ok a) × (w ≡ w')
  unfolding query
  query-inv q w e = (ap (λ (p : Result A × World). p.0) e, ap (λ (p : Result A × World). p.1) e)

  pub or_raise-ok :
      (o : Option A) (e : Error) (w : World) {a : A} → o ≡ some a → or_raise o e w ≡ (ok a, w)
  unfolding or_raise pure
  or_raise-ok o e w p = rw p

  pub or_raise-err : (o : Option A) (e : Error) (w : World) → o ≡ none → or_raise o e w ≡ (err e, w)
  unfolding or_raise raise
  or_raise-err o e w p = rw p

pub raise_if-ok : (b : Bool) (e : Error) (w : World) → b ≡ false → raise_if b e w ≡ (ok tt, w)
unfolding raise_if
raise_if-ok b e w p = rw p

pub raise_if-err : (b : Bool) (e : Error) (w : World) → b ≡ true → raise_if b e w ≡ (err e, w)
unfolding raise_if
raise_if-err b e w p = rw p
