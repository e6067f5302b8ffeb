-- ===== src/World/Keeps.antt =====
-- Invariants of actions, one rule for each way to build an action.
use financial_data.Prelude.{Bool, true, false, Option, none, some, if◌then◌else◌}
use financial_data.Result.{Result, ok, err, Error}
use financial_data.Database.{Db}
use financial_data.World.{
  World, Action, pure, raise, lift, gets, query, ◌>>=◌, continue, raise_if, or_raise, utcnow,
}

-- `m` keeps `P`, whether it returns or raises.
pub record Keeps {A : Type 0} (P : World → Type 0) (m : Action A) : Type 0 where
  pub at : (w : World) → P w → P (m w).1

module _ {A : Type 0} {P : World → Type 0} where
  pub Keeps-pure : (a : A) → Keeps P (pure a)
  unfolding pure
  Keeps-pure a = record { at = λ w h. h }

  pub Keeps-raise : (e : Error) → Keeps P (raise {A = A} e)
  unfolding raise
  Keeps-raise e = record { at = λ w h. h }

  pub Keeps-lift : (r : Result A) → Keeps P (lift r)
  unfolding lift
  Keeps-lift r = record { at = λ w h. h }

  pub Keeps-gets : (f : World → A) → Keeps P (gets f)
  unfolding gets
  Keeps-gets f = record { at = λ w h. h }

  pub Keeps-query : (q : Db → Result A) → Keeps P (query q)
  unfolding query
  Keeps-query q = record { at = λ w h. h }

  pub Keeps-or_raise : (o : Option A) (e : Error) → Keeps P (or_raise o e)
  unfolding or_raise
  Keeps-or_raise none e = record { at = λ w h. h }
  Keeps-or_raise (some a) e = record { at = λ w h. h }

  pub Keeps-if : (b : Bool) (m n : Action A) → Keeps P m → Keeps P n → Keeps P (if b then m else n)
  Keeps-if true m n km kn = km
  Keeps-if false m n km kn = kn

module _ {P : World → Type 0} where
  pub Keeps-raise_if : (b : Bool) (e : Error) → Keeps P (raise_if b e)
  unfolding raise_if
  Keeps-raise_if true e = record { at = λ w h. h }
  Keeps-raise_if false e = record { at = λ w h. h }

  pub Keeps-utcnow : Keeps P utcnow
  unfolding utcnow
  Keeps-utcnow = record { at = λ w h. h }

module _ {A B : Type 0} {P : World → Type 0} where
  Keeps-continue :
      (r : Result A) (f : A → Action B) (w : World)
      → P w
      → ((a : A) → Keeps P (f a))
      → P (continue r f w).1
  Keeps-continue (ok a) f w h kf = (kf a).at w h
  Keeps-continue (err e) f w h kf = h

  pub Keeps-bind :
      (m : Action A) (f : A → Action B) → Keeps P m → ((a : A) → Keeps P (f a)) → Keeps P (m >>= f)
  unfolding ◌>>=◌
  Keeps-bind m f km kf = record {
    at = λ w h. let (r, w') = m w in Keeps-continue r f w' (km.at w h) kf;
  }

pub ruleset keeps_rules = (
  Keeps-pure, Keeps-raise, Keeps-lift, Keeps-gets, Keeps-query, Keeps-or_raise, Keeps-if,
  Keeps-raise_if, Keeps-utcnow, Keeps-bind,
)
