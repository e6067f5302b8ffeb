-- ===== src/UseCases/Records/Loading.antt =====
-- Loading a record changes nothing, and the record is held.
use financial_data.Prelude.{
  ℕ, Bool, true, false, not, ◌&&◌, ◌≡◌, refl, sym, ◌∙◌, Option, none, some, List, ◌⊎◌, inl, inr,
  find?, arith,
}
use financial_data.Text.{Text}
use financial_data.Result.{
  Result, ok, err, Error, value_error, permission_error, not_found, not_owner,
}
use financial_data.Money.{of_cents}
use financial_data.Entities.Record.{FinancialRecord, belongs_to}
use financial_data.Entities.User.{User, has_permission}
use financial_data.Database.{Db, FinancialRecordModel, map_record}
use financial_data.World.{World, Action, pure, raise, raise_if, or_raise, query, ◌>>=◌}
use financial_data.World.Run.{bind-ok, bind-err}
use financial_data.World.Keeps.{Keeps}
use financial_data.Repositories.Paging.{map_found}
use financial_data.Repositories.Records
use financial_data.Repositories.Records.{assign_row, live_id}
use financial_data.UseCases.Records.{load_record}
use financial_data.UseCases.Records.Ownership.{Owns, found_owner}
use financial_data.UseCases.Records.Coherence.{IsFresh}
use financial_data.UseCases.Records.Held.{Held, Ends}

pub Result-cases :
    {A : Type 0} (x : Result A) → ((a : A) × (x ≡ ok a)) ⊎ ((e : Error) × (x ≡ err e))
Result-cases (ok a) = inl (a, refl)
Result-cases (err e) = inr (e, refl)

-- A record that is read has the identifier and the owner of its row.
map_record_lem :
    (db : Db) (m : FinancialRecordModel) (r : FinancialRecord)
    → map_record db m ≡ ok r
    → (m.id ≡ r.id) × (m.user_id ≡ r.user_id)
unfolding map_record
map_record_lem db m r h = elim (Result-cases (of_cents m.amount)) [
  | inl (a, p) ↦ let q = rw p at h in (ground (arith, q), ground (arith, q))
  | inr (e, p) ↦ let q = rw p at h in (cc, cc)
]

-- What a lookup comes to: an exception, no record, or the record of the row that was found.
data Lookup (db : Db) (o : Option FinancialRecordModel) : Type 0 where
  broken : (e : Error) → map_found (map_record db) o ≡ err e → Lookup db o
  missing : map_found (map_record db) o ≡ ok none → Lookup db o
  loaded :
      (m : FinancialRecordModel) (r : FinancialRecord)
      → o ≡ some m
      → map_record db m ≡ ok r
      → map_found (map_record db) o ≡ ok (some r)
      → Lookup db o

Lookup-cases : (db : Db) (o : Option FinancialRecordModel) → Lookup db o
unfolding map_found
Lookup-cases db none = missing refl
Lookup-cases db (some m) = elim (Result-cases (map_record db m)) [
  | inl (r, p) ↦ loaded m r refl p (rw p refl)
  | inr (e, p) ↦ broken e (rw p refl)
]

checks_run :
    (b c : Bool) (x y : Error) (r : FinancialRecord) (w : World)
    → let run = (raise_if b x >>= λ (u : Unit {0}). raise_if c y >>= λ (v : Unit {0}). pure r) w in
      (run ≡ (ok r, w)) ⊎ ((e : Error) × (run ≡ (err e, w)))
unfolding ◌>>=◌ raise_if raise pure
checks_run true c x y r w = inr (x, refl)
checks_run false true x y r w = inr (y, refl)
checks_run false false x y r w = inl refl

module _ (id : ℕ) (codename : Text) (actor : User) where
  -- Loading a record changes nothing, and the record that it gives is held.
  load_run :
      (w : World)
      → IsFresh w
      → ((r : FinancialRecord) × Held r w × (load_record id codename actor w ≡ (ok r, w)))
        ⊎ ((e : Error) × (load_record id codename actor w ≡ (err e, w)))
  unfolding load_record Records.get_by_id ◌>>=◌ query or_raise raise pure
  load_run w h = elim (Lookup-cases w.session (find? (live_id id) w.session.records)) [
    | broken e p ↦ inr (e, rw p refl)
    | missing p ↦ inr (value_error not_found, rw p refl)
    | loaded m r o p q ↦
        elim (checks_run r.is_deleted
          (not (has_permission actor codename) && not (belongs_to r actor.id))
          (value_error not_found) (permission_error not_owner) r w) [
            | inl run ↦
                let (id_same, user_same) = map_record_lem w.session m r p in
                let (named, owned) = found_owner id w.session.records m h.inside_ids o in
                inl (
                  r,
                  record {
                    fresh = h;
                    owns =
                        subst2 id m.user_id r.id r.user_id w.session.records (sym named ∙ id_same)
                          user_same owned;
                  },
                  rw q run,
                )
            | inr (e, run) ↦ inr (e, rw q run)
          ]
  ]
    where
      subst2 :
          (i u j v : ℕ) (rows : List FinancialRecordModel)
          → i ≡ j
          → u ≡ v
          → Owns i u rows
          → Owns j v rows
      subst2 i u j v rows p q o = rw (← p, ← q) o

  pub load-Keeps :
      {B : Type 0} (f : FinancialRecord → Action B)
      → ((r : FinancialRecord) → Ends r (f r))
      → Keeps IsFresh (load_record id codename actor >>= f)
  load-Keeps f k = record {
    at = λ w h. elim (load_run w h) [
      | inl (r, held, run) ↦ rw (bind-ok _ f w run) ((k r).at w held)
      | inr (e, run) ↦ rw (bind-err _ f w run) h
    ];
  }
