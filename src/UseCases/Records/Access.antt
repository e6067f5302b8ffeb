-- ===== src/UseCases/Records/Access.antt =====
-- Who may read, change and delete a record.
use financial_data.Prelude.{
  ℕ, Bool, true, false, ◌==◌, ◌≡◌, refl, subst, ==_refl, Bool-cases, ◌⊎◌, inl, inr, some, List, [],
  ◌∷◌, take, drop, select, all, zero, suc, arith,
}
use financial_data.Text.{Text, lit}
use financial_data.Result.{Result, ok, err, ◌>>=◌, permission_error, not_owner}
use financial_data.Entities.Record.{FinancialRecord, belongs_to}
use financial_data.Entities.User.{User, has_permission}
use financial_data.Entities.Audit.{RequestMeta}
use financial_data.Money
use financial_data.Money.{Money}
use financial_data.Database.{Db, FinancialRecordModel, map_record}
use financial_data.Repositories.Paging.{check_page, map_rows, listing, page_of}
use financial_data.World
use financial_data.World.{
  World, pure, raise, lift, raise_if, or_raise, with_uow, close_session, query,
}
use financial_data.Repositories.Records
use financial_data.Repositories.Records.{RecordFilters}
use financial_data.UseCases.Records.{
  UpdateRecordDto, load_record, get_records, update_record, delete_record,
}

-- The record that a new session finds under an identifier.
abbrev pub Holds : ℕ → FinancialRecord → World → Type 0
Holds id r w =
    let opened = record w { session = w.committed } in
    (Records.get_by_id id opened ≡ (ok (some r), opened)) × (r.is_deleted ≡ false)

module _ (id : ℕ) (actor : User) (r : FinancialRecord) (w : World) (h : Holds id r w) where
  -- Who does not own the record can change it only with `records:update` and delete it only with
  -- `records:delete`: without the permission of the operation it is refused, and nothing of the state changes.
  pub stranger_refused :
      (dto : UpdateRecordDto) (meta : RequestMeta)
      → dto.record_id ≡ id
      → belongs_to r actor.id ≡ false
      → ((has_permission actor (lit "records:update") ≡ true)
          ⊎ (update_record dto actor meta w ≡ (err (permission_error not_owner), close_session w)))
        × ((has_permission actor (lit "records:delete") ≡ true)
            ⊎ (delete_record id actor meta w ≡ (err (permission_error not_owner), close_session w)))
  unfolding update_record delete_record load_record with_uow close_session World.◌>>=◌ raise_if
      raise pure or_raise belongs_to
  stranger_refused dto meta same b = (
    elim (Bool-cases (has_permission actor (lit "records:update"))) [
      | inl u ↦ inl u
      | inr u ↦ inr (ground (arith, same, h.0, h.1, u, b))
    ],
    elim (Bool-cases (has_permission actor (lit "records:delete"))) [
      | inl d ↦ inl d
      | inr d ↦ inr (rw (h.0, b, d, h.1) refl)
    ],
  )

-- The records of a listing are all of one user.
abbrev pub OnlyOf : ℕ → Result (List FinancialRecord × ℕ) → Type 0
OnlyOf user_id (ok (rs, total)) = all (λ r. belongs_to r user_id) rs ≡ true
OnlyOf user_id (err e) = Unit

abbrev own_row : ℕ → FinancialRecordModel → Bool
own_row user_id m = m.user_id == user_id

all-take :
    {A : Type 0} (p : A → Bool) (n : ℕ) (xs : List A) → all p xs ≡ true → all p (take n xs) ≡ true
unfolding all
all-take p zero xs h = refl
all-take p (suc n) [] h = refl
all-take p (suc n) (x ∷ xs) h = ground (arith, all-take p n xs)

all-drop :
    {A : Type 0} (p : A → Bool) (n : ℕ) (xs : List A) → all p xs ≡ true → all p (drop n xs) ≡ true
unfolding all
all-drop p zero xs h = h
all-drop p (suc n) [] h = refl
all-drop p (suc n) (x ∷ xs) h = all-drop p n xs (ground arith)

all-select :
    {A : Type 0} (p q : A → Bool)
    → ((x : A) → q x ≡ true → p x ≡ true)
    → (xs : List A) → all p (select q xs) ≡ true
unfolding all select
all-select p q qp [] = refl
all-select p q qp (x ∷ xs) = ground (arith, qp x, all-select p q qp xs)

abbrev Own : ℕ → Result FinancialRecord → Type 0
Own user_id (ok r) = belongs_to r user_id ≡ true
Own user_id (err e) = Unit

Own-cons :
    (user_id total : ℕ) (r : Result FinancialRecord) (rest : Result (List FinancialRecord))
    → Own user_id r
    → OnlyOf user_id (rest >>= λ rs. ok (rs, total))
    → OnlyOf user_id ((r >>= λ a. rest >>= λ rs. ok (a ∷ rs)) >>= λ rs. ok (rs, total))
unfolding all
Own-cons user_id total (ok r) (ok rs) o h = rw (o, h) refl
Own-cons user_id total (ok r) (err e) o h = tt
Own-cons user_id total (err e) rest o h = tt

Own-bind :
    (user_id : ℕ) (x : Result Money) (f : Money → FinancialRecord)
    → ((a : Money) → belongs_to (f a) user_id ≡ true)
    → Own user_id (x >>= λ a. ok (f a))
Own-bind user_id (ok a) f h = h a
Own-bind user_id (err e) f h = tt

map_record-Own : (db : Db) (m : FinancialRecordModel) → Own m.user_id (map_record db m)
unfolding map_record belongs_to
map_record-Own db m = Own-bind m.user_id (Money.of_cents m.amount) _ (λ a. ==_refl m.user_id)

map_rows-own :
    (db : Db) (user_id : ℕ) (rows : List FinancialRecordModel) (total : ℕ)
    → all (own_row user_id) rows ≡ true
    → OnlyOf user_id (map_rows (map_record db) rows >>= λ rs. ok (rs, total))
unfolding all map_rows
map_rows-own db user_id [] total h = refl
map_rows-own db user_id (m ∷ rows) total h =
    let e : m.user_id ≡ user_id = ground arith in
    Own-cons user_id total (map_record db m) (map_rows (map_record db) rows)
      (subst (λ u. Own u (map_record db m)) e (map_record-Own db m))
      (map_rows-own db user_id rows total (ground arith))

OnlyOf-after :
    (user_id : ℕ) (r : Result (Unit {0})) (x : Result (List FinancialRecord × ℕ))
    → OnlyOf user_id x
    → OnlyOf user_id (r >>= λ (u : Unit {0}). x)
OnlyOf-after user_id (ok u) x h = h
OnlyOf-after user_id (err e) x h = tt

module _ (matches : Text → FinancialRecordModel → Bool)
    (by_date : List FinancialRecordModel → List FinancialRecordModel) where
  own_fits :
      (f : RecordFilters) (user_id : ℕ) (m : FinancialRecordModel)
      → Records.fits matches (record f { user_id = some user_id }) m ≡ true
      → own_row user_id m ≡ true
  unfolding Records.fits
  own_fits f user_id m h = elim (Bool-cases (own_row user_id m)) [
    | inl e ↦ e
    | inr e ↦ absurd (ground arith)
  ]

  -- Without `records:read`, a listing holds records of the actor only, whichever user and whatever
  -- other filter the request names, where the ORDER BY brings in no row.
  pub get_records_own :
      ((p : FinancialRecordModel → Bool) (rows : List FinancialRecordModel)
        → all p rows ≡ true
        → all p (by_date rows) ≡ true)
      → (dto : RecordFilters) (actor : User) (w : World)
      → has_permission actor (lit "records:read") ≡ false
      → OnlyOf actor.id (get_records matches by_date dto actor w).0
  unfolding get_records with_uow query Records.get_all listing page_of
  get_records_own sorted dto actor w h = rw (h) (
      OnlyOf-after actor.id (check_page dto.page dto.page_size) _ (
        map_rows-own _ _ _ _ (
          all-take _ _ _ (
            all-drop _ _ _ (
              sorted (own_row actor.id) _
                (all-select (own_row actor.id) _ (own_fits dto actor.id) _))))))
