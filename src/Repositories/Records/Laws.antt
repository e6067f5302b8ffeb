-- ===== src/Repositories/Records/Laws.antt =====
-- What the writes of the records do to the rows, to the cached dashboards and to the summary.
use mathlib.Core.List.{append-nil}
use financial_data.Prelude.{
  ℕ, ◌+◌, Bool, true, false, ◌||◌, ◌==◌, Bool-cases, inl, inr, ◌≡◌, refl, ap, Option, none, some,
  List, [], ◌∷◌, ◌++◌, length, any, select, select-append, find?, update_where, if◌then◌else◌,
  arith,
}
use financial_data.Prelude.Int.{ℤ, pos, ◌+ℤ◌, ◌-ℤ◌, int_laws}
use financial_data.Result.{ok}
use financial_data.CacheKeys.{CacheKey, DashboardSummary}
use financial_data.CacheKeys
use financial_data.Cache.{invalidate, on_cache}
use financial_data.Entities.Enums.{RecordType}
use financial_data.Entities.Record.{FinancialRecord}
use financial_data.Database.{FinancialRecordModel}
use financial_data.Repositories.Paging.{map_found}
use financial_data.World.{World, query, write, raise_if, pure, utcnow, ◌>>=◌}
use financial_data.Repositories.Records.{
  live_id, row_of, assign_row, add, update, get_by_id, in_scope, sum_of, summary_of,
  get_dashboard_summary, same_type,
}

-- A key that shows a dashboard of the user, or of all users.
abbrev pub is_stale : ℕ → CacheKey → Bool
is_stale user_id k = CacheKeys.fits (some user_id) k || CacheKeys.fits none k

-- The cache afterwards holds no dashboard of the user nor of all users, and all else that it held.
abbrev pub Forgets : ℕ → World → World → Type 0
Forgets user_id w w' =
    (k : CacheKey) → w'.cache k ≡ (if is_stale user_id k then none else w.cache k)

-- While the cache answers, a record with a new identifier is stored as one more row, and every
-- cached dashboard of its owner or of all users is dropped, while no other key of the cache changes.
pub add_lem :
    (r : FinancialRecord) (w : World)
    → w.cache_up ≡ true
    → any (λ m. m.id == r.id) w.session.records ≡ false
    → let (x, w') = add r w in
      (x ≡ ok tt)
      × (w'.session.records ≡ w.session.records ++ row_of w.now r ∷ [])
      × Forgets r.user_id w w'
unfolding add ◌>>=◌ utcnow query raise_if pure write invalidate on_cache
add_lem r w up new = rw (new, up) (refl, refl, λ k. refl)

gone :
    (r : FinancialRecord)
    → r.is_deleted ≡ true
    → (rows : List FinancialRecordModel)
    → find? (live_id r.id) (update_where (λ m. m.id == r.id) (assign_row r) rows) ≡ none
unfolding find? update_where
gone r d [] = refl
gone r d (m ∷ rows) = ground (arith, d, gone r d rows)

-- While the cache answers, a record that is there and is stored as deleted is found no more, and of
-- the cache just the dashboards of its owner and of all users are dropped.
pub update-deleted :
    (r : FinancialRecord) (w : World)
    → w.cache_up ≡ true
    → any (λ m. m.id == r.id) w.session.records ≡ true
    → r.is_deleted ≡ true
    → let (x, w') = update r w in
      (x ≡ ok tt) × (get_by_id r.id w' ≡ (ok none, w')) × Forgets r.user_id w w'
unfolding update get_by_id map_found ◌>>=◌ query raise_if pure write invalidate on_cache
update-deleted r w up there d = rw (there, up, gone r d w.session.records) (refl, refl, λ k. refl)

-- What one more row adds to a summary.
unfoldable pub with_row : FinancialRecordModel → DashboardSummary → DashboardSummary
with_row m s = elim m.record_type [
  | RecordType.income ↦ record s {
    total_income = s.total_income +ℤ m.amount;
    net_balance = s.net_balance +ℤ m.amount;
    total_records = s.total_records + 1;
  }
  | RecordType.expense ↦ record s {
    total_expense = s.total_expense +ℤ m.amount;
    net_balance = s.net_balance -ℤ m.amount;
    total_records = s.total_records + 1;
  }
]

zero_add : (a : ℤ) → a +ℤ pos 0 ≡ pos 0 +ℤ a
zero_add a = grind int_laws

add_assoc : (a b c : ℤ) → a +ℤ (b +ℤ c) ≡ a +ℤ b +ℤ c
add_assoc a b c = grind int_laws

add_sub : (a b c : ℤ) → (a +ℤ c) -ℤ b ≡ (a -ℤ b) +ℤ c
add_sub a b c = grind int_laws

sub_add : (a b c : ℤ) → a -ℤ (b +ℤ c) ≡ (a -ℤ b) -ℤ c
sub_add a b c = grind int_laws

sum_of-append :
    (t : RecordType) (m : FinancialRecordModel) (rows : List FinancialRecordModel)
    → sum_of t (rows ++ m ∷ [])
      ≡ (if same_type m.record_type t then sum_of t rows +ℤ m.amount else sum_of t rows)
unfolding sum_of
sum_of-append t m [] =
    ap (λ (a : ℤ). if same_type m.record_type t then a else pos 0) (zero_add m.amount)
sum_of-append t m (x ∷ rows) =
    ground (arith, sum_of-append t m rows, add_assoc x.amount (sum_of t rows) m.amount)

length-append : {A : Type 0} (a : A) (xs : List A) → length (xs ++ a ∷ []) ≡ length xs + 1
length-append a [] = refl
length-append a (x ∷ xs) = rw (length-append a xs) (omega arith)

-- The summary of one more row, for a row of a given type.
append_typed :
    (t : RecordType) (m : FinancialRecordModel) (rows : List FinancialRecordModel)
    → m.record_type ≡ t
    → summary_of (rows ++ m ∷ []) ≡ with_row m (summary_of rows)
unfolding summary_of with_row
append_typed RecordType.income m rows e =
    rw
      (
        sum_of-append RecordType.income m rows,
        sum_of-append RecordType.expense m rows,
        length-append m rows,
        e,
        add_sub (sum_of RecordType.income rows) (sum_of RecordType.expense rows) m.amount,
      )
      refl
append_typed RecordType.expense m rows e =
    rw
      (
        sum_of-append RecordType.income m rows,
        sum_of-append RecordType.expense m rows,
        length-append m rows,
        e,
        sub_add (sum_of RecordType.income rows) (sum_of RecordType.expense rows) m.amount,
      )
      refl

summary_of-append :
    (m : FinancialRecordModel) (rows : List FinancialRecordModel)
    → summary_of (rows ++ m ∷ []) ≡ with_row m (summary_of rows)
summary_of-append m rows = append_typed m.record_type m rows refl

summary_of-select :
    (p : FinancialRecordModel → Bool) (m : FinancialRecordModel) (rows : List FinancialRecordModel)
    → summary_of (rows ++ select p (m ∷ []))
      ≡ (if p m then with_row m (summary_of rows) else summary_of rows)
unfolding select
summary_of-select p m rows = elim (Bool-cases (p m)) [
  | inl e ↦ rw (e) (summary_of-append m rows)
  | inr e ↦ rw (e, append-nil rows) refl
]

-- The summary over a window of dates, of one user or of all, after a record with a new identifier
-- has been stored while the cache answers: the
-- new row's share is added where the row is in scope, and else the summary is as it was.
pub summary_after_add :
    (r : FinancialRecord) (w : World) (user_id date_from date_to : Option ℕ)
    → w.cache_up ≡ true
    → any (λ m. m.id == r.id) w.session.records ≡ false
    → let (x, w') = add r w in
      get_dashboard_summary user_id date_from date_to w' ≡ (
        ok (
            if in_scope user_id date_from date_to (row_of w.now r)
            then with_row
                (row_of w.now r)
                (summary_of (select (in_scope user_id date_from date_to) w.session.records))
            else summary_of (select (in_scope user_id date_from date_to) w.session.records)),
        w',
      )
unfolding get_dashboard_summary query
summary_after_add r w user_id date_from date_to up new =
    let (x, rows, k) = add_lem r w up new in
    rw
      (
        rows,
        select-append (in_scope user_id date_from date_to) w.session.records (row_of w.now r ∷ []),
      )
      (ap (λ s. (ok s, (add r w).1))
        (summary_of-select (in_scope user_id date_from date_to) (row_of w.now r) _))
