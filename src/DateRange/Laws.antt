-- ===== src/DateRange/Laws.antt =====
-- What a range promises, and that its tests and its length mean what they say.
use financial_data.Prelude.{
  ℕ, zero, suc, ◌+◌, ◌-◌, ◌≡◌, ◌≤◌, ◌<◌, ◌↔◌, ◌%◌, inl, inr, refl, true, leb, if◌then◌else◌, arith,
  Bool-cases,
}
use financial_data.Result.{ok, err, value_error, start_after_end, end_in_future}
use financial_data.DateRange.{
  DateRange, new, days, contains, overlaps, last_n_days, weekday, current_week,
}

-- The start is not after the end, and the end is not in the future.
pub record IsValid (today : ℕ) (r : DateRange) : Type 0 where
  pub ordered : r.start ≤ r.end
  pub past : r.end ≤ today

-- The constructor gives a valid range with the bounds it was given, raises for a start after the
-- end, and otherwise raises for an end in the future.
pub new_lem :
    (today start end : ℕ)
    → (start ≤ end
        → end ≤ today
        → IsValid today (record { start = start; end = end })
          × (new today start end ≡ ok (record { start = start; end = end })))
      × (end < start → new today start end ≡ err (value_error start_after_end))
      × (start ≤ end → today < end → new today start end ≡ err (value_error end_in_future))
unfolding new
new_lem today start end = (
  λ p q. (record { ordered = p; past = q }, ground arith),
  λ p. ground arith,
  λ p q. ground arith,
)

-- How many of the `n` days from `d` on the range contains.
pub count_from : DateRange → ℕ → ℕ → ℕ
count_from r d zero = 0
count_from r d (suc n) = (if contains r d then 1 else 0) + count_from r (d + 1) n

count_from-eq : (r : DateRange) (d n : ℕ) → r.start ≤ d → d + n ≤ r.end + 1 → count_from r d n ≡ n
unfolding count_from contains
count_from-eq r d zero p q = refl
count_from-eq r d (suc n) p q = ground (arith, count_from-eq r (d + 1) n)

-- `days` counts the days from the start to the end that the range contains.
pub days-contains :
    (today : ℕ) (r : DateRange)
    → IsValid today r
    → days r ≡ count_from r r.start (r.end + 1 - r.start)
unfolding days
days-contains today r h =
    rw (count_from-eq r r.start (r.end + 1 - r.start) (omega arith) (omega arith)) (omega arith)

-- Two valid ranges overlap exactly when some day lies in both.
pub overlaps_iff :
    (today : ℕ) (r s : DateRange)
    → IsValid today r
    → IsValid today s
    → (overlaps r s ≡ true) ↔ ((d : ℕ) × (contains r d ≡ true) × (contains s d ≡ true))
unfolding overlaps contains
overlaps_iff today r s h k = (
  λ e. elim (Bool-cases (leb r.start s.start)) [
    | inl p ↦ (s.start, ground arith, ground arith)
    | inr p ↦ (r.start, ground arith, ground arith)
  ],
  λ w. let (d, p, q) = w in ground arith,
)

-- The last n days, for n from 1 up to today's ordinal, are a valid range of n days that ends today.
pub last_n_days_lem :
    (today n : ℕ)
    → 0 < n
    → n ≤ today
    → (r : DateRange) × (last_n_days today n ≡ ok r)
      × IsValid today r
      × (days r ≡ n)
      × (r.end ≡ today)
unfolding last_n_days days
last_n_days_lem today n p q = (
  record { start = today + 1 - n; end = today },
  ground arith,
  record { ordered = omega arith; past = omega arith },
  omega arith,
  refl,
)

-- The current week, from the second week of the calendar on, is a range of at most seven days from a Monday to today.
pub current_week_lem :
    (today : ℕ)
    → 7 ≤ today
    → (r : DateRange) × (current_week today ≡ ok r)
      × (weekday r.start ≡ 0)
      × (days r ≤ 7)
      × (contains r today ≡ true)
unfolding current_week days contains
current_week_lem today h = (
  record { start = today - (today + 6) % 7; end = today },
  ground arith,
  omega arith,
  omega arith,
  ground arith,
)
