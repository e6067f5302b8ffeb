-- ===== src/DateRange.antt =====
-- app/domain/value_objects/date_range.py. A date is its proleptic ordinal (1 is 0001-01-01), and
-- `today` is what `date.today()` returns. `current_month` is not modelled.
pub mod Laws
use financial_data.Prelude.{ℕ, ◌+◌, ◌-◌, ◌%◌, Bool, ◌&&◌, leb, ltb, ◌==◌}
use financial_data.Result.{
  Result, ok, value_error, overflow_error, start_after_end, end_in_future, raise_if, ◌>>=◌, ◌>>◌,
}

pub record DateRange : Type 0 where
  pub start : ℕ
  pub end : ℕ

-- DateRange(start, end)
unfoldable pub new : ℕ → ℕ → ℕ → Result DateRange
new today start end = do
  raise_if (ltb end start) (value_error start_after_end)
  raise_if (ltb today end) (value_error end_in_future)
  ok (record { start = start; end = end })

-- (self._end - self._start).days + 1
unfoldable pub days : DateRange → ℕ
days r = r.end - r.start + 1

unfoldable pub contains : DateRange → ℕ → Bool
contains r d = leb r.start d && leb d r.end

unfoldable pub overlaps : DateRange → DateRange → Bool
overlaps r other = leb r.start other.end && leb other.start r.end

-- __eq__
unfoldable pub eq : DateRange → DateRange → Bool
eq a b = a.start == b.start && a.end == b.end

-- last_n_days: today - (n - 1) days, which must be a date
unfoldable pub last_n_days : ℕ → ℕ → Result DateRange
unfolding new
last_n_days today n = do
  raise_if (leb (today + 1) n) overflow_error
  new today (today + 1 - n) today

-- date.weekday(): 0 is Monday
unfoldable pub weekday : ℕ → ℕ
weekday d = (d + 6) % 7

-- current_week
unfoldable pub current_week : ℕ → Result DateRange
unfolding new weekday
current_week today = new today (today - weekday today) today
