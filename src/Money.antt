-- ===== src/Money.antt =====
-- app/domain/value_objects/money.py. A `Decimal` with two places is the integer of its cents.
-- Finite decimals are n / 10^places; the context is Python's default (28 digits, quiet NaN).
pub mod Rounding
pub mod Laws
use financial_data.Prelude.{
  ℕ, ◌+◌, ◌-◌, ◌*◌, ◌/◌, ◌^◌, ◌&&◌, Bool, Option, none, some, ltb, leb, if◌then◌else◌,
}
use financial_data.Prelude.Int.{
  ℤ, pos, negsuc, pos_part, neg_part, sub_ℕ, ◌+ℤ◌, ◌-ℤ◌, ltb_ℤ, leb_ℤ, eqb_ℤ,
}
use financial_data.Result.{
  Result, ok, err, value_error, invalid_operation, invalid_amount, amount_too_small,
  amount_too_large, negative_result, raise_if, ◌>>=◌, ◌>>◌,
}

-- decimal.Decimal
pub data Decimal : Type 0 where
  finite : ℤ → ℕ → Decimal
  infinity nan : Decimal

pub record Money : Type 0 where
  pub cents : ℤ

-- MAX_AMOUNT and MIN_AMOUNT, in cents
abbrev pub max_amount : ℤ
max_amount = pos 99999999999

abbrev pub min_amount : ℤ
min_amount = pos 1

-- The cents of a magnitude n / 10^places, with halves rounded up.
unfoldable pub round_half_up : ℕ → ℕ → ℕ
round_half_up n places =
    if leb places 2 then n * 10 ^ (2 - places) else (n + 10 ^ (places - 2) / 2) / 10 ^ (places - 2)

-- value.quantize(Decimal("0.01"), rounding=ROUND_HALF_UP): the sign is kept, and a coefficient of
-- more than 28 digits is an InvalidOperation. `none` is NaN, which passes.
unfoldable pub quantize : Decimal → Result (Option ℤ)
unfolding round_half_up
quantize (finite n places) =
    let p = round_half_up (pos_part n) places in
    let m = round_half_up (neg_part n) places in
    if ltb p (10 ^ 28) && ltb m (10 ^ 28) then ok (some (sub_ℕ p m)) else err invalid_operation
quantize infinity = err invalid_operation
quantize nan = ok none

-- The two range tests of `__init__`; ordering a NaN is an InvalidOperation.
unfoldable pub check_range : Option ℤ → Result Money
check_range none = err invalid_operation
check_range (some value) =
    if ltb_ℤ value min_amount
    then err (value_error amount_too_small)
    else if ltb_ℤ max_amount value
    then err (value_error amount_too_large)
    else ok (record { cents = value })

-- `Money.__init__`, from what `Decimal(str(amount))` gives: `none` where that raises.
unfoldable pub new : Option Decimal → Result Money
unfolding quantize check_range
new none = err (value_error invalid_amount)
new (some value) = quantize value >>= check_range

-- `Money(value)` of a `Decimal` with two places.
unfoldable pub of_cents : ℤ → Result Money
unfolding new
of_cents value = new (some (finite value 2))

-- __eq__, __lt__, __le__, __gt__ and __ge__
unfoldable pub eq : Money → Money → Bool
eq a b = eqb_ℤ a.cents b.cents

unfoldable pub lt : Money → Money → Bool
lt a b = ltb_ℤ a.cents b.cents

unfoldable pub le : Money → Money → Bool
le a b = leb_ℤ a.cents b.cents

unfoldable pub gt : Money → Money → Bool
gt a b = ltb_ℤ b.cents a.cents

unfoldable pub ge : Money → Money → Bool
ge a b = leb_ℤ b.cents a.cents

-- __add__
unfoldable pub add : Money → Money → Result Money
unfolding of_cents ◌+ℤ◌
add a b = of_cents (a.cents +ℤ b.cents)

-- __sub__
unfoldable pub sub : Money → Money → Result Money
unfolding of_cents ◌-ℤ◌
sub a b =
    let result = a.cents -ℤ b.cents in
    raise_if (ltb_ℤ result (pos 0)) (value_error negative_result) >> of_cents result

-- zero() skips the range test.
unfoldable pub zero_money : Money
zero_money = record { cents = pos 0 }

-- to_decimal: the quantized value
unfoldable pub to_decimal : Money → Decimal
to_decimal m = finite m.cents 2
