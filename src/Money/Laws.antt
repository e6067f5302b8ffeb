-- ===== src/Money/Laws.antt =====
-- What a `Money` is, and the arithmetic of `Money`.
use financial_data.Prelude.{if◌then◌else◌, ◌^◌, ◌<◌, ◌≡◌, arith, Option, none, some}
use financial_data.Prelude.Int.{
  leb_ℤ, ltb_ℤ, eqb_ℤ, ℤ, pos, negsuc, pos_part, neg_part, ◌+ℤ◌, ◌-ℤ◌, ◌≤ℤ◌,
}
use financial_data.Result.{
  ok, err, value_error, amount_too_small, amount_too_large, negative_result, ◌>>=◌,
}
use financial_data.Money.{
  Decimal, finite, Money, max_amount, min_amount, quantize, check_range, new, of_cents, add, sub,
}

-- The class's promise: positive, and within the limit.
pub record IsValid (m : Money) : Type 0 where
  pub lower : min_amount ≤ℤ m.cents
  pub upper : m.cents ≤ℤ max_amount

check_range-IsValid : (v : Option ℤ) (m : Money) → check_range v ≡ ok m → IsValid m
unfolding check_range
check_range-IsValid v m h = ground arith

-- Every amount that the constructor accepts is at least 0.01 and at most 999999999.99.
pub new_bounds : (d : Option Decimal) (m : Money) → new d ≡ ok m → IsValid m
unfolding new
new_bounds none m h = cc
new_bounds (some d) m h =
    elim (quantize d) as (λ q. (q >>= check_range) ≡ ok m → IsValid m) [
      | ok v ↦ λ e. check_range-IsValid v m e
      | err e ↦ λ f. cc
    ]
      h

-- A decimal with two places is quantized to itself.
quantize_two :
    (v : ℤ) → pos_part v < 10 ^ 28 → neg_part v < 10 ^ 28 → quantize (finite v 2) ≡ ok (some v)
unfolding quantize
quantize_two (pos n) p q = ground arith
quantize_two (negsuc n) p q = ground arith

-- `Money(value)` of cents that are not astronomically large is the range test alone.
of_cents_lem :
    (v : ℤ) → pos_part v < 10 ^ 28 → neg_part v < 10 ^ 28 → of_cents v ≡ check_range (some v)
unfolding of_cents
of_cents_lem v p q = rw (quantize_two v p q)

-- A valid amount reads back as itself: `map_record` rebuilds what `add` and `update` stored.
pub of_cents-cents : (m : Money) → IsValid m → of_cents m.cents ≡ ok m
unfolding check_range
of_cents-cents m h = rw (of_cents_lem m.cents (ground arith) (ground arith)) (ground arith)

-- Adding valid amounts gives the exact sum, and fails exactly where the sum is over the limit.
pub add_exact :
    (a b : Money)
    → IsValid a
    → IsValid b
    → add a b ≡ (
        if leb_ℤ (a.cents +ℤ b.cents) max_amount
        then ok (record { cents = a.cents +ℤ b.cents })
        else err (value_error amount_too_large))
unfolding add check_range
add_exact a b h k =
    rw (of_cents_lem (a.cents +ℤ b.cents) (ground arith) (ground arith)) (ground arith)

-- Subtracting valid amounts: a larger from a smaller is refused as negative, equal amounts as too
-- small, and in every other case the difference is exact.
pub sub_exact :
    (a b : Money)
    → IsValid a
    → IsValid b
    → sub a b ≡ (
        if ltb_ℤ a.cents b.cents
        then err (value_error negative_result)
        else if eqb_ℤ a.cents b.cents
        then err (value_error amount_too_small)
        else ok (record { cents = a.cents -ℤ b.cents }))
unfolding sub check_range
sub_exact a b h k =
    rw (of_cents_lem (a.cents -ℤ b.cents) (ground arith) (ground arith)) (ground arith)
