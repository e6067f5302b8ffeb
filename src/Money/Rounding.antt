-- ===== src/Money/Rounding.antt =====
-- `quantize` rounds to the nearest cent, with halves away from zero.
use native.Mathlib.Nat.{pow-succ', one-le-pow}
use financial_data.Prelude.{
  ℕ, zero, suc, ◌+◌, ◌-◌, ◌*◌, ◌/◌, ◌^◌, ◌≤◌, ◌<◌, ◌≡◌, arith, leb, true, false,
}
use financial_data.Money.{round_half_up}

-- Half of an even unit is exact.
half_up_bounds :
    (n r u : ℕ)
    → u ≡ 10 * r
    → 0 < r
    → (2 * ((n + u / 2) / u * u) ≤ 2 * n + u) × (2 * n < 2 * ((n + u / 2) / u * u) + u)
half_up_bounds n r u e h = omega arith

unit_even : (d : ℕ) → 0 < d → (r : ℕ) × (10 ^ d ≡ 10 * r) × (0 < r)
unit_even zero h = elim h [ ]
unit_even (suc d) h = (10 ^ d, pow-succ' 10 d, one-le-pow d 10 (omega arith))

-- A magnitude n / 10^places with more than two places goes to the nearest cent q, and half a cent
-- goes up: with u = 10^(places - 2) to the cent, 2qu ≤ 2n + u and 2n < 2qu + u.
pub round_half_up_nearest :
    (n places : ℕ)
    → 2 < places
    → (2 * (round_half_up n places * 10 ^ (places - 2)) ≤ 2 * n + 10 ^ (places - 2))
      × (2 * n < 2 * (round_half_up n places * 10 ^ (places - 2)) + 10 ^ (places - 2))
unfolding round_half_up
round_half_up_nearest n places h =
    let (r, e, p) = unit_even (places - 2) (omega arith) in
    let long : leb places 2 ≡ false = ground arith in
    rw long (half_up_bounds n r (10 ^ (places - 2)) e p)

-- A magnitude with at most two places is kept: q cents are the value n / 10^places.
pub round_half_up_exact :
    (n places : ℕ) → leb places 2 ≡ true → round_half_up n places * 10 ^ places ≡ n * 100
unfolding round_half_up
round_half_up_exact n zero h = omega arith
round_half_up_exact n (suc zero) h = omega arith
round_half_up_exact n (suc (suc zero)) h = omega arith
round_half_up_exact n (suc (suc (suc k))) h = ground arith
