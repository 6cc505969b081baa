-- ===== src/Bigint.antt =====
-- The integer helpers of src/util/bigint.ts that the adapters call. A throw is an exit.
use atomarb.Common.Int.{ℤ, pos, ltb_ℤ}
use atomarb.Common.{
  overflow, u64_max, u128_max, ltb, ◌||◌, ℕ, ◌+◌, ◌-◌, ◌*◌, ◌/◌, ◌≤◌, ◌<◌, ◌≡◌, Result, ok, throw,
  division_by_zero, ◌>>◌, exit_if, ◌==◌, arith,
}
use atomarb.Common.Div.{ceil_bounds}

-- `ceilDiv` and `floorDiv`, on operands that are not negative.
unfoldable pub ceil_div : ℕ → ℕ → Result ℕ
ceil_div a b = do exit_if (b == 0) (throw division_by_zero); ok ((a + b - 1) / b)

unfoldable pub floor_div : ℕ → ℕ → Result ℕ
floor_div a b = do exit_if (b == 0) (throw division_by_zero); ok (a / b)

-- A quotient rounded up is the least multiplier that reaches the dividend.
pub record IsCeil (a b q : ℕ) : Type 0 where
  pub reaches : a ≤ q * b
  pub below : q * b < a + b

pub ceil_div-ok :
    (a b : ℕ) → 0 < b → (ceil_div a b ≡ ok ((a + b - 1) / b)) × IsCeil a b ((a + b - 1) / b)
unfolding ceil_div
ceil_div-ok a b h =
    let (l, u) = ceil_bounds a b h in (ground arith, record { reaches = l; below = u })

-- `assertU64` and `assertU128`
unfoldable pub assert_u64 : ℤ → Result ℤ
assert_u64 x = do exit_if (ltb_ℤ x (pos 0) || ltb_ℤ (pos u64_max) x) (throw overflow); ok x

unfoldable pub assert_u128 : ℤ → Result ℤ
assert_u128 x = do exit_if (ltb_ℤ x (pos 0) || ltb_ℤ (pos u128_max) x) (throw overflow); ok x

-- The products of operands that are not negative.
unfoldable pub mul_div_floor : ℕ → ℕ → ℕ → Result ℕ
unfolding floor_div
mul_div_floor a b c = do exit_if (ltb u128_max (a * b)) (throw overflow); floor_div (a * b) c

unfoldable pub mul_div_ceil : ℕ → ℕ → ℕ → Result ℕ
unfolding ceil_div
mul_div_ceil a b c = do exit_if (ltb u128_max (a * b)) (throw overflow); ceil_div (a * b) c

unfoldable pub bps_of : ℕ → ℕ → Result ℕ
unfolding floor_div
bps_of amount bps = floor_div (amount * bps) 10_000

unfoldable pub bps_of_ceil : ℕ → ℕ → Result ℕ
unfolding ceil_div
bps_of_ceil amount bps = ceil_div (amount * bps) 10_000
