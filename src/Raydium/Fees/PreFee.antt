-- ===== src/Raydium/Fees/PreFee.antt =====
-- `calculatePreFeeAmount` inverts the trading fee exactly.
use atomarb.Common.{ℕ, ◌+◌, ◌-◌, ◌*◌, ◌≤◌, ◌<◌, ◌≡◌, ok, arith}
use atomarb.Common.Div.{ceil_bounds, mul_sub, le_of_mul_lt}
use atomarb.Raydium.Layout.{fee_rate_denominator}
use atomarb.Raydium.Fees.{trading_fee, calculate_pre_fee_amount}
use atomarb.Raydium.Fees.Bounds.{fee_ceil_div_bounds}

abbrev D : ℕ
D = fee_rate_denominator

-- The two bounds that define the amount before the fee.
pub pre_fee_bounds :
    (post rate pre : ℕ)
    → calculate_pre_fee_amount post rate ≡ ok pre
    → (rate ≤ D)
      × (post * D ≤ pre * (D - rate))
      × (pre * (D - rate) < post * D + (D - rate))
      × (rate < D)
unfolding calculate_pre_fee_amount
pre_fee_bounds post rate pre h = ground (arith, ceil_bounds (post * D) (D - rate))

fee_le :
    (post rate pre fee : ℕ)
    → rate ≤ D
    → post * D ≤ pre * (D - rate)
    → fee * D < pre * rate + D
    → post + fee ≤ pre
fee_le post rate pre fee p lo f =
    le_of_mul_lt (post + fee) pre D (omega (arith, mul_sub pre rate D p))

fee_ge :
    (post rate pre fee : ℕ)
    → rate ≤ D
    → pre * (D - rate) < post * D + (D - rate)
    → pre * rate ≤ fee * D
    → pre ≤ post + fee
fee_ge post rate pre fee p hi f =
    le_of_mul_lt pre (post + fee) D (omega (arith, mul_sub pre rate D p))

-- The amount before the fee, less its trading fee, is the amount after it: neither is a unit off.
pub pre_fee-trading_fee :
    (post rate pre fee : ℕ)
    → calculate_pre_fee_amount post rate ≡ ok pre
    → trading_fee pre rate ≡ ok fee
    → pre ≡ post + fee
unfolding trading_fee
pre_fee-trading_fee post rate pre fee h k =
    let (le, lo, hi, _) = pre_fee_bounds post rate pre h in
    let (f, g) = fee_ceil_div_bounds pre rate D fee k in
    omega (arith, fee_le post rate pre fee le lo g, fee_ge post rate pre fee le hi f)
