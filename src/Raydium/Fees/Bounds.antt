-- ===== src/Raydium/Fees/Bounds.antt =====
-- Bounds of the fee functions of src/adapters/raydium_cpmm/math.ts.
use atomarb.Common.{ℕ, ◌+◌, ◌-◌, ◌/◌, ◌*◌, ◌≤◌, ◌<◌, ◌≡◌, ok, arith, u128_max}
use atomarb.Common.Div.{div_bounds, ceil_bounds, le_of_mul_le, mul_mono_r}
use atomarb.Raydium.Layout.{fee_rate_denominator}
use atomarb.Raydium.Fees.{
  fee_ceil_div, fee_floor_div, trading_fee, protocol_fee_of, fund_fee_of, creator_fee_of,
  split_creator_fee,
}

-- The rounded-up quotient covers the amount's share, by less than one unit.
pub fee_ceil_div_bounds :
    (amount num den fee : ℕ)
    → fee_ceil_div amount num den ≡ ok fee
    → (amount * num ≤ fee * den) × (fee * den < amount * num + den)
unfolding fee_ceil_div
fee_ceil_div_bounds amount num den fee h = ground (arith, ceil_bounds (amount * num) den)

pub fee_floor_div_bounds :
    (amount num den fee : ℕ)
    → fee_floor_div amount num den ≡ ok fee
    → (fee * den ≤ amount * num) × (amount * num < fee * den + den)
unfolding fee_floor_div
fee_floor_div_bounds amount num den fee h = ground (arith, div_bounds (amount * num) den)

-- Without overflow a fee is computed.
pub fee_ceil_div_returns :
    (amount num den : ℕ)
    → 0 < den
    → amount * num + den ≤ u128_max
    → fee_ceil_div amount num den ≡ ok ((amount * num + den - 1) / den)
unfolding fee_ceil_div
fee_ceil_div_returns amount num den p h = ground arith

-- A rate of at most 100% takes at most the whole amount.
pub trading_fee-le :
    (amount rate fee : ℕ)
    → rate ≤ fee_rate_denominator
    → trading_fee amount rate ≡ ok fee
    → fee ≤ amount
unfolding trading_fee
trading_fee-le amount rate fee p h = omega (
  arith,
  fee_ceil_div_bounds amount rate fee_rate_denominator fee h,
  mul_mono_r rate fee_rate_denominator amount p,
)

-- A share `c` of `t + c` parts.
share_le : (total t c fee : ℕ) → 0 < t + c → fee * (t + c) ≤ total * c → fee ≤ total
share_le total t c fee p h =
    le_of_mul_le fee total (t + c) p (omega (arith, mul_mono_r c (t + c) total (omega arith)))

-- The creator's share of a total fee is at most the total, so the trade fee that is left is exact.
pub split_creator_fee-le :
    (total trade creator fee : ℕ) → split_creator_fee total trade creator ≡ ok fee → fee ≤ total
unfolding split_creator_fee fee_floor_div
split_creator_fee-le total trade creator fee h =
    ground (arith, div_bounds (total * creator) (trade + creator), share_le total trade creator fee)

-- The protocol's and the fund's parts together fit in the trade fee that they are carved out of.
pub protocol-fund-le :
    (trade p f protocol fund : ℕ)
    → p + f ≤ fee_rate_denominator
    → protocol_fee_of trade p ≡ ok protocol
    → fund_fee_of trade f ≡ ok fund
    → protocol + fund ≤ trade
unfolding protocol_fee_of fund_fee_of
protocol-fund-le trade p f protocol fund le h k =
    le_of_mul_le (protocol + fund) trade fee_rate_denominator (omega arith) (
      omega (
        arith,
        fee_floor_div_bounds trade p fee_rate_denominator protocol h,
        fee_floor_div_bounds trade f fee_rate_denominator fund k,
        mul_mono_r (p + f) fee_rate_denominator trade le,
      ))

zero_of_mul : (a b : ℕ) → 0 < b → a * b ≤ 0 → a ≡ 0
zero_of_mul a b p h = grind arith

-- No creator rate, no creator fee: on the input side and on the output side.
pub split_creator_fee-zero :
    (total trade fee : ℕ) → split_creator_fee total trade 0 ≡ ok fee → fee ≡ 0
unfolding split_creator_fee fee_floor_div
split_creator_fee-zero total trade fee h =
    ground (arith, div_bounds (total * 0) (trade + 0), zero_of_mul fee (trade + 0))

pub creator_fee_of-zero : (amount fee : ℕ) → creator_fee_of amount 0 ≡ ok fee → fee ≡ 0
unfolding creator_fee_of
creator_fee_of-zero amount fee h =
    omega (arith, fee_ceil_div_bounds amount 0 fee_rate_denominator fee h)
