-- ===== src/Raydium/Fees.antt =====
-- The fee functions of src/adapters/raydium_cpmm/math.ts. `null` is an exit.
pub mod Bounds
pub mod PreFee
use atomarb.Common.{
  ℕ, ◌+◌, ◌-◌, ◌*◌, ◌/◌, Result, ok, err, null, ◌>>=◌, ◌>>◌, exit_if, u128_max, ltb, ◌==◌,
  if◌then◌else◌,
}
use atomarb.Raydium.Layout.{fee_rate_denominator}

pub record FeeRates : Type 0 where
  pub trade_fee_rate : ℕ
  pub creator_fee_rate : ℕ
  pub protocol_fee_rate : ℕ
  pub fund_fee_rate : ℕ

-- The amounts are bigints that never go below 0 here, so only the upper test can fire.
unfoldable pub in_u128 : ℕ → Result ℕ
in_u128 x = if ltb u128_max x then err null else ok x

unfoldable pub fee_ceil_div : ℕ → ℕ → ℕ → Result ℕ
unfolding in_u128
fee_ceil_div token_amount num den = do
  exit_if (den == 0) null
  m ← in_u128 (token_amount * num)
  a ← in_u128 (m + den)
  ok ((a - 1) / den)

unfoldable pub fee_floor_div : ℕ → ℕ → ℕ → Result ℕ
unfolding in_u128
fee_floor_div token_amount num den = do
  exit_if (den == 0) null
  m ← in_u128 (token_amount * num)
  ok (m / den)

unfoldable pub trading_fee : ℕ → ℕ → Result ℕ
unfolding fee_ceil_div
trading_fee amount rate = fee_ceil_div amount rate fee_rate_denominator

unfoldable pub protocol_fee_of : ℕ → ℕ → Result ℕ
unfolding fee_floor_div
protocol_fee_of trade_fee rate = fee_floor_div trade_fee rate fee_rate_denominator

unfoldable pub fund_fee_of : ℕ → ℕ → Result ℕ
unfolding fee_floor_div
fund_fee_of trade_fee rate = fee_floor_div trade_fee rate fee_rate_denominator

unfoldable pub creator_fee_of : ℕ → ℕ → Result ℕ
unfolding fee_ceil_div
creator_fee_of amount rate = fee_ceil_div amount rate fee_rate_denominator

unfoldable pub split_creator_fee : ℕ → ℕ → ℕ → Result ℕ
unfolding fee_floor_div
split_creator_fee total_fee trade_rate creator_rate =
    fee_floor_div total_fee creator_rate (trade_rate + creator_rate)

unfoldable pub calculate_pre_fee_amount : ℕ → ℕ → Result ℕ
unfolding in_u128
calculate_pre_fee_amount post rate = if rate == 0 then ok post else do
  numerator ← in_u128 (post * fee_rate_denominator)
  exit_if (ltb fee_rate_denominator rate) null
  let denominator = fee_rate_denominator - rate
  a ← in_u128 (numerator + denominator)
  exit_if (denominator == 0) null
  ok ((a - 1) / denominator)
