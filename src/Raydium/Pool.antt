-- ===== src/Raydium/Pool.antt =====
-- The pool helpers of src/adapters/raydium_cpmm/math.ts: the reserves net
-- of the fee counters, the creator-fee side, and the counters' update after a swap.
pub mod Counters
use atomarb.Common.{
  ℕ, ◌+◌, ◌-◌, Bool, true, false, ◌&&◌, ◌||◌, not, Result, ok, err, null, fail, throw, overflow,
  math_overflow, insufficient_vault, bad_fee_update, ◌>>=◌, ◌>>◌, exit_if, u64_max, ltb, ◌==◌,
  if◌then◌else◌,
}
use atomarb.Raydium.Layout.{PoolState, AmmConfig, both_token, only_token_0, only_token_1}
use atomarb.Raydium.Fees.{FeeRates}

pub data TradeDirection : Type 0 where
  zero_for_one one_for_zero : TradeDirection

abbrev pub is_zero_for_one : TradeDirection → Bool
is_zero_for_one zero_for_one = true
is_zero_for_one one_for_zero = false

unfoldable pub is_creator_fee_on_input : ℕ → TradeDirection → Result Bool
is_creator_fee_on_input creator_fee_on direction =
    if creator_fee_on == both_token
    then ok true
    else if creator_fee_on == only_token_0
    then ok (is_zero_for_one direction)
    else if creator_fee_on == only_token_1
    then ok (not (is_zero_for_one direction))
    else err null

unfoldable pub adjust_creator_fee_rate : PoolState → ℕ → ℕ
adjust_creator_fee_rate pool rate = if pool.enable_creator_fee then rate else 0

pub record Reserves : Type 0 where
  pub reserve_0 : ℕ
  pub reserve_1 : ℕ
  pub fees_0 : ℕ
  pub fees_1 : ℕ

-- The sums of the three counters of a side.
abbrev pub fees_of_0 : PoolState → ℕ
fees_of_0 p = p.protocol_fees_token_0 + p.fund_fees_token_0 + p.creator_fees_token_0

abbrev pub fees_of_1 : PoolState → ℕ
fees_of_1 p = p.protocol_fees_token_1 + p.fund_fees_token_1 + p.creator_fees_token_1

unfoldable pub vault_amount_without_fee : PoolState → ℕ → ℕ → Result Reserves
vault_amount_without_fee pool vault_0 vault_1 = do
  let fees_0 = fees_of_0 pool
  let fees_1 = fees_of_1 pool
  exit_if (ltb u64_max fees_0 || ltb u64_max fees_1) (fail math_overflow)
  exit_if (ltb vault_0 fees_0) (fail insufficient_vault)
  exit_if (ltb vault_1 fees_1) (fail insufficient_vault)
  ok (record {
    reserve_0 = vault_0 - fees_0;
    reserve_1 = vault_1 - fees_1;
    fees_0 = fees_0;
    fees_1 = fees_1;
  })

unfoldable pub fee_rates_of : AmmConfig → PoolState → FeeRates
unfolding adjust_creator_fee_rate
fee_rates_of config pool = record {
  trade_fee_rate = config.trade_fee_rate;
  creator_fee_rate = adjust_creator_fee_rate pool config.creator_fee_rate;
  protocol_fee_rate = config.protocol_fee_rate;
  fund_fee_rate = config.fund_fee_rate;
}

-- The counters after the additions, before they are checked.
unfoldable pub advance_fees : PoolState → TradeDirection → Bool → ℕ → ℕ → ℕ → PoolState
advance_fees pool zero_for_one true protocol fund creator = record pool {
  protocol_fees_token_0 = pool.protocol_fees_token_0 + protocol;
  fund_fees_token_0 = pool.fund_fees_token_0 + fund;
  creator_fees_token_0 = pool.creator_fees_token_0 + creator;
}
advance_fees pool zero_for_one false protocol fund creator = record pool {
  protocol_fees_token_0 = pool.protocol_fees_token_0 + protocol;
  fund_fees_token_0 = pool.fund_fees_token_0 + fund;
  creator_fees_token_1 = pool.creator_fees_token_1 + creator;
}
advance_fees pool one_for_zero true protocol fund creator = record pool {
  protocol_fees_token_1 = pool.protocol_fees_token_1 + protocol;
  fund_fees_token_1 = pool.fund_fees_token_1 + fund;
  creator_fees_token_1 = pool.creator_fees_token_1 + creator;
}
advance_fees pool one_for_zero false protocol fund creator = record pool {
  protocol_fees_token_1 = pool.protocol_fees_token_1 + protocol;
  fund_fees_token_1 = pool.fund_fees_token_1 + fund;
  creator_fees_token_0 = pool.creator_fees_token_0 + creator;
}

-- `next[k] > U64_MAX` for one of the six counters.
unfoldable pub fees_overflow : PoolState → Bool
fees_overflow p =
    ltb u64_max p.protocol_fees_token_0
    || ltb u64_max p.protocol_fees_token_1
    || ltb u64_max p.fund_fees_token_0
    || ltb u64_max p.fund_fees_token_1
    || ltb u64_max p.creator_fees_token_0
    || ltb u64_max p.creator_fees_token_1

unfoldable pub apply_fee_update : PoolState → TradeDirection → Bool → ℕ → ℕ → ℕ → Result PoolState
unfolding advance_fees fees_overflow
apply_fee_update pool direction on_input protocol fund creator = do
  exit_if (not pool.enable_creator_fee && not (creator == 0)) (throw bad_fee_update)
  let next = advance_fees pool direction on_input protocol fund creator
  exit_if (fees_overflow next) (throw overflow)
  ok next
