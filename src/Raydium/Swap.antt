-- ===== src/Raydium/Swap.antt =====
-- The instruction-level simulation of src/adapters/raydium_cpmm/math.ts:
-- `swap_base_input` and `swap_base_output` over the pool's raw vault amounts.
pub mod Input
pub mod Sides
pub mod Settle
pub mod Checks
pub mod Output
use atomarb.Common.{
  ℕ, ◌+◌, ◌-◌, ◌*◌, Bool, true, false, not, Option, none, some, Result, ok, err, null, fail, throw,
  overflow, u64_overflow, require_gt_violated, require_eq_violated, invalid_fee_model,
  zero_trading_tokens, exceeded_slippage, constant_product_decreased, u64_overflow_vault,
  insufficient_vault, ◌>>=◌, ◌>>◌, exit_if, on_null, u64_max, u128_max, ltb, ◌==◌, if◌then◌else◌,
}
use atomarb.Common.Int.{ℤ, pos, negsuc}
use atomarb.Raydium.Layout.{PoolState, AmmConfig}
use atomarb.Raydium.Fees.{FeeRates}
use atomarb.Raydium.Curve.{CurveResult, curve_swap_base_input, curve_swap_base_output}
use atomarb.Raydium.TransferFee.{MintFeeView, get_transfer_fee, get_transfer_inverse_fee}
use atomarb.Raydium.Pool.{
  TradeDirection, zero_for_one, one_for_zero, is_creator_fee_on_input, fee_rates_of,
  adjust_creator_fee_rate, Reserves, vault_amount_without_fee,
}

pub record SwapContext : Type 0 where
  pub pool : PoolState
  pub config : AmmConfig
  pub direction : TradeDirection
  pub input_vault_amount : ℕ
  pub output_vault_amount : ℕ
  pub input_mint : MintFeeView
  pub output_mint : MintFeeView
  pub epoch : ℕ

pub record SwapReserves : Type 0 where
  pub reserve_in : ℕ
  pub reserve_out : ℕ

-- `reservesFor`, on the direction of the context.
unfoldable pub reserves_by : TradeDirection → PoolState → ℕ → ℕ → Result SwapReserves
reserves_by zero_for_one pool vault_in vault_out = do
  r ← vault_amount_without_fee pool vault_in vault_out
  ok (record { reserve_in = r.reserve_0; reserve_out = r.reserve_1 })
reserves_by one_for_zero pool vault_in vault_out = do
  r ← vault_amount_without_fee pool vault_out vault_in
  ok (record { reserve_in = r.reserve_1; reserve_out = r.reserve_0 })

unfoldable pub reserves_for : SwapContext → Result SwapReserves
unfolding reserves_by
reserves_for ctx = reserves_by ctx.direction ctx.pool ctx.input_vault_amount ctx.output_vault_amount

pub record SwapBaseInputOk : Type 0 where
  pub transfer_fee_in : ℕ
  pub actual_amount_in : ℕ
  pub reserve_in : ℕ
  pub reserve_out : ℕ
  pub creator_fee_rate : ℕ
  pub is_creator_fee_on_input : Bool
  pub curve : CurveResult
  pub amount_out : ℕ
  pub transfer_fee_out : ℕ
  pub amount_received : ℕ
  pub constant_before : ℕ
  pub constant_after : ℕ
  pub vault_in_after : ℕ
  pub vault_out_after : ℕ

-- `minimumAmountOut !== undefined && amountReceived < minimumAmountOut`
unfoldable pub below_minimum : Option ℕ → ℕ → Bool
below_minimum none received = false
below_minimum (some minimum) received = ltb received minimum

-- `maxAmountIn !== undefined && maxAmountIn < inputTransferAmount`
unfoldable pub above_maximum : Option ℕ → ℕ → Bool
above_maximum none paid = false
above_maximum (some maximum) paid = ltb maximum paid

unfoldable pub simulate_swap_base_input : SwapContext → ℤ → Option ℕ → Result SwapBaseInputOk
simulate_swap_base_input ctx (negsuc _) minimum = err (fail u64_overflow)
simulate_swap_base_input ctx (pos amount_in) minimum = do
  exit_if (ltb u64_max amount_in) (fail u64_overflow)
  fee_in ← get_transfer_fee ctx.input_mint ctx.epoch amount_in
  let actual = if ltb fee_in amount_in then amount_in - fee_in else 0
  exit_if (actual == 0) (fail require_gt_violated)
  rs ← reserves_for ctx
  let before = rs.reserve_in * rs.reserve_out
  exit_if (ltb u128_max before) (throw overflow)
  on_input ←
      on_null (is_creator_fee_on_input ctx.pool.creator_fee_on ctx.direction)
        (fail invalid_fee_model)
  c ←
      on_null
        (curve_swap_base_input actual rs.reserve_in rs.reserve_out
          (fee_rates_of ctx.config ctx.pool) on_input)
        (fail zero_trading_tokens)
  let after = c.new_input_vault_amount * c.new_output_vault_amount
  exit_if (ltb u128_max after) (throw overflow)
  exit_if (ltb u64_max c.output_amount) (throw overflow)
  fee_out ← get_transfer_fee ctx.output_mint ctx.epoch c.output_amount
  exit_if (ltb c.output_amount fee_out) (throw overflow)
  let received = c.output_amount - fee_out
  exit_if (received == 0) (fail require_gt_violated)
  exit_if (below_minimum minimum received) (fail exceeded_slippage)
  exit_if (ltb u64_max c.protocol_fee) (throw overflow)
  exit_if (ltb u64_max c.fund_fee) (throw overflow)
  exit_if (ltb u64_max c.creator_fee) (throw overflow)
  exit_if (ltb after before) (fail constant_product_decreased)
  exit_if (ltb u64_max (ctx.input_vault_amount + actual)) (fail u64_overflow_vault)
  exit_if (ltb ctx.output_vault_amount c.output_amount) (fail insufficient_vault)
  ok (record {
    transfer_fee_in = fee_in;
    actual_amount_in = actual;
    reserve_in = rs.reserve_in;
    reserve_out = rs.reserve_out;
    creator_fee_rate = adjust_creator_fee_rate ctx.pool ctx.config.creator_fee_rate;
    is_creator_fee_on_input = on_input;
    curve = c;
    amount_out = c.output_amount;
    transfer_fee_out = fee_out;
    amount_received = received;
    constant_before = before;
    constant_after = after;
    vault_in_after = ctx.input_vault_amount + actual;
    vault_out_after = ctx.output_vault_amount - c.output_amount;
  })

pub record SwapBaseOutputOk : Type 0 where
  pub out_transfer_fee : ℕ
  pub amount_out_with_transfer_fee : ℕ
  pub reserve_in : ℕ
  pub reserve_out : ℕ
  pub creator_fee_rate : ℕ
  pub is_creator_fee_on_input : Bool
  pub curve : CurveResult
  pub input_amount : ℕ
  pub input_transfer_fee : ℕ
  pub input_transfer_amount : ℕ
  pub constant_before : ℕ
  pub constant_after : ℕ
  pub vault_in_after : ℕ
  pub vault_out_after : ℕ

unfoldable pub simulate_swap_base_output : SwapContext → ℤ → Option ℕ → Result SwapBaseOutputOk
simulate_swap_base_output ctx (negsuc _) maximum = err (fail require_gt_violated)
simulate_swap_base_output ctx (pos amount_out) maximum = do
  exit_if (amount_out == 0) (fail require_gt_violated)
  exit_if (ltb u64_max amount_out) (fail u64_overflow)
  fee_out ← get_transfer_inverse_fee ctx.output_mint ctx.epoch amount_out
  let with_fee = amount_out + fee_out
  exit_if (ltb u64_max with_fee) (throw overflow)
  rs ← reserves_for ctx
  let before = rs.reserve_in * rs.reserve_out
  on_input ←
      on_null (is_creator_fee_on_input ctx.pool.creator_fee_on ctx.direction)
        (fail invalid_fee_model)
  c ←
      on_null
        (curve_swap_base_output with_fee rs.reserve_in rs.reserve_out
          (fee_rates_of ctx.config ctx.pool) on_input)
        (fail zero_trading_tokens)
  let after = c.new_input_vault_amount * c.new_output_vault_amount
  exit_if (ltb u128_max after) (throw overflow)
  exit_if (ltb u64_max c.input_amount) (throw overflow)
  exit_if (c.input_amount == 0) (fail require_gt_violated)
  fee_in ← get_transfer_inverse_fee ctx.input_mint ctx.epoch c.input_amount
  let paid = c.input_amount + fee_in
  exit_if (ltb u64_max paid) (throw overflow)
  exit_if (above_maximum maximum paid) (fail exceeded_slippage)
  exit_if (not (c.output_amount == with_fee)) (fail require_eq_violated)
  exit_if (ltb after before) (fail constant_product_decreased)
  exit_if (ltb u64_max (ctx.input_vault_amount + c.input_amount)) (fail u64_overflow_vault)
  exit_if (ltb ctx.output_vault_amount with_fee) (fail insufficient_vault)
  ok (record {
    out_transfer_fee = fee_out;
    amount_out_with_transfer_fee = with_fee;
    reserve_in = rs.reserve_in;
    reserve_out = rs.reserve_out;
    creator_fee_rate = adjust_creator_fee_rate ctx.pool ctx.config.creator_fee_rate;
    is_creator_fee_on_input = on_input;
    curve = c;
    input_amount = c.input_amount;
    input_transfer_fee = fee_in;
    input_transfer_amount = paid;
    constant_before = before;
    constant_after = after;
    vault_in_after = ctx.input_vault_amount + c.input_amount;
    vault_out_after = ctx.output_vault_amount - with_fee;
  })
