-- ===== src/Raydium/Swap/Settle.antt =====
-- The swap, the counters' update and the next reserves of src/adapters/raydium_cpmm/math.ts, as the
-- program executes them one after the other.
use atomarb.Common.{ℕ, ◌+◌, ◌-◌, ◌≤◌, ◌<◌, ◌≡◌, false, Option, ok, arith, u64_max}
use atomarb.Common.Int.{pos}
use atomarb.Raydium.Layout.{PoolState, fee_rate_denominator}
use atomarb.Raydium.Curve.{CurveResult}
use atomarb.Raydium.Curve.Input.{
  InputRun, input_run, run-IsFairInput, run-creator_zero, run-protocol_fund, taken, not_taken,
}
use atomarb.Raydium.Pool.{advance_fees, apply_fee_update, fee_rates_of, adjust_creator_fee_rate}
use atomarb.Raydium.Swap.{
  SwapContext, SwapBaseInputOk, reserves_by, reserves_for, below_minimum, simulate_swap_base_input,
}
use atomarb.Raydium.Swap.Input.{SwapRun, swap_run}
use atomarb.Raydium.Swap.Sides.{
  fees_in, fees_out, reserves_by_lem, reserves_by-ok, advance_fees_sides, apply_fee_update_sides,
}

-- Where every unit of a swap goes, and what it leaves in the vaults.
pub record IsSettled (ctx : SwapContext) (amount_in : ℕ) (minimum : Option ℕ) (s : SwapBaseInputOk)
    : Type 0 where
  pub sent :
      amount_in
      ≡ s.curve.input_amount_less_fees
        + s.curve.trade_fee
        + taken s.is_creator_fee_on_input s.curve.creator_fee
        + s.transfer_fee_in
  pub received :
      s.curve.output_amount_swapped
      ≡ s.amount_received
        + s.transfer_fee_out
        + not_taken s.is_creator_fee_on_input s.curve.creator_fee
  pub received_pos : 0 < s.amount_received
  pub enough : below_minimum minimum s.amount_received ≡ false
  pub vault_in : s.vault_in_after + s.transfer_fee_in ≡ ctx.input_vault_amount + amount_in
  pub vault_out :
      s.vault_out_after + s.amount_received + s.transfer_fee_out ≡ ctx.output_vault_amount
  pub product : s.constant_before ≤ s.constant_after

pub run-curve :
    {ctx : SwapContext} {amount_in : ℕ} {minimum : Option ℕ} {s : SwapBaseInputOk}
    → SwapRun ctx amount_in minimum s
    → InputRun s.actual_amount_in s.reserve_in s.reserve_out
        (fee_rates_of ctx.config ctx.pool)
        s.is_creator_fee_on_input
        s.curve
run-curve {ctx} {s = s} run =
    input_run s.actual_amount_in s.reserve_in s.reserve_out (fee_rates_of ctx.config ctx.pool)
      s.is_creator_fee_on_input run.curve_eq

-- A swap that succeeds accounts for every unit: what the user sends is the transfer fee, the trade
-- fee, the creator's fee and the curve's input; what leaves the curve is the user's amount, the
-- transfer fee and the creator's fee; the vaults move by what was transferred; the user gets more
-- than 0 and at least the minimum; and the product of the reserves does not fall.
pub simulate_swap_base_input-IsSettled :
    (ctx : SwapContext) (amount_in : ℕ) (minimum : Option ℕ) (s : SwapBaseInputOk)
    → simulate_swap_base_input ctx (pos amount_in) minimum ≡ ok s
    → IsSettled ctx amount_in minimum s
simulate_swap_base_input-IsSettled ctx amount_in minimum s h =
    let run = swap_run ctx amount_in minimum h in
    let fair = run-IsFairInput (run-curve run) in
    record {
      sent = omega (arith, run.sent, fair.paid);
      received = omega (arith, run.out_eq, run.split, fair.received);
      received_pos = run.received_pos;
      enough = run.enough;
      vault_in = omega (arith, run.sent, run.vault_in);
      vault_out = omega (arith, run.vault_out, run.split);
      product = rw (run.before, run.after) fair.product;
    }

rate_disabled :
    (ctx : SwapContext)
    → ctx.pool.enable_creator_fee ≡ false
    → (fee_rates_of ctx.config ctx.pool).creator_fee_rate ≡ 0
unfolding fee_rates_of adjust_creator_fee_rate
rate_disabled ctx e = rw e

-- What the trade fee leaves to the liquidity providers.
abbrev pub lp_fee : CurveResult → ℕ
lp_fee c = c.trade_fee - c.protocol_fee - c.fund_fee

-- The sums of the counters after the update: the input side's grow by less than the transfer in, the
-- output side's by less than what leaves the curve, so the reserves are what the curve announced.
next_sides :
    (ctx : SwapContext) (amount_in : ℕ) (minimum : Option ℕ) (s : SwapBaseInputOk)
    → ctx.config.protocol_fee_rate + ctx.config.fund_fee_rate ≤ fee_rate_denominator
    → SwapRun ctx amount_in minimum s
    → (s.curve.new_input_vault_amount
          + lp_fee s.curve
          + (fees_in ctx.direction ctx.pool
              + s.curve.protocol_fee
              + s.curve.fund_fee
              + taken s.is_creator_fee_on_input s.curve.creator_fee)
        ≡ s.vault_in_after)
      × (s.curve.new_output_vault_amount
            + (fees_out ctx.direction ctx.pool
                + not_taken s.is_creator_fee_on_input s.curve.creator_fee)
          ≡ s.vault_out_after)
unfolding reserves_for fee_rates_of
next_sides ctx amount_in minimum s rates run =
    let fair = run-IsFairInput (run-curve run) in
    let parts = run-protocol_fund rates (run-curve run) in
    let sides =
      reserves_by_lem ctx.direction ctx.pool ctx.input_vault_amount ctx.output_vault_amount
        (record { reserve_in = s.reserve_in; reserve_out = s.reserve_out }) run.reserves_eq in
    (
      omega (arith, fair.paid, fair.vault_in, parts, sides, run.vault_in),
      omega (arith, fair.received, fair.vault_out, sides, run.vault_out, run.out_eq),
    )

-- After a swap that succeeds the update of the counters never throws, and the next reserves are the
-- curve's: the input side keeps the liquidity providers' part of the trade fee besides, the output
-- side is exact. Supposes that protocol and fund rate are together at most 100%, and that the output
-- vault is a u64.
pub next_reserves :
    (ctx : SwapContext) (amount_in : ℕ) (minimum : Option ℕ) (s : SwapBaseInputOk)
    → ctx.config.protocol_fee_rate + ctx.config.fund_fee_rate ≤ fee_rate_denominator
    → ctx.output_vault_amount ≤ u64_max
    → simulate_swap_base_input ctx (pos amount_in) minimum ≡ ok s
    → (p : PoolState) × (apply_fee_update ctx.pool ctx.direction s.is_creator_fee_on_input
          s.curve.protocol_fee s.curve.fund_fee s.curve.creator_fee
        ≡ ok p)
      × (reserves_by ctx.direction p s.vault_in_after s.vault_out_after
          ≡ ok (record {
            reserve_in = s.curve.new_input_vault_amount + lp_fee s.curve;
            reserve_out = s.curve.new_output_vault_amount;
          }))
next_reserves ctx amount_in minimum s rates vault_u64 h =
    let run = swap_run ctx amount_in minimum h in
    let c = s.curve in
    let side = s.is_creator_fee_on_input in
    let (ein, eout) = next_sides ctx amount_in minimum s rates run in
    let (ain, aout) =
      advance_fees_sides ctx.direction ctx.pool side c.protocol_fee c.fund_fee c.creator_fee in
    let p = advance_fees ctx.pool ctx.direction side c.protocol_fee c.fund_fee c.creator_fee in
    (
      p,
      apply_fee_update_sides ctx.direction ctx.pool side c.protocol_fee c.fund_fee c.creator_fee
          (λ off. run-creator_zero (rate_disabled ctx off) (run-curve run))
          (omega (arith, ain, ein, run.in_fits)) (omega (arith, aout, eout, run.vault_out)),
      reserves_by-ok ctx.direction p s.vault_in_after s.vault_out_after
          (c.new_input_vault_amount + lp_fee c) c.new_output_vault_amount (omega (arith, ain, ein))
          (omega (arith, aout, eout)) run.in_fits (omega (arith, run.vault_out)),
    )
