-- ===== src/Raydium/Swap/Checks.antt =====
-- Checks of the simulation that can never fire: they restate what the arithmetic already gives.
use atomarb.Common.{
  ℕ, ◌+◌, ◌-◌, ◌*◌, ◌≡◌, Bool, true, false, Option, ok, err, fail, invalid_fee_model,
  zero_trading_tokens, constant_product_decreased, u64_overflow_vault, insufficient_vault, arith,
  exit_if, ◌>>◌, NeverFails, ok-NeverFails, >>=-NeverFails, null_if-NeverFails, on_fail, on_other,
  on_null, on_null-avoids, on_null-eq-ok, u64_max, u128_max, ltb, ◌==◌, if◌then◌else◌,
}
use atomarb.Common.Int.{ℤ, pos, negsuc}
use atomarb.Raydium.Layout.{fee_rate_denominator}
use atomarb.Raydium.Fees.{
  FeeRates, in_u128, fee_ceil_div, fee_floor_div, trading_fee, protocol_fee_of, fund_fee_of,
  creator_fee_of, split_creator_fee,
}
use atomarb.Raydium.Curve.{
  CurveResult, swap_base_input_without_fees, input_fees, output_fee, curve_swap_base_input,
}
use atomarb.Raydium.Curve.Input.{IsFairInput, input_run, run-IsFairInput}
use atomarb.Raydium.TransferFee.{MintFeeView, get_transfer_fee, transfer_fee_calculate_fee}
use atomarb.Raydium.Pool.{
  TradeDirection, vault_amount_without_fee, is_creator_fee_on_input, fee_rates_of,
}
use atomarb.Raydium.Swap.{
  SwapContext, SwapBaseInputOk, reserves_for, reserves_by, below_minimum, simulate_swap_base_input,
}

fee_ceil_div-NeverFails : (a n d : ℕ) → NeverFails (fee_ceil_div a n d)
unfolding fee_ceil_div
fee_ceil_div-NeverFails a n d c e = ground arith

fee_floor_div-NeverFails : (a n d : ℕ) → NeverFails (fee_floor_div a n d)
unfolding fee_floor_div
fee_floor_div-NeverFails a n d c e = ground arith

in_u128-NeverFails : (x : ℕ) → NeverFails (in_u128 x)
unfolding in_u128
in_u128-NeverFails x c e = ground arith

swap_base_input_without_fees-NeverFails :
    (dx x y : ℕ) → NeverFails (swap_base_input_without_fees dx x y)
unfolding swap_base_input_without_fees
swap_base_input_without_fees-NeverFails dx x y c e = ground arith

input_fees-NeverFails :
    (input : ℕ) (r : FeeRates) (side : Bool) → NeverFails (input_fees input r side)
unfolding input_fees trading_fee split_creator_fee fee_ceil_div fee_floor_div
input_fees-NeverFails input r true c e = ground arith
input_fees-NeverFails input r false c e = ground arith

output_fee-NeverFails :
    (swapped creator : ℕ) (r : FeeRates) (side : Bool)
    → NeverFails (output_fee swapped creator r side)
unfolding output_fee creator_fee_of fee_ceil_div
output_fee-NeverFails swapped creator r true c e = cc
output_fee-NeverFails swapped creator r false c e = ground arith

pub curve_swap_base_input-NeverFails :
    (input x y : ℕ) (r : FeeRates) (side : Bool)
    → NeverFails (curve_swap_base_input input x y r side)
unfolding curve_swap_base_input protocol_fee_of fund_fee_of
curve_swap_base_input-NeverFails input x y r side =
    >>=-NeverFails (input_fees input r side) _ (input_fees-NeverFails input r side) λ f.
      >>=-NeverFails (protocol_fee_of f.trade_fee r.protocol_fee_rate) _
        (fee_floor_div-NeverFails f.trade_fee r.protocol_fee_rate fee_rate_denominator)
        λ protocol.
          >>=-NeverFails (fund_fee_of f.trade_fee r.fund_fee_rate) _
            (fee_floor_div-NeverFails f.trade_fee r.fund_fee_rate fee_rate_denominator)
            λ fund.
              >>=-NeverFails (swap_base_input_without_fees f.less_fees x y) _
                (swap_base_input_without_fees-NeverFails f.less_fees x y)
                λ swapped.
                  >>=-NeverFails (output_fee swapped f.creator_fee r side) _
                    (output_fee-NeverFails swapped f.creator_fee r side)
                    λ o.
                      >>=-NeverFails (in_u128 (x + f.less_fees)) _
                        (in_u128-NeverFails (x + f.less_fees))
                        λ n. null_if-NeverFails (ltb y swapped) _ (ok-NeverFails _)

pub get_transfer_fee-NeverFails :
    (m : MintFeeView) (epoch amount : ℕ) → NeverFails (get_transfer_fee m epoch amount)
unfolding get_transfer_fee transfer_fee_calculate_fee
get_transfer_fee-NeverFails m epoch amount c e = ground arith

pub reserves_by-avoids :
    (ctx : SwapContext) → ¬ (reserves_for ctx ≡ err (fail constant_product_decreased))
unfolding reserves_for reserves_by vault_amount_without_fee
reserves_by-avoids ctx e = ground arith

pub is_creator_fee_on_input-NeverFails :
    (n : ℕ) (d : TradeDirection) → NeverFails (is_creator_fee_on_input n d)
unfolding is_creator_fee_on_input
is_creator_fee_on_input-NeverFails n d c e = ground arith

-- What stands behind the check in the source: two other checks, and the result.
after_product :
    {input x y : ℕ} {side : Bool} {c : CurveResult} (t1 t2 : Bool) (s : SwapBaseInputOk)
    → IsFairInput input x y side c
    → (do
      exit_if
          (ltb (c.new_input_vault_amount * c.new_output_vault_amount) (x * y))
          (fail constant_product_decreased)
      exit_if t1 (fail u64_overflow_vault)
      exit_if t2 (fail insufficient_vault)
      ok s)
      ≡ err (fail constant_product_decreased)
    → ⊥
after_product t1 t2 s fair h = ground (arith, fair.product)

-- The check that the product of the reserves has not fallen never fires: rounding always favours the
-- pool, whatever the amounts, rates and transfer fees.
pub simulate_swap_base_input-keeps_product :
    (ctx : SwapContext) (amount_in : ℤ) (minimum : Option ℕ)
    → ¬ (simulate_swap_base_input ctx amount_in minimum ≡ err (fail constant_product_decreased))
unfolding simulate_swap_base_input
simulate_swap_base_input-keeps_product ctx (negsuc n) minimum h = cc
simulate_swap_base_input-keeps_product ctx (pos amount_in) minimum h =
    on_other (ltb u64_max amount_in) _ _ h (λ e. cc)
      λ c0 h0.
        on_fail (get_transfer_fee ctx.input_mint ctx.epoch amount_in) _ h0
          (get_transfer_fee-NeverFails ctx.input_mint ctx.epoch amount_in _)
          λ fee_in e1 h1.
            on_other ((if ltb fee_in amount_in then amount_in - fee_in else 0) == 0) _ _ h1
              (λ e. cc)
              λ c1 h2. on_fail (reserves_for ctx) _ h2 (reserves_by-avoids ctx) λ rs e2 h3.
                on_other (ltb u128_max (rs.reserve_in * rs.reserve_out)) _ _ h3 (λ e. cc)
                  λ c2 h4.
                    on_fail
                      (on_null (is_creator_fee_on_input ctx.pool.creator_fee_on ctx.direction)
                        (fail invalid_fee_model))
                      _ h4
                      (on_null-avoids _ _ _ (λ e. cc)
                        (is_creator_fee_on_input-NeverFails _ ctx.direction _))
                      λ side e3 h5.
                        on_fail
                          (on_null
                            (curve_swap_base_input
                              (if ltb fee_in amount_in then amount_in - fee_in else 0) rs.reserve_in
                              rs.reserve_out (fee_rates_of ctx.config ctx.pool) side)
                            (fail zero_trading_tokens))
                          _ h5
                          (on_null-avoids _ _ _ (λ e. cc)
                            (curve_swap_base_input-NeverFails _ _ _ _ side _))
                          λ c e4 h6.
                            on_other
                              (ltb u128_max (c.new_input_vault_amount * c.new_output_vault_amount))
                              _ _ h6 (λ e. cc)
                              λ c3 h7.
                                on_other (ltb u64_max c.output_amount) _ _ h7 (λ e. cc)
                                  λ c4 h8.
                                    on_fail
                                      (get_transfer_fee ctx.output_mint ctx.epoch c.output_amount) _
                                      h8
                                      (get_transfer_fee-NeverFails ctx.output_mint ctx.epoch
                                        c.output_amount _)
                                      λ fee_out e5 h9.
                                        on_other (ltb c.output_amount fee_out) _ _ h9 (λ e. cc)
                                          λ c5 h10.
                                            on_other (c.output_amount - fee_out == 0) _ _ h10
                                              (λ e. cc)
                                              λ c6 h11.
                                                on_other
                                                  (below_minimum minimum
                                                    (c.output_amount - fee_out))
                                                  _ _ h11 (λ e. cc)
                                                  λ c7 h12.
                                                    on_other (ltb u64_max c.protocol_fee) _ _ h12
                                                      (λ e. cc)
                                                      λ c8 h13.
                                                        on_other (ltb u64_max c.fund_fee) _ _ h13
                                                          (λ e. cc)
                                                          λ c9 h14.
                                                            on_other (ltb u64_max c.creator_fee) _ _
                                                            h14 (λ e. cc)
                                                            λ c10 h15.
                                                            after_product _ _ _
                                                            (run-IsFairInput (
                                                            input_run _ _ _ _ side
                                                            (on_null-eq-ok _ _ e4)))
                                                            h15
