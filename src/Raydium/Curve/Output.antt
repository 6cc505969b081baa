-- ===== src/Raydium/Curve/Output.antt =====
-- What a result of `curveSwapBaseOutput` says of its fields, and that the exact-input calculator
-- agrees with it.
use atomarb.Common.{
  ℕ, ◌+◌, ◌-◌, ◌*◌, ◌≤◌, ◌≡◌, Bool, true, false, ok, null, throw, overflow, arith, on_ok, on_pass,
  on_null, on_null-eq-ok, ltb,
}
use atomarb.Common.Div.{le_of_mul_le, mul_sub}
use atomarb.Raydium.Layout.{fee_rate_denominator}
use atomarb.Raydium.Fees.{
  FeeRates, in_u128, protocol_fee_of, fund_fee_of, split_creator_fee, calculate_pre_fee_amount,
}
use atomarb.Raydium.Fees.Bounds.{split_creator_fee-le}
use atomarb.Raydium.Fees.PreFee.{pre_fee_bounds}
use atomarb.Raydium.Curve.{
  swap_base_output_without_fees, GrossOutput, gross_output, GrossInput, gross_input, CurveResult,
  curve_swap_base_output,
}
use atomarb.Raydium.Curve.Product.{output_bounds}
use atomarb.Raydium.Curve.Input.{IsFairInput, taken, not_taken, in_u128-eq-ok}

-- The intermediate values of a call that returned `c`.
pub record OutputRun (output x y : ℕ) (r : FeeRates) (on_input : Bool) (c : CurveResult)
    : Type 0 where
  pub gross : GrossOutput
  pub paid : GrossInput
  pub gross_eq : gross_output output r on_input ≡ ok gross
  pub swapped_eq :
      swap_base_output_without_fees gross.actual_output x y ≡ ok c.input_amount_less_fees
  pub paid_eq : gross_input c.input_amount_less_fees gross.creator_fee r on_input ≡ ok paid
  pub actual_eq : c.output_amount_swapped ≡ gross.actual_output
  pub new_input : c.new_input_vault_amount ≡ x + c.input_amount_less_fees
  pub new_output : c.new_output_vault_amount ≡ y - gross.actual_output
  pub input_eq : c.input_amount ≡ paid.input_amount
  pub output_eq : c.output_amount ≡ output
  pub trade_eq : c.trade_fee ≡ paid.trade_fee
  pub creator_eq : c.creator_fee ≡ paid.creator_fee

pub output_run :
    (output x y : ℕ) (r : FeeRates) (on_input : Bool) {c : CurveResult}
    → curve_swap_base_output output x y r on_input ≡ ok c
    → OutputRun output x y r on_input c
unfolding curve_swap_base_output
output_run output x y r on_input h = on_ok (gross_output output r on_input) _ h λ g eg h1.
    on_ok (swap_base_output_without_fees g.actual_output x y) _ h1 λ q eq h2.
      on_ok (gross_input q g.creator_fee r on_input) _ h2 λ i ei h3.
        on_ok (protocol_fee_of i.trade_fee r.protocol_fee_rate) _ h3 λ p ep h4.
          on_ok (fund_fee_of i.trade_fee r.fund_fee_rate) _ h4 λ f ef h5.
            on_ok (in_u128 (x + q)) _ h5 λ n en h6.
              on_pass (ltb y g.actual_output) null _ h6 λ le h7. record {
                gross = g;
                paid = i;
                gross_eq = eg;
                swapped_eq = ground arith;
                paid_eq = ground arith;
                actual_eq = ground arith;
                new_input = ground (arith, in_u128-eq-ok (x + q) n en);
                new_output = ground arith;
                input_eq = ground arith;
                output_eq = ground arith;
                trade_eq = ground arith;
                creator_eq = ground arith;
              }

pub post-le : (post rate pre : ℕ) → calculate_pre_fee_amount post rate ≡ ok pre → post ≤ pre
post-le post rate pre h =
    let (le, lo, _, _) = pre_fee_bounds post rate pre h in
    le_of_mul_le post pre fee_rate_denominator (omega arith)
      (omega (arith, mul_sub pre rate fee_rate_denominator le))

gross_output-conserve :
    (output : ℕ) (r : FeeRates) (on_input : Bool) (g : GrossOutput)
    → gross_output output r on_input ≡ ok g
    → (g.actual_output ≡ output + not_taken on_input g.creator_fee)
      × (taken on_input g.creator_fee ≡ 0)
unfolding gross_output
gross_output-conserve output r true g h = ground arith
gross_output-conserve output r false g h =
    on_ok (calculate_pre_fee_amount output r.creator_fee_rate) _ h
      λ w ew h1. ground (arith, post-le output r.creator_fee_rate w ew)

gross_input-conserve :
    (q creator : ℕ) (r : FeeRates) (on_input : Bool) (i : GrossInput)
    → gross_input q creator r on_input ≡ ok i
    → (i.input_amount ≡ q + i.trade_fee + taken on_input i.creator_fee)
      × (not_taken on_input i.creator_fee ≡ not_taken on_input creator)
unfolding gross_input
gross_input-conserve q creator r true i h =
    on_ok
      (on_null (calculate_pre_fee_amount q (r.trade_fee_rate + r.creator_fee_rate))
        (throw overflow))
      _ h
      λ w ew h1.
        on_ok (split_creator_fee (w - q) r.trade_fee_rate r.creator_fee_rate) _ h1 λ fee ef h2.
          ground (
            arith,
            post-le q (r.trade_fee_rate + r.creator_fee_rate) w (on_null-eq-ok _ _ ew),
            split_creator_fee-le (w - q) r.trade_fee_rate r.creator_fee_rate fee ef,
          )
gross_input-conserve q creator r false i h =
    on_ok (on_null (calculate_pre_fee_amount q r.trade_fee_rate) (throw overflow)) _ h
      λ w ew h1. ground (arith, post-le q r.trade_fee_rate w (on_null-eq-ok _ _ ew))

output_product :
    (dy x y q : ℕ) → swap_base_output_without_fees dy x y ≡ ok q → x * y ≤ (x + q) * (y - dy)
output_product dy x y q h =
    let (lt, lo, _) = output_bounds dy x y q h in
    omega (arith, mul_sub x dy y (omega arith), mul_sub (x + q) dy y (omega arith))

-- The exact-output calculator keeps the same accounts as the exact-input one, at the input it asks.
pub run-IsFairOutput :
    {output x y : ℕ} {r : FeeRates} {on_input : Bool} {c : CurveResult}
    → OutputRun output x y r on_input c
    → IsFairInput c.input_amount x y on_input c
run-IsFairOutput {output} {x} {y} {r} {on_input} {c} run =
    let g = gross_output-conserve output r on_input run.gross run.gross_eq in
    let i =
      gross_input-conserve c.input_amount_less_fees run.gross.creator_fee r on_input run.paid
        run.paid_eq in
    let b = output_bounds run.gross.actual_output x y c.input_amount_less_fees run.swapped_eq in
    let grows =
      output_product run.gross.actual_output x y c.input_amount_less_fees run.swapped_eq in
    record {
      paid = ground (arith, i, run.input_eq, run.trade_eq, run.creator_eq);
      received = ground (arith, g, i, run.output_eq, run.creator_eq, run.actual_eq);
      vault_in = run.new_input;
      vault_out = ground (arith, b, run.new_output, run.actual_eq);
      product = rw (run.new_input, run.new_output) grows;
    }
