-- ===== src/Raydium/Curve/Agree.antt =====
-- The two calculators of src/adapters/raydium_cpmm/math.ts against one another: what
-- `curveSwapBaseOutput` asks for, `curveSwapBaseInput` takes for at least the requested output.
use atomarb.Common.{
  ℕ, ◌+◌, ◌-◌, ◌*◌, ◌≤◌, ◌<◌, ◌≡◌, Bool, true, false, ok, null, throw, overflow, arith, on_ok,
  on_pass, on_null, on_null-eq-ok, ltb, ok_inj, subst, sym, ◌∙◌,
}
use atomarb.Common.Div.{le_of_mul_lt, mul_sub, mul_mono_l}
use atomarb.Raydium.Layout.{fee_rate_denominator}
use atomarb.Raydium.Fees.{
  FeeRates, trading_fee, creator_fee_of, split_creator_fee, calculate_pre_fee_amount,
}
use atomarb.Raydium.Fees.Bounds.{fee_ceil_div_bounds}
use atomarb.Raydium.Fees.PreFee.{pre_fee_bounds, pre_fee-trading_fee}
use atomarb.Raydium.Curve.{
  GrossOutput, gross_output, GrossInput, gross_input, InputFees, input_fees, OutputFee, output_fee,
  CurveResult, curve_swap_base_input, curve_swap_base_output,
}
use atomarb.Raydium.Curve.Product.{output-input_iff}
use atomarb.Raydium.Curve.Input.{input_run}
use atomarb.Raydium.Curve.Output.{output_run, post-le}

-- The fees of the grossed-up input are what was added to it, so the curve is fed the same amount.
same_input :
    (q creator : ℕ) (r : FeeRates) (on_input : Bool) (i : GrossInput) (f : InputFees)
    → gross_input q creator r on_input ≡ ok i
    → input_fees i.input_amount r on_input ≡ ok f
    → (f.less_fees ≡ q) × (f.trade_fee ≡ i.trade_fee)
unfolding gross_input input_fees
same_input q creator r true i f h k =
    on_ok
      (on_null (calculate_pre_fee_amount q (r.trade_fee_rate + r.creator_fee_rate))
        (throw overflow))
      _ h
      λ w ew h1.
        on_ok (split_creator_fee (w - q) r.trade_fee_rate r.creator_fee_rate) _ h1 λ fee ef h2.
          on_ok (trading_fee i.input_amount (r.trade_fee_rate + r.creator_fee_rate)) _ k
            λ total et k1.
              on_ok (split_creator_fee total r.trade_fee_rate r.creator_fee_rate) _ k1
                λ fee' ef' k2. on_pass (ltb i.input_amount total) null _ k2 λ le k3.
                  let e : i.input_amount ≡ w = ground arith in
                  let et' : trading_fee w (r.trade_fee_rate + r.creator_fee_rate) ≡ ok total =
                    rw (← e) et in
                  let same =
                    pre_fee-trading_fee q (r.trade_fee_rate + r.creator_fee_rate) w total
                      (on_null-eq-ok _ _ ew) et' in
                  let e' : w - q ≡ total = omega (arith, same) in
                  let ef'' : split_creator_fee total r.trade_fee_rate r.creator_fee_rate ≡ ok fee =
                    rw e' at ef in
                  let one : fee ≡ fee' = ok_inj (sym ef'' ∙ ef') in ground (arith, same, one)
same_input q creator r false i f h k =
    on_ok (on_null (calculate_pre_fee_amount q r.trade_fee_rate) (throw overflow)) _ h λ w ew h1.
      on_ok (trading_fee i.input_amount r.trade_fee_rate) _ k λ trade et k1.
        on_pass (ltb i.input_amount trade) null _ k1 λ le k2.
          let e : i.input_amount ≡ w = ground arith in
          let et' : trading_fee w r.trade_fee_rate ≡ ok trade = rw (← e) et in
          let same = pre_fee-trading_fee q r.trade_fee_rate w trade (on_null-eq-ok _ _ ew) et' in
          ground (arith, same)

-- Taking the creator's share from more output leaves at least as much.
net_mono :
    (a b fa fb rate : ℕ)
    → rate ≤ fee_rate_denominator
    → a ≤ b
    → a * rate ≤ fa * fee_rate_denominator
    → fb * fee_rate_denominator < b * rate + fee_rate_denominator
    → a + fb ≤ b + fa
net_mono a b fa fb rate le ab lo hi = le_of_mul_lt (a + fb) (b + fa) fee_rate_denominator (
    omega (
      arith,
      mul_sub a rate fee_rate_denominator le,
      mul_sub b rate fee_rate_denominator le,
      mul_mono_l a b (fee_rate_denominator - rate) ab,
    ))

more_output :
    (output swapped creator : ℕ) (r : FeeRates) (on_input : Bool) (g : GrossOutput) (o : OutputFee)
    → gross_output output r on_input ≡ ok g
    → g.actual_output ≤ swapped
    → output_fee swapped creator r on_input ≡ ok o
    → output ≤ o.output_amount
unfolding gross_output output_fee creator_fee_of
more_output output swapped creator r true g o h le k = ground arith
more_output output swapped creator r false g o h le k =
    on_ok (calculate_pre_fee_amount output r.creator_fee_rate) _ h λ w ew h1.
      on_ok (creator_fee_of swapped r.creator_fee_rate) _ k λ fee ef k1.
        on_pass (ltb swapped fee) null _ k1 λ fits k2.
          let (rate, lo, _, _) = pre_fee_bounds output r.creator_fee_rate w ew in
          let e : g.actual_output ≡ w = ground arith in
          let share : w * r.creator_fee_rate ≤ (w - output) * fee_rate_denominator =
            omega (arith, mul_sub w r.creator_fee_rate fee_rate_denominator rate) in
          let m =
            net_mono w swapped (w - output) fee r.creator_fee_rate rate (rw (← e) le) share
              (fee_ceil_div_bounds swapped r.creator_fee_rate fee_rate_denominator fee ef).1 in
          ground (arith, m, post-le output r.creator_fee_rate w ew)

-- Paying what `curveSwapBaseOutput` asks into `curveSwapBaseInput` yields at least the requested
-- output, at the same trade fee and with the same amount fed to the curve.
pub output-input_agree :
    (output x y : ℕ) (r : FeeRates) (on_input : Bool) (c c' : CurveResult)
    → curve_swap_base_output output x y r on_input ≡ ok c
    → curve_swap_base_input c.input_amount x y r on_input ≡ ok c'
    → (output ≤ c'.output_amount)
      × (c'.trade_fee ≡ c.trade_fee)
      × (c'.input_amount_less_fees ≡ c.input_amount_less_fees)
output-input_agree output x y r on_input c c' h k =
    let ro = output_run output x y r on_input h in
    let ri = input_run c.input_amount x y r on_input k in
    let fees_eq : input_fees ro.paid.input_amount r on_input ≡ ok ri.fees =
      subst (λ n. input_fees n r on_input ≡ ok ri.fees) ro.input_eq ri.fees_eq in
    let (less, trade) =
      same_input c.input_amount_less_fees ro.gross.creator_fee r on_input ro.paid ri.fees ro.paid_eq
        fees_eq in
    let enough =
      (output-input_iff ro.gross.actual_output ri.fees.less_fees x y c.input_amount_less_fees
          c'.output_amount_swapped ro.swapped_eq ri.swapped_eq).1
        (omega (arith, less)) in
    let more =
      more_output output c'.output_amount_swapped ri.fees.creator_fee r on_input ro.gross ri.out
        ro.gross_eq enough ri.out_eq in
    (rw ri.output_eq more, ri.trade_eq ∙ trade ∙ sym ro.trade_eq, ri.less_eq ∙ less)
