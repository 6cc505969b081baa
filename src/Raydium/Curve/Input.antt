-- ===== src/Raydium/Curve/Input.antt =====
-- What a result of `curveSwapBaseInput` says of its ten fields: the fees are carved out exactly, the
-- curve is fed what is left, and the product of the reserves does not fall.
use atomarb.Common.{
  ℕ, ◌+◌, ◌-◌, ◌*◌, ◌≤◌, ◌≡◌, ◌∙◌, Bool, true, false, ok, null, arith, on_ok, on_pass, ltb,
}
use atomarb.Raydium.Layout.{fee_rate_denominator}
use atomarb.Raydium.Fees.{
  FeeRates, in_u128, trading_fee, protocol_fee_of, fund_fee_of, creator_fee_of, split_creator_fee,
}
use atomarb.Raydium.Fees.Bounds.{
  split_creator_fee-le, split_creator_fee-zero, creator_fee_of-zero, protocol-fund-le,
}
use atomarb.Raydium.Curve.{
  swap_base_input_without_fees, InputFees, input_fees, OutputFee, output_fee, CurveResult,
  curve_swap_base_input,
}
use atomarb.Raydium.Curve.Product.{product_grows, out_le}

-- The intermediate values of a call that returned `c`.
pub record InputRun (input x y : ℕ) (r : FeeRates) (on_input : Bool) (c : CurveResult)
    : Type 0 where
  pub fees : InputFees
  pub out : OutputFee
  pub fees_eq : input_fees input r on_input ≡ ok fees
  pub protocol_eq : protocol_fee_of fees.trade_fee r.protocol_fee_rate ≡ ok c.protocol_fee
  pub fund_eq : fund_fee_of fees.trade_fee r.fund_fee_rate ≡ ok c.fund_fee
  pub swapped_eq : swap_base_input_without_fees fees.less_fees x y ≡ ok c.output_amount_swapped
  pub out_eq : output_fee c.output_amount_swapped fees.creator_fee r on_input ≡ ok out
  pub new_input : c.new_input_vault_amount ≡ x + fees.less_fees
  pub new_output : c.new_output_vault_amount ≡ y - c.output_amount_swapped
  pub input_eq : c.input_amount ≡ input
  pub output_eq : c.output_amount ≡ out.output_amount
  pub trade_eq : c.trade_fee ≡ fees.trade_fee
  pub creator_eq : c.creator_fee ≡ out.creator_fee
  pub less_eq : c.input_amount_less_fees ≡ fees.less_fees

pub in_u128-eq-ok : (x a : ℕ) → in_u128 x ≡ ok a → a ≡ x
unfolding in_u128
in_u128-eq-ok x a h = ground arith

pub input_run :
    (input x y : ℕ) (r : FeeRates) (on_input : Bool) {c : CurveResult}
    → curve_swap_base_input input x y r on_input ≡ ok c
    → InputRun input x y r on_input c
unfolding curve_swap_base_input
input_run input x y r on_input h = on_ok (input_fees input r on_input) _ h λ f ef h1.
    on_ok (protocol_fee_of f.trade_fee r.protocol_fee_rate) _ h1 λ p ep h2.
      on_ok (fund_fee_of f.trade_fee r.fund_fee_rate) _ h2 λ d ed h3.
        on_ok (swap_base_input_without_fees f.less_fees x y) _ h3 λ s es h4.
          on_ok (output_fee s f.creator_fee r on_input) _ h4 λ o eo h5.
            on_ok (in_u128 (x + f.less_fees)) _ h5 λ n en h6. on_pass (ltb y s) null _ h6 λ le h7.
              record {
                fees = f;
                out = o;
                fees_eq = ef;
                protocol_eq = ground arith;
                fund_eq = ground arith;
                swapped_eq = ground arith;
                out_eq = ground arith;
                new_input = ground (arith, in_u128-eq-ok (x + f.less_fees) n en);
                new_output = ground arith;
                input_eq = ground arith;
                output_eq = ground arith;
                trade_eq = ground arith;
                creator_eq = ground arith;
                less_eq = ground arith;
              }

-- A fee that is taken on one side only.
abbrev pub taken : Bool → ℕ → ℕ
taken true fee = fee
taken false _ = 0

abbrev pub not_taken : Bool → ℕ → ℕ
not_taken true _ = 0
not_taken false fee = fee

input_fees-conserve :
    (input : ℕ) (r : FeeRates) (on_input : Bool) (f : InputFees)
    → input_fees input r on_input ≡ ok f
    → (input ≡ f.less_fees + f.trade_fee + f.creator_fee)
      × (f.creator_fee ≡ taken on_input f.creator_fee)
unfolding input_fees
input_fees-conserve input r true f h =
    on_ok (trading_fee input (r.trade_fee_rate + r.creator_fee_rate)) _ h λ total et h1.
      on_ok (split_creator_fee total r.trade_fee_rate r.creator_fee_rate) _ h1 λ creator ec h2.
        ground (arith, split_creator_fee-le total r.trade_fee_rate r.creator_fee_rate creator ec)
input_fees-conserve input r false f h =
    on_ok (trading_fee input r.trade_fee_rate) _ h λ trade et h1. ground arith

output_fee-conserve :
    (swapped creator : ℕ) (r : FeeRates) (on_input : Bool) (o : OutputFee)
    → output_fee swapped creator r on_input ≡ ok o
    → (swapped ≡ o.output_amount + not_taken on_input o.creator_fee)
      × (taken on_input o.creator_fee ≡ taken on_input creator)
unfolding output_fee
output_fee-conserve swapped creator r true o h = ground arith
output_fee-conserve swapped creator r false o h =
    on_ok (creator_fee_of swapped r.creator_fee_rate) _ h λ fee ef h1. ground arith

-- The accounts of an exact-input swap: every unit of the input is a fee or goes into the curve, every
-- unit of the output is the creator's fee or goes to the user, and the reserves move by both amounts.
pub record IsFairInput (input x y : ℕ) (on_input : Bool) (c : CurveResult) : Type 0 where
  pub paid : input ≡ c.input_amount_less_fees + c.trade_fee + taken on_input c.creator_fee
  pub received : c.output_amount_swapped ≡ c.output_amount + not_taken on_input c.creator_fee
  pub vault_in : c.new_input_vault_amount ≡ x + c.input_amount_less_fees
  pub vault_out : c.new_output_vault_amount + c.output_amount_swapped ≡ y
  pub product : x * y ≤ c.new_input_vault_amount * c.new_output_vault_amount

pub run-IsFairInput :
    {input x y : ℕ} {r : FeeRates} {on_input : Bool} {c : CurveResult}
    → InputRun input x y r on_input c
    → IsFairInput input x y on_input c
run-IsFairInput {input} {x} {y} {r} {on_input} {c} run =
    let fi = input_fees-conserve input r on_input run.fees run.fees_eq in
    let fo =
      output_fee-conserve c.output_amount_swapped run.fees.creator_fee r on_input run.out
        run.out_eq in
    let le = out_le run.fees.less_fees x y c.output_amount_swapped run.swapped_eq in
    let grows = product_grows run.fees.less_fees x y c.output_amount_swapped run.swapped_eq in
    record {
      paid = ground (arith, fi, fo, run.less_eq, run.trade_eq, run.creator_eq);
      received = ground (arith, fo, run.output_eq, run.creator_eq);
      vault_in = ground (arith, run.new_input, run.less_eq);
      vault_out = ground (arith, le, run.new_output);
      product = rw (run.new_input, run.new_output) grows;
    }

input_fees-zero :
    (input : ℕ) (r : FeeRates) (on_input : Bool) (f : InputFees)
    → r.creator_fee_rate ≡ 0
    → input_fees input r on_input ≡ ok f
    → f.creator_fee ≡ 0
unfolding input_fees
input_fees-zero input r true f z h =
    on_ok (trading_fee input (r.trade_fee_rate + r.creator_fee_rate)) _ h λ total et h1.
      on_ok (split_creator_fee total r.trade_fee_rate r.creator_fee_rate) _ h1 λ creator ec h2.
        let ec' : split_creator_fee total r.trade_fee_rate 0 ≡ ok creator = rw (← z) ec in
        ground (arith, split_creator_fee-zero total r.trade_fee_rate creator ec')
input_fees-zero input r false f z h =
    on_ok (trading_fee input r.trade_fee_rate) _ h λ trade et h1. ground arith

output_fee-zero :
    (swapped creator : ℕ) (r : FeeRates) (on_input : Bool) (o : OutputFee)
    → r.creator_fee_rate ≡ 0
    → creator ≡ 0
    → output_fee swapped creator r on_input ≡ ok o
    → o.creator_fee ≡ 0
unfolding output_fee
output_fee-zero swapped creator r true o z e h = ground arith
output_fee-zero swapped creator r false o z e h =
    on_ok (creator_fee_of swapped r.creator_fee_rate) _ h λ fee ef h1.
      let ef' : creator_fee_of swapped 0 ≡ ok fee = rw (← z) ef in
      ground (arith, creator_fee_of-zero swapped fee ef')

-- Where the pool takes no creator fee, the swap reports none.
pub run-creator_zero :
    {input x y : ℕ} {r : FeeRates} {on_input : Bool} {c : CurveResult}
    → r.creator_fee_rate ≡ 0
    → InputRun input x y r on_input c
    → c.creator_fee ≡ 0
run-creator_zero {input} {x} {y} {r} {on_input} {c} z run =
    let e = input_fees-zero input r on_input run.fees z run.fees_eq in
    run.creator_eq
    ∙ output_fee-zero c.output_amount_swapped run.fees.creator_fee r on_input run.out z e run.out_eq

-- The protocol's and the fund's parts fit in the trade fee.
pub run-protocol_fund :
    {input x y : ℕ} {r : FeeRates} {on_input : Bool} {c : CurveResult}
    → r.protocol_fee_rate + r.fund_fee_rate ≤ fee_rate_denominator
    → InputRun input x y r on_input c
    → c.protocol_fee + c.fund_fee ≤ c.trade_fee
run-protocol_fund {r = r} {c = c} le run = rw run.trade_eq (
    protocol-fund-le run.fees.trade_fee r.protocol_fee_rate r.fund_fee_rate c.protocol_fee
      c.fund_fee le run.protocol_eq run.fund_eq)
