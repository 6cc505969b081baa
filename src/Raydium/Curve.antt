-- ===== src/Raydium/Curve.antt =====
-- The constant-product curve and the calculator of src/adapters/raydium_cpmm/math.ts.
-- Where the source returns `null` the exit is `null`; where it throws OverflowError, `throw overflow`.
pub mod Product
pub mod Input
pub mod Output
pub mod Agree
use atomarb.Common.{
  ℕ, ◌+◌, ◌-◌, ◌*◌, ◌/◌, ◌%◌, Bool, true, false, Result, ok, err, null, throw, overflow, ◌>>=◌,
  ◌>>◌, exit_if, on_null, u128_max, ltb, ◌==◌, if◌then◌else◌, not,
}
use atomarb.Raydium.Fees.{
  FeeRates, in_u128, trading_fee, protocol_fee_of, fund_fee_of, creator_fee_of, split_creator_fee,
  calculate_pre_fee_amount,
}

unfoldable pub swap_base_input_without_fees : ℕ → ℕ → ℕ → Result ℕ
swap_base_input_without_fees input input_vault output_vault = do
  let numerator = input * output_vault
  exit_if (ltb u128_max numerator) (throw overflow)
  let denominator = input_vault + input
  exit_if (ltb u128_max denominator) (throw overflow)
  exit_if (denominator == 0) (throw overflow)
  ok (numerator / denominator)

-- `checked_ceil_div`: the quotient, and one more if a remainder is left.
unfoldable pub ceil_quotient : ℕ → ℕ → ℕ
ceil_quotient n d = if n % d == 0 then n / d else n / d + 1

unfoldable pub swap_base_output_without_fees : ℕ → ℕ → ℕ → Result ℕ
unfolding ceil_quotient
swap_base_output_without_fees output input_vault output_vault = do
  let numerator = input_vault * output
  exit_if (ltb u128_max numerator) (throw overflow)
  exit_if (ltb output_vault output) (throw overflow)
  let denominator = output_vault - output
  exit_if (denominator == 0) (throw overflow)
  let out = ceil_quotient numerator denominator
  exit_if (ltb u128_max out) (throw overflow)
  ok out

pub record CurveResult : Type 0 where
  pub new_input_vault_amount : ℕ
  pub new_output_vault_amount : ℕ
  pub input_amount : ℕ
  pub output_amount : ℕ
  pub trade_fee : ℕ
  pub protocol_fee : ℕ
  pub fund_fee : ℕ
  pub creator_fee : ℕ
  pub input_amount_less_fees : ℕ
  pub output_amount_swapped : ℕ

-- What the first branch of `curveSwapBaseInput` leaves in its three variables.
pub record InputFees : Type 0 where
  pub creator_fee : ℕ
  pub trade_fee : ℕ
  pub less_fees : ℕ

unfoldable pub input_fees : ℕ → FeeRates → Bool → Result InputFees
input_fees input r true = do
  total ← trading_fee input (r.trade_fee_rate + r.creator_fee_rate)
  creator ← split_creator_fee total r.trade_fee_rate r.creator_fee_rate
  exit_if (ltb input total) null
  ok (record { creator_fee = creator; trade_fee = total - creator; less_fees = input - total })
input_fees input r false = do
  trade ← trading_fee input r.trade_fee_rate
  exit_if (ltb input trade) null
  ok (record { creator_fee = 0; trade_fee = trade; less_fees = input - trade })

-- The second branch: the creator fee and the output that is left.
pub record OutputFee : Type 0 where
  pub creator_fee : ℕ
  pub output_amount : ℕ

unfoldable pub output_fee : ℕ → ℕ → FeeRates → Bool → Result OutputFee
output_fee swapped creator r true = ok (record { creator_fee = creator; output_amount = swapped })
output_fee swapped creator r false = do
  fee ← creator_fee_of swapped r.creator_fee_rate
  exit_if (ltb swapped fee) null
  ok (record { creator_fee = fee; output_amount = swapped - fee })

unfoldable pub curve_swap_base_input : ℕ → ℕ → ℕ → FeeRates → Bool → Result CurveResult
unfolding input_fees output_fee
curve_swap_base_input input input_vault output_vault r on_input = do
  f ← input_fees input r on_input
  protocol ← protocol_fee_of f.trade_fee r.protocol_fee_rate
  fund ← fund_fee_of f.trade_fee r.fund_fee_rate
  swapped ← swap_base_input_without_fees f.less_fees input_vault output_vault
  o ← output_fee swapped f.creator_fee r on_input
  new_input ← in_u128 (input_vault + f.less_fees)
  exit_if (ltb output_vault swapped) null
  ok (record {
    new_input_vault_amount = new_input;
    new_output_vault_amount = output_vault - swapped;
    input_amount = input;
    output_amount = o.output_amount;
    trade_fee = f.trade_fee;
    protocol_fee = protocol;
    fund_fee = fund;
    creator_fee = o.creator_fee;
    input_amount_less_fees = f.less_fees;
    output_amount_swapped = swapped;
  })

-- The first branch of `curveSwapBaseOutput`: what leaves the curve, and the creator fee in it.
pub record GrossOutput : Type 0 where
  pub creator_fee : ℕ
  pub actual_output : ℕ

unfoldable pub gross_output : ℕ → FeeRates → Bool → Result GrossOutput
gross_output output r true = ok (record { creator_fee = 0; actual_output = output })
gross_output output r false = do
  w ← calculate_pre_fee_amount output r.creator_fee_rate
  ok (record { creator_fee = w - output; actual_output = w })

-- The second: what the user pays into the curve, fees included. A `null` of the inverse is unwrapped.
pub record GrossInput : Type 0 where
  pub creator_fee : ℕ
  pub trade_fee : ℕ
  pub input_amount : ℕ

unfoldable pub gross_input : ℕ → ℕ → FeeRates → Bool → Result GrossInput
gross_input swapped creator r true = do
  w ←
      on_null (calculate_pre_fee_amount swapped (r.trade_fee_rate + r.creator_fee_rate))
        (throw overflow)
  let total = w - swapped
  fee ← split_creator_fee total r.trade_fee_rate r.creator_fee_rate
  ok (record { creator_fee = fee; trade_fee = total - fee; input_amount = w })
gross_input swapped creator r false = do
  w ← on_null (calculate_pre_fee_amount swapped r.trade_fee_rate) (throw overflow)
  ok (record { creator_fee = creator; trade_fee = w - swapped; input_amount = w })

unfoldable pub curve_swap_base_output : ℕ → ℕ → ℕ → FeeRates → Bool → Result CurveResult
unfolding gross_output gross_input
curve_swap_base_output output input_vault output_vault r on_input = do
  g ← gross_output output r on_input
  swapped ← swap_base_output_without_fees g.actual_output input_vault output_vault
  i ← gross_input swapped g.creator_fee r on_input
  protocol ← protocol_fee_of i.trade_fee r.protocol_fee_rate
  fund ← fund_fee_of i.trade_fee r.fund_fee_rate
  new_input ← in_u128 (input_vault + swapped)
  exit_if (ltb output_vault g.actual_output) null
  ok (record {
    new_input_vault_amount = new_input;
    new_output_vault_amount = output_vault - g.actual_output;
    input_amount = i.input_amount;
    output_amount = output;
    trade_fee = i.trade_fee;
    protocol_fee = protocol;
    fund_fee = fund;
    creator_fee = i.creator_fee;
    input_amount_less_fees = swapped;
    output_amount_swapped = g.actual_output;
  })
