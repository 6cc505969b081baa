-- ===== src/Raydium/Tests.antt =====
-- A pool with every kind of fee, and the theorems of the Raydium modules at its swaps.
use atomarb.Common.{
  ◌+◌, ◌≤◌, ◌≡◌, refl, true, false, none, some, ok, err, fail, exceeded_slippage, u64_overflow,
  constant_product_decreased, arith,
}
use atomarb.Common.Int.{pos, negsuc}
use atomarb.Raydium.Layout.{PoolState, AmmConfig}
use atomarb.Raydium.Fees.{
  FeeRates, trading_fee, protocol_fee_of, fund_fee_of, creator_fee_of, split_creator_fee,
  calculate_pre_fee_amount,
}
use atomarb.Raydium.Curve.Agree.{output-input_agree}
use atomarb.Raydium.TransferFee.Bounds.{get_transfer_inverse_fee-exact}
use atomarb.Raydium.Swap.Settle.{IsSettled, simulate_swap_base_input-IsSettled, next_reserves}
use atomarb.Raydium.Swap.Checks.{simulate_swap_base_input-keeps_product}
use atomarb.Raydium.Swap.Output.{IsDelivered, simulate_swap_base_output-IsDelivered}
use atomarb.Raydium.Curve.{
  CurveResult, curve_swap_base_input, curve_swap_base_output, swap_base_input_without_fees,
  swap_base_output_without_fees,
}
use atomarb.Raydium.TransferFee.{
  TransferFeeTier, MintFeeView, get_transfer_fee, get_transfer_inverse_fee, checked_inverse_fee,
  transfer_fee_calculate_inverse_fee, transfer_fee_calculate_pre_fee_amount,
  transfer_fee_calculate_fee, epoch_fee_tier, token_2022, spl_token,
}
use atomarb.Raydium.Pool.{
  zero_for_one, apply_fee_update, vault_amount_without_fee, is_creator_fee_on_input, fee_rates_of,
}
use atomarb.Raydium.Swap.{
  SwapContext, reserves_for, reserves_by, below_minimum, above_maximum, SwapBaseInputOk,
  SwapBaseOutputOk, simulate_swap_base_input, simulate_swap_base_output,
}

-- What a test computes through.
unfoldable pub raydium : Unit {0}
unfolding simulate_swap_base_input simulate_swap_base_output reserves_for get_transfer_fee
    get_transfer_inverse_fee checked_inverse_fee transfer_fee_calculate_inverse_fee
    transfer_fee_calculate_pre_fee_amount transfer_fee_calculate_fee epoch_fee_tier
    vault_amount_without_fee is_creator_fee_on_input fee_rates_of curve_swap_base_input
    curve_swap_base_output trading_fee protocol_fee_of fund_fee_of creator_fee_of split_creator_fee
    calculate_pre_fee_amount swap_base_input_without_fees swap_base_output_without_fees
    below_minimum above_maximum
raydium = tt

abbrev pub pool : PoolState
pool = record {
  amm_config = 1;
  pool_creator = 2;
  token_0_vault = 66;
  token_1_vault = 67;
  lp_mint = 5;
  token_0_mint = 6;
  token_1_mint = 7;
  token_0_program = 8;
  token_1_program = 9;
  observation_key = 10;
  auth_bump = 254;
  status = 0;
  lp_mint_decimals = 9;
  mint_0_decimals = 9;
  mint_1_decimals = 6;
  lp_supply = 1_000_000;
  protocol_fees_token_0 = 100;
  protocol_fees_token_1 = 200;
  fund_fees_token_0 = 30;
  fund_fees_token_1 = 40;
  open_time = 0;
  recent_epoch = 700;
  creator_fee_on = 1;
  enable_creator_fee = true;
  creator_fees_token_0 = 5;
  creator_fees_token_1 = 6;
  padding_non_zero = false;
}

abbrev pub config : AmmConfig
config = record {
  bump = 1;
  disable_create_pool = false;
  index = 0;
  trade_fee_rate = 2_500;
  protocol_fee_rate = 120_000;
  fund_fee_rate = 40_000;
  create_pool_fee = 0;
  protocol_owner = 1;
  fund_owner = 2;
  creator_fee_rate = 500;
  padding_0 = 0;
}

abbrev pub tier : TransferFeeTier
tier = record { epoch = 600; max_fee = 5_000; bps = 100 }

-- A mint with a Token-2022 transfer fee of 1%, and a plain one.
abbrev taxed : MintFeeView
taxed = record { program = token_2022; transfer_fee = some (record { older = tier; newer = tier }) }

abbrev plain : MintFeeView
plain = record { program = spl_token; transfer_fee = none }

abbrev ctx : SwapContext
ctx = record {
  pool = pool;
  config = config;
  direction = zero_for_one;
  input_vault_amount = 1_000_135;
  output_vault_amount = 2_000_246;
  input_mint = plain;
  output_mint = taxed;
  epoch = 700;
}

abbrev curve_in : CurveResult
curve_in = record {
  new_input_vault_amount = 1_009_970;
  new_output_vault_amount = 1_980_257;
  input_amount = 10_000;
  output_amount = 19_743;
  trade_fee = 25;
  protocol_fee = 3;
  fund_fee = 1;
  creator_fee = 5;
  input_amount_less_fees = 9_970;
  output_amount_swapped = 19_743;
}

abbrev pub swapped_in : SwapBaseInputOk
swapped_in = record {
  transfer_fee_in = 0;
  actual_amount_in = 10_000;
  reserve_in = 1_000_000;
  reserve_out = 2_000_000;
  creator_fee_rate = 500;
  is_creator_fee_on_input = true;
  curve = curve_in;
  amount_out = 19_743;
  transfer_fee_out = 198;
  amount_received = 19_545;
  constant_before = 2_000_000_000_000;
  constant_after = 2_000_000_162_290;
  vault_in_after = 1_010_135;
  vault_out_after = 1_980_503;
}

abbrev curve_out : CurveResult
curve_out = record {
  new_input_vault_amount = 1_005_077;
  new_output_vault_amount = 1_989_898;
  input_amount = 5_093;
  output_amount = 10_102;
  trade_fee = 14;
  protocol_fee = 1;
  fund_fee = 0;
  creator_fee = 2;
  input_amount_less_fees = 5_077;
  output_amount_swapped = 10_102;
}

abbrev swapped_out : SwapBaseOutputOk
swapped_out = record {
  out_transfer_fee = 102;
  amount_out_with_transfer_fee = 10_102;
  reserve_in = 1_000_000;
  reserve_out = 2_000_000;
  creator_fee_rate = 500;
  is_creator_fee_on_input = true;
  curve = curve_out;
  input_amount = 5_093;
  input_transfer_fee = 0;
  input_transfer_amount = 5_093;
  constant_before = 2_000_000_000_000;
  constant_after = 2_000_000_712_146;
  vault_in_after = 1_005_228;
  vault_out_after = 1_990_144;
}

swap_in : simulate_swap_base_input ctx (pos 10_000) (some 19_545) ≡ ok swapped_in
unfolding raydium
swap_in = refl

swap_out : simulate_swap_base_output ctx (pos 10_000) (some 5_093) ≡ ok swapped_out
unfolding raydium
swap_out = refl

-- One unit below the exact bounds the slippage guards answer.
slippage :
    (simulate_swap_base_input ctx (pos 10_000) (some 19_546) ≡ err (fail exceeded_slippage))
    × (simulate_swap_base_output ctx (pos 10_000) (some 5_092) ≡ err (fail exceeded_slippage))
    × (simulate_swap_base_input ctx (negsuc 0) none ≡ err (fail u64_overflow))
unfolding raydium
slippage = (refl, refl, refl)

simulate_swap_base_input-IsSettled_example : IsSettled ctx 10_000 (some 19_545) swapped_in
simulate_swap_base_input-IsSettled_example =
    simulate_swap_base_input-IsSettled ctx 10_000 (some 19_545) swapped_in swap_in

simulate_swap_base_output-IsDelivered_example : IsDelivered ctx 10_000 (some 5_093) swapped_out
simulate_swap_base_output-IsDelivered_example =
    simulate_swap_base_output-IsDelivered ctx 10_000 (some 5_093) swapped_out swap_out

simulate_swap_base_input-keeps_product_example :
    ¬ (simulate_swap_base_input ctx (pos 10_000) none ≡ err (fail constant_product_decreased))
simulate_swap_base_input-keeps_product_example =
    simulate_swap_base_input-keeps_product ctx (pos 10_000) none

next_reserves_example :
    (p : PoolState) × (apply_fee_update pool zero_for_one true 3 1 5 ≡ ok p)
    × (reserves_by zero_for_one p 1_010_135 1_980_503
        ≡ ok (record { reserve_in = 1_009_991; reserve_out = 1_980_257 }))
next_reserves_example =
    next_reserves ctx 10_000 (some 19_545) swapped_in (omega arith) (omega arith) swap_in

abbrev rates : FeeRates
rates = record {
  trade_fee_rate = 2_500;
  creator_fee_rate = 500;
  protocol_fee_rate = 120_000;
  fund_fee_rate = 40_000;
}

output-input_agree_example :
    (10_102 ≤ curve_out.output_amount)
    × (curve_out.trade_fee ≡ 14)
    × (curve_out.input_amount_less_fees ≡ 5_077)
unfolding raydium
output-input_agree_example =
    output-input_agree 10_102 1_000_000 2_000_000 rates true curve_out curve_out refl refl

get_transfer_inverse_fee-exact_example : get_transfer_fee taxed 700 (10_000 + 102) ≡ ok 102
unfolding raydium
get_transfer_inverse_fee-exact_example =
    get_transfer_inverse_fee-exact taxed 700 10_000 102 (omega arith) refl
