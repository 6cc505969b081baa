-- ===== src/Pumpswap/Adapter/Tests.antt =====
-- A pool at its first fee tier, a buy and a sale on it, and the theorems of the adapter's modules at
-- them. The concrete keys stand for those that the library derives.
use atomarb.Common.{◌+◌, ◌≡◌, refl, true, false, none, some, [], ◌∷◌, ok, arith}
use atomarb.Common.Int.{ℤ, pos}
use atomarb.Raydium.Adapter.Tests.{platform, before, mint_0}
use atomarb.Pumpswap.Params.{PumpswapParams}
use atomarb.Pumpswap.Decode.{PumpGlobalConfig}
use atomarb.Pumpswap.Tests.{canonical, keys, fee_config, spent, spent_eq, pool, rates, trading}
use atomarb.Pumpswap.Math.{BuyQuoteResult}
use atomarb.Pumpswap.Adapter.Quote.{budget_for}
use atomarb.Adapter.{pumpswap, of_pumpswap, DecodedPool, Quote}
use atomarb.Pumpswap.Schedule.{
  is_sol_like_quote_mint, is_stable_quote_mint, is_zero_fees, is_pump_pool, pool_market_cap,
  or_this, last_reached, calculate_fee_tier, stable_or, stable_tiers, fees_for_quote_mint,
  overrides, schedule_of, select_fee_schedule,
}
use atomarb.Pumpswap.TransferFee.{
  capped, amount_for, transfer_fee_amount, transfer_fee_amount_worst_case,
}
use atomarb.Raydium.Adapter.{program_id_of}
use atomarb.Raydium.Adapter.Validate.{failing, is_empty}
use atomarb.Pumpswap.Adapter.Quote.{
  early_reasons, priced, buy_quote, sell_quote, quote_with, fee_items, if_charged, transfer_fee_of,
  quote_exact_in,
}
use atomarb.Pumpswap.Adapter.Apply.{new_base, new_quote, moved, apply_swap}
use atomarb.Pumpswap.Adapter.Moves.{IsTraded, apply_swap-IsTraded}
use atomarb.Pumpswap.Adapter.Budget.{IsReproduced, budget_for-IsReproduced}
use atomarb.Pumpswap.Adapter.{
  params_by, pumpswap_params, schedule, schedule_at, select_schedule, pool_accounts,
  token_program_of, protocol_fee_recipient_for, buyback_fee_recipient_for, first_of,
  is_buy_disabled, is_sell_disabled, or_no_schedule, schedule_of, fees_for_quote_mint, is_pump_pool,
  select_fee_schedule, select_schedule, schedule_at, schedule, params_by, pumpswap_params,
  PumpswapAdapter,
}

abbrev pub adapter : PumpswapAdapter
adapter = record {
  platform = platform;
  keys = keys;
  pump_amm_program_id = 70;
  pump_fee_program_id = 71;
  global_config_pda = 72;
  fee_config_pda = 73;
  event_authority_pda = 74;
  global_volume_accumulator_pda = 75;
  system_program_id = 76;
  associated_token_program_id = 77;
  user_volume_accumulator_pda = λ user. user + 1_000;
  coin_creator_vault_authority_pda = λ creator. creator + 2_000;
  pool_v2_pda = λ mint. mint + 3_000;
  pool_pda = λ index creator base quote. index + creator + base + quote;
  pool_lp_mint_pda = λ pool. pool + 4_000;
  sha256_hex = λ swapped. "swapped";
}

abbrev global_config : PumpGlobalConfig
global_config = record {
  admin = 1;
  lp_fee_basis_points = 20;
  protocol_fee_basis_points = 5;
  disable_flags = 0;
  protocol_fee_recipients = 80 ∷ [];
  coin_creator_fee_basis_points = 5;
  admin_set_coin_creator_authority = 81;
  whitelist_pda = 82;
  reserved_fee_recipient = 83;
  mayhem_mode_enabled = false;
  reserved_fee_recipients = 84 ∷ [];
  is_cashback_enabled = false;
  buyback_fee_recipients = 85 ∷ [];
  buyback_basis_points = 0;
  boost_authority = 86;
  boost_enabled = false;
  creator_fee_configurable = true;
  max_configurable_creator_fee_bps = 0;
  layout_length = 1_000;
}

abbrev params : PumpswapParams
params = record {
  pool = canonical;
  global_config = global_config;
  fee_config = fee_config;
  owners = record { pool = 70; global_config = 70; fee_config = 71 };
  effective_quote_reserve = pos 2_000_000;
  canonical = true;
  fee_schedule = none;
  token_2022 = record {
    rejects = [];
    warnings = [];
    transfer_fee = none;
    transfer_fee_tiers = some (record {
      older = record { epoch = 1; max_fee = 1_000_000; bps = 50 };
      newer = record { epoch = 2; max_fee = 1_000_000; bps = 100 };
    });
  };
  swaps_applied = 0;
}

abbrev traded : DecodedPool
traded = record before {
  adapter = pumpswap;
  address = 60;
  program_id = 70;
  mint_a = record mint_0 { mint = 20; supply = 1_000_000_000 };
  mint_b = record mint_0 { mint = 10 };
  reserve_a = 1_000_000;
  reserve_b = 2_000_000;
  params = of_pumpswap params;
}

-- What a test computes through.
swapping : Unit {0}
unfolding trading pumpswap_params params_by schedule schedule_at select_schedule select_fee_schedule
    is_sol_like_quote_mint is_stable_quote_mint is_zero_fees pool_market_cap or_this last_reached
    stable_or stable_tiers overrides capped amount_for transfer_fee_amount is_pump_pool
    fees_for_quote_mint schedule_of calculate_fee_tier pool_accounts token_program_of program_id_of
    protocol_fee_recipient_for buyback_fee_recipient_for first_of early_reasons failing
    is_buy_disabled is_sell_disabled priced buy_quote sell_quote quote_with fee_items if_charged
    transfer_fee_of transfer_fee_amount_worst_case quote_exact_in is_empty new_base new_quote
    or_no_schedule moved apply_swap
swapping = tt

-- A sale of 1,000 base tokens, of which the mint takes 10: the newer fee is the larger one.
abbrev sold : Quote
sold = record {
  adapter = pumpswap;
  pool = 60;
  input_mint = 20;
  output_mint = 10;
  amount_in = pos 1_000;
  amount_out_to_user = pos 1_972;
  vault_in_delta = pos 990;
  vault_out_delta = pos 1_997;
  fees =
      record { name = "lp_fee"; amount = pos 1; mint = 10; recipient = "lp" }
      ∷ record { name = "protocol_fee"; amount = pos 19; mint = 10; recipient = "protocol" }
      ∷ record { name = "coin_creator_fee"; amount = pos 6; mint = 10; recipient = "creator" }
      ∷ record {
        name = "token2022_transfer_fee";
        amount = pos 10;
        mint = 20;
        recipient = "token2022_transfer_fee";
      }
      ∷ [];
  accounts_needed =
      60 ∷ 72 ∷ 20 ∷ 10 ∷ 22 ∷ 23 ∷ 80 ∷ 98 ∷ 8 ∷ 8 ∷ 76 ∷ 77 ∷ 74 ∷ 70 ∷ 2_042 ∷ 2_024 ∷ 75 ∷ 73
      ∷ 71 ∷ 85 ∷ 103 ∷ 3_020 ∷ [];
  state_hash = "snapshot";
  min_slot = 302_400_000;
  max_slot = 302_400_001;
  reject_reasons = [];
}

sold_eq : quote_exact_in adapter traded 20 (pos 1_000) ≡ ok sold
unfolding swapping
sold_eq = refl

abbrev after : DecodedPool
after = record traded {
  vault_a = record (traded.vault_a) { amount = 1_000_990 };
  vault_b = record (traded.vault_b) { amount = 1_998_003 };
  reserve_a = 1_000_990;
  reserve_b = 1_998_003;
  params = of_pumpswap (record params {
    effective_quote_reserve = pos 1_998_003;
    fee_schedule = some (record {
      lp_bps = 2;
      protocol_bps = 93;
      creator_bps = 30;
      schedule_creator_bps = 30;
      creator_fee_applies = true;
      override_applied = false;
      is_pump_pool = true;
      market_cap_lamports = pos 1_996_026_933;
      tier_index = some 0;
    });
    swaps_applied = 1;
  });
  state_hash = "swapped";
}

after_eq : apply_swap adapter traded sold ≡ ok after
unfolding swapping
after_eq = refl

params_eq : pumpswap_params traded ≡ ok params
unfolding pumpswap_params params_by
params_eq = refl

apply_swap-IsTraded_example : IsTraded params traded sold after
apply_swap-IsTraded_example =
    apply_swap-IsTraded adapter traded 20 (pos 1_000) sold after params params_eq sold_eq refl
      after_eq

budget_for-IsReproduced_example :
    (b : ℤ) × (again : BuyQuoteResult) × (budget_for pool rates (pos 10_000) ≡ ok b)
    × IsReproduced pool rates spent b again
budget_for-IsReproduced_example =
    budget_for-IsReproduced pool rates (pos 10_000) spent (omega arith) spent_eq
