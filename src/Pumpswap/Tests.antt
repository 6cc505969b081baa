-- ===== src/Pumpswap/Tests.antt =====
-- A boosted pool with all three fees, and the theorems of the Pumpswap modules at its trades.
use atomarb.Common.{OnlyFails, ℕ, ◌+◌, ◌≤◌, ◌<◌, ◌≡◌, ◌↔◌, refl, true, false, [], ◌∷◌, ok, arith}
use atomarb.Common.Int.{pos, ◌+ℤ◌, ◌-ℤ◌, ◌≤ℤ◌, ◌<ℤ◌}
use atomarb.Bigint.{ceil_div}
use atomarb.Pumpswap.Math.{
  PoolMathState, FeeBps, fee_ceil, effective_quote_reserve, charges, BuyBaseResult, buy_priced,
  buy_base_input, BuyQuoteResult, corrected, base_out_of, floor_quote_of, spend_paid,
  buy_quote_input, SellResult, sell_paid, quote_out_of, sell_base_input,
}
use atomarb.Pumpswap.Math.Fees.{IsEffective}
use atomarb.Pumpswap.Math.Buy.{IsPriced, buy_base_input-IsPriced, buy_base_input-ok_iff}
use atomarb.Pumpswap.Math.Spend.{IsSpent, buy_quote_input-IsSpent}
use atomarb.Pumpswap.Math.Sell.{IsSold, sell_base_input-IsSold}
use atomarb.Pumpswap.Math.Agree.{spend-buy_le, after_buy, buy-sell_le}
use atomarb.Raydium.TransferFee.{TransferFeeTier, TransferFeeConfigView}
use atomarb.Pumpswap.Schedule.{
  Fees, FeeTier, PumpFeeConfig, PumpPool, Keys, calculate_fee_tier, FeeSchedule,
  select_fee_schedule,
}
use atomarb.Pumpswap.Schedule.Tiers.{IsTierOf, calculate_fee_tier-IsTierOf}
use atomarb.Pumpswap.Schedule.Select.{IsSchedule, select_fee_schedule-IsSchedule}

-- What a test computes through.
unfoldable pub trading : Unit {0}
unfolding fee_ceil ceil_div effective_quote_reserve charges buy_priced buy_base_input corrected
    base_out_of floor_quote_of spend_paid buy_quote_input sell_paid quote_out_of sell_base_input
    ◌+ℤ◌ ◌-ℤ◌
trading = tt

abbrev pub pool : PoolMathState
pool = record {
  base_reserve = 1_000_000;
  quote_reserve = 2_000_000;
  virtual_quote_reserves = pos 1_000_000;
}

abbrev pub rates : FeeBps
rates = record { lp_bps = 20; protocol_bps = 5; creator_bps = 5 }

abbrev bought : BuyBaseResult
bought = record {
  base_out = 1_000;
  quote_amount_in = 3_004;
  paid = record { lp_fee = 7; protocol_fee = 2; creator_fee = 2 };
  user_quote_in = 3_015;
  eff_q = 3_000_000;
}

bought_eq : buy_base_input pool rates (pos 1_000) ≡ ok bought
unfolding trading
bought_eq = refl

abbrev pub spent : BuyQuoteResult
spent = record {
  spendable_quote_in = 10_000;
  effective_quote = pos 9_970;
  paid = record { lp_fee = 20; protocol_fee = 5; creator_fee = 5 };
  total_with_fees = pos 10_000;
  curve_input = pos 9_969;
  base_out = 3_311;
  eff_q = 3_000_000;
}

pub spent_eq : buy_quote_input pool rates (pos 10_000) ≡ ok spent
unfolding trading
spent_eq = refl

abbrev sold : SellResult
sold = record {
  base_in = 1_000;
  quote_amount_out = 3_003;
  paid = record { lp_fee = 7; protocol_fee = 2; creator_fee = 2 };
  user_quote_out = pos 2_992;
  eff_q = 3_003_011;
}

sold_eq : sell_base_input (after_buy pool bought) rates (pos 1_000) ≡ ok sold
unfolding trading
sold_eq = refl

effective : IsEffective pool 3_000_000
effective = record {
  virtual_nonneg = omega arith;
  value = refl;
  quote_pos = omega arith;
  base_pos = omega arith;
}

buy_base_input-IsPriced_example : (pos 0 <ℤ pos 1_000) × IsPriced pool rates 1_000 bought
buy_base_input-IsPriced_example = buy_base_input-IsPriced pool rates (pos 1_000) bought bought_eq

buy_base_input-ok_iff_example :
    (((r : BuyBaseResult) × (buy_base_input pool rates (pos 1_000) ≡ ok r))
      ↔ ((eff : ℕ) × IsEffective pool eff × (pos 0 <ℤ pos 1_000) × (1_000 < 1_000_000)))
    × OnlyFails (buy_base_input pool rates (pos 1_000))
buy_base_input-ok_iff_example = buy_base_input-ok_iff pool rates (pos 1_000)

buy_quote_input-IsSpent_example : (pos 0 <ℤ pos 10_000) × IsSpent pool rates 10_000 spent
buy_quote_input-IsSpent_example = buy_quote_input-IsSpent pool rates (pos 10_000) spent spent_eq

sell_base_input-IsSold_example :
    (pos 0 <ℤ pos 1_000) × IsSold (after_buy pool bought) rates 1_000 sold
sell_base_input-IsSold_example =
    sell_base_input-IsSold (after_buy pool bought) rates (pos 1_000) sold sold_eq

spend-buy_le_example :
    (t : BuyBaseResult) × (buy_base_input pool rates (pos 3_311) ≡ ok t)
    × (t.quote_amount_in ≤ 9_969)
spend-buy_le_example = spend-buy_le pool rates (pos 10_000) spent spent_eq

buy-sell_le_example : pos 2_992 ≤ℤ pos 3_015
buy-sell_le_example = buy-sell_le pool rates rates (pos 1_000) bought sold bought_eq sold_eq

abbrev older : TransferFeeTier
older = record { epoch = 600; max_fee = 5_000; bps = 100 }

abbrev newer : TransferFeeTier
newer = record { epoch = 700; max_fee = 1_000_000; bps = 50 }

abbrev tiers : TransferFeeConfigView
tiers = record { older = older; newer = newer }

abbrev low : FeeTier
low = record {
  market_cap_lamports_threshold = 0;
  fees = record { lp_fee_bps = 2; protocol_fee_bps = 93; creator_fee_bps = 30 };
}

abbrev high : FeeTier
high = record {
  market_cap_lamports_threshold = 420_000_000_000;
  fees = record { lp_fee_bps = 20; protocol_fee_bps = 5; creator_fee_bps = 95 };
}

abbrev pub fee_config : PumpFeeConfig
fee_config = record {
  bump = 255;
  admin = 1;
  flat_fees = record { lp_fee_bps = 25; protocol_fee_bps = 5; creator_fee_bps = 0 };
  fee_tiers = low ∷ high ∷ [];
  stable_fee_tiers = [];
  exotic_flat_fees = record { lp_fee_bps = 0; protocol_fee_bps = 0; creator_fee_bps = 0 };
  layout_length = 4_097;
  decoded_end = 4_097;
}

-- A concrete derivation of the creator stands for the library's.
abbrev pub keys : Keys
keys = record {
  default = 0;
  wsol_mint = 10;
  native_mint_2022 = 11;
  usdc_mint = 12;
  pump_pool_authority = λ (mint : ℕ). mint + 100;
}

abbrev pub canonical : PumpPool
canonical = record {
  pool_bump = 254;
  index = 0;
  creator = 120;
  base_mint = 20;
  quote_mint = 10;
  lp_mint = 21;
  pool_base_token_account = 22;
  pool_quote_token_account = 23;
  lp_supply = 1_000;
  coin_creator = 24;
  is_mayhem_mode = false;
  is_cashback_coin = false;
  virtual_quote_reserves = pos 0;
  creator_fee_bps = 0;
  can_edit_creator_fee = false;
  is_holder_reward = false;
  layout_length = 271;
}

calculate_fee_tier-IsTierOf_example :
    (r : Fees × ℕ) × (calculate_fee_tier (low ∷ high ∷ []) 500_000_000_000 ≡ ok r)
    × IsTierOf (low ∷ high ∷ []) 500_000_000_000 r
calculate_fee_tier-IsTierOf_example =
    calculate_fee_tier-IsTierOf low (high ∷ []) 500_000_000_000 ((omega arith, tt), (tt, tt))

select_fee_schedule-IsSchedule_example :
    (r : FeeSchedule) × (select_fee_schedule keys canonical true fee_config 1_000_000_000 2_000_000
        3_000_000
      ≡ ok r)
    × IsSchedule keys canonical true fee_config r
select_fee_schedule-IsSchedule_example =
    select_fee_schedule-IsSchedule keys canonical true fee_config 1_000_000_000 2_000_000 3_000_000
      low (high ∷ []) (omega arith) refl
