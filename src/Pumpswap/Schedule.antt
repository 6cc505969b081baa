-- ===== src/Pumpswap/Schedule.antt =====
-- The choice of a fee schedule, src/adapters/pumpswap/fees.ts, and the accounts that it reads. The
-- texts that say where a schedule comes from are left out. The known mints and the address that a
-- mint's canonical creator has are library values, and so parameters.
pub mod Tiers
pub mod Select
use atomarb.Common.{
  ℕ, suc, ◌+◌, ◌*◌, ◌/◌, Bool, true, false, ◌||◌, ◌&&◌, not, Option, none, some, List, [], ◌∷◌,
  Result, ok, err, fail, throw, empty_pool, empty_tiers, ◌>>=◌, ◌>>◌, exit_if, or_exit, ltb, leb,
  ◌==◌, if◌then◌else◌,
}
use atomarb.Common.Int.{ℤ, pos}
use atomarb.Raydium.Layout.{PublicKey}

pub record Fees : Type 0 where
  pub lp_fee_bps : ℕ
  pub protocol_fee_bps : ℕ
  pub creator_fee_bps : ℕ

pub record FeeTier : Type 0 where
  pub market_cap_lamports_threshold : ℕ
  pub fees : Fees

pub record PumpFeeConfig : Type 0 where
  pub bump : ℕ
  pub admin : PublicKey
  pub flat_fees : Fees
  pub fee_tiers : List FeeTier
  pub stable_fee_tiers : List FeeTier
  pub exotic_flat_fees : Fees
  pub layout_length : ℕ
  pub decoded_end : ℕ

pub record PumpPool : Type 0 where
  pub pool_bump : ℕ
  pub index : ℕ
  pub creator : PublicKey
  pub base_mint : PublicKey
  pub quote_mint : PublicKey
  pub lp_mint : PublicKey
  pub pool_base_token_account : PublicKey
  pub pool_quote_token_account : PublicKey
  pub lp_supply : ℕ
  pub coin_creator : PublicKey
  pub is_mayhem_mode : Bool
  pub is_cashback_coin : Bool
  pub virtual_quote_reserves : ℤ
  pub creator_fee_bps : ℕ
  pub can_edit_creator_fee : Bool
  pub is_holder_reward : Bool
  pub layout_length : ℕ

-- `PublicKey.default`, `WSOL_MINT`, `NATIVE_MINT_2022` and `USDC_MINT`, and `pumpPoolAuthorityPda`,
-- which the library derives.
pub record Keys : Type 0 where
  pub default : PublicKey
  pub wsol_mint : PublicKey
  pub native_mint_2022 : PublicKey
  pub usdc_mint : PublicKey
  pub pump_pool_authority : PublicKey → PublicKey

abbrev pub pump_amm_total_token_supply : ℕ
pump_amm_total_token_supply = 1_000_000_000_000_000

unfoldable pub is_sol_like_quote_mint : Keys → PublicKey → Bool
is_sol_like_quote_mint k mint =
    mint == k.default || mint == k.wsol_mint || mint == k.native_mint_2022

unfoldable pub is_stable_quote_mint : Keys → PublicKey → Bool
is_stable_quote_mint k mint = mint == k.usdc_mint

unfoldable pub is_zero_fees : Fees → Bool
is_zero_fees f = f.lp_fee_bps == 0 && f.protocol_fee_bps == 0 && f.creator_fee_bps == 0

unfoldable pub is_pump_pool : Keys → PublicKey → PublicKey → Bool
is_pump_pool k base_mint creator = k.pump_pool_authority base_mint == creator

-- The reserves are not negative where this is called.
unfoldable pub pool_market_cap : ℕ → ℕ → ℕ → Bool → Option ℕ
pool_market_cap effective_quote base supply mayhem =
    if base == 0
    then none
    else some (effective_quote * (if mayhem then pump_amm_total_token_supply else supply) / base)

-- A tier that counts if no later one does.
unfoldable pub or_this : FeeTier → ℕ → ℕ → Option (Fees × ℕ) → Option (Fees × ℕ)
or_this t i cap none = if leb t.market_cap_lamports_threshold cap then some (t.fees, i) else none
or_this t i cap (some r) = some r

-- The loop from the last tier down, over the tiers from the given index on.
unfoldable pub last_reached : List FeeTier → ℕ → ℕ → Option (Fees × ℕ)
unfolding or_this
last_reached [] i cap = none
last_reached (t ∷ ts) i cap = or_this t i cap (last_reached ts (suc i) cap)

abbrev pub or_first : Fees → Option (Fees × ℕ) → Fees × ℕ
or_first fees none = (fees, 0)
or_first fees (some r) = r

unfoldable pub calculate_fee_tier : List FeeTier → ℕ → Result (Fees × ℕ)
unfolding last_reached
calculate_fee_tier [] cap = err (throw empty_tiers)
calculate_fee_tier (t ∷ ts) cap =
    if ltb cap t.market_cap_lamports_threshold
    then ok (t.fees, 0)
    else ok (or_first t.fees (last_reached (t ∷ ts) 0 cap))

-- The tiers for a stable quote.
unfoldable pub stable_or : PumpFeeConfig → List FeeTier → List FeeTier
stable_or c [] = c.fee_tiers
stable_or c (t ∷ ts) = t ∷ ts

unfoldable pub stable_tiers : PumpFeeConfig → List FeeTier
unfolding stable_or
stable_tiers c = stable_or c c.stable_fee_tiers

abbrev pub with_index : Fees × ℕ → Fees × Option ℕ
with_index (f, i) = (f, some i)

unfoldable pub fees_for_quote_mint :
    Keys → PumpFeeConfig → Bool → ℕ → PublicKey → Result (Fees × Option ℕ)
unfolding is_sol_like_quote_mint is_stable_quote_mint is_zero_fees calculate_fee_tier stable_tiers
fees_for_quote_mint k c pump cap mint =
    let tiered =
      λ (tiers : List FeeTier). calculate_fee_tier tiers cap >>= λ t. ok (with_index t) in
    if not pump
    then ok (c.flat_fees, none)
    else if is_sol_like_quote_mint k mint
    then tiered c.fee_tiers
    else if is_stable_quote_mint k mint
    then tiered (stable_tiers c)
    else if is_zero_fees c.exotic_flat_fees
    then ok (c.flat_fees, none)
    else ok (c.exotic_flat_fees, none)

pub record FeeSchedule : Type 0 where
  pub lp_bps : ℕ
  pub protocol_bps : ℕ
  pub creator_bps : ℕ
  pub schedule_creator_bps : ℕ
  pub creator_fee_applies : Bool
  pub override_applied : Bool
  pub is_pump_pool : Bool
  pub market_cap_lamports : ℤ
  pub tier_index : Option ℕ

-- `globalConfig.creatorFeeConfigurable && pool.creatorFeeBps > 0n`
unfoldable pub overrides : Bool → PumpPool → Bool
overrides configurable pool = configurable && ltb 0 pool.creator_fee_bps

unfoldable pub schedule_of : Keys → PumpPool → Bool → ℕ → Fees × Option ℕ → FeeSchedule
unfolding overrides is_pump_pool
schedule_of k pool configurable cap sel =
    let over = overrides configurable pool in
    let creator = if over then pool.creator_fee_bps else (sel.0).creator_fee_bps in
    let applies = not (pool.coin_creator == k.default) in
    record {
      lp_bps = (sel.0).lp_fee_bps;
      protocol_bps = (sel.0).protocol_fee_bps;
      creator_bps = if applies then creator else 0;
      schedule_creator_bps = creator;
      creator_fee_applies = applies;
      override_applied = over;
      is_pump_pool = is_pump_pool k pool.base_mint pool.creator;
      market_cap_lamports = pos cap;
      tier_index = sel.1;
    }

-- The global config is read for `creatorFeeConfigurable` alone.
unfoldable pub select_fee_schedule :
    Keys
    → PumpPool
    → (configurable : Bool) → PumpFeeConfig
    → (base_mint_supply base_reserve effective_quote : ℕ) → Result FeeSchedule
unfolding pool_market_cap is_pump_pool fees_for_quote_mint schedule_of
select_fee_schedule k pool configurable c supply base effective_quote = do
  cap ← or_exit (pool_market_cap effective_quote base supply pool.is_mayhem_mode) (fail empty_pool)
  sel ← fees_for_quote_mint k c (is_pump_pool k pool.base_mint pool.creator) cap pool.quote_mint
  ok (schedule_of k pool configurable cap sel)
