-- ===== src/Pumpswap/Adapter.antt =====
-- The class of src/adapters/pumpswap/adapter.ts: the keys that it works with, the accounts it needs, and
-- the schedule and the state for the math. The operations stand in the child modules.
pub mod Decode
pub mod Validate
pub mod Quote
pub mod Apply
pub mod Instruction
pub mod Budget
pub mod Runs
pub mod Moves
pub mod Tests
use Prim.Native.String.{String}
use atomarb.Common.{
  type_error, not_this_adapter, pool_owner_mismatch, ℕ, ◌+◌, ◌*◌, ◌/◌, ◌%◌, Bool, true, false, not,
  Option, none, some, List, [], ◌∷◌, ◌++◌, Result, ok, err, null, fail, throw, empty_pool, ◌>>=◌,
  ◌>>◌, exit_if, or_exit, ◌==◌, if◌then◌else◌,
}
use atomarb.Common.Int.{ℤ, pos, negsuc, ◌+ℤ◌, sub_ℕ}
use atomarb.Raydium.Layout.{PublicKey}
use atomarb.Raydium.TransferFee.{TokenProgramKind}
use atomarb.Raydium.Adapter.{program_id_of}
use atomarb.Pumpswap.Params.{PumpswapParams}
use atomarb.Pumpswap.Math.{PoolMathState, FeeBps}
use atomarb.Pumpswap.Schedule.{
  Keys, Fees, FeeTier, PumpPool, PumpFeeConfig, FeeSchedule, is_pump_pool, fees_for_quote_mint,
  schedule_of, select_fee_schedule, pump_amm_total_token_supply,
}
use atomarb.Pumpswap.Decode.{PumpGlobalConfig, decode_pool}
use atomarb.Adapter.{
  AdapterId, raydium_cpmm, pumpswap, DecodedPool, Params, of_raydium, of_pumpswap, PoolRef,
}
use atomarb.Adapter.Accounts.{MintInfo, TokenAccountInfo, RawAccount}
use atomarb.Snapshot.{Platform}

-- What the text that `applySwap` hashes joins.
pub record Swapped : Type 0 where
  pub prev : String
  pub input_mint : PublicKey
  pub amount_in : ℤ
  pub vault_in_delta : ℤ
  pub vault_out_delta : ℤ

-- The known keys, and the addresses that the library derives.
pub record PumpswapAdapter : Type 0 where
  pub platform : Platform
  pub keys : Keys
  pub pump_amm_program_id : PublicKey
  pub pump_fee_program_id : PublicKey
  pub global_config_pda : PublicKey
  pub fee_config_pda : PublicKey
  pub event_authority_pda : PublicKey
  pub global_volume_accumulator_pda : PublicKey
  pub system_program_id : PublicKey
  pub associated_token_program_id : PublicKey
  pub user_volume_accumulator_pda : (user : PublicKey) → PublicKey
  pub coin_creator_vault_authority_pda : (coin_creator : PublicKey) → PublicKey
  pub pool_v2_pda : (base_mint : PublicKey) → PublicKey
  pub pool_pda : ℕ → (creator base_mint quote_mint : PublicKey) → PublicKey
  pub pool_lp_mint_pda : (pool : PublicKey) → PublicKey
  pub sha256_hex : Swapped → String

unfoldable pub params_by : AdapterId → Params → Result PumpswapParams
params_by raydium_cpmm _ = err (throw not_this_adapter)
params_by pumpswap (of_pumpswap p) = ok p
params_by pumpswap (of_raydium p) = err (throw type_error)

unfoldable pub pumpswap_params : DecodedPool → Result PumpswapParams
unfolding params_by
pumpswap_params d = params_by d.adapter d.params

unfoldable pub token_program_of : PumpswapAdapter → TokenProgramKind → PublicKey
unfolding program_id_of
token_program_of self kind = program_id_of self.platform.token_programs kind

-- `xs[0]!`: an array that is empty has no first entry, and what is done with it throws.
unfoldable pub first_of : List PublicKey → Result PublicKey
first_of [] = err (throw type_error)
first_of (k ∷ ks) = ok k

unfoldable pub protocol_fee_recipient_for : PumpGlobalConfig → Bool → Result PublicKey
unfolding first_of
protocol_fee_recipient_for gc mayhem =
    if mayhem then ok gc.reserved_fee_recipient else first_of gc.protocol_fee_recipients

unfoldable pub buyback_fee_recipient_for : PumpGlobalConfig → Result PublicKey
unfolding first_of
buyback_fee_recipient_for gc = first_of gc.buyback_fee_recipients

unfoldable pub pool_keys : PumpswapAdapter → PoolRef → PumpPool → List PublicKey
pool_keys self pool p =
    pool.address ∷ self.global_config_pda ∷ self.fee_config_pda ∷ p.base_mint ∷ p.quote_mint
    ∷ p.pool_base_token_account ∷ p.pool_quote_token_account ∷ []

-- The body with the pool's account.
unfoldable pub required_for :
    PumpswapAdapter → PoolRef → Option RawAccount → Result (List PublicKey)
unfolding decode_pool pool_keys
required_for self pool none = ok (pool.address ∷ [])
required_for self pool (some account) = do
  exit_if (not (account.owner == self.pump_amm_program_id)) (fail pool_owner_mismatch)
  p ← decode_pool self.keys.default account.bytes
  ok (pool_keys self pool p)

unfoldable pub required_accounts :
    PumpswapAdapter → PoolRef → Option RawAccount → Result (List PublicKey)
unfolding required_for
required_accounts self pool account = required_for self pool account

-- `disableFlags & DISABLE_FLAG.buy`, bit 3, and `sell`, bit 4.
unfoldable pub is_buy_disabled : ℕ → Bool
is_buy_disabled flags = (flags / 8) % 2 == 1

unfoldable pub is_sell_disabled : ℕ → Bool
is_sell_disabled flags = (flags / 16) % 2 == 1

-- No threshold is below a market cap below 0, so the first tier is taken, as if there were no other.
abbrev pub first_tier : List FeeTier → List FeeTier
first_tier [] = []
first_tier (t ∷ ts) = t ∷ []

abbrev pub first_tiers : PumpFeeConfig → PumpFeeConfig
first_tiers c = record c {
  fee_tiers = first_tier c.fee_tiers;
  stable_fee_tiers = first_tier c.stable_fee_tiers;
}

-- `selectFeeSchedule` for an effective quote reserve of -(n + 1): the market cap is rounded toward 0.
unfoldable pub schedule_below :
    Keys → PumpPool → Bool → PumpFeeConfig → (supply base n : ℕ) → Result FeeSchedule
unfolding select_fee_schedule is_pump_pool fees_for_quote_mint schedule_of
schedule_below k pool configurable c supply base n = do
  exit_if (base == 0) (fail empty_pool)
  let total = if pool.is_mayhem_mode then pump_amm_total_token_supply else supply
  let cap = (n + 1) * total / base
  if cap == 0
      then select_fee_schedule k pool configurable c supply base 0
      else (fees_for_quote_mint k (first_tiers c) (is_pump_pool k pool.base_mint pool.creator) 0
            pool.quote_mint
          >>= λ sel. ok (record (schedule_of k pool configurable 0 sel) {
            market_cap_lamports = sub_ℕ 0 cap;
          }))

unfoldable pub select_schedule :
    Keys → PumpPool → Bool → PumpFeeConfig → (supply base : ℕ) → ℤ → Result FeeSchedule
unfolding select_fee_schedule schedule_below
select_schedule k pool configurable c supply base (pos n) =
    select_fee_schedule k pool configurable c supply base n
select_schedule k pool configurable c supply base (negsuc n) =
    schedule_below k pool configurable c supply base n

-- `schedule`, with the reserves as arguments, for it is also called with the reserves after a swap.
unfoldable pub schedule_at :
    PumpswapAdapter → PumpswapParams → DecodedPool → (base : ℕ) → ℤ → Result FeeSchedule
unfolding select_schedule
schedule_at self p d base effective_quote =
    select_schedule self.keys p.pool p.global_config.creator_fee_configurable p.fee_config
      d.mint_a.supply base effective_quote

unfoldable pub schedule : PumpswapAdapter → PumpswapParams → DecodedPool → Result FeeSchedule
unfolding schedule_at ◌+ℤ◌
schedule self p d =
    schedule_at self p d d.reserve_a (pos d.reserve_b +ℤ p.pool.virtual_quote_reserves)

-- A schedule that cannot be chosen is `null`; an error is not caught.
unfoldable pub or_no_schedule : Result FeeSchedule → Result (Option FeeSchedule)
or_no_schedule (ok s) = ok (some s)
or_no_schedule (err (fail code)) = ok none
or_no_schedule (err null) = err null
or_no_schedule (err (throw t)) = err (throw t)

abbrev pub fees_of : FeeSchedule → FeeBps
fees_of s = record { lp_bps = s.lp_bps; protocol_bps = s.protocol_bps; creator_bps = s.creator_bps }

abbrev pub math_state : PumpswapParams → DecodedPool → PoolMathState
math_state p d = record {
  base_reserve = d.reserve_a;
  quote_reserve = d.reserve_b;
  virtual_quote_reserves = p.pool.virtual_quote_reserves;
}

unfoldable pub pool_accounts :
    PumpswapAdapter → PumpswapParams → DecodedPool → Result (List PublicKey)
unfolding token_program_of protocol_fee_recipient_for buyback_fee_recipient_for
pool_accounts self p d = do
  let pool = p.pool
  let quote_tp = token_program_of self d.mint_b.program
  let ata =
      λ (owner : PublicKey). self.platform.associated_token_address owner pool.quote_mint quote_tp
  recipient ← protocol_fee_recipient_for p.global_config pool.is_mayhem_mode
  buyback ← buyback_fee_recipient_for p.global_config
  let ccva = self.coin_creator_vault_authority_pda pool.coin_creator
  ok (
      (d.address
        ∷ self.global_config_pda
        ∷ pool.base_mint
        ∷ pool.quote_mint
        ∷ pool.pool_base_token_account
        ∷ pool.pool_quote_token_account
        ∷ recipient
        ∷ ata recipient
        ∷ token_program_of self d.mint_a.program
        ∷ quote_tp
        ∷ self.system_program_id
        ∷ self.associated_token_program_id
        ∷ self.event_authority_pda
        ∷ self.pump_amm_program_id
        ∷ ata ccva
        ∷ ccva
        ∷ self.global_volume_accumulator_pda
        ∷ self.fee_config_pda
        ∷ self.pump_fee_program_id
        ∷ buyback
        ∷ ata buyback
        ∷ [])
      ++ (if pool.coin_creator == self.keys.default
          then []
          else self.pool_v2_pda pool.base_mint ∷ []))
