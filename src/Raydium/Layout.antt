-- ===== src/Raydium/Layout.antt =====
-- The decoded accounts of src/adapters/raydium_cpmm/layout.ts: the pool and its AMM config.
-- Each u64 field is a native number.
use atomarb.Common.{ℕ, Bool, ◌≤◌, u64_max}

-- A 32-byte key; it is only compared.
abbrev pub PublicKey : Type 0
PublicKey = ℕ

abbrev pub fee_rate_denominator : ℕ
fee_rate_denominator = 1_000_000

-- `CREATOR_FEE_ON`
abbrev pub both_token : ℕ
both_token = 0

abbrev pub only_token_0 : ℕ
only_token_0 = 1

abbrev pub only_token_1 : ℕ
only_token_1 = 2

pub record PoolState : Type 0 where
  pub amm_config : PublicKey
  pub pool_creator : PublicKey
  pub token_0_vault : PublicKey
  pub token_1_vault : PublicKey
  pub lp_mint : PublicKey
  pub token_0_mint : PublicKey
  pub token_1_mint : PublicKey
  pub token_0_program : PublicKey
  pub token_1_program : PublicKey
  pub observation_key : PublicKey
  pub auth_bump : ℕ
  pub status : ℕ
  pub lp_mint_decimals : ℕ
  pub mint_0_decimals : ℕ
  pub mint_1_decimals : ℕ
  pub lp_supply : ℕ
  pub protocol_fees_token_0 : ℕ
  pub protocol_fees_token_1 : ℕ
  pub fund_fees_token_0 : ℕ
  pub fund_fees_token_1 : ℕ
  pub open_time : ℕ
  pub recent_epoch : ℕ
  pub creator_fee_on : ℕ
  pub enable_creator_fee : Bool
  pub creator_fees_token_0 : ℕ
  pub creator_fees_token_1 : ℕ
  pub padding_non_zero : Bool

pub record AmmConfig : Type 0 where
  pub bump : ℕ
  pub disable_create_pool : Bool
  pub index : ℕ
  pub trade_fee_rate : ℕ
  pub protocol_fee_rate : ℕ
  pub fund_fee_rate : ℕ
  pub create_pool_fee : ℕ
  pub protocol_owner : PublicKey
  pub fund_owner : PublicKey
  pub creator_fee_rate : ℕ
  pub padding_0 : ℕ

-- Every fee counter of the pool is a u64, as the layout's readers give them.
pub record HasU64Fees (p : PoolState) : Type 0 where
  pub protocol_0 : p.protocol_fees_token_0 ≤ u64_max
  pub protocol_1 : p.protocol_fees_token_1 ≤ u64_max
  pub fund_0 : p.fund_fees_token_0 ≤ u64_max
  pub fund_1 : p.fund_fees_token_1 ≤ u64_max
  pub creator_0 : p.creator_fees_token_0 ≤ u64_max
  pub creator_1 : p.creator_fees_token_1 ≤ u64_max
