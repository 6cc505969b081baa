-- ===== src/Raydium/Decode.antt =====
-- The decoders of src/adapters/raydium_cpmm/layout.ts. The length check that each starts with makes
-- every later read one inside the buffer, so that a field is the value of its bytes: the bounds checks
-- of the readers cannot fire. A discriminator is compared as bytes.
pub mod Counters
pub mod Tests
use atomarb.Common.{
  ℕ, ◌+◌, ◌-◌, ◌/◌, ◌%◌, Bool, true, false, not, ◌||◌, List, [], ◌∷◌, Result, ok, err, fail,
  unknown_layout, ◌>>=◌, ◌>>◌, exit_if, length, ◌==◌,
}
use atomarb.Bytes.{Bytes, subarray, value_of, bytes_equal}
use atomarb.Raydium.Layout.{PoolState, AmmConfig, PublicKey}

abbrev pub pool_state_len : ℕ
pool_state_len = 637

abbrev pub amm_config_len : ℕ
amm_config_len = 236

abbrev pub observation_state_len : ℕ
observation_state_len = 4_075

abbrev pub pool_state_discriminator : Bytes
pool_state_discriminator = 247 ∷ 237 ∷ 227 ∷ 245 ∷ 215 ∷ 195 ∷ 222 ∷ 70 ∷ []

abbrev pub amm_config_discriminator : Bytes
amm_config_discriminator = 218 ∷ 244 ∷ 33 ∷ 104 ∷ 203 ∷ 203 ∷ 43 ∷ 111 ∷ []

abbrev pub observation_state_discriminator : Bytes
observation_state_discriminator = 122 ∷ 174 ∷ 197 ∷ 53 ∷ 129 ∷ 9 ∷ 165 ∷ 132 ∷ []

-- `POOL_OFF`
pub record PoolOff : Type 0 where
  pub discriminator : ℕ
  pub amm_config : ℕ
  pub pool_creator : ℕ
  pub token_0_vault : ℕ
  pub token_1_vault : ℕ
  pub lp_mint : ℕ
  pub token_0_mint : ℕ
  pub token_1_mint : ℕ
  pub token_0_program : ℕ
  pub token_1_program : ℕ
  pub observation_key : ℕ
  pub auth_bump : ℕ
  pub status : ℕ
  pub lp_mint_decimals : ℕ
  pub mint_0_decimals : ℕ
  pub mint_1_decimals : ℕ
  pub lp_supply : ℕ
  pub protocol_fees_token_0 : ℕ
  pub protocol_fees_token_1 : ℕ
  pub fund_fees_token_0 : ℕ
  pub fund_fees_token_1 : ℕ
  pub open_time : ℕ
  pub recent_epoch : ℕ
  pub creator_fee_on : ℕ
  pub enable_creator_fee : ℕ
  pub padding1 : ℕ
  pub creator_fees_token_0 : ℕ
  pub creator_fees_token_1 : ℕ
  pub padding : ℕ
  pub end : ℕ

abbrev pub pool_off : PoolOff
pool_off = record {
  discriminator = 0;
  amm_config = 8;
  pool_creator = 40;
  token_0_vault = 72;
  token_1_vault = 104;
  lp_mint = 136;
  token_0_mint = 168;
  token_1_mint = 200;
  token_0_program = 232;
  token_1_program = 264;
  observation_key = 296;
  auth_bump = 328;
  status = 329;
  lp_mint_decimals = 330;
  mint_0_decimals = 331;
  mint_1_decimals = 332;
  lp_supply = 333;
  protocol_fees_token_0 = 341;
  protocol_fees_token_1 = 349;
  fund_fees_token_0 = 357;
  fund_fees_token_1 = 365;
  open_time = 373;
  recent_epoch = 381;
  creator_fee_on = 389;
  enable_creator_fee = 390;
  padding1 = 391;
  creator_fees_token_0 = 397;
  creator_fees_token_1 = 405;
  padding = 413;
  end = 637;
}

-- `CONFIG_OFF`
pub record ConfigOff : Type 0 where
  pub discriminator : ℕ
  pub bump : ℕ
  pub disable_create_pool : ℕ
  pub index : ℕ
  pub trade_fee_rate : ℕ
  pub protocol_fee_rate : ℕ
  pub fund_fee_rate : ℕ
  pub create_pool_fee : ℕ
  pub protocol_owner : ℕ
  pub fund_owner : ℕ
  pub creator_fee_rate : ℕ
  pub padding : ℕ
  pub end : ℕ

abbrev pub config_off : ConfigOff
config_off = record {
  discriminator = 0;
  bump = 8;
  disable_create_pool = 9;
  index = 10;
  trade_fee_rate = 12;
  protocol_fee_rate = 20;
  fund_fee_rate = 28;
  create_pool_fee = 36;
  protocol_owner = 44;
  fund_owner = 76;
  creator_fee_rate = 108;
  padding = 116;
  end = 236;
}

-- A field of so many bytes.
unfoldable pub field : ℕ → Bytes → ℕ → ℕ
unfolding subarray value_of
field n buf off = value_of (subarray buf off n)

unfoldable pub flag : Bytes → ℕ → Bool
unfolding field
flag buf off = not (field 1 buf off == 0)

unfoldable pub any_non_zero : Bytes → Bool
any_non_zero [] = false
any_non_zero (b ∷ bs) = not (b == 0) || any_non_zero bs

unfoldable pub padding_non_zero_of : Bytes → Bool
unfolding any_non_zero subarray
padding_non_zero_of buf =
    any_non_zero
      (subarray buf pool_off.padding1 (pool_off.creator_fees_token_0 - pool_off.padding1))
    || any_non_zero (subarray buf pool_off.padding (pool_off.end - pool_off.padding))

unfoldable pub pool_state_of : Bytes → PoolState
unfolding field flag padding_non_zero_of
pool_state_of buf = record {
  amm_config = field 32 buf pool_off.amm_config;
  pool_creator = field 32 buf pool_off.pool_creator;
  token_0_vault = field 32 buf pool_off.token_0_vault;
  token_1_vault = field 32 buf pool_off.token_1_vault;
  lp_mint = field 32 buf pool_off.lp_mint;
  token_0_mint = field 32 buf pool_off.token_0_mint;
  token_1_mint = field 32 buf pool_off.token_1_mint;
  token_0_program = field 32 buf pool_off.token_0_program;
  token_1_program = field 32 buf pool_off.token_1_program;
  observation_key = field 32 buf pool_off.observation_key;
  auth_bump = field 1 buf pool_off.auth_bump;
  status = field 1 buf pool_off.status;
  lp_mint_decimals = field 1 buf pool_off.lp_mint_decimals;
  mint_0_decimals = field 1 buf pool_off.mint_0_decimals;
  mint_1_decimals = field 1 buf pool_off.mint_1_decimals;
  lp_supply = field 8 buf pool_off.lp_supply;
  protocol_fees_token_0 = field 8 buf pool_off.protocol_fees_token_0;
  protocol_fees_token_1 = field 8 buf pool_off.protocol_fees_token_1;
  fund_fees_token_0 = field 8 buf pool_off.fund_fees_token_0;
  fund_fees_token_1 = field 8 buf pool_off.fund_fees_token_1;
  open_time = field 8 buf pool_off.open_time;
  recent_epoch = field 8 buf pool_off.recent_epoch;
  creator_fee_on = field 1 buf pool_off.creator_fee_on;
  enable_creator_fee = flag buf pool_off.enable_creator_fee;
  creator_fees_token_0 = field 8 buf pool_off.creator_fees_token_0;
  creator_fees_token_1 = field 8 buf pool_off.creator_fees_token_1;
  padding_non_zero = padding_non_zero_of buf;
}

unfoldable pub decode_pool_state : Bytes → Result PoolState
unfolding pool_state_of subarray bytes_equal
decode_pool_state buf = do
  exit_if (not (length buf == pool_state_len)) (fail unknown_layout)
  exit_if (not (bytes_equal (subarray buf 0 8) pool_state_discriminator)) (fail unknown_layout)
  ok (pool_state_of buf)

unfoldable pub amm_config_of : Bytes → AmmConfig
unfolding field flag
amm_config_of buf = record {
  bump = field 1 buf config_off.bump;
  disable_create_pool = flag buf config_off.disable_create_pool;
  index = field 2 buf config_off.index;
  trade_fee_rate = field 8 buf config_off.trade_fee_rate;
  protocol_fee_rate = field 8 buf config_off.protocol_fee_rate;
  fund_fee_rate = field 8 buf config_off.fund_fee_rate;
  create_pool_fee = field 8 buf config_off.create_pool_fee;
  protocol_owner = field 32 buf config_off.protocol_owner;
  fund_owner = field 32 buf config_off.fund_owner;
  creator_fee_rate = field 8 buf config_off.creator_fee_rate;
  padding_0 = field 8 buf config_off.padding;
}

unfoldable pub decode_amm_config : Bytes → Result AmmConfig
unfolding amm_config_of subarray bytes_equal
decode_amm_config buf = do
  exit_if (not (length buf == amm_config_len)) (fail unknown_layout)
  exit_if (not (bytes_equal (subarray buf 0 8) amm_config_discriminator)) (fail unknown_layout)
  ok (amm_config_of buf)

pub record ObservationHeader : Type 0 where
  pub initialized : Bool
  pub observation_index : ℕ
  pub pool_id : PublicKey
  pub last_update_timestamp : ℕ

unfoldable pub header_of : Bytes → ObservationHeader
unfolding field flag
header_of buf = record {
  initialized = flag buf 8;
  observation_index = field 2 buf 9;
  pool_id = field 32 buf 11;
  last_update_timestamp = field 8 buf 4_043;
}

unfoldable pub decode_observation_header : Bytes → Result ObservationHeader
unfolding header_of subarray bytes_equal
decode_observation_header buf = do
  exit_if (not (length buf == observation_state_len)) (fail unknown_layout)
  exit_if (not (bytes_equal (subarray buf 0 8) observation_state_discriminator))
      (fail unknown_layout)
  ok (header_of buf)

-- Bit 2 of the status.
unfoldable pub is_swap_enabled : ℕ → Bool
is_swap_enabled status = status / 4 % 2 == 0
