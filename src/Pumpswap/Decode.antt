-- ===== src/Pumpswap/Decode.antt =====
-- The decoders of src/adapters/pumpswap/layout.ts. A length check makes every read one inside the
-- buffer, so that a field is the value of its bytes. The names of defaulted fields are left out, and
-- the default key is an argument. A discriminator is compared as bytes.
use atomarb.Common.{
  ℕ, zero, suc, ◌+◌, ◌*◌, Bool, true, false, not, ◌||◌, ◌&&◌, List, [], ◌∷◌, Result, ok, fail,
  unknown_layout, ◌>>=◌, ◌>>◌, exit_if, length, ltb, leb, ◌==◌, if◌then◌else◌,
}
use atomarb.Common.Int.{ℤ, pos}
use atomarb.Bytes.{Bytes, subarray, signed, bytes_equal}
use atomarb.Raydium.Layout.{PublicKey}
use atomarb.Raydium.Decode.{field}
use atomarb.Pumpswap.Schedule.{Fees, FeeTier, PumpFeeConfig, PumpPool}

abbrev pub pool_discriminator : Bytes
pool_discriminator = 241 ∷ 154 ∷ 109 ∷ 4 ∷ 17 ∷ 177 ∷ 109 ∷ 188 ∷ []

abbrev pub global_config_discriminator : Bytes
global_config_discriminator = 149 ∷ 8 ∷ 156 ∷ 202 ∷ 160 ∷ 252 ∷ 176 ∷ 217 ∷ []

abbrev pub fee_config_discriminator : Bytes
fee_config_discriminator = 143 ∷ 52 ∷ 146 ∷ 187 ∷ 219 ∷ 123 ∷ 76 ∷ 155 ∷ []

abbrev pub pool_known_lengths : List ℕ
pool_known_lengths = 211 ∷ 243 ∷ 244 ∷ 245 ∷ 261 ∷ 270 ∷ 271 ∷ []

abbrev pub global_config_known_lengths : List ℕ
global_config_known_lengths = 907 ∷ 940 ∷ 949 ∷ []

abbrev pub fee_config_known_lengths : List ℕ
fee_config_known_lengths = 2_512 ∷ 4_073 ∷ 4_097 ∷ []

unfoldable pub is_one_of : List ℕ → ℕ → Bool
is_one_of [] n = false
is_one_of (m ∷ ms) n = m == n || is_one_of ms n

-- The checks that the three decoders start with.
unfoldable pub has_header : Bytes → Bytes → Bool
unfolding subarray bytes_equal
has_header discriminator buf = leb 8 (length buf) && bytes_equal (subarray buf 0 8) discriminator

unfoldable pub read_i128_le : Bytes → ℕ → ℤ
unfolding field signed
read_i128_le buf off = signed 128 (field 16 buf off)

unfoldable pub read_bool : Bytes → ℕ → Result Bool
unfolding field
read_bool buf off = do
  let v = field 1 buf off
  exit_if (not (v == 0) && not (v == 1)) (fail unknown_layout)
  ok (v == 1)

-- A field that an older account lacks is false.
unfoldable pub bool_or_false : Bytes → ℕ → Result Bool
unfolding read_bool
bool_or_false buf off = if leb (off + 1) (length buf) then read_bool buf off else ok false

unfoldable pub decode_pool : PublicKey → Bytes → Result PumpPool
unfolding is_one_of has_header bool_or_false read_i128_le field
decode_pool default buf = do
  exit_if (not (has_header pool_discriminator buf)) (fail unknown_layout)
  let len = length buf
  exit_if (not (is_one_of pool_known_lengths len || leb 300 len)) (fail unknown_layout)
  mayhem ← bool_or_false buf 243
  cashback ← bool_or_false buf 244
  can_edit ← bool_or_false buf 269
  holder_reward ← bool_or_false buf 270
  ok (record {
    pool_bump = field 1 buf 8;
    index = field 2 buf 9;
    creator = field 32 buf 11;
    base_mint = field 32 buf 43;
    quote_mint = field 32 buf 75;
    lp_mint = field 32 buf 107;
    pool_base_token_account = field 32 buf 139;
    pool_quote_token_account = field 32 buf 171;
    lp_supply = field 8 buf 203;
    coin_creator = if leb 243 len then field 32 buf 211 else default;
    is_mayhem_mode = mayhem;
    is_cashback_coin = cashback;
    virtual_quote_reserves = if leb 261 len then read_i128_le buf 245 else pos 0;
    creator_fee_bps = if leb 269 len then field 8 buf 261 else 0;
    can_edit_creator_fee = can_edit;
    is_holder_reward = holder_reward;
    layout_length = len;
  })

pub record PumpGlobalConfig : Type 0 where
  pub admin : PublicKey
  pub lp_fee_basis_points : ℕ
  pub protocol_fee_basis_points : ℕ
  pub disable_flags : ℕ
  pub protocol_fee_recipients : List PublicKey
  pub coin_creator_fee_basis_points : ℕ
  pub admin_set_coin_creator_authority : PublicKey
  pub whitelist_pda : PublicKey
  pub reserved_fee_recipient : PublicKey
  pub mayhem_mode_enabled : Bool
  pub reserved_fee_recipients : List PublicKey
  pub is_cashback_enabled : Bool
  pub buyback_fee_recipients : List PublicKey
  pub buyback_basis_points : ℕ
  pub boost_authority : PublicKey
  pub boost_enabled : Bool
  pub creator_fee_configurable : Bool
  pub max_configurable_creator_fee_bps : ℕ
  pub layout_length : ℕ

unfoldable pub read_pubkey_array : Bytes → ℕ → ℕ → List PublicKey
unfolding field
read_pubkey_array buf off zero = []
read_pubkey_array buf off (suc n) = field 32 buf off ∷ read_pubkey_array buf (off + 32) n

unfoldable pub decode_global_config : PublicKey → Bytes → Result PumpGlobalConfig
unfolding is_one_of has_header read_bool bool_or_false read_pubkey_array field
decode_global_config default buf = do
  exit_if (not (has_header global_config_discriminator buf)) (fail unknown_layout)
  let len = length buf
  exit_if (not (is_one_of global_config_known_lengths len)) (fail unknown_layout)
  mayhem ← read_bool buf 417
  cashback ← read_bool buf 642
  boost ← bool_or_false buf 939
  configurable ← bool_or_false buf 940
  ok (record {
    admin = field 32 buf 8;
    lp_fee_basis_points = field 8 buf 40;
    protocol_fee_basis_points = field 8 buf 48;
    disable_flags = field 1 buf 56;
    protocol_fee_recipients = read_pubkey_array buf 57 8;
    coin_creator_fee_basis_points = field 8 buf 313;
    admin_set_coin_creator_authority = field 32 buf 321;
    whitelist_pda = field 32 buf 353;
    reserved_fee_recipient = field 32 buf 385;
    mayhem_mode_enabled = mayhem;
    reserved_fee_recipients = read_pubkey_array buf 418 7;
    is_cashback_enabled = cashback;
    buyback_fee_recipients = read_pubkey_array buf 643 8;
    buyback_basis_points = field 8 buf 899;
    boost_authority = if leb 939 len then field 32 buf 907 else default;
    boost_enabled = boost;
    creator_fee_configurable = configurable;
    max_configurable_creator_fee_bps = if leb 949 len then field 8 buf 941 else 0;
    layout_length = len;
  })

unfoldable pub read_fees : Bytes → ℕ → Fees
unfolding field
read_fees buf off = record {
  lp_fee_bps = field 8 buf off;
  protocol_fee_bps = field 8 buf (off + 8);
  creator_fee_bps = field 8 buf (off + 16);
}

-- The loop over the tiers, from the offset of the first of them.
unfoldable pub read_tiers : Bytes → ℕ → ℕ → List FeeTier
unfolding field read_fees
read_tiers buf off zero = []
read_tiers buf off (suc n) =
    record { market_cap_lamports_threshold = field 16 buf off; fees = read_fees buf (off + 16) }
    ∷ read_tiers buf (off + 40) n

-- The tiers and the offset behind them.
unfoldable pub read_fee_tier_vec : Bytes → ℕ → Result (List FeeTier × ℕ)
unfolding field read_tiers
read_fee_tier_vec buf off = do
  exit_if (ltb (length buf) (off + 4)) (fail unknown_layout)
  let n = field 4 buf off
  exit_if (ltb (length buf) (off + 4 + n * 40)) (fail unknown_layout)
  ok (read_tiers buf (off + 4) n, off + 4 + n * 40)

unfoldable pub no_tiers : List FeeTier → Bool
no_tiers [] = true
no_tiers (t ∷ ts) = false

abbrev pub zero_fees : Fees
zero_fees = record { lp_fee_bps = 0; protocol_fee_bps = 0; creator_fee_bps = 0 }

-- `if (len >= FEE_CONFIG_SIZE_POST_STABLE) { … }`
unfoldable pub stable_part : Bytes → ℕ → Result (List FeeTier × ℕ)
unfolding read_fee_tier_vec
stable_part buf end = if leb 4_073 (length buf) then read_fee_tier_vec buf end else ok ([], end)

-- `if (len >= FEE_CONFIG_SIZE_POST_EXOTIC) { … }`
unfoldable pub exotic_part : Bytes → ℕ → Result (Fees × ℕ)
unfolding read_fees
exotic_part buf end =
    if leb 4_097 (length buf)
    then (exit_if (ltb (length buf) (end + 24)) (fail unknown_layout)
        >> ok (read_fees buf end, end + 24))
    else ok (zero_fees, end)

unfoldable pub decode_fee_config : Bytes → Result PumpFeeConfig
unfolding is_one_of has_header read_fee_tier_vec no_tiers stable_part exotic_part read_fees field
decode_fee_config buf = do
  exit_if (not (has_header fee_config_discriminator buf)) (fail unknown_layout)
  exit_if (not (is_one_of fee_config_known_lengths (length buf))) (fail unknown_layout)
  ft ← read_fee_tier_vec buf 65
  exit_if (no_tiers ft.0) (fail unknown_layout)
  st ← stable_part buf ft.1
  ex ← exotic_part buf st.1
  ok (record {
    bump = field 1 buf 8;
    admin = field 32 buf 9;
    flat_fees = read_fees buf 41;
    fee_tiers = ft.0;
    stable_fee_tiers = st.0;
    exotic_flat_fees = ex.0;
    layout_length = length buf;
    decoded_end = ex.1;
  })
