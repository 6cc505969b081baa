-- ===== src/Raydium/Adapter/Decode/Tests.antt =====
-- Six accounts of a pool whose fees are 0, and the theorem of Decoded at them.
use atomarb.Common.{
  ◌+◌, false, ℕ, zero, suc, ◌≡◌, refl, true, none, some, [], ◌∷◌, ◌++◌, ok, List, if◌then◌else◌,
  ◌==◌,
}
use atomarb.Bytes.{
  read, value_of, read_u32_le, Bytes, bytes_of, subarray, bytes_equal, read_u8, read_u64_le,
  read_pubkey,
}
use atomarb.Raydium.Layout.{PublicKey}
use atomarb.Raydium.Decode.{
  pool_state_of, decode_pool_state, amm_config_of, decode_amm_config, pool_state_discriminator,
  amm_config_discriminator, field, flag, padding_non_zero_of, any_non_zero,
}
use atomarb.Adapter.{raydium_cpmm, of_raydium, DecodedPool, PoolRef}
use atomarb.Adapter.Accounts.{RawAccount, AccountBundle, MintInfo, TokenAccountInfo}
use atomarb.Raydium.TransferFee.{spl_token}
use atomarb.Raydium.Pool.{vault_amount_without_fee}
use atomarb.Snapshot.{state_hash_of}
use atomarb.Token.{
  parse_mint, parse_token_account, token_program_kind, is_token_2022, with_extensions,
  account_extensions, read_c_option_pubkey,
}
use atomarb.Raydium.Adapter.{
  epoch_for_slot, transfer_fee_view, view_of, distinct, distinct_from, has_key,
}
use atomarb.Raydium.Adapter.Tests.{adapter}
use atomarb.Raydium.Adapter.Decode.{
  params_from, parse_token_account, parse_mint, keys_of, maximum, minimum, on_throw, decode_raws,
  snapshot_of, decode_snapshot,
}
use atomarb.Raydium.Adapter.Decoded.{IsDecoded, decode_snapshot-IsDecoded}

abbrev zeros : ℕ → Bytes
zeros zero = []
zeros (suc n) = 0 ∷ zeros n

abbrev keys : List PublicKey → Bytes
keys [] = []
keys (k ∷ ks) = bytes_of 32 k ++ keys ks

abbrev pub pool_bytes : Bytes
pool_bytes =
    pool_state_discriminator
    ++ (keys (1 ∷ 2 ∷ 66 ∷ 67 ∷ 5 ∷ 6 ∷ 7 ∷ 8 ∷ 8 ∷ 10 ∷ []) ++ (254 ∷ zeros 308))

abbrev pub config_bytes : Bytes
config_bytes = amm_config_discriminator ++ zeros 228

abbrev pub vault_bytes : PublicKey → ℕ → Bytes
vault_bytes mint amount =
    keys (mint ∷ 51 ∷ []) ++ (bytes_of 8 amount ++ (zeros 36 ++ (1 ∷ zeros 56)))

abbrev pub mint_bytes : Bytes
mint_bytes = zeros 36 ++ (bytes_of 8 1_000_000 ++ (9 ∷ 1 ∷ zeros 36))

abbrev account : PublicKey → PublicKey → Bytes → RawAccount
account key owner bytes = record {
  pubkey = key;
  bytes = bytes;
  owner = owner;
  lamports = 1;
  executable = false;
  context_slot = 302_400_000 + key;
  received_at_utc = 1_700_000_000;
  batch_id = 1;
}

abbrev pub bundle : AccountBundle
bundle = record {
  accounts = λ key.
      if key == 60
      then some (account 60 50 pool_bytes)
      else if key == 1
      then some (account 1 50 config_bytes)
      else if key == 66
      then some (account 66 8 (vault_bytes 6 5_000))
      else if key == 67
      then some (account 67 8 (vault_bytes 7 7_000))
      else if key == 6
      then some (account 6 8 mint_bytes)
      else if key == 7
      then some (account 7 8 mint_bytes)
      else none;
  single_batch = true;
  min_slot = 302_400_001;
  max_slot = 302_400_067;
  batch_ids = 1 ∷ [];
}

abbrev pub pool_ref : PoolRef
pool_ref = record { adapter = raydium_cpmm; address = 60 }

abbrev mint_of : PublicKey → MintInfo
mint_of key = record {
  mint = key;
  program = spl_token;
  decimals = 9;
  supply = 1_000_000;
  freeze_authority = none;
  mint_authority = none;
  extensions = [];
  transfer_fee = none;
  transfer_fee_older = none;
}

abbrev vault_of : PublicKey → PublicKey → ℕ → TokenAccountInfo
vault_of key mint amount = record {
  address = key;
  program = spl_token;
  mint = mint;
  owner = 51;
  amount = amount;
  state = 1;
  extensions = [];
}

abbrev pub decoded : DecodedPool
decoded = record {
  adapter = raydium_cpmm;
  address = 60;
  program_id = 50;
  mint_a = mint_of 6;
  mint_b = mint_of 7;
  vault_a = vault_of 66 6 5_000;
  vault_b = vault_of 67 7 7_000;
  reserve_a = 5_000;
  reserve_b = 7_000;
  params = of_raydium (record {
    pool = pool_state_of pool_bytes;
    config = amm_config_of config_bytes;
    pool_owner = 50;
    config_owner = 50;
    config_address = 1;
    authority = 51;
    authority_bump = 254;
    epoch = 700;
    now_unix = none;
    transfer_fee_0 = none;
    transfer_fee_1 = none;
  });
  depends_on = 60 ∷ 1 ∷ 66 ∷ 67 ∷ 6 ∷ 7 ∷ [];
  state_hash = "snapshot";
  snapshot = record {
    min_slot = 302_400_001;
    max_slot = 302_400_067;
    single_batch = true;
    batch_ids = 1 ∷ [];
    received_at_utc = 1_700_000_000;
  };
}

-- What a test computes through.
unfoldable pub decoding : Unit {0}
unfolding decode_snapshot decode_raws snapshot_of decode_pool_state decode_amm_config pool_state_of
    amm_config_of subarray bytes_of bytes_equal field flag padding_non_zero_of any_non_zero read
    value_of read_u8 read_u64_le read_u32_le read_pubkey read_c_option_pubkey on_throw minimum
    maximum keys_of parse_mint parse_token_account token_program_kind is_token_2022 with_extensions
    account_extensions vault_amount_without_fee epoch_for_slot transfer_fee_view view_of distinct
    distinct_from has_key params_from state_hash_of
decoding = tt

decoded_eq : decode_snapshot adapter pool_ref bundle ≡ ok decoded
unfolding decoding
decoded_eq = refl

decode_snapshot-IsDecoded_example : IsDecoded pool_ref bundle decoded
decode_snapshot-IsDecoded_example =
    decode_snapshot-IsDecoded adapter pool_ref bundle decoded decoded_eq
