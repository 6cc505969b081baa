-- ===== src/Raydium/Adapter/Instruction.antt =====
-- `buildSwapInstruction` of src/adapters/raydium_cpmm/adapter.ts: `swap_base_input` with its 13 accounts.
use atomarb.Common.{
  direction_unknown, Bool, true, false, ◌||◌, Option, none, some, List, [], ◌∷◌, ◌++◌, Result, ok,
  err, fail, u64_overflow, ◌>>=◌, ◌>>◌, exit_if, u64_max, ◌==◌, if◌then◌else◌,
}
use atomarb.Common.Int.{pos, ltb_ℤ, leb_ℤ}
use atomarb.Bytes.{Bytes, write_u64_le}
use atomarb.Raydium.Layout.{PublicKey}
use atomarb.Raydium.Params.{RaydiumCpmmParams}
use atomarb.Adapter.{DecodedPool, SwapIxParams}
use atomarb.Raydium.Adapter.{RaydiumCpmmAdapter, params_of, Sides, swap_context, program_id_of}

pub record AccountMeta : Type 0 where
  pub pubkey : PublicKey
  pub is_signer : Bool
  pub is_writable : Bool

-- A `TransactionInstruction`, with the accounts that it writes.
pub record SwapInstruction : Type 0 where
  pub program_id : PublicKey
  pub keys : List AccountMeta
  pub bytes : Bytes
  pub accounts_written : List PublicKey

-- `SWAP_BASE_INPUT_DISCRIMINATOR`
abbrev pub swap_base_input_discriminator : Bytes
swap_base_input_discriminator = 143 ∷ 190 ∷ 90 ∷ 218 ∷ 196 ∷ 30 ∷ 51 ∷ 222 ∷ []

-- The input mint as given, or by the user's account.
unfoldable pub input_mint_of :
    RaydiumCpmmAdapter → DecodedPool → SwapIxParams → Option PublicKey → Result PublicKey
unfolding program_id_of
input_mint_of self d x (some mint) = ok mint
input_mint_of self d x none =
    let k = self.platform in
    let ata_a =
      k.associated_token_address x.user d.mint_a.mint
        (program_id_of k.token_programs d.mint_a.program) in
    let ata_b =
      k.associated_token_address x.user d.mint_b.mint
        (program_id_of k.token_programs d.mint_b.program) in
    if x.user_input_account == ata_a
    then ok d.mint_a.mint
    else if x.user_input_account == ata_b
    then ok d.mint_b.mint
    else err (fail direction_unknown)

abbrev pub read_only : PublicKey → AccountMeta
read_only k = record { pubkey = k; is_signer = false; is_writable = false }

abbrev pub writable : PublicKey → AccountMeta
writable k = record { pubkey = k; is_signer = false; is_writable = true }

unfoldable pub swap_keys :
    RaydiumCpmmAdapter → RaydiumCpmmParams → DecodedPool → SwapIxParams → Sides → List AccountMeta
unfolding program_id_of
swap_keys self p d x s =
    let programs = self.platform.token_programs in
    record { pubkey = x.user; is_signer = true; is_writable = false }
    ∷ read_only p.authority
    ∷ read_only p.config_address
    ∷ writable d.address
    ∷ writable x.user_input_account
    ∷ writable x.user_output_account
    ∷ writable s.in_vault.address
    ∷ writable s.out_vault.address
    ∷ read_only (program_id_of programs s.in_mint.program)
    ∷ read_only (program_id_of programs s.out_mint.program)
    ∷ read_only s.in_mint.mint
    ∷ read_only s.out_mint.mint
    ∷ writable p.pool.observation_key
    ∷ []

unfoldable pub build_swap_instruction :
    RaydiumCpmmAdapter → DecodedPool → SwapIxParams → Option PublicKey → Result SwapInstruction
unfolding params_of input_mint_of swap_context swap_keys write_u64_le
build_swap_instruction self d x given = do
  p ← params_of d.params
  input_mint ← input_mint_of self d x given
  s ← swap_context p d input_mint
  exit_if (leb_ℤ x.amount_in (pos 0) || ltb_ℤ (pos u64_max) x.amount_in) (fail u64_overflow)
  exit_if (ltb_ℤ x.minimum_amount_out (pos 0) || ltb_ℤ (pos u64_max) x.minimum_amount_out)
      (fail u64_overflow)
  amount ← write_u64_le x.amount_in
  minimum ← write_u64_le x.minimum_amount_out
  ok (record {
    program_id = self.program_id;
    keys = swap_keys self p d x s;
    bytes = swap_base_input_discriminator ++ (amount ++ minimum);
    accounts_written =
        d.address ∷ x.user_input_account ∷ x.user_output_account ∷ s.in_vault.address
        ∷ s.out_vault.address ∷ p.pool.observation_key ∷ [];
  })
