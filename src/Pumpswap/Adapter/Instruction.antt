-- ===== src/Pumpswap/Adapter/Instruction.antt =====
-- `buildSwapInstruction` and `buildCloseUserVolumeAccumulatorIx` of src/adapters/pumpswap/adapter.ts.
use atomarb.Common.{
  sell_disabled, buy_disabled, zero_amount, amount_not_u64, zero_min_out, user_accounts_not_ata,
  Code, ℕ, Bool, true, false, ◌&&◌, ◌||◌, List, [], ◌∷◌, ◌++◌, Result, ok, err, fail, u64_max,
  ◌>>=◌, ◌>>◌, exit_if, ◌==◌, if◌then◌else◌,
}
use atomarb.Common.Int.{pos, ◌+ℤ◌, ltb_ℤ, leb_ℤ, eqb_ℤ}
use atomarb.Bytes.{Bytes, write_u64_le}
use atomarb.Raydium.Layout.{PublicKey}
use atomarb.Raydium.Adapter.Instruction.{AccountMeta, SwapInstruction, read_only, writable}
use atomarb.Pumpswap.Params.{PumpswapParams}
use atomarb.Adapter.{DecodedPool, SwapIxParams}
use atomarb.Pumpswap.Adapter.{
  PumpswapAdapter, pumpswap_params, token_program_of, protocol_fee_recipient_for,
  buyback_fee_recipient_for, is_buy_disabled, is_sell_disabled,
}
use atomarb.Pumpswap.Adapter.Quote.{spendable_budget_for}

-- `IX_DISC.buyExactQuoteIn`, `IX_DISC.sell` and `IX_DISC.closeUserVolumeAccumulator`
abbrev pub buy_discriminator : Bytes
buy_discriminator = 198 ∷ 46 ∷ 21 ∷ 82 ∷ 180 ∷ 217 ∷ 232 ∷ 112 ∷ []

abbrev pub sell_discriminator : Bytes
sell_discriminator = 51 ∷ 230 ∷ 133 ∷ 164 ∷ 1 ∷ 127 ∷ 131 ∷ 173 ∷ []

abbrev pub close_discriminator : Bytes
close_discriminator = 249 ∷ 69 ∷ 164 ∷ 218 ∷ 150 ∷ 103 ∷ 84 ∷ 138 ∷ []

-- Whether the user's two accounts are those of a buy, or those of a sale.
unfoldable pub side_of : PublicKey → PublicKey → SwapIxParams → Result Bool
side_of user_base_ata user_quote_ata x =
    if x.user_input_account == user_quote_ata && x.user_output_account == user_base_ata
    then ok true
    else if x.user_input_account == user_base_ata && x.user_output_account == user_quote_ata
    then ok false
    else err (fail user_accounts_not_ata)

-- What the lists of accounts are made of.
pub record SwapAccounts : Type 0 where
  pub user_base_ata : PublicKey
  pub user_quote_ata : PublicKey
  pub recipient : PublicKey
  pub recipient_ata : PublicKey
  pub ccva : PublicKey
  pub ccva_ata : PublicKey
  pub buyback : PublicKey
  pub buyback_ata : PublicKey
  pub uva : PublicKey
  pub uva_quote_ata : PublicKey

-- The accounts 0 to 18, which both instructions have.
unfoldable pub named_keys :
    PumpswapAdapter → PumpswapParams → DecodedPool → PublicKey → SwapAccounts → List AccountMeta
unfolding token_program_of
named_keys self p d user a =
    let pool = p.pool in
    writable d.address
    ∷ record { pubkey = user; is_signer = true; is_writable = true }
    ∷ read_only self.global_config_pda
    ∷ read_only pool.base_mint
    ∷ read_only pool.quote_mint
    ∷ writable a.user_base_ata
    ∷ writable a.user_quote_ata
    ∷ writable pool.pool_base_token_account
    ∷ writable pool.pool_quote_token_account
    ∷ read_only a.recipient
    ∷ writable a.recipient_ata
    ∷ read_only (token_program_of self d.mint_a.program)
    ∷ read_only (token_program_of self d.mint_b.program)
    ∷ read_only self.system_program_id
    ∷ read_only self.associated_token_program_id
    ∷ read_only self.event_authority_pda
    ∷ read_only self.pump_amm_program_id
    ∷ writable a.ccva_ata
    ∷ read_only a.ccva
    ∷ []

unfoldable pub pool_v2_keys : PumpswapAdapter → PumpswapParams → List AccountMeta
pool_v2_keys self p =
    if p.pool.coin_creator == self.keys.default
    then []
    else read_only (self.pool_v2_pda p.pool.base_mint) ∷ []

unfoldable pub buy_keys : PumpswapAdapter → PumpswapParams → SwapAccounts → List AccountMeta
unfolding pool_v2_keys
buy_keys self p a =
    (read_only self.global_volume_accumulator_pda
      ∷ writable a.uva
      ∷ read_only self.fee_config_pda
      ∷ read_only self.pump_fee_program_id
      ∷ [])
    ++ ((if p.pool.is_cashback_coin then writable a.uva_quote_ata ∷ [] else [])
        ++ (pool_v2_keys self p ++ read_only a.buyback ∷ writable a.buyback_ata ∷ []))

unfoldable pub sell_keys : PumpswapAdapter → PumpswapParams → SwapAccounts → List AccountMeta
unfolding pool_v2_keys
sell_keys self p a =
    (read_only self.fee_config_pda ∷ read_only self.pump_fee_program_id ∷ [])
    ++ ((if p.pool.is_cashback_coin then writable a.uva_quote_ata ∷ writable a.uva ∷ [] else [])
        ++ (pool_v2_keys self p ++ read_only a.buyback ∷ writable a.buyback_ata ∷ []))

-- `keys.filter(x => x.isWritable).map(x => x.pubkey)`
unfoldable pub written : List AccountMeta → List PublicKey
written [] = []
written (m ∷ ms) = if m.is_writable then m.pubkey ∷ written ms else written ms

unfoldable pub swap_accounts :
    PumpswapAdapter → PumpswapParams → DecodedPool → PublicKey → Result SwapAccounts
unfolding token_program_of protocol_fee_recipient_for buyback_fee_recipient_for
swap_accounts self p d user = do
  let quote_ata = λ (owner : PublicKey).
      self.platform.associated_token_address owner p.pool.quote_mint
        (token_program_of self d.mint_b.program)
  recipient ← protocol_fee_recipient_for p.global_config p.pool.is_mayhem_mode
  buyback ← buyback_fee_recipient_for p.global_config
  let ccva = self.coin_creator_vault_authority_pda p.pool.coin_creator
  let uva = self.user_volume_accumulator_pda user
  ok (record {
    user_base_ata =
        self.platform.associated_token_address user p.pool.base_mint
          (token_program_of self d.mint_a.program);
    user_quote_ata = quote_ata user;
    recipient = recipient;
    recipient_ata = quote_ata recipient;
    ccva = ccva;
    ccva_ata = quote_ata ccva;
    buyback = buyback;
    buyback_ata = quote_ata buyback;
    uva = uva;
    uva_quote_ata = quote_ata uva;
  })

unfoldable pub instruction_of : PumpswapAdapter → List AccountMeta → Bytes → SwapInstruction
unfolding written
instruction_of self keys bytes = record {
  program_id = self.pump_amm_program_id;
  keys = keys;
  bytes = bytes;
  accounts_written = written keys;
}

-- The instruction of a buy: the budget, the minimum, and one byte to track the volume.
unfoldable pub buy_instruction :
    PumpswapAdapter
    → PumpswapParams
    → DecodedPool
    → SwapIxParams
    → SwapAccounts
    → Result SwapInstruction
unfolding named_keys buy_keys spendable_budget_for write_u64_le instruction_of
buy_instruction self p d x a = do
  spendable ← spendable_budget_for self d x.amount_in
  budget ← write_u64_le spendable
  minimum ← write_u64_le x.minimum_amount_out
  ok (
      instruction_of self (named_keys self p d x.user a ++ buy_keys self p a)
        (buy_discriminator ++ (budget ++ (minimum ++ 1 ∷ []))))

unfoldable pub sell_instruction :
    PumpswapAdapter
    → PumpswapParams
    → DecodedPool
    → SwapIxParams
    → SwapAccounts
    → Result SwapInstruction
unfolding named_keys sell_keys write_u64_le instruction_of
sell_instruction self p d x a = do
  amount ← write_u64_le x.amount_in
  minimum ← write_u64_le x.minimum_amount_out
  ok (
      instruction_of self (named_keys self p d x.user a ++ sell_keys self p a)
        (sell_discriminator ++ (amount ++ minimum)))

-- The flag of the side is set.
abbrev pub is_disabled : Bool → ℕ → Bool
is_disabled true flags = is_buy_disabled flags
is_disabled false flags = is_sell_disabled flags

abbrev pub disabled_code : Bool → Code
disabled_code true = buy_disabled
disabled_code false = sell_disabled

-- The body behind the choice of the side.
unfoldable pub side_instruction :
    PumpswapAdapter → PumpswapParams → DecodedPool → SwapIxParams → Bool → Result SwapInstruction
unfolding swap_accounts buy_instruction sell_instruction is_buy_disabled is_sell_disabled
side_instruction self p d x is_buy = do
  exit_if (is_disabled is_buy p.global_config.disable_flags) (fail (disabled_code is_buy))
  exit_if (is_buy && eqb_ℤ x.minimum_amount_out (pos 0)) (fail zero_min_out)
  a ← swap_accounts self p d x.user
  if is_buy then buy_instruction self p d x a else sell_instruction self p d x a

-- The second test on the amount, behind the choice of the side, never holds.
unfoldable pub build_swap_instruction :
    PumpswapAdapter → DecodedPool → SwapIxParams → Result SwapInstruction
unfolding pumpswap_params token_program_of side_of side_instruction ◌+ℤ◌
build_swap_instruction self d x = do
  exit_if (leb_ℤ x.amount_in (pos 0) || ltb_ℤ (pos u64_max) (x.amount_in +ℤ pos 1))
      (fail amount_not_u64)
  exit_if (ltb_ℤ x.minimum_amount_out (pos 0) || ltb_ℤ (pos u64_max) x.minimum_amount_out)
      (fail amount_not_u64)
  p ← pumpswap_params d
  is_buy ←
      side_of
        (self.platform.associated_token_address x.user p.pool.base_mint
          (token_program_of self d.mint_a.program))
        (self.platform.associated_token_address x.user p.pool.quote_mint
          (token_program_of self d.mint_b.program))
        x
  exit_if (leb_ℤ x.amount_in (pos 0)) (fail zero_amount)
  side_instruction self p d x is_buy

unfoldable pub build_close_user_volume_accumulator_ix :
    PumpswapAdapter → PublicKey → SwapInstruction
unfolding instruction_of
build_close_user_volume_accumulator_ix self user =
    instruction_of self
      (record { pubkey = user; is_signer = true; is_writable = true }
        ∷ writable (self.user_volume_accumulator_pda user)
        ∷ read_only self.event_authority_pda
        ∷ read_only self.pump_amm_program_id
        ∷ [])
      close_discriminator
