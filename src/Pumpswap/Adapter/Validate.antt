-- ===== src/Pumpswap/Adapter/Validate.antt =====
-- `validatePool` of src/adapters/pumpswap/adapter.ts.
use atomarb.Common.{
  reserve_mismatch, quote_vault_frozen, base_vault_frozen, quote_vault_program, base_vault_program,
  quote_token_program, quote_vault_owner, base_vault_owner, quote_mint_mismatch, quote_vault_mint,
  base_mint_mismatch, lp_mint_pda_mismatch, quote_not_wsol, base_vault_mint, pool_pda_mismatch,
  pool_short_layout, quote_vault_not_ata, cashback_coin, base_vault_not_ata,
  fee_config_owner_mismatch, fee_schedule_unknown, sell_disabled, quote_vault_address,
  global_config_owner_mismatch, noncanonical_with_coin_creator, boost_pool, pool_owner_mismatch,
  base_vault_address, buy_disabled, Bool, not, ◌&&◌, ◌||◌, List, [], ◌∷◌, ◌++◌, Result, ok, ◌>>=◌,
  Code, ltb, ◌==◌, negative_virtual_quote_reserves, empty_pool,
}
use atomarb.Common.Int.{pos, ltb_ℤ, leb_ℤ}
use atomarb.Raydium.TransferFee.{spl_token}
use atomarb.Raydium.Adapter.Validate.{failing, same_program, is_some, result_of}
use atomarb.Pumpswap.Params.{PumpswapParams}
use atomarb.Adapter.{DecodedPool, ValidationResult}
use atomarb.Pumpswap.Adapter.{
  PumpswapAdapter, pumpswap_params, token_program_of, is_buy_disabled, is_sell_disabled,
}

-- The checks from the owners to the quote's token program.
unfoldable pub identity_checks : PumpswapAdapter → PumpswapParams → DecodedPool → List (Bool × Code)
unfolding same_program
identity_checks self P d =
    let p = P.pool in
    (not (P.owners.pool == self.pump_amm_program_id), pool_owner_mismatch)
    ∷ (not (P.owners.global_config == self.pump_amm_program_id), global_config_owner_mismatch)
    ∷ (not (P.owners.fee_config == self.pump_fee_program_id), fee_config_owner_mismatch)
    ∷ (
      not (self.pool_pda p.index p.creator p.base_mint p.quote_mint == d.address),
      pool_pda_mismatch,
    )
    ∷ (not (p.quote_mint == self.platform.wsol_mint), quote_not_wsol)
    ∷ (not (d.mint_a.mint == p.base_mint), base_mint_mismatch)
    ∷ (not (d.mint_b.mint == p.quote_mint), quote_mint_mismatch)
    ∷ (not (same_program d.mint_b.program spl_token), quote_token_program)
    ∷ []

-- The checks of the two vaults.
unfoldable pub vault_checks : PumpswapAdapter → PumpswapParams → DecodedPool → List (Bool × Code)
unfolding same_program token_program_of
vault_checks self P d =
    let p = P.pool in
    let base_vault =
      self.platform.associated_token_address d.address p.base_mint
        (token_program_of self d.mint_a.program) in
    let quote_vault =
      self.platform.associated_token_address d.address p.quote_mint
        (token_program_of self d.mint_b.program) in
    (not (d.vault_a.address == p.pool_base_token_account), base_vault_address)
    ∷ (not (d.vault_b.address == p.pool_quote_token_account), quote_vault_address)
    ∷ (not (p.pool_base_token_account == base_vault), base_vault_not_ata)
    ∷ (not (p.pool_quote_token_account == quote_vault), quote_vault_not_ata)
    ∷ (not (d.vault_a.mint == p.base_mint), base_vault_mint)
    ∷ (not (d.vault_b.mint == p.quote_mint), quote_vault_mint)
    ∷ (not (d.vault_a.owner == d.address), base_vault_owner)
    ∷ (not (d.vault_b.owner == d.address), quote_vault_owner)
    ∷ (not (same_program d.vault_a.program d.mint_a.program), base_vault_program)
    ∷ (not (same_program d.vault_b.program d.mint_b.program), quote_vault_program)
    ∷ (d.vault_a.state == 2, base_vault_frozen)
    ∷ (d.vault_b.state == 2, quote_vault_frozen)
    ∷ (
      not (d.reserve_a == d.vault_a.amount) || not (d.reserve_b == d.vault_b.amount),
      reserve_mismatch,
    )
    ∷ []

-- The checks from the disabled flags to the schedule.
unfoldable pub trade_checks : PumpswapParams → DecodedPool → List (Bool × Code)
unfolding is_buy_disabled is_sell_disabled is_some
trade_checks P d =
    (is_buy_disabled P.global_config.disable_flags, buy_disabled)
    ∷ (is_sell_disabled P.global_config.disable_flags, sell_disabled)
    ∷ (ltb_ℤ P.pool.virtual_quote_reserves (pos 0), negative_virtual_quote_reserves)
    ∷ (d.reserve_a == 0 || leb_ℤ P.effective_quote_reserve (pos 0), empty_pool)
    ∷ (not (is_some P.fee_schedule), fee_schedule_unknown)
    ∷ []

unfoldable pub reject_checks : PumpswapAdapter → PumpswapParams → DecodedPool → List (Bool × Code)
unfolding identity_checks vault_checks trade_checks
reject_checks self P d = identity_checks self P d ++ (vault_checks self P d ++ trade_checks P d)

-- Some field has its default iff the account is shorter than the longest layout.
unfoldable pub warning_checks : PumpswapAdapter → PumpswapParams → DecodedPool → List (Bool × Code)
warning_checks self P d =
    let p = P.pool in
    (ltb_ℤ (pos 0) p.virtual_quote_reserves, boost_pool)
    ∷ (not P.canonical && not (p.coin_creator == self.keys.default), noncanonical_with_coin_creator)
    ∷ (p.is_cashback_coin, cashback_coin)
    ∷ (ltb p.layout_length 271, pool_short_layout)
    ∷ (not (self.pool_lp_mint_pda d.address == p.lp_mint), lp_mint_pda_mismatch)
    ∷ []

unfoldable pub validate_pool : PumpswapAdapter → DecodedPool → Result ValidationResult
unfolding pumpswap_params failing reject_checks warning_checks result_of
validate_pool self d = do
  p ← pumpswap_params d
  ok (
      result_of (failing (reject_checks self p d) ++ p.token_2022.rejects)
        (p.token_2022.warnings ++ failing (warning_checks self p d)))
