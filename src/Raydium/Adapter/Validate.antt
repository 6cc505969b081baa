-- ===== src/Raydium/Adapter/Validate.antt =====
-- `validatePool` of src/adapters/raydium_cpmm/adapter.ts.
use atomarb.Raydium.Decode.{is_swap_enabled}
use atomarb.Common.{
  vault_frozen, token_program_mismatch, mint_address, vault_mint, auth_bump_differs,
  lp_ops_disabled, vault_owner, config_padding_nonzero, vault_pda_mismatch, config_address,
  quote_not_wsol, padding_nonzero, creator_fee_enabled, fee_rate_invalid, config_owner, not_open,
  transfer_fee_pending, invalid_fee_model, swap_disabled, zero_reserve, now_unknown, pool_owner,
  freeze_authority, token_2022_extension, decimals_mismatch, transfer_fee_active, ℕ, ◌+◌, ◌%◌, Bool,
  true, false, not, ◌&&◌, ◌||◌, Option, none, some, List, [], ◌∷◌, ◌++◌, Result, ok, ◌>>=◌, Code,
  ltb, leb, ◌==◌, if◌then◌else◌,
}
use atomarb.Common.Int.{ℤ, pos, ltb_ℤ}
use atomarb.Raydium.Layout.{fee_rate_denominator, both_token, only_token_0, only_token_1}
use atomarb.Raydium.Params.{RaydiumCpmmParams}
use atomarb.Raydium.TransferFee.{
  TokenProgramKind, spl_token, token_2022, TransferFeeConfigView, epoch_fee_tier,
}
use atomarb.Adapter.{DecodedPool, ValidationResult}
use atomarb.Adapter.Accounts.{MintInfo}
use atomarb.Raydium.Adapter.{
  RaydiumCpmmAdapter, program_id_of, params_of, transfer_fee_view, now_of, has_key,
}

-- The checks of a list that fail, in order.
unfoldable pub failing : List (Bool × Code) → List Code
failing [] = []
failing ((fails, code) ∷ cs) = if fails then code ∷ failing cs else failing cs

unfoldable pub same_program : TokenProgramKind → TokenProgramKind → Bool
same_program spl_token spl_token = true
same_program spl_token token_2022 = false
same_program token_2022 spl_token = false
same_program token_2022 token_2022 = true

-- `ALLOWED_TOKEN_2022_EXTENSIONS`
abbrev pub allowed_token_2022_extensions : List ℕ
allowed_token_2022_extensions = 1 ∷ 18 ∷ 19 ∷ 10 ∷ 25 ∷ []

unfoldable pub all_allowed : List ℕ → Bool
unfolding has_key
all_allowed [] = true
all_allowed (e ∷ es) = has_key allowed_token_2022_extensions e && all_allowed es

-- The checks from the owners to the frozen vaults.
unfoldable pub account_checks :
    RaydiumCpmmAdapter → RaydiumCpmmParams → DecodedPool → List (Bool × Code)
unfolding program_id_of same_program
account_checks self p d =
    let st = p.pool in
    let programs = self.platform.token_programs in
    (not (p.pool_owner == self.program_id), pool_owner)
    ∷ (not (p.config_owner == self.program_id), config_owner)
    ∷ (not (p.config_address == st.amm_config), config_address)
    ∷ (
      not (d.vault_a.address == st.token_0_vault)
          || not (d.vault_a.address == self.pool_vault_pda d.address st.token_0_mint),
      vault_pda_mismatch,
    )
    ∷ (
      not (d.vault_b.address == st.token_1_vault)
          || not (d.vault_b.address == self.pool_vault_pda d.address st.token_1_mint),
      vault_pda_mismatch,
    )
    ∷ (not (d.vault_a.owner == p.authority), vault_owner)
    ∷ (not (d.vault_b.owner == p.authority), vault_owner)
    ∷ (not (st.auth_bump == p.authority_bump), auth_bump_differs)
    ∷ (not (d.vault_a.mint == st.token_0_mint), vault_mint)
    ∷ (not (d.vault_b.mint == st.token_1_mint), vault_mint)
    ∷ (
      not (d.mint_a.mint == st.token_0_mint) || not (d.mint_b.mint == st.token_1_mint),
      mint_address,
    )
    ∷ (not (program_id_of programs d.mint_a.program == st.token_0_program), token_program_mismatch)
    ∷ (not (program_id_of programs d.mint_b.program == st.token_1_program), token_program_mismatch)
    ∷ (not (same_program d.vault_a.program d.mint_a.program), token_program_mismatch)
    ∷ (not (same_program d.vault_b.program d.mint_b.program), token_program_mismatch)
    ∷ (d.vault_a.state == 2 || d.vault_b.state == 2, vault_frozen)
    ∷ []

-- The check of `open_time`, by the time that is known.
unfoldable pub open_checks : Option ℤ → ℕ → List (Bool × Code)
open_checks none open_time = (true, now_unknown) ∷ []
open_checks (some now) open_time = (ltb_ℤ now (pos open_time), not_open) ∷ []

-- The checks from the status to the quote mint.
unfoldable pub gate_checks :
    RaydiumCpmmAdapter → RaydiumCpmmParams → DecodedPool → List (Bool × Code)
unfolding is_swap_enabled open_checks now_of
gate_checks self p d =
    let st = p.pool in
    let wsol = self.platform.wsol_mint in
    (not (is_swap_enabled st.status), swap_disabled) ∷ open_checks (now_of self p d) st.open_time
    ++ (
      not (st.creator_fee_on == both_token)
          && not (st.creator_fee_on == only_token_0)
          && not (st.creator_fee_on == only_token_1),
      invalid_fee_model,
    )
      ∷ (not (d.mint_a.mint == wsol) && not (d.mint_b.mint == wsol), quote_not_wsol)
      ∷ []

-- The check of one mint.
unfoldable pub mint_checks : MintInfo → List (Bool × Code)
unfolding same_program all_allowed
mint_checks m =
    (same_program m.program token_2022 && not (all_allowed m.extensions), token_2022_extension) ∷ []

-- The checks behind the loop over the mints.
unfoldable pub value_checks : RaydiumCpmmParams → DecodedPool → List (Bool × Code)
value_checks p d =
    (d.reserve_a == 0 || d.reserve_b == 0, zero_reserve)
    ∷ (
      leb fee_rate_denominator (p.config.trade_fee_rate + p.config.creator_fee_rate),
      fee_rate_invalid,
    )
    ∷ (
      ltb fee_rate_denominator (p.config.protocol_fee_rate + p.config.fund_fee_rate),
      fee_rate_invalid,
    )
    ∷ []

unfoldable pub reject_checks :
    RaydiumCpmmAdapter → RaydiumCpmmParams → DecodedPool → List (Bool × Code)
unfolding account_checks gate_checks mint_checks value_checks
reject_checks self p d =
    account_checks self p d
    ++ (gate_checks self p d
        ++ (mint_checks d.mint_a ++ (mint_checks d.mint_b ++ value_checks p d)))

-- The warnings of one mint, by its view: the view is empty unless the program is Token-2022.
unfoldable pub fee_warnings : ℕ → Option TransferFeeConfigView → List (Bool × Code)
unfolding epoch_fee_tier
fee_warnings epoch none = []
fee_warnings epoch (some view) =
    (ltb 0 (epoch_fee_tier view epoch).bps, transfer_fee_active)
    ∷ (ltb epoch view.newer.epoch, transfer_fee_pending)
    ∷ []

unfoldable pub is_some {ℓ} : {A : Type ℓ} → Option A → Bool
is_some none = false
is_some (some a) = true

unfoldable pub mint_warnings :
    RaydiumCpmmAdapter → RaydiumCpmmParams → MintInfo → List (Bool × Code)
unfolding fee_warnings transfer_fee_view is_some
mint_warnings self p m =
    fee_warnings p.epoch (transfer_fee_view m)
    ++ (is_some m.freeze_authority && not (m.mint == self.platform.wsol_mint), freeze_authority)
      ∷ []

-- The last one reads two bits of the status.
unfoldable pub pool_warnings : RaydiumCpmmParams → DecodedPool → List (Bool × Code)
pool_warnings p d =
    (
      not (d.mint_a.decimals == p.pool.mint_0_decimals)
          || not (d.mint_b.decimals == p.pool.mint_1_decimals),
      decimals_mismatch,
    )
    ∷ (p.pool.enable_creator_fee, creator_fee_enabled)
    ∷ (p.pool.padding_non_zero, padding_nonzero)
    ∷ (not (p.config.padding_0 == 0), config_padding_nonzero)
    ∷ (not (p.pool.status % 4 == 0), lp_ops_disabled)
    ∷ []

unfoldable pub is_empty : List Code → Bool
is_empty [] = true
is_empty (c ∷ cs) = false

unfoldable pub result_of : List Code → List Code → ValidationResult
unfolding is_empty
result_of rejects warnings = record {
  is_ok = is_empty rejects;
  rejects = rejects;
  warnings = warnings;
}

unfoldable pub validate_pool : RaydiumCpmmAdapter → DecodedPool → Result ValidationResult
unfolding params_of failing reject_checks mint_warnings pool_warnings result_of
validate_pool self d = do
  p ← params_of d.params
  ok (
      result_of (failing (reject_checks self p d)) (
        failing
          (mint_warnings self p d.mint_a ++ (mint_warnings self p d.mint_b ++ pool_warnings p d))))
