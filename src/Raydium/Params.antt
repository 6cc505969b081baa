-- ===== src/Raydium/Params.antt =====
-- `RaydiumCpmmParams` of src/adapters/raydium_cpmm/adapter.ts.
use atomarb.Common.{ℕ, Option}
use atomarb.Common.Int.{ℤ}
use atomarb.Raydium.Layout.{PublicKey, PoolState, AmmConfig}
use atomarb.Raydium.TransferFee.{TransferFeeConfigView}

pub record RaydiumCpmmParams : Type 0 where
  pub pool : PoolState
  pub config : AmmConfig
  pub pool_owner : PublicKey
  pub config_owner : PublicKey
  pub config_address : PublicKey
  pub authority : PublicKey
  pub authority_bump : ℕ
  pub epoch : ℕ
  pub now_unix : Option ℤ
  pub transfer_fee_0 : Option TransferFeeConfigView
  pub transfer_fee_1 : Option TransferFeeConfigView
