-- ===== src/Pumpswap/Params.antt =====
-- `PumpswapParams` of src/adapters/pumpswap/adapter.ts. The fields that repeat a field of the pool, of the
-- global config or of a mint are left out: the code sets them once, together with these.
use atomarb.Common.{ℕ, Bool, Option}
use atomarb.Common.Int.{ℤ}
use atomarb.Raydium.Layout.{PublicKey}
use atomarb.Pumpswap.Schedule.{PumpPool, PumpFeeConfig, FeeSchedule}
use atomarb.Pumpswap.Decode.{PumpGlobalConfig}
use atomarb.Pumpswap.Gate.{Token2022Gate}

pub record Owners : Type 0 where
  pub pool : PublicKey
  pub global_config : PublicKey
  pub fee_config : PublicKey

pub record PumpswapParams : Type 0 where
  pub pool : PumpPool
  pub global_config : PumpGlobalConfig
  pub fee_config : PumpFeeConfig
  pub owners : Owners
  pub effective_quote_reserve : ℤ
  pub canonical : Bool
  pub fee_schedule : Option FeeSchedule
  pub token_2022 : Token2022Gate
  pub swaps_applied : ℕ
