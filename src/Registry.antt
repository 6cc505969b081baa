-- ===== src/Registry.antt =====
-- The two classes as adapters of src/adapters/types.ts, in the table that src/adapters/registry.ts makes.
use atomarb.Adapter.{AdapterId, raydium_cpmm, pumpswap, PoolAdapter}
use atomarb.Raydium.Adapter.{RaydiumCpmmAdapter}
use atomarb.Pumpswap.Adapter.{PumpswapAdapter}
use atomarb.Raydium.Adapter as Raydium
use atomarb.Pumpswap.Adapter as Pumpswap

abbrev pub raydium_adapter : RaydiumCpmmAdapter → PoolAdapter
raydium_adapter self = record {
  id = raydium_cpmm;
  required_accounts = Raydium.required_accounts self;
  decode_snapshot = Raydium.Decode.decode_snapshot self;
  validate_pool = Raydium.Validate.validate_pool self;
  quote_exact_in = Raydium.Quote.quote_exact_in self;
  apply_swap = Raydium.Apply.apply_swap self;
}

abbrev pub pumpswap_adapter : PumpswapAdapter → PoolAdapter
pumpswap_adapter self = record {
  id = pumpswap;
  required_accounts = Pumpswap.required_accounts self;
  decode_snapshot = Pumpswap.Decode.decode_snapshot self;
  validate_pool = Pumpswap.Validate.validate_pool self;
  quote_exact_in = Pumpswap.Quote.quote_exact_in self;
  apply_swap = Pumpswap.Apply.apply_swap self;
}

-- The table, both modules loaded.
abbrev pub adapters : RaydiumCpmmAdapter → PumpswapAdapter → AdapterId → PoolAdapter
adapters r p raydium_cpmm = raydium_adapter r
adapters r p pumpswap = pumpswap_adapter p
