-- ===== src/Pumpswap/Adapter/Decode.antt =====
-- `decodeSnapshot` of src/adapters/pumpswap/adapter.ts.
use atomarb.Common.{
  vault_parse, mint_parse, pool_owner_mismatch, accounts_missing, not, Result, ok, fail, ◌>>=◌,
  ◌>>◌, exit_if, or_exit, ◌==◌,
}
use atomarb.Common.Int.{pos, ◌+ℤ◌}
use atomarb.Pumpswap.Schedule.{is_pump_pool, PumpPool}
use atomarb.Pumpswap.Decode.{decode_pool, decode_global_config, decode_fee_config}
use atomarb.Pumpswap.Gate.{token_2022_gate}
use atomarb.Adapter.{pumpswap, of_pumpswap, DecodedPool, PoolRef}
use atomarb.Adapter.Accounts.{AccountBundle, RawAccount}
use atomarb.Token.{parse_mint, parse_token_account}
use atomarb.Snapshot.{state_hash_of}
use atomarb.Raydium.Adapter.Decode.{on_throw}
use atomarb.Pumpswap.Adapter.{PumpswapAdapter, pool_keys, select_schedule, or_no_schedule}

-- The seven accounts.
pub record Fetched : Type 0 where
  pub pool : RawAccount
  pub global_config : RawAccount
  pub fee_config : RawAccount
  pub base_mint : RawAccount
  pub quote_mint : RawAccount
  pub base_vault : RawAccount
  pub quote_vault : RawAccount

-- The body behind the check that no account is missing.
unfoldable pub decode_fetched :
    PumpswapAdapter → PoolRef → AccountBundle → PumpPool → Fetched → Result DecodedPool
unfolding decode_global_config decode_fee_config parse_mint parse_token_account token_2022_gate
    select_schedule or_no_schedule is_pump_pool state_hash_of on_throw pool_keys ◌+ℤ◌
decode_fetched self pool bundle p raws = do
  gc ← decode_global_config self.keys.default (raws.global_config).bytes
  fc ← decode_fee_config (raws.fee_config).bytes
  let programs = self.platform.token_programs
  mint_a ← on_throw (parse_mint programs raws.base_mint) mint_parse
  mint_b ← on_throw (parse_mint programs raws.quote_mint) mint_parse
  vault_a ← on_throw (parse_token_account programs raws.base_vault) vault_parse
  vault_b ← on_throw (parse_token_account programs raws.quote_vault) vault_parse
  gate ← token_2022_gate programs.token_2022_program_id raws.base_mint mint_a
  let eff_q = pos vault_b.amount +ℤ p.virtual_quote_reserves
  sched ← or_no_schedule (
      select_schedule self.keys p gc.creator_fee_configurable fc mint_a.supply vault_a.amount eff_q)
  ok (record {
    adapter = pumpswap;
    address = pool.address;
    program_id = self.pump_amm_program_id;
    mint_a = mint_a;
    mint_b = mint_b;
    vault_a = vault_a;
    vault_b = vault_b;
    reserve_a = vault_a.amount;
    reserve_b = vault_b.amount;
    params = of_pumpswap (record {
      pool = p;
      global_config = gc;
      fee_config = fc;
      owners = record {
        pool = (raws.pool).owner;
        global_config = (raws.global_config).owner;
        fee_config = (raws.fee_config).owner;
      };
      effective_quote_reserve = eff_q;
      canonical = is_pump_pool self.keys p.base_mint p.creator;
      fee_schedule = sched;
      token_2022 = gate;
      swaps_applied = 0;
    });
    depends_on = pool_keys self pool p;
    state_hash = state_hash_of self.platform (pool_keys self pool p) bundle;
    snapshot = record {
      min_slot = bundle.min_slot;
      max_slot = bundle.max_slot;
      single_batch = bundle.single_batch;
      batch_ids = bundle.batch_ids;
      received_at_utc = (raws.pool).received_at_utc;
    };
  })

unfoldable pub decode_snapshot : PumpswapAdapter → PoolRef → AccountBundle → Result DecodedPool
unfolding decode_pool decode_fetched
decode_snapshot self pool bundle = do
  pool_acc ← or_exit (bundle.accounts pool.address) (fail accounts_missing)
  exit_if (not (pool_acc.owner == self.pump_amm_program_id)) (fail pool_owner_mismatch)
  p ← decode_pool self.keys.default pool_acc.bytes
  gc_acc ← or_exit (bundle.accounts self.global_config_pda) (fail accounts_missing)
  fc_acc ← or_exit (bundle.accounts self.fee_config_pda) (fail accounts_missing)
  bm_acc ← or_exit (bundle.accounts p.base_mint) (fail accounts_missing)
  qm_acc ← or_exit (bundle.accounts p.quote_mint) (fail accounts_missing)
  bv_acc ← or_exit (bundle.accounts p.pool_base_token_account) (fail accounts_missing)
  qv_acc ← or_exit (bundle.accounts p.pool_quote_token_account) (fail accounts_missing)
  decode_fetched self pool bundle p (record {
    pool = pool_acc;
    global_config = gc_acc;
    fee_config = fc_acc;
    base_mint = bm_acc;
    quote_mint = qm_acc;
    base_vault = bv_acc;
    quote_vault = qv_acc;
  })
