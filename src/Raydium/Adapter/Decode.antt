-- ===== src/Raydium/Adapter/Decode.antt =====
-- `decodeSnapshot` of src/adapters/raydium_cpmm/adapter.ts.
pub mod Tests
use atomarb.Common.{
  epoch_unknown, mint_parse, vault_parse, accounts_missing, ℕ, Option, none, some, List, [], ◌∷◌,
  map, Result, ok, err, null, fail, throw, Code, ◌>>=◌, ◌>>◌, or_exit, length, ltb, ◌==◌,
  if◌then◌else◌,
}
use atomarb.Raydium.Layout.{PublicKey, PoolState, AmmConfig}
use atomarb.Raydium.Params.{RaydiumCpmmParams}
use atomarb.Raydium.Decode.{decode_pool_state, decode_amm_config}
use atomarb.Raydium.Pool.{vault_amount_without_fee}
use atomarb.Adapter.{raydium_cpmm, of_raydium, DecodedPool, PoolRef, SnapshotInfo}
use atomarb.Adapter.Accounts.{RawAccount, AccountBundle, MintInfo}
use atomarb.Token.{parse_mint, parse_token_account}
use atomarb.Snapshot.{state_hash_of}
use atomarb.Raydium.Adapter.{RaydiumCpmmAdapter, epoch_for_slot, transfer_fee_view, distinct}

-- `try { … } catch { return unsupported(code) }`
unfoldable pub on_throw {ℓ} : {A : Type ℓ} → Result A → Code → Result A
on_throw (ok a) c = ok a
on_throw (err null) c = err null
on_throw (err (fail d)) c = err (fail d)
on_throw (err (throw t)) c = err (fail c)

unfoldable pub minimum : ℕ → List ℕ → ℕ
minimum n [] = n
minimum n (m ∷ ms) = minimum (if ltb m n then m else n) ms

unfoldable pub maximum : ℕ → List ℕ → ℕ
maximum n [] = n
maximum n (m ∷ ms) = maximum (if ltb n m then m else n) ms

unfoldable pub keys_of : PoolRef → PoolState → List PublicKey
keys_of pool st =
    pool.address ∷ st.amm_config ∷ st.token_0_vault ∷ st.token_1_vault ∷ st.token_0_mint
    ∷ st.token_1_mint ∷ []

unfoldable pub params_from :
    RaydiumCpmmAdapter
    → PoolState
    → AmmConfig
    → (pool_raw cfg_raw : RawAccount) → (epoch : ℕ) → (mint_0 mint_1 : MintInfo) → RaydiumCpmmParams
unfolding transfer_fee_view
params_from self st cfg pool_raw cfg_raw epoch mint_0 mint_1 = record {
  pool = st;
  config = cfg;
  pool_owner = pool_raw.owner;
  config_owner = cfg_raw.owner;
  config_address = cfg_raw.pubkey;
  authority = self.authority;
  authority_bump = self.authority_bump;
  epoch = epoch;
  now_unix = none;
  transfer_fee_0 = transfer_fee_view mint_0;
  transfer_fee_1 = transfer_fee_view mint_1;
}

-- The accounts of a pool, as they stand in `raws`.
pub record Raws : Type 0 where
  pub pool : RawAccount
  pub config : RawAccount
  pub vault_0 : RawAccount
  pub vault_1 : RawAccount
  pub mint_0 : RawAccount
  pub mint_1 : RawAccount

-- All but the pool's own.
abbrev pub others : Raws → List RawAccount
others r = r.config ∷ r.vault_0 ∷ r.vault_1 ∷ r.mint_0 ∷ r.mint_1 ∷ []

unfoldable pub snapshot_of : Raws → SnapshotInfo
unfolding minimum maximum distinct
snapshot_of r =
    let batch_ids = distinct (map RawAccount.batch_id (r.pool ∷ others r)) in
    record {
      min_slot = minimum (r.pool).context_slot (map RawAccount.context_slot (others r));
      max_slot = maximum (r.pool).context_slot (map RawAccount.context_slot (others r));
      single_batch = length batch_ids == 1;
      batch_ids = batch_ids;
      received_at_utc =
          maximum (r.pool).received_at_utc (map RawAccount.received_at_utc (others r));
    }

-- The body behind the check that no account is missing.
unfoldable pub decode_raws :
    RaydiumCpmmAdapter → PoolRef → AccountBundle → PoolState → Raws → Result DecodedPool
unfolding on_throw keys_of decode_amm_config parse_mint parse_token_account vault_amount_without_fee
    epoch_for_slot transfer_fee_view params_from state_hash_of snapshot_of
decode_raws self pool bundle st raws = do
  cfg ← decode_amm_config (raws.config).bytes
  let programs = self.platform.token_programs
  vault_0 ← on_throw (parse_token_account programs raws.vault_0) vault_parse
  vault_1 ← on_throw (parse_token_account programs raws.vault_1) vault_parse
  mint_0 ← on_throw (parse_mint programs raws.mint_0) mint_parse
  mint_1 ← on_throw (parse_mint programs raws.mint_1) mint_parse
  reserves ← vault_amount_without_fee st vault_0.amount vault_1.amount
  epoch ← on_throw (epoch_for_slot (snapshot_of raws).max_slot self.epoch_schedule) epoch_unknown
  ok (record {
    adapter = raydium_cpmm;
    address = pool.address;
    program_id = self.program_id;
    mint_a = mint_0;
    mint_b = mint_1;
    vault_a = vault_0;
    vault_b = vault_1;
    reserve_a = reserves.reserve_0;
    reserve_b = reserves.reserve_1;
    params = of_raydium (params_from self st cfg raws.pool raws.config epoch mint_0 mint_1);
    depends_on = keys_of pool st;
    state_hash = state_hash_of self.platform (keys_of pool st) bundle;
    snapshot = snapshot_of raws;
  })

unfoldable pub decode_snapshot : RaydiumCpmmAdapter → PoolRef → AccountBundle → Result DecodedPool
unfolding decode_pool_state decode_raws
decode_snapshot self pool bundle = do
  pool_raw ← or_exit (bundle.accounts pool.address) (fail accounts_missing)
  st ← decode_pool_state pool_raw.bytes
  cfg_raw ← or_exit (bundle.accounts st.amm_config) (fail accounts_missing)
  v0_raw ← or_exit (bundle.accounts st.token_0_vault) (fail accounts_missing)
  v1_raw ← or_exit (bundle.accounts st.token_1_vault) (fail accounts_missing)
  m0_raw ← or_exit (bundle.accounts st.token_0_mint) (fail accounts_missing)
  m1_raw ← or_exit (bundle.accounts st.token_1_mint) (fail accounts_missing)
  decode_raws self pool bundle st (record {
    pool = pool_raw;
    config = cfg_raw;
    vault_0 = v0_raw;
    vault_1 = v1_raw;
    mint_0 = m0_raw;
    mint_1 = m1_raw;
  })
