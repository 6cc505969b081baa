-- ===== src/Snapshot/Pools/Tests.antt =====
-- A node with the accounts of a Raydium pool, and the theorem of Sound at the snapshot that the two
-- adapters make of it. The node stands for the real one.
use atomarb.Common.{
  false, ℕ, ◌+◌, ◌≡◌, refl, true, some, List, [], ◌∷◌, All, map, ok, decimals_mismatch, ◌==◌,
  if◌then◌else◌,
}
use atomarb.Raydium.Layout.{PublicKey}
use atomarb.Adapter.{SnapshotInfo}
use atomarb.Adapter.Accounts.{AccountBundle}
use atomarb.Rpc.{
  Value, Response, RpcClient, Accounts, no_accounts, set_account, account_of, read_values,
  get_multiple_accounts, or_kept, add_batch, batches, get_accounts_batched,
}
use atomarb.Registry.{adapters}
use atomarb.Raydium.Adapter.Tests as RaydiumTests
use atomarb.Pumpswap.Adapter.Tests as PumpswapTests
use atomarb.Raydium.Adapter.Decode.Tests.{
  pool_bytes, config_bytes, vault_bytes, mint_bytes, pool_ref, decoded, decoding,
}
use atomarb.Snapshot.Pools.{
  usable, Adapters, Snapshots, add_needed, on_required, ask_pool, ask, has_all, on_decoded, examine,
  examine_all, fetch_needed, snapshot_needed, snapshot_pools,
}
use atomarb.Snapshot.Pools.Sound.{Explained, snapshot_pools-Explained}
use atomarb.Raydium.Adapter.Validate.{
  failing, same_program, all_allowed, account_checks, open_checks, gate_checks, mint_checks,
  value_checks, reject_checks, fee_warnings, is_some, mint_warnings, pool_warnings, is_empty,
  result_of, validate_pool,
}
use atomarb.Raydium.Adapter.{
  required_accounts, params_of, program_id_of, now_of, or_parsed, has_key, transfer_fee_view,
  view_of,
}
use atomarb.Raydium.Decode.{is_swap_enabled}
use atomarb.Raydium.TransferFee.{epoch_fee_tier}

-- The key 60 is the pool's, 1 its config's, 66 and 67 its vaults'.
abbrev value_at : PublicKey → Value
value_at key =
    if key == 60
    then record { bytes = pool_bytes; owner = 50; lamports = 1; executable = false }
    else if key == 1
    then record { bytes = config_bytes; owner = 50; lamports = 1; executable = false }
    else if key == 66
    then record { bytes = vault_bytes 6 5_000; owner = 8; lamports = 1; executable = false }
    else if key == 67
    then record { bytes = vault_bytes 7 7_000; owner = 8; lamports = 1; executable = false }
    else record { bytes = mint_bytes; owner = 8; lamports = 1; executable = false }

abbrev response : ℕ → List PublicKey → Response
response n keys = record {
  slot = 302_400_000 + n;
  value = map (λ key. some (value_at key)) keys;
  received_at_utc = n;
  batch_id = n;
}

abbrev node : RpcClient
node = record { call = λ n keys. ok (response n keys) }

abbrev with_all : Accounts → List PublicKey → Accounts
with_all accounts [] = accounts
with_all accounts (k ∷ ks) =
    with_all (set_account accounts k (account_of (response 1 []) k (value_at k))) ks

-- The second answer.
abbrev fetched : AccountBundle
fetched = record {
  accounts = with_all no_accounts (60 ∷ 1 ∷ 66 ∷ 67 ∷ 6 ∷ 7 ∷ []);
  single_batch = true;
  min_slot = 302_400_001;
  max_slot = 302_400_001;
  batch_ids = 1 ∷ [];
}

abbrev taken : SnapshotInfo
taken = record {
  min_slot = 302_400_001;
  max_slot = 302_400_001;
  single_batch = true;
  batch_ids = 1 ∷ [];
  received_at_utc = 1;
}

abbrev snapshots : Snapshots
snapshots = record {
  outcomes =
      record {
        pool = pool_ref;
        decoded = some (record decoded { snapshot = taken });
        status = usable;
        reasons = [];
        warnings = decimals_mismatch ∷ [];
      }
      ∷ [];
  bundle = some fetched;
}

abbrev both : Adapters
both = adapters RaydiumTests.adapter PumpswapTests.adapter

snapshots_eq : snapshot_pools node both (pool_ref ∷ []) true ≡ ok snapshots
unfolding decoding snapshot_pools get_accounts_batched batches get_multiple_accounts read_values
    set_account or_kept add_batch ask ask_pool on_required add_needed snapshot_needed fetch_needed
    examine_all examine has_all on_decoded required_accounts validate_pool failing same_program
    all_allowed account_checks open_checks gate_checks mint_checks value_checks reject_checks
    fee_warnings is_some mint_warnings pool_warnings is_empty result_of params_of program_id_of
    now_of or_parsed has_key transfer_fee_view view_of is_swap_enabled epoch_fee_tier
snapshots_eq = refl

snapshot_pools-Explained_example : All (Explained both true snapshots.bundle) snapshots.outcomes
snapshot_pools-Explained_example =
    snapshot_pools-Explained node both (pool_ref ∷ []) true snapshots snapshots_eq
