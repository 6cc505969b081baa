-- ===== src/Snapshot/Pools.antt =====
-- `snapshotPools` of src/state/snapshot.ts: fetch the pools, fetch what they depend on, decode and
-- validate. A reason is its code.
pub mod Sound
pub mod Tests
use atomarb.Common.{
  pool_account_missing, accounts_missing, multi_batch_snapshot, ℕ, Bool, true, false, not, ◌&&◌,
  Option, none, some, List, [], ◌∷◌, ◌++◌, map, Result, ok, err, null, fail, throw, Code, ◌>>=◌,
  length, leb, ◌==◌, if◌then◌else◌,
}
use atomarb.Raydium.Layout.{PublicKey}
use atomarb.Adapter.{AdapterId, DecodedPool, PoolRef, ValidationResult, PoolAdapter}
use atomarb.Adapter.Accounts.{AccountBundle}
use atomarb.Raydium.Adapter.{has_key}
use atomarb.Rpc.{RpcClient, get_multiple_accounts, get_accounts_batched}

pub data SnapshotStatus : Type 0 where
  usable unsupported invalid snapshot_incomplete : SnapshotStatus

pub record SnapshotOutcome : Type 0 where
  pub pool : PoolRef
  pub decoded : Option DecodedPool
  pub status : SnapshotStatus
  pub reasons : List Code
  pub warnings : List Code

abbrev pub refused : PoolRef → SnapshotStatus → Code → SnapshotOutcome
refused p status code = record {
  pool = p;
  decoded = none;
  status = status;
  reasons = code ∷ [];
  warnings = [];
}

abbrev pub Adapters : Type 0
Adapters = AdapterId → PoolAdapter

-- What the first loop has gathered: `perPool` is the map's `get`.
pub record Asked : Type 0 where
  pub outcomes : List SnapshotOutcome
  pub needed : List PublicKey
  pub per_pool : PublicKey → Option (List PublicKey)

-- `for (const k of req) if (!needed.some(…)) needed.push(k)`
unfoldable pub add_needed : List PublicKey → List PublicKey → List PublicKey
unfolding has_key
add_needed needed [] = needed
add_needed needed (k ∷ ks) = add_needed (if has_key needed k then needed else needed ++ k ∷ []) ks

unfoldable pub add_outcome : Asked → SnapshotOutcome → Asked
add_outcome s o = record s { outcomes = s.outcomes ++ o ∷ [] }

-- A turn of the first loop, by what the adapter requires.
unfoldable pub on_required : Asked → PoolRef → Result (List PublicKey) → Result Asked
unfolding add_needed add_outcome
on_required s p (ok req) = ok (record s {
  needed = add_needed s.needed req;
  per_pool = λ key. if key == p.address then some req else s.per_pool key;
})
on_required s p (err null) = err null
on_required s p (err (fail code)) = ok (add_outcome s (refused p unsupported code))
on_required s p (err (throw t)) = err (throw t)

unfoldable pub ask_pool : Adapters → AccountBundle → Asked → PoolRef → Result Asked
unfolding on_required add_outcome
ask_pool adapters first s p = elim (first.accounts p.address) [
  | none ↦ ok (add_outcome s (refused p invalid pool_account_missing))
  | some account ↦ on_required s p ((adapters p.adapter).required_accounts p (some account))
]

unfoldable pub ask : Adapters → AccountBundle → Asked → List PoolRef → Result Asked
unfolding ask_pool
ask adapters first s [] = ok s
ask adapters first s (p ∷ ps) = ask_pool adapters first s p >>= λ t. ask adapters first t ps

-- `bundle.accounts.has` of every key.
unfoldable pub has_all : AccountBundle → List PublicKey → Bool
has_all b [] = true
has_all b (k ∷ ks) = elim (b.accounts k) [ none ↦ false | some a ↦ has_all b ks ]

abbrev pub outcome_of : PoolRef → DecodedPool → ValidationResult → SnapshotOutcome
outcome_of p d v = record {
  pool = p;
  decoded = some d;
  status = if v.is_ok then usable else invalid;
  reasons = v.rejects;
  warnings = v.warnings;
}

-- The outcome by what the adapter decodes.
unfoldable pub on_decoded : PoolAdapter → PoolRef → Result DecodedPool → Result SnapshotOutcome
on_decoded adapter p (ok d) = adapter.validate_pool d >>= λ v. ok (outcome_of p d v)
on_decoded adapter p (err null) = err null
on_decoded adapter p (err (fail code)) = ok (refused p unsupported code)
on_decoded adapter p (err (throw t)) = err (throw t)

-- The outcome of a pool that the accounts `req` were asked for.
unfoldable pub examine :
    Adapters → Bool → AccountBundle → PoolRef → List PublicKey → Result SnapshotOutcome
unfolding has_all on_decoded
examine adapters require_single b p req =
    if not (has_all b req)
    then ok (refused p invalid accounts_missing)
    else if require_single && not b.single_batch
    then ok (refused p snapshot_incomplete multi_batch_snapshot)
    else on_decoded (adapters p.adapter) p ((adapters p.adapter).decode_snapshot p b)

-- The second loop, which passes over the pools that nothing was asked for.
unfoldable pub examine_all :
    Adapters
    → Bool
    → AccountBundle
    → (PublicKey → Option (List PublicKey))
    → List PoolRef
    → Result (List SnapshotOutcome)
unfolding examine
examine_all adapters require_single b per_pool [] = ok []
examine_all adapters require_single b per_pool (p ∷ ps) = elim (per_pool p.address) [
  | none ↦ examine_all adapters require_single b per_pool ps
  | some req ↦ examine adapters require_single b p req >>= λ o.
      examine_all adapters require_single b per_pool ps >>= λ os. ok (o ∷ os)
]

-- A list of a hundred keys at most is fetched at once.
unfoldable pub fetch_needed : RpcClient → ℕ → List PublicKey → Result AccountBundle
unfolding get_multiple_accounts get_accounts_batched
fetch_needed rpc n needed =
    if leb (length needed) 100
    then get_multiple_accounts rpc n needed
    else get_accounts_batched rpc n needed

pub record Snapshots : Type 0 where
  pub outcomes : List SnapshotOutcome
  pub bundle : Option AccountBundle

-- The body behind the first loop. The second fetch comes behind the calls of the first.
unfoldable pub snapshot_needed :
    RpcClient → ℕ → Adapters → List PoolRef → Bool → Asked → List PublicKey → Result Snapshots
unfolding fetch_needed examine_all
snapshot_needed rpc n adapters pools require_single s [] =
    ok (record { outcomes = s.outcomes; bundle = none })
snapshot_needed rpc n adapters pools require_single s (k ∷ ks) =
    fetch_needed rpc n (k ∷ ks) >>= λ b.
    examine_all adapters require_single b s.per_pool pools >>= λ os.
    ok (record { outcomes = s.outcomes ++ os; bundle = some b })

unfoldable pub snapshot_pools :
    RpcClient → Adapters → List PoolRef → (require_single_batch : Bool) → Result Snapshots
unfolding get_accounts_batched ask snapshot_needed
snapshot_pools rpc adapters pools require_single = do
  first ← get_accounts_batched rpc 0 (map PoolRef.address pools)
  s ← ask adapters first (record { outcomes = []; needed = []; per_pool = λ key. none }) pools
  snapshot_needed rpc (length first.batch_ids) adapters pools require_single s s.needed
