-- ===== src/Rpc.antt =====
-- The two fetches of src/state/rpc.ts that make a bundle of accounts. What the node answers to each call
-- is an argument. The lists of missing keys, which nothing reads, are left out.
pub mod Coherent
pub mod Batches
pub mod Tests
use atomarb.Common.{
  out_of_fuel, true, ℕ, zero, suc, ◌+◌, Bool, ◌||◌, Option, none, some, List, [], ◌∷◌, ◌++◌, Result,
  ok, err, throw, type_error, bad_key_count, ◌>>=◌, ◌>>◌, exit_if, length, take, drop, ltb, ◌==◌,
  if◌then◌else◌,
}
use atomarb.Bytes.{Bytes}
use atomarb.Raydium.Layout.{PublicKey}
use atomarb.Adapter.Accounts.{RawAccount, AccountBundle}

pub record Value : Type 0 where
  pub bytes : Bytes
  pub owner : PublicKey
  pub lamports : ℕ
  pub executable : Bool

-- An answer, with the time it is received at and the id that is made for it.
pub record Response : Type 0 where
  pub slot : ℕ
  pub value : List (Option Value)
  pub received_at_utc : ℕ
  pub batch_id : ℕ

-- What the calls of `getMultipleAccounts` are answered, by their number. A call that fails throws.
pub record RpcClient : Type 0 where
  pub call : ℕ → List PublicKey → Result Response

abbrev pub Accounts : Type 0
Accounts = PublicKey → Option RawAccount

abbrev pub no_accounts : Accounts
no_accounts key = none

-- `accounts.set(pk, …)`
unfoldable pub set_account : Accounts → PublicKey → RawAccount → Accounts
set_account accounts pk a key = if key == pk then some a else accounts key

abbrev pub account_of : Response → PublicKey → Value → RawAccount
account_of r pk v = record {
  pubkey = pk;
  bytes = v.bytes;
  owner = v.owner;
  lamports = v.lamports;
  executable = v.executable;
  context_slot = r.slot;
  received_at_utc = r.received_at_utc;
  batch_id = r.batch_id;
}

-- `r.value.forEach(…)`. A value behind the last key has no key, and its use throws.
unfoldable pub read_values :
    Response → List PublicKey → List (Option Value) → Accounts → Result Accounts
unfolding set_account
read_values r keys [] accounts = ok accounts
read_values r [] (none ∷ vs) accounts = read_values r [] vs accounts
read_values r [] (some v ∷ vs) accounts = err (throw type_error)
read_values r (k ∷ ks) (none ∷ vs) accounts = read_values r ks vs accounts
read_values r (k ∷ ks) (some v ∷ vs) accounts =
    read_values r ks vs (set_account accounts k (account_of r k v))

unfoldable pub get_multiple_accounts : RpcClient → ℕ → List PublicKey → Result AccountBundle
unfolding read_values
get_multiple_accounts rpc n keys = do
  exit_if (length keys == 0 || ltb 100 (length keys)) (throw bad_key_count)
  r ← rpc.call n keys
  accounts ← read_values r keys r.value no_accounts
  ok (record {
    accounts = accounts;
    single_batch = true;
    min_slot = r.slot;
    max_slot = r.slot;
    batch_ids = r.batch_id ∷ [];
  })

-- `for (const [k, v] of r.bundle.accounts) accounts.set(k, v)`
unfoldable pub or_kept : Option RawAccount → Option RawAccount → Option RawAccount
or_kept none kept = kept
or_kept (some a) kept = some a

-- What the loop of `getAccountsBatched` has gathered.
pub record Batched : Type 0 where
  pub accounts : Accounts
  pub batch_ids : List ℕ
  pub min_slot : ℕ
  pub max_slot : ℕ

-- `Number.MAX_SAFE_INTEGER`
abbrev pub max_safe_integer : ℕ
max_safe_integer = 9_007_199_254_740_991

abbrev pub no_batch : Batched
no_batch = record {
  accounts = no_accounts;
  batch_ids = [];
  min_slot = max_safe_integer;
  max_slot = 0;
}

unfoldable pub add_batch : Batched → AccountBundle → Batched
unfolding or_kept
add_batch acc b = record {
  accounts = λ key. or_kept (b.accounts key) (acc.accounts key);
  batch_ids = acc.batch_ids ++ b.batch_ids;
  min_slot = if ltb b.min_slot acc.min_slot then b.min_slot else acc.min_slot;
  max_slot = if ltb acc.max_slot b.max_slot then b.max_slot else acc.max_slot;
}

-- The loop, a hundred keys a turn. The first argument bounds the turns.
unfoldable pub batches : ℕ → RpcClient → ℕ → List PublicKey → Batched → Result Batched
unfolding get_multiple_accounts add_batch
batches fuel rpc n [] acc = ok acc
batches zero rpc n (k ∷ ks) acc = err (throw out_of_fuel)
batches (suc fuel) rpc n (k ∷ ks) acc = get_multiple_accounts rpc n (take 100 (k ∷ ks)) >>= λ b.
    batches fuel rpc (n + 1) (drop 100 (k ∷ ks)) (add_batch acc b)

-- A turn takes a key at least, so that the number of keys is fuel enough.
unfoldable pub get_accounts_batched : RpcClient → ℕ → List PublicKey → Result AccountBundle
unfolding batches
get_accounts_batched rpc n keys = do
  acc ← batches (length keys) rpc n keys no_batch
  ok (record {
    accounts = acc.accounts;
    single_batch = length acc.batch_ids == 1;
    min_slot = if length keys == 0 then 0 else acc.min_slot;
    max_slot = acc.max_slot;
    batch_ids = acc.batch_ids;
  })
