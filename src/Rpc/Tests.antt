-- ===== src/Rpc/Tests.antt =====
-- A node that has an account at every key, and the theorems of Batches at it. It stands for the real one.
use atomarb.Common.{
  ℕ, zero, suc, ◌+◌, ◌≤◌, ◌*◌, ◌≡◌, refl, true, false, some, none, List, [], ◌∷◌, map, length, ok,
  arith,
}
use atomarb.Raydium.Layout.{PublicKey}
use atomarb.Adapter.Accounts.{AccountBundle}
use atomarb.Rpc.{
  Value, Response, RpcClient, no_accounts, set_account, account_of, read_values,
  get_multiple_accounts, or_kept, add_batch, batches, get_accounts_batched,
}
use atomarb.Rpc.Coherent.{IsCoherent}
use atomarb.Rpc.Batches.{Answers, get_accounts_batched-IsCoherent, get_accounts_batched_returns}

abbrev value_at : PublicKey → Value
value_at key = record { bytes = key ∷ []; owner = 8; lamports = 1; executable = false }

abbrev response : ℕ → List PublicKey → Response
response n keys = record {
  slot = 1_000 + n;
  value = map (λ key. some (value_at key)) keys;
  received_at_utc = n;
  batch_id = n;
}

abbrev node : RpcClient
node = record { call = λ n keys. ok (response n keys) }

length-map : (keys : List PublicKey) → length (map (λ key. some (value_at key)) keys) ≤ length keys
length-map [] = omega arith
length-map (k ∷ ks) = omega (arith, length-map ks)

node-Answers : Answers node
node-Answers n keys = (response n keys, refl, length-map keys)

abbrev fetched : AccountBundle
fetched = record {
  accounts = λ key.
      or_kept
        (set_account (set_account no_accounts 3 (account_of (response 5 []) 3 (value_at 3))) 4
          (account_of (response 5 []) 4 (value_at 4)) key)
        none;
  single_batch = true;
  min_slot = 1_005;
  max_slot = 1_005;
  batch_ids = 5 ∷ [];
}

fetched_eq : get_accounts_batched node 5 (3 ∷ 4 ∷ []) ≡ ok fetched
unfolding get_accounts_batched batches get_multiple_accounts read_values add_batch
fetched_eq = refl

get_accounts_batched-IsCoherent_example :
    IsCoherent fetched × (2 ≤ 100 * 1) × (fetched.single_batch ≡ true → 2 ≤ 100)
get_accounts_batched-IsCoherent_example =
    get_accounts_batched-IsCoherent node 5 (3 ∷ 4 ∷ []) fetched fetched_eq

abbrev numbers : ℕ → List ℕ
numbers zero = []
numbers (suc n) = n ∷ numbers n

get_accounts_batched_returns_example :
    (b : AccountBundle) × (get_accounts_batched node 0 (numbers 250) ≡ ok b)
get_accounts_batched_returns_example =
    get_accounts_batched_returns node 0 (numbers 250) node-Answers
