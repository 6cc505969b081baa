-- ===== src/Adapter.antt =====
-- The types that the adapters share, src/adapters/types.ts. Of a record, the fields that no modelled
-- code reads are left out, and so are texts and floating-point estimates. A reason to reject is its
-- code. An adapter is an interface: the operations that the engine calls.
pub mod Accounts
use Prim.Native.String.{String}
use atomarb.Common.{ℕ, Bool, Option, List, Code, Result}
use atomarb.Common.Int.{ℤ}
use atomarb.Raydium.Layout.{PublicKey}
use atomarb.Raydium.Params.{RaydiumCpmmParams}
use atomarb.Pumpswap.Params.{PumpswapParams}
use atomarb.Adapter.Accounts.{MintInfo, TokenAccountInfo, RawAccount, AccountBundle}

pub data AdapterId : Type 0 where
  raydium_cpmm pumpswap : AdapterId

-- What the field `params` holds.
pub data Params : Type 0 where
  of_raydium : RaydiumCpmmParams → Params
  of_pumpswap : PumpswapParams → Params

pub record SnapshotInfo : Type 0 where
  pub min_slot : ℕ
  pub max_slot : ℕ
  pub single_batch : Bool
  pub batch_ids : List ℕ
  pub received_at_utc : ℕ

pub record DecodedPool : Type 0 where
  pub adapter : AdapterId
  pub address : PublicKey
  pub program_id : PublicKey
  pub mint_a : MintInfo
  pub mint_b : MintInfo
  pub vault_a : TokenAccountInfo
  pub vault_b : TokenAccountInfo
  pub reserve_a : ℕ
  pub reserve_b : ℕ
  pub params : Params
  pub depends_on : List PublicKey
  pub state_hash : String
  pub snapshot : SnapshotInfo

pub record PoolRef : Type 0 where
  pub adapter : AdapterId
  pub address : PublicKey

pub record ValidationResult : Type 0 where
  pub is_ok : Bool
  pub rejects : List Code
  pub warnings : List Code

pub record FeeItem : Type 0 where
  pub name : String
  pub amount : ℤ
  pub mint : PublicKey
  pub recipient : String

pub record Quote : Type 0 where
  pub adapter : AdapterId
  pub pool : PublicKey
  pub input_mint : PublicKey
  pub output_mint : PublicKey
  pub amount_in : ℤ
  pub amount_out_to_user : ℤ
  pub vault_in_delta : ℤ
  pub vault_out_delta : ℤ
  pub fees : List FeeItem
  pub accounts_needed : List PublicKey
  pub state_hash : String
  pub min_slot : ℕ
  pub max_slot : ℕ
  pub reject_reasons : List Code

pub record SwapIxParams : Type 0 where
  pub user : PublicKey
  pub user_input_account : PublicKey
  pub user_output_account : PublicKey
  pub amount_in : ℤ
  pub minimum_amount_out : ℤ

-- `PoolAdapter`. The exit `fail` of an operation is its `Unsupported`.
pub record PoolAdapter : Type 0 where
  pub id : AdapterId
  pub required_accounts : PoolRef → Option RawAccount → Result (List PublicKey)
  pub decode_snapshot : PoolRef → AccountBundle → Result DecodedPool
  pub validate_pool : DecodedPool → Result ValidationResult
  pub quote_exact_in : DecodedPool → PublicKey → ℤ → Result Quote
  pub apply_swap : DecodedPool → Quote → Result DecodedPool
