-- ===== src/Adapter/Accounts.antt =====
-- Accounts as they are fetched and parsed, src/adapters/types.ts. A batch id is a number, which is only
-- compared; a UTC text is a number, its place in the order of such texts.
use atomarb.Common.{ℕ, Bool, Option, List}
use atomarb.Raydium.Layout.{PublicKey}
use atomarb.Raydium.TransferFee.{TransferFeeTier, TokenProgramKind}

pub record MintInfo : Type 0 where
  pub mint : PublicKey
  pub program : TokenProgramKind
  pub decimals : ℕ
  pub supply : ℕ
  pub freeze_authority : Option PublicKey
  pub mint_authority : Option PublicKey
  pub extensions : List ℕ
  pub transfer_fee : Option TransferFeeTier
  pub transfer_fee_older : Option TransferFeeTier

pub record TokenAccountInfo : Type 0 where
  pub address : PublicKey
  pub program : TokenProgramKind
  pub mint : PublicKey
  pub owner : PublicKey
  pub amount : ℕ
  pub state : ℕ
  pub extensions : List ℕ

-- The provider and the time on the monotonic clock, which no modelled code reads, are left out.
pub record RawAccount : Type 0 where
  pub pubkey : PublicKey
  pub bytes : List ℕ
  pub owner : PublicKey
  pub lamports : ℕ
  pub executable : Bool
  pub context_slot : ℕ
  pub received_at_utc : ℕ
  pub batch_id : ℕ

-- `accounts` is the map's `get`.
pub record AccountBundle : Type 0 where
  pub accounts : PublicKey → Option RawAccount
  pub single_batch : Bool
  pub min_slot : ℕ
  pub max_slot : ℕ
  pub batch_ids : List ℕ
