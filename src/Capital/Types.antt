-- ===== src/Capital/Types.antt =====
-- The types of src/accounting/capital.ts, the constructor of the ledger, and its checks.
use Prim.Native.String.{String}
use atomarb.Common.{
  ℕ, Bool, ◌||◌, Option, List, [], Result, ok, throw, fractions_out_of_range, ◌>>◌, exit_if,
}
use atomarb.Common.Int.{ℤ, pos, ◌+ℤ◌, ltb_ℤ, leb_ℤ}

-- The three fractions in millionths; `hypothetical` may be left out.
pub record CapitalConfig : Type 0 where
  pub capital_lamports : ℤ
  pub max_episode_frac : ℤ
  pub max_aggregate_open_frac : ℤ
  pub reserve_frac : ℤ
  pub max_concurrent : ℕ
  pub hypothetical : Option Bool

pub record PendingPosition : Type 0 where
  pub id : String
  pub amount_in : ℤ
  pub fee_budget : ℤ
  pub deposit_lamports : ℤ
  pub pools : List String
  pub mint : String
  pub opened_utc : String

pub data RejectCode : Type 0 where
  episode_cap aggregate_cap reserve_floor concurrency : RejectCode
  pool_conflict mint_conflict duplicate_id non_positive : RejectCode

pub data ReserveResult : Type 0 where
  granted : PendingPosition → ReserveResult
  rejected : RejectCode → (budget : ℤ) → ReserveResult

pub data SettleStatus : Type 0 where
  filled reverted not_landed : SettleStatus

pub record SettleOutcome : Type 0 where
  pub id : String
  pub realised_pnl : ℤ
  pub fee_paid : ℤ
  pub status : SettleStatus
  pub utc : String

-- The entries of the journal.
pub data JournalEntry : Type 0 where
  reserve_entry : PendingPosition → (locked capital : ℤ) → JournalEntry
  reject_entry : RejectCode → (budget : ℤ) → JournalEntry
  settle_entry :
      SettleOutcome
      → (deposit_released : ℤ) → (hypothetical : Bool) → (capital locked : ℤ) → JournalEntry

pub record Stats : Type 0 where
  pub reserved : ℕ
  pub rejected : ℕ
  pub settled : ℕ
  pub filled : ℕ
  pub reverted : ℕ
  pub not_landed : ℕ
  pub fees_paid : ℤ
  pub hypothetical_pnl : ℤ

-- The state of a `CapitalLedger`.
pub record Ledger : Type 0 where
  pub cfg : CapitalConfig
  pub capital : ℤ
  pub initial : ℤ
  pub pending : List PendingPosition
  pub locked_amount : ℤ
  pub journal : List JournalEntry
  pub stats : Stats

abbrev pub million : ℤ
million = pos 1_000_000

-- `cfg.maxEpisodeFrac <= 0 || … || cfg.reserveFrac >= 1`
unfoldable pub fractions_bad : CapitalConfig → Bool
fractions_bad cfg =
    leb_ℤ cfg.max_episode_frac (pos 0)
    || ltb_ℤ million cfg.max_episode_frac
    || leb_ℤ cfg.max_aggregate_open_frac (pos 0)
    || ltb_ℤ million cfg.max_aggregate_open_frac
    || ltb_ℤ cfg.reserve_frac (pos 0)
    || leb_ℤ million cfg.reserve_frac

abbrev pub no_stats : Stats
no_stats = record {
  reserved = 0;
  rejected = 0;
  settled = 0;
  filled = 0;
  reverted = 0;
  not_landed = 0;
  fees_paid = pos 0;
  hypothetical_pnl = pos 0;
}

unfoldable pub new_ledger : CapitalConfig → Ledger
new_ledger cfg = record {
  cfg = cfg;
  capital = cfg.capital_lamports;
  initial = cfg.capital_lamports;
  pending = [];
  locked_amount = pos 0;
  journal = [];
  stats = no_stats;
}

-- The constructor.
unfoldable pub create : CapitalConfig → Result Ledger
unfolding fractions_bad new_ledger
create cfg = do exit_if (fractions_bad cfg) (throw fractions_out_of_range); ok (new_ledger cfg)

-- `p.amountIn + p.feeBudget + p.depositLamports`: what a position locks.
abbrev pub need_of : PendingPosition → ℤ
need_of p = p.amount_in +ℤ p.fee_budget +ℤ p.deposit_lamports
