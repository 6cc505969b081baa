-- ===== src/Capital/Settle.antt =====
-- `settle` of src/accounting/capital.ts. The ledger that is returned holds the capital and the locked
-- amount of the method's answer.
pub mod Invariant
pub mod Sound
pub mod Trace
pub mod Hypothetical
pub mod Journal
use Prim.Native.String.{String}
use text.Mathlib.Text.{◌==◌ as str_eq}
use atomarb.Common.{
  ℕ, suc, Bool, true, false, Option, none, some, List, [], ◌∷◌, ◌++◌, Result, ok, err, throw,
  unknown_position, ledger_invariant, ◌>>=◌, ◌>>◌, exit_if, or_exit, if◌then◌else◌,
}
use atomarb.Common.Int.{ℤ, pos, ◌+ℤ◌, ◌-ℤ◌, ltb_ℤ}
use atomarb.Capital.Types.{
  CapitalConfig, PendingPosition, SettleStatus, filled, reverted, not_landed, SettleOutcome,
  settle_entry, Stats, Ledger, need_of,
}

-- `Map.get` and `Map.delete`
unfoldable pub find_position : List PendingPosition → String → Option PendingPosition
find_position [] id = none
find_position (q ∷ qs) id = if str_eq q.id id then some q else find_position qs id

unfoldable pub delete_position : List PendingPosition → String → List PendingPosition
delete_position [] id = []
delete_position (q ∷ qs) id = if str_eq q.id id then qs else q ∷ delete_position qs id

-- `cfg.hypothetical !== false`
unfoldable pub is_hypothetical : Option Bool → Bool
is_hypothetical none = true
is_hypothetical (some b) = b

unfoldable pub count_status : SettleStatus → Stats → Stats
count_status filled s = record s { filled = suc s.filled }
count_status reverted s = record s { reverted = suc s.reverted }
count_status not_landed s = record s { not_landed = suc s.not_landed }

-- `o.status === 'FILLED' ? o.realisedPnl : 0n`
unfoldable pub realised : SettleStatus → ℤ → ℤ
realised filled pnl = pnl
realised reverted pnl = pos 0
realised not_landed pnl = pos 0

unfoldable pub settled_stats : Bool → SettleOutcome → Stats → Stats
unfolding count_status
settled_stats hypothetical o s =
    let t =
      count_status o.status
        (record s { settled = suc s.settled; fees_paid = s.fees_paid +ℤ o.fee_paid }) in
    if hypothetical
    then record t { hypothetical_pnl = t.hypothetical_pnl +ℤ (o.realised_pnl -ℤ o.fee_paid) }
    else t

unfoldable pub settled_capital : Bool → SettleOutcome → ℤ → ℤ
unfolding realised
settled_capital hypothetical o capital =
    if hypothetical then capital else capital +ℤ (realised o.status o.realised_pnl -ℤ o.fee_paid)

-- The state after `this.pending.delete(o.id)` and the changes around it.
unfoldable pub settled_ledger : Ledger → SettleOutcome → PendingPosition → Ledger
unfolding is_hypothetical settled_stats settled_capital delete_position
settled_ledger l o p =
    let locked = l.locked_amount -ℤ need_of p in
    let hypothetical = is_hypothetical l.cfg.hypothetical in
    let capital = settled_capital hypothetical o l.capital in
    record l {
      pending = delete_position l.pending o.id;
      locked_amount = locked;
      stats = settled_stats hypothetical o l.stats;
      capital = capital;
      journal = l.journal ++ settle_entry o p.deposit_lamports hypothetical capital locked ∷ [];
    }

unfoldable pub settle_position : Ledger → SettleOutcome → PendingPosition → Result Ledger
unfolding settled_ledger
settle_position l o p = do
  exit_if (ltb_ℤ (l.locked_amount -ℤ need_of p) (pos 0)) (throw ledger_invariant)
  ok (settled_ledger l o p)

unfoldable pub settle : Ledger → SettleOutcome → Result Ledger
unfolding settle_position find_position
settle l o = do
  p ← or_exit (find_position l.pending o.id) (throw unknown_position)
  settle_position l o p
