-- ===== src/Capital/Settle/Journal.antt =====
-- The journal of the ledger of src/accounting/capital.ts explains its capital and its fees.
use atomarb.Capital.Settle.Sound.{gain_at, realised-gain_at}
use atomarb.Common.{
  suc, ◌≡◌, refl, sym, subst, Bool, true, false, Option, none, some, List, [], ◌∷◌, ◌++◌,
  if◌then◌else◌,
}
use atomarb.Common.Int.{ℤ, pos, ◌+ℤ◌, ◌-ℤ◌, int_laws}
use atomarb.Capital.Types.{
  CapitalConfig, PendingPosition, RejectCode, SettleStatus, filled, reverted, not_landed,
  SettleOutcome, JournalEntry, reserve_entry, reject_entry, settle_entry, Stats, Ledger, new_ledger,
  need_of,
}
use atomarb.Capital.Budget.{budget, realised_net}
use atomarb.Capital.Reserve.{
  Request, reserve, reserve_by, grant, reject, refusal, position_of, need,
}
use atomarb.Capital.Settle.{
  is_hypothetical, count_status, settled_stats, settled_capital, settled_ledger,
}
use atomarb.Capital.Settle.Invariant.{IsSound}
use atomarb.Capital.Settle.Trace.{
  Step, reserving, settling, Reach, created, called, create_state, settle-ok, Reach-IsSound,
}

-- What an entry did to the capital: the realised profit less the fee, if the mode was not
-- hypothetical.
abbrev pub gain_of : JournalEntry → ℤ
gain_of (reserve_entry p locked capital) = pos 0
gain_of (reject_entry c b) = pos 0
gain_of (settle_entry o d true capital locked) = pos 0
gain_of (settle_entry o d false capital locked) = gain_at o.status o.realised_pnl o.fee_paid

abbrev pub fee_of : JournalEntry → ℤ
fee_of (reserve_entry p locked capital) = pos 0
fee_of (reject_entry c b) = pos 0
fee_of (settle_entry o d h capital locked) = o.fee_paid

abbrev pub sum_over : (JournalEntry → ℤ) → List JournalEntry → ℤ
sum_over f [] = pos 0
sum_over f (e ∷ es) = f e +ℤ sum_over f es

sum_over-append_one :
    (f : JournalEntry → ℤ) (es : List JournalEntry) (e : JournalEntry)
    → sum_over f (es ++ e ∷ []) ≡ sum_over f es +ℤ f e
sum_over-append_one f [] e = omega int_laws
sum_over-append_one f (d ∷ es) e = rw (sum_over-append_one f es e) (omega int_laws)

record IsExplained (l : Ledger) : Type 0 where
  net : realised_net l ≡ sum_over gain_of l.journal
  fees : l.stats.fees_paid ≡ sum_over fee_of l.journal

-- An entry that counts for nothing.
explained_more :
    (f : JournalEntry → ℤ) (es : List JournalEntry) (e : JournalEntry) (x : ℤ)
    → f e ≡ pos 0
    → x ≡ sum_over f es
    → x ≡ sum_over f (es ++ e ∷ [])
explained_more f es e x z h = rw (sum_over-append_one f es e, z, h) (omega int_laws)

new_ledger-IsExplained : (cfg : CapitalConfig) → IsExplained (new_ledger cfg)
unfolding new_ledger realised_net
new_ledger-IsExplained cfg = record { net = omega int_laws; fees = refl }

reserve_by-IsExplained :
    (c : Option RejectCode) (l : Ledger) (p : Request)
    → IsExplained l
    → IsExplained (reserve_by c l p).0
unfolding reserve_by grant reject realised_net
reserve_by-IsExplained none l p h =
    let e = reserve_entry (position_of p) (l.locked_amount +ℤ need p) l.capital in
    record {
      net = explained_more gain_of l.journal e (l.capital -ℤ l.initial) refl h.net;
      fees = explained_more fee_of l.journal e l.stats.fees_paid refl h.fees;
    }
reserve_by-IsExplained (some c) l p h =
    let e = reject_entry c (budget l) in
    record {
      net = explained_more gain_of l.journal e (l.capital -ℤ l.initial) refl h.net;
      fees = explained_more fee_of l.journal e l.stats.fees_paid refl h.fees;
    }

stats_fees :
    (hypothetical : Bool) (o : SettleOutcome) (s : Stats)
    → (settled_stats hypothetical o s).fees_paid ≡ s.fees_paid +ℤ o.fee_paid
unfolding settled_stats count_status
stats_fees hypothetical o s = by_status hypothetical o.status
  where
    by_status :
        (h : Bool) (st : SettleStatus)
        → let u =
            count_status st
              (record s { settled = suc s.settled; fees_paid = s.fees_paid +ℤ o.fee_paid }) in
          let t =
            if h
            then record u {
              hypothetical_pnl = u.hypothetical_pnl +ℤ (o.realised_pnl -ℤ o.fee_paid);
            }
            else u in
          t.fees_paid ≡ s.fees_paid +ℤ o.fee_paid
    by_status true filled = refl
    by_status true reverted = refl
    by_status true not_landed = refl
    by_status false filled = refl
    by_status false reverted = refl
    by_status false not_landed = refl

moved : (x i g sum : ℤ) → x -ℤ i ≡ sum → x +ℤ g -ℤ i ≡ sum +ℤ g
moved x i g sum h = rw (sym h) (omega int_laws)

unmoved : (x i sum : ℤ) → x -ℤ i ≡ sum → x -ℤ i ≡ sum +ℤ pos 0
unmoved x i sum h = rw (sym h) (omega int_laws)

capital_moved :
    (h : Bool) (o : SettleOutcome) (x i d locked capital sum : ℤ)
    → x -ℤ i ≡ sum
    → settled_capital h o x -ℤ i ≡ sum +ℤ gain_of (settle_entry o d h capital locked)
unfolding settled_capital
capital_moved true o x i d locked capital sum h = unmoved x i sum h
capital_moved false o x i d locked capital sum h =
    rw (realised-gain_at o.status o.realised_pnl o.fee_paid)
      (moved x i (gain_at o.status o.realised_pnl o.fee_paid) sum h)

fees_moved : (x fee sum : ℤ) → x ≡ sum → x +ℤ fee ≡ sum +ℤ fee
fees_moved x fee sum h = rw h refl

settled-IsExplained :
    (l : Ledger) (o : SettleOutcome) (p : PendingPosition)
    → IsExplained l
    → IsExplained (settled_ledger l o p)
unfolding settled_ledger realised_net
settled-IsExplained l o p h =
    let hyp = is_hypothetical l.cfg.hypothetical in
    let capital = settled_capital hyp o l.capital in
    let locked = l.locked_amount -ℤ need_of p in
    let e = settle_entry o p.deposit_lamports hyp capital locked in
    record {
      net = rw (sum_over-append_one gain_of l.journal e) (
          capital_moved hyp o l.capital l.initial p.deposit_lamports locked capital
            (sum_over gain_of l.journal) h.net);
      fees =
          rw (sum_over-append_one fee_of l.journal e, stats_fees hyp o l.stats)
            (fees_moved l.stats.fees_paid o.fee_paid (sum_over fee_of l.journal) h.fees);
    }

Step-IsExplained : (l l' : Ledger) → Step l l' → IsSound l → IsExplained l → IsExplained l'
unfolding reserve
Step-IsExplained l _ (reserving _ p named) sound h = reserve_by-IsExplained (refusal l p) l p h
Step-IsExplained l l' (settling _ _ o k) sound h =
    let (p, _, _, same) = settle-ok l l' o sound k in
    subst IsExplained same (settled-IsExplained l o p h)

Reach-IsExplained : (cfg : CapitalConfig) (l : Ledger) → Reach cfg l → IsExplained l
Reach-IsExplained cfg l (created _ e) =
    subst IsExplained (create_state cfg l e).1 (new_ledger-IsExplained cfg)
Reach-IsExplained cfg l' (called l _ r s) =
    Step-IsExplained l l' s (Reach-IsSound cfg l r) (Reach-IsExplained cfg l r)

-- In every state that calls reach, if no request names a pool by the empty string, the journal explains
-- the money: the realised net is the sum, over the settlements outside hypothetical mode, of the profit
-- of the filled ones and nothing for the others, less the fee of each, and the fees paid are the sum of
-- the fees of all settlements.
pub Reach-journal_lem :
    (cfg : CapitalConfig) (l : Ledger)
    → Reach cfg l
    → (realised_net l ≡ sum_over gain_of l.journal)
      × (l.stats.fees_paid ≡ sum_over fee_of l.journal)
Reach-journal_lem cfg l r = let h = Reach-IsExplained cfg l r in (h.net, h.fees)
