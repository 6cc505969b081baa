-- ===== src/Accounting/Period.antt =====
-- `transactionPnl` and `operatingPnl` of src/accounting/pnl.ts.
use Prim.Native.String.{String}
use atomarb.Common.{
  ℕ, ◌+◌, ◌<◌, ◌≡◌, ◌↔◌, refl, sym, Bool, true, false, ◌||◌, not, Bool-cases, inl, inr, List, [],
  ◌∷◌, map, length, All, ltb, ◌==◌, if◌then◌else◌, arith,
}
use atomarb.Common.Int.{ℤ, pos, ◌+ℤ◌, ◌-ℤ◌, ◌*ℤ◌, int_laws}
use atomarb.Accounting.{CostItem, TradingPnl, ExternalCosts, sum_amounts, in_lamports, estimated}
use atomarb.Accounting.Reconcile.{Completeness, complete, accounting_incomplete}

-- A transaction's result extends the trading result that it holds.
pub record TransactionPnl : Type 0 where
  pub trading : TradingPnl
  pub external_costs : List CostItem
  pub locked_capital : List CostItem
  pub pnl_after_external : ℤ
  pub status : Completeness
  pub incomplete_reasons : List String

unfoldable pub completeness_of : List String → Completeness
completeness_of [] = complete
completeness_of (r ∷ rs) = accounting_incomplete

unfoldable pub transaction_pnl : TradingPnl → ExternalCosts → List String → TransactionPnl
unfolding completeness_of
transaction_pnl t ext reasons = record {
  trading = t;
  external_costs = ext.costs;
  locked_capital = ext.locked;
  pnl_after_external = t.pnl -ℤ ext.total;
  status = completeness_of reasons;
  incomplete_reasons = reasons;
}

pub data PeriodStatus : Type 0 where
  not_tested incomplete period_complete : PeriodStatus

pub record OperatingPnl : Type 0 where
  pub period_start_utc : String
  pub period_end_utc : String
  pub sum_transaction_pnl : ℤ
  pub failed_attempt_costs : List CostItem
  pub infrastructure_costs : List CostItem
  pub pnl : ℤ
  pub attempts : ℕ
  pub status : PeriodStatus

unfoldable pub sum_after : List TransactionPnl → ℤ
sum_after [] = pos 0
sum_after (t ∷ ts) = t.pnl_after_external +ℤ sum_after ts

unfoldable pub is_complete : Completeness → Bool
is_complete complete = true
is_complete accounting_incomplete = false

-- `txs.some(t => t.status !== 'COMPLETE')`
unfoldable pub any_incomplete : List TransactionPnl → Bool
unfolding is_complete
any_incomplete [] = false
any_incomplete (t ∷ ts) = not (is_complete t.status) || any_incomplete ts

unfoldable pub failed_costs : ℕ → ℤ → List CostItem
failed_costs count cost =
    if ltb 0 count then in_lamports "failed_attempts" estimated (pos count *ℤ cost) ∷ [] else []

unfoldable pub operating_pnl :
    (start end : String)
    → List TransactionPnl
    → (count : ℕ) (cost : ℤ) → List CostItem
    → OperatingPnl
unfolding sum_after sum_amounts failed_costs any_incomplete
operating_pnl start end txs count cost infra =
    let failed = failed_costs count cost in
    let attempts = length txs + count in
    record {
      period_start_utc = start;
      period_end_utc = end;
      sum_transaction_pnl = sum_after txs;
      failed_attempt_costs = failed;
      infrastructure_costs = infra;
      pnl = sum_after txs -ℤ sum_amounts failed -ℤ sum_amounts infra;
      attempts = attempts;
      status =
          if attempts == 0
          then not_tested
          else if any_incomplete txs
          then incomplete
          else period_complete;
    }

-- A transaction as its parts: the trading result, the costs and the reasons.
abbrev pub Part : Type 0
Part = TradingPnl × ExternalCosts × List String

abbrev pub transaction_of : Part → TransactionPnl
transaction_of (t, ext, reasons) = transaction_pnl t ext reasons

abbrev pub traded : List Part → ℤ
traded [] = pos 0
traded ((t, ext, reasons) ∷ ps) = t.pnl +ℤ traded ps

abbrev pub charged : List Part → ℤ
charged [] = pos 0
charged ((t, ext, reasons) ∷ ps) = ext.total +ℤ charged ps

abbrev pub HaveNoReasons : List Part → Type 0
HaveNoReasons ps = All (λ p. p.2 ≡ []) ps

sum_after-map : (ps : List Part) → sum_after (map transaction_of ps) ≡ traded ps -ℤ charged ps
unfolding sum_after transaction_pnl
sum_after-map [] = omega int_laws
sum_after-map ((t, ext, reasons) ∷ ps) = rw (sum_after-map ps) (omega int_laws)

zero_times : (cost : ℤ) → pos 0 *ℤ cost ≡ pos 0
unfolding ◌*ℤ◌
zero_times cost = ground arith

sum_amounts-failed_costs :
    (count : ℕ) (cost : ℤ) → sum_amounts (failed_costs count cost) ≡ pos count *ℤ cost
unfolding sum_amounts failed_costs
sum_amounts-failed_costs count cost = elim (Bool-cases (ltb 0 count)) [
  | inl more ↦ rw more (omega int_laws)
  | inr nil ↦ let z : count ≡ 0 = ground arith in rw nil (rw z (sym (zero_times cost)))
]

period_balance : (t c f i : ℤ) → t -ℤ c -ℤ f -ℤ i +ℤ c +ℤ f +ℤ i ≡ t
period_balance t c f i = omega int_laws

any_incomplete_iff :
    (ps : List Part) → (any_incomplete (map transaction_of ps) ≡ false) ↔ HaveNoReasons ps
unfolding any_incomplete is_complete transaction_pnl completeness_of
any_incomplete_iff [] = (λ h. tt, λ h. refl)
any_incomplete_iff ((t, ext, []) ∷ ps) =
    let (f, g) = any_incomplete_iff ps in (λ h. (refl, f h), λ (_, h). g h)
any_incomplete_iff ((t, ext, (r ∷ rs)) ∷ ps) = (λ h. cc, λ (h, _). cc)

-- Over the transactions of a period, the operating result, the costs that they were charged, the
-- failed attempts and the infrastructure add up to what was traded: no cost is counted twice or lost.
-- The period is complete exactly if something was attempted and no transaction has a reason not to be.
pub operating_pnl_balanced :
    (start end : String) (ps : List Part) (count : ℕ) (cost : ℤ) (infra : List CostItem)
    → let r = operating_pnl start end (map transaction_of ps) count cost infra in
      (r.pnl +ℤ charged ps +ℤ pos count *ℤ cost +ℤ sum_amounts infra ≡ traded ps)
      × ((r.status ≡ period_complete) ↔ ((0 < r.attempts) × HaveNoReasons ps))
unfolding operating_pnl
operating_pnl_balanced start end ps count cost infra =
    let n = length (map transaction_of ps) + count in
    (
      rw (sum_after-map ps, sum_amounts-failed_costs count cost)
          (period_balance (traded ps) (charged ps) (pos count *ℤ cost) (sum_amounts infra)),
      period_status n (any_incomplete (map transaction_of ps)) (HaveNoReasons ps)
          (any_incomplete_iff ps),
    )
  where
    period_status :
        (n : ℕ) (b : Bool) (P : Type 0)
        → ((b ≡ false) ↔ P)
        → ((if n == 0 then not_tested else if b then incomplete else period_complete)
            ≡ period_complete)
          ↔ ((0 < n) × P)
    period_status n true P h = elim (Bool-cases (n == 0)) [
      | inl z ↦ rw z (λ k. cc, λ k. ground arith)
      | inr p ↦ rw p (λ k. cc, λ (_, k). let e = h.1 k in cc)
    ]
    period_status n false P h = elim (Bool-cases (n == 0)) [
      | inl z ↦ rw z (λ k. cc, λ k. ground arith)
      | inr p ↦ rw p (λ k. (ground arith, h.0 refl), λ k. refl)
    ]
