-- ===== src/Accounting.antt =====
-- Profit and loss, src/accounting/pnl.ts, over the types of src/accounting/types.ts. The texts of
-- notes and sources are left out. A landing rate is a whole number of millionths, as
-- `Math.round(r * 1e6)` makes it.
pub mod Costs
pub mod Scenarios
pub mod Reconcile
pub mod Period
pub mod Tests
use Prim.Native.String.{String}
use text.Mathlib.Text.{◌==◌ as str_eq}
use atomarb.Common.{
  ℕ, ◌+◌, ◌-◌, ◌*◌, ◌/◌, Bool, true, false, ◌||◌, not, Option, none, some, List, [], ◌∷◌, ◌++◌, map,
  length, Result, ok, err, throw, circuit_mismatch, leg_mismatch, ◌>>=◌, ◌>>◌, exit_if, ltb, ◌==◌,
  if◌then◌else◌,
}
use atomarb.Common.Int.{ℤ, pos, pos_part, ◌+ℤ◌, ◌-ℤ◌, ◌*ℤ◌, div_trunc, ltb_ℤ, leb_ℤ, eqb_ℤ}
use atomarb.Raydium.Layout.{PublicKey}
use atomarb.Adapter.{FeeItem, Quote}

pub data CostStatus : Type 0 where
  included_in_quote estimated observed : CostStatus

pub data CostUnit : Type 0 where
  lamports token_raw bps : CostUnit

pub record CostItem : Type 0 where
  pub name : String
  pub unit : CostUnit
  pub amount : ℤ
  pub mint : Option PublicKey
  pub status : CostStatus

pub record TradingPnl : Type 0 where
  pub base_mint : PublicKey
  pub amount_in : ℤ
  pub amount_out : ℤ
  pub pnl : ℤ
  pub fees_inside_quotes : List CostItem

unfoldable pub inside_quote : FeeItem → CostItem
inside_quote f = record {
  name = f.name;
  unit = token_raw;
  amount = f.amount;
  mint = some f.mint;
  status = included_in_quote;
}

unfoldable pub trading_pnl : PublicKey → Quote → Quote → Result TradingPnl
unfolding inside_quote
trading_pnl base leg_a leg_b = do
  exit_if (not (leg_a.input_mint == base) || not (leg_b.output_mint == base))
      (throw circuit_mismatch)
  exit_if (not (eqb_ℤ leg_b.amount_in leg_a.amount_out_to_user)) (throw leg_mismatch)
  ok (record {
    base_mint = base;
    amount_in = leg_a.amount_in;
    amount_out = leg_b.amount_out_to_user;
    pnl = leg_b.amount_out_to_user -ℤ leg_a.amount_in;
    fees_inside_quotes = map inside_quote (leg_a.fees ++ leg_b.fees);
  })

pub record ExternalCostInputs : Type 0 where
  pub base_fee_lamports : ℤ
  pub signatures : ℕ
  pub compute_unit_limit : ℕ
  pub compute_unit_price_micro_lamports : ℕ
  pub fee_for_message_lamports : Option ℤ
  pub jito_tip_lamports : ℤ
  pub flash_loan_premium_lamports : Option ℤ
  pub non_recoverable_rent_lamports : ℤ
  pub recoverable_rent_lamports : ℤ
  pub recovery_tx_fee_lamports : Option ℤ

abbrev pub in_lamports : String → CostStatus → ℤ → CostItem
in_lamports name status amount = record {
  name = name;
  unit = lamports;
  amount = amount;
  mint = none;
  status = status;
}

-- `reduce((s, c) => s + c.amount, 0n)`
unfoldable pub sum_amounts : List CostItem → ℤ
sum_amounts [] = pos 0
sum_amounts (c ∷ cs) = c.amount +ℤ sum_amounts cs

-- The rounded-up price of the compute units.
unfoldable pub priority_fee : ℕ → ℕ → ℕ
priority_fee limit price = (limit * price + 999_999) / 1_000_000

unfoldable pub network_costs : ExternalCostInputs → Option ℤ → List CostItem
unfolding priority_fee
network_costs i (some fee) = in_lamports "network_fee_total" observed fee ∷ []
network_costs i none =
    in_lamports "base_fee" estimated (i.base_fee_lamports *ℤ pos i.signatures)
    ∷ in_lamports "priority_fee" estimated
        (pos (priority_fee i.compute_unit_limit i.compute_unit_price_micro_lamports))
    ∷ []

-- `if (x > 0n) costs.push(…)`, and `if (x) costs.push(…)` for an amount that may be missing.
unfoldable pub if_positive : String → ℤ → List CostItem
if_positive name x = if ltb_ℤ (pos 0) x then in_lamports name estimated x ∷ [] else []

unfoldable pub if_given : String → Option ℤ → List CostItem
if_given name none = []
if_given name (some x) = if eqb_ℤ x (pos 0) then [] else in_lamports name estimated x ∷ []

pub record ExternalCosts : Type 0 where
  pub costs : List CostItem
  pub locked : List CostItem
  pub total : ℤ

unfoldable pub cost_list : ExternalCostInputs → List CostItem
unfolding network_costs if_positive if_given
cost_list i =
    network_costs i i.fee_for_message_lamports
    ++ if_positive "jito_tip" i.jito_tip_lamports
    ++ if_given "flash_loan_premium" i.flash_loan_premium_lamports
    ++ if_positive "rent_non_recoverable" i.non_recoverable_rent_lamports
    ++ if_given "recovery_tx_fee" i.recovery_tx_fee_lamports

unfoldable pub external_costs : ExternalCostInputs → ExternalCosts
unfolding cost_list if_positive sum_amounts
external_costs i = record {
  costs = cost_list i;
  locked = if_positive "rent_locked_recoverable" i.recoverable_rent_lamports;
  total = sum_amounts (cost_list i);
}
