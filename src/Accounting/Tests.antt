-- ===== src/Accounting/Tests.antt =====
-- An attempt with every kind of cost, and the theorems of the Accounting modules at it.
use atomarb.Common.{ℕ, ◌+◌, ◌<◌, ◌≡◌, ◌↔◌, none, some, List, [], ◌∷◌, arith}
use atomarb.Common.Int.{pos, ◌+ℤ◌, ◌-ℤ◌, ◌*ℤ◌, ◌≤ℤ◌, div_trunc}
use atomarb.Accounting.{
  TradingPnl, ExternalCostInputs, CostItem, sum_amounts, external_costs, in_lamports, estimated,
}
use atomarb.Accounting.Scenarios.{
  scaled, attempts, failure_scenario, break_even_landing_rate,
  break_even_landing_rate-failure_scenario,
}
use atomarb.Accounting.Reconcile.{complete, reconcile_attempt}
use atomarb.Accounting.Reconcile.Balance.{attempt_of, reconcile-external_costs_iff}
use atomarb.Accounting.Period.{Part}

-- What a test computes through.
accounting : Unit {0}
unfolding scaled attempts failure_scenario break_even_landing_rate ◌+ℤ◌ ◌-ℤ◌ ◌*ℤ◌ div_trunc
accounting = tt

abbrev inputs : ExternalCostInputs
inputs = record {
  base_fee_lamports = pos 5_000;
  signatures = 1;
  compute_unit_limit = 200_000;
  compute_unit_price_micro_lamports = 1_000;
  fee_for_message_lamports = none;
  jito_tip_lamports = pos 1_000;
  flash_loan_premium_lamports = none;
  non_recoverable_rent_lamports = pos 0;
  recoverable_rent_lamports = pos 2_039_280;
  recovery_tx_fee_lamports = some (pos 5_000);
}

break_even_landing_rate-failure_scenario_example :
    (b : ℕ) × (break_even_landing_rate (pos 30_000) (pos 11_200) ≡ some (pos b))
    × (b < 1_000_000)
    × ((failure_scenario (pos 30_000) (pos 11_200) b).expected_net_per_attempt ≤ℤ pos 0)
    × (pos 0 ≤ℤ (failure_scenario (pos 30_000) (pos 11_200) (b + 1)).expected_net_per_attempt)
break_even_landing_rate-failure_scenario_example =
    break_even_landing_rate-failure_scenario 30_000 11_200 (omega arith)

reconcile-external_costs_iff_example :
    ((reconcile_attempt (attempt_of inputs (pos 30_000) (pos 2_050_480))).status ≡ complete)
    ↔ (pos 2_050_480 ≡ (external_costs inputs).total +ℤ sum_amounts (external_costs inputs).locked)
reconcile-external_costs_iff_example =
    reconcile-external_costs_iff inputs (pos 30_000) (pos 2_050_480)

abbrev trade : TradingPnl
trade = record {
  base_mint = 10;
  amount_in = pos 1_000_000;
  amount_out = pos 1_030_000;
  pnl = pos 30_000;
  fees_inside_quotes = [];
}

abbrev parts : List Part
parts = (trade, external_costs inputs, []) ∷ (trade, external_costs inputs, []) ∷ []

abbrev server : List CostItem
server = in_lamports "server" estimated (pos 10_000) ∷ []
