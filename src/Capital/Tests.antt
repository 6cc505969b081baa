-- ===== src/Capital/Tests.antt =====
-- A ledger of 10 SOL in hypothetical mode, and the theorems of the Capital modules at its calls.
use atomarb.Common.{◌≡◌, ◌↔◌, refl, none, some, [], ◌∷◌, ok, if◌then◌else◌, arith}
use atomarb.Common.Int.{pos, ◌+ℤ◌, ◌-ℤ◌, ◌*ℤ◌, ◌≤ℤ◌, div_trunc}
use atomarb.Capital.Types.{
  CapitalConfig, SettleOutcome, filled, Ledger, create, new_ledger, fractions_bad, granted, need_of,
}
use atomarb.Capital.Budget.{
  frac, budget, realised_net, episode_room, aggregate_room, reserve_room, capacity_for,
}
use atomarb.Capital.Reserve.{
  Request, includes, has_id, find_clash, is_clash, conflict, need, over_limit, bad_sign, blocked,
  refusal, position_of, grant, reject, reserve_by, reserve,
}
use atomarb.Capital.Reserve.Grants.{reserve-capacity_for_iff}
use atomarb.Capital.Reserve.Sound.{AreNamed, reserve-IsSound}
use atomarb.Capital.Reserve.Undo.{reserve-settle}
use atomarb.Capital.Settle.{
  find_position, delete_position, is_hypothetical, count_status, realised, settled_stats,
  settled_capital, settled_ledger, settle_position, settle,
}
use atomarb.Capital.Settle.Invariant.{IsSound}
use atomarb.Capital.Settle.Sound.{settle-IsSound}
use atomarb.Capital.Settle.Trace.{reserving, settling, Reach, created, called, Reach-IsSound}
use atomarb.Capital.Settle.Journal.{gain_of, fee_of, sum_over, Reach-journal_lem}
use atomarb.Capital.Settle.Hypothetical.{Reach-hypothetical_lem}

abbrev config : CapitalConfig
config = record {
  capital_lamports = pos 10_000_000_000;
  max_episode_frac = pos 250_000;
  max_aggregate_open_frac = pos 500_000;
  reserve_frac = pos 100_000;
  max_concurrent = 3;
  hypothetical = none;
}

abbrev first : Request
first = record {
  id = "a";
  amount_in = pos 1_000_000_000;
  fee_budget = pos 5_000;
  deposit_lamports = some (pos 2_039_280);
  pools = "P" ∷ "Q" ∷ [];
  mint = "M";
  utc = "t0";
}

abbrev second : Request
second = record first { id = "b"; pools = "R" ∷ []; mint = "N"; deposit_lamports = none }

abbrev outcome : SettleOutcome
outcome = record {
  id = "a";
  realised_pnl = pos 70_000;
  fee_paid = pos 5_000;
  status = filled;
  utc = "t1";
}

-- What a test computes through.
capital : Unit {0}
unfolding create new_ledger fractions_bad frac budget episode_room aggregate_room reserve_room
    capacity_for includes has_id find_clash is_clash conflict need over_limit bad_sign blocked
    refusal position_of grant reject reserve_by reserve find_position delete_position
    is_hypothetical count_status realised settled_stats settled_capital settled_ledger
    settle_position settle ◌+ℤ◌ ◌-ℤ◌ ◌*ℤ◌ div_trunc
capital = tt

started : Reach config (new_ledger config)
unfolding capital
started = created (new_ledger config) refl

first_named : AreNamed first.pools
first_named = (refl, (refl, tt))

opened : Reach config (reserve (new_ledger config) first).0
opened =
    called (new_ledger config) (reserve (new_ledger config) first).0 started
      (reserving (new_ledger config) first first_named)

first_granted : (reserve (new_ledger config) first).1 ≡ granted (position_of first)
unfolding capital
first_granted = refl

reserve-capacity_for_iff_example :
    ((reserve (reserve (new_ledger config) first).0 second).1 ≡ granted (position_of second))
    ↔ (pos 1_000_000_000 ≤ℤ capacity_for (reserve (new_ledger config) first).0 (pos 5_000) none)
unfolding capital
reserve-capacity_for_iff_example =
    reserve-capacity_for_iff (reserve (new_ledger config) first).0 second refl

reserve-IsSound_example : IsSound (reserve (new_ledger config) first).0
reserve-IsSound_example =
    reserve-IsSound (new_ledger config) first (Reach-IsSound config (new_ledger config) started)
      first_named

settle-IsSound_example :
    let l = (reserve (new_ledger config) first).0 in
    let l' = settled_ledger l outcome (position_of first) in
    (settle l outcome ≡ ok l')
    × IsSound l'
    × (l'.pending ≡ delete_position l.pending "a")
    × (l'.locked_amount ≡ l.locked_amount -ℤ need_of (position_of first))
    × (l'.capital ≡ (
        if is_hypothetical l.cfg.hypothetical
        then l.capital
        else l.capital +ℤ (pos 70_000 -ℤ pos 5_000)))
unfolding capital
settle-IsSound_example =
    settle-IsSound (reserve (new_ledger config) first).0 outcome (position_of first)
      reserve-IsSound_example refl

reserve-settle_example :
    let next = settled_ledger (reserve (new_ledger config) first).0 outcome (position_of first) in
    (settle (reserve (new_ledger config) first).0 outcome ≡ ok next)
    × (next.pending ≡ (new_ledger config).pending)
    × (next.locked_amount ≡ (new_ledger config).locked_amount)
reserve-settle_example =
    reserve-settle (new_ledger config) first outcome
      (Reach-IsSound config (new_ledger config) started) first_named first_granted refl

Reach-IsSound_example : IsSound (reserve (new_ledger config) first).0
Reach-IsSound_example = Reach-IsSound config (reserve (new_ledger config) first).0 opened

Reach-hypothetical_lem_example :
    let l = (reserve (new_ledger config) first).0 in
    (l.capital ≡ config.capital_lamports)
    × (pos 0 ≤ℤ l.locked_amount)
    × (l.locked_amount ≤ℤ frac config.capital_lamports config.max_aggregate_open_frac)
    × (l.locked_amount
        ≤ℤ config.capital_lamports -ℤ frac config.capital_lamports config.reserve_frac)
unfolding is_hypothetical
Reach-hypothetical_lem_example =
    Reach-hypothetical_lem config (reserve (new_ledger config) first).0 refl (omega arith) opened

abbrev after : Ledger
unfolding settled_ledger reserve
after = settled_ledger (reserve (new_ledger config) first).0 outcome (position_of first)

settled_Reach : Reach config after
unfolding settled_ledger reserve
settled_Reach =
    called (reserve (new_ledger config) first).0 after opened
      (settling (reserve (new_ledger config) first).0 after outcome settle-IsSound_example.0)

Reach-journal_lem_example :
    (realised_net after ≡ sum_over gain_of after.journal)
    × (after.stats.fees_paid ≡ sum_over fee_of after.journal)
Reach-journal_lem_example = Reach-journal_lem config after settled_Reach
