-- ===== src/Capital/Budget.antt =====
-- `frac`, `budget` and `capacityFor` of src/accounting/capital.ts.
use atomarb.Common.{Option, none, some, if◌then◌else◌}
use atomarb.Common.Int.{ℤ, pos, ◌-ℤ◌, ◌*ℤ◌, div_trunc, ltb_ℤ}
use atomarb.Capital.Types.{Ledger}

unfoldable pub frac : ℤ → ℤ → ℤ
frac capital x = div_trunc (capital *ℤ x) 1_000_000

abbrev pub min_ℤ : ℤ → ℤ → ℤ
min_ℤ x y = if ltb_ℤ y x then y else x

abbrev pub or_zero : ℤ → ℤ
or_zero m = if ltb_ℤ (pos 0) m then m else pos 0

-- The three limits that `budget` takes the least of.
unfoldable pub episode_room : Ledger → ℤ
episode_room l = frac l.capital l.cfg.max_episode_frac

unfoldable pub aggregate_room : Ledger → ℤ
aggregate_room l = frac l.capital l.cfg.max_aggregate_open_frac -ℤ l.locked_amount

unfoldable pub reserve_room : Ledger → ℤ
reserve_room l = l.capital -ℤ frac l.capital l.cfg.reserve_frac -ℤ l.locked_amount

unfoldable pub budget : Ledger → ℤ
unfolding episode_room aggregate_room reserve_room
budget l = or_zero (min_ℤ (min_ℤ (episode_room l) (aggregate_room l)) (reserve_room l))

abbrev pub deposit_or_zero : Option ℤ → ℤ
deposit_or_zero none = pos 0
deposit_or_zero (some d) = d

unfoldable pub capacity_for : Ledger → ℤ → Option ℤ → ℤ
capacity_for l fee_budget deposit = or_zero (budget l -ℤ fee_budget -ℤ deposit_or_zero deposit)

-- `realisedNet`
unfoldable pub realised_net : Ledger → ℤ
realised_net l = l.capital -ℤ l.initial
