-- ===== src/Capital/Reserve.antt =====
-- `reserve` and `reject` of src/accounting/capital.ts.
pub mod Grants
pub mod Sound
pub mod Undo
use Prim.Native.String.{String}
use text.Mathlib.Text.{◌==◌ as str_eq}
use atomarb.Common.{
  ℕ, suc, ◌+◌, Bool, true, false, ◌||◌, not, Option, none, some, List, [], ◌∷◌, ◌++◌, length, leb,
  if◌then◌else◌,
}
use atomarb.Common.Int.{ℤ, pos, ◌+ℤ◌, ◌-ℤ◌, ltb_ℤ, leb_ℤ}
use atomarb.Capital.Types.{
  PendingPosition, RejectCode, episode_cap, aggregate_cap, reserve_floor, concurrency,
  pool_conflict, mint_conflict, duplicate_id, non_positive, ReserveResult, granted, rejected,
  reserve_entry, reject_entry, Ledger, need_of,
}
use atomarb.Capital.Budget.{frac, budget, deposit_or_zero}

-- The argument of `reserve`.
pub record Request : Type 0 where
  pub id : String
  pub amount_in : ℤ
  pub fee_budget : ℤ
  pub deposit_lamports : Option ℤ
  pub pools : List String
  pub mint : String
  pub utc : String

-- `Array.includes` and `Map.has`
unfoldable pub includes : List String → String → Bool
includes [] x = false
includes (y ∷ ys) x = str_eq y x || includes ys x

unfoldable pub has_id : List PendingPosition → String → Bool
has_id [] id = false
has_id (q ∷ qs) id = str_eq q.id id || has_id qs id

-- `q.pools.find(x => p.pools.includes(x))`
unfoldable pub find_clash : List String → List String → Option String
find_clash [] mine = none
find_clash (x ∷ xs) mine = if includes mine x then some x else find_clash xs mine

-- `if (clash)`: the empty string counts as none.
unfoldable pub is_clash : Option String → Bool
is_clash none = false
is_clash (some x) = not (str_eq x "")

-- The loop over the pending positions.
unfoldable pub conflict : Request → List PendingPosition → Option RejectCode
unfolding find_clash is_clash
conflict p [] = none
conflict p (q ∷ qs) =
    if is_clash (find_clash q.pools p.pools)
    then some pool_conflict
    else if str_eq q.mint p.mint
    then some mint_conflict
    else conflict p qs

unfoldable pub need : Request → ℤ
need p = p.amount_in +ℤ p.fee_budget +ℤ deposit_or_zero p.deposit_lamports

-- The last three checks.
unfoldable pub over_limit : Ledger → ℤ → Option RejectCode
over_limit l n =
    if ltb_ℤ (frac l.capital l.cfg.max_episode_frac) n
    then some episode_cap
    else if ltb_ℤ (frac l.capital l.cfg.max_aggregate_open_frac) (l.locked_amount +ℤ n)
    then some aggregate_cap
    else if ltb_ℤ (l.capital -ℤ frac l.capital l.cfg.reserve_frac) (l.locked_amount +ℤ n)
    then some reserve_floor
    else none

-- `if (…) return …`, before the checks that follow.
abbrev pub or_else : Option RejectCode → Option RejectCode → Option RejectCode
or_else none next = next
or_else (some c) next = some c

unfoldable pub bad_sign : Request → Bool
bad_sign p =
    leb_ℤ p.amount_in (pos 0)
    || ltb_ℤ p.fee_budget (pos 0)
    || ltb_ℤ (deposit_or_zero p.deposit_lamports) (pos 0)

-- The checks before the limits, in order.
unfoldable pub blocked : Ledger → Request → Option RejectCode
unfolding has_id conflict bad_sign
blocked l p =
    if bad_sign p
    then some non_positive
    else if has_id l.pending p.id
    then some duplicate_id
    else if leb l.cfg.max_concurrent (length l.pending)
    then some concurrency
    else conflict p l.pending

-- The code of the first check that fires.
unfoldable pub refusal : Ledger → Request → Option RejectCode
unfolding need over_limit blocked
refusal l p = or_else (blocked l p) (over_limit l (need p))

unfoldable pub position_of : Request → PendingPosition
position_of p = record {
  id = p.id;
  amount_in = p.amount_in;
  fee_budget = p.fee_budget;
  deposit_lamports = deposit_or_zero p.deposit_lamports;
  pools = p.pools;
  mint = p.mint;
  opened_utc = p.utc;
}

unfoldable pub grant : Ledger → Request → Ledger
unfolding position_of need
grant l p =
    let locked = l.locked_amount +ℤ need p in
    record l {
      pending = l.pending ++ position_of p ∷ [];
      locked_amount = locked;
      stats = record (l.stats) { reserved = suc l.stats.reserved };
      journal = l.journal ++ reserve_entry (position_of p) locked l.capital ∷ [];
    }

unfoldable pub reject : Ledger → RejectCode → ℤ → Ledger
reject l code budget = record l {
  stats = record (l.stats) { rejected = suc l.stats.rejected };
  journal = l.journal ++ reject_entry code budget ∷ [];
}

-- `reserve`, on the first check that fires.
unfoldable pub reserve_by : Option RejectCode → Ledger → Request → Ledger × ReserveResult
unfolding grant reject
reserve_by none l p = (grant l p, granted (position_of p))
reserve_by (some code) l p = (reject l code (budget l), rejected code (budget l))

unfoldable pub reserve : Ledger → Request → Ledger × ReserveResult
unfolding reserve_by refusal
reserve l p = reserve_by (refusal l p) l p
