-- ===== src/Accounting/Reconcile.antt =====
-- `reconcileAttempt` of src/accounting/pnl.ts.
pub mod Balance
use Prim.Native.String.{String}
use text.Mathlib.Text.{◌==◌ as str_eq}
use text.Mathlib.TextEquality.{eq_iff}
use atomarb.Common.{
  ℕ, ◌+◌, ◌≡◌, ◌↔◌, refl, sym, ap, ◌∙◌, Bool, true, false, ◌||◌, Bool-cases, inl, inr, Option, none,
  some, List, [], ◌∷◌, ◌++◌, map, All, if◌then◌else◌, arith,
}
use atomarb.Common.Int.{ℤ, pos, pos_part, neg_part, ◌+ℤ◌, ◌-ℤ◌, ◌≤ℤ◌, eqb_ℤ, int_laws, eq_of_parts}
use atomarb.Accounting.{
  CostItem, CostUnit, lamports, token_raw, bps, sum_amounts, ExternalCostInputs, network_costs,
  if_positive, if_given, cost_list, external_costs, in_lamports,
}

-- A reason that the caller gives, or the one that is added.
pub data IncompleteReason : Type 0 where
  given : String → IncompleteReason
  native_spend_unexplained : (unexplained : ℤ) → IncompleteReason

pub data Completeness : Type 0 where
  complete accounting_incomplete : Completeness

pub record AttemptInput : Type 0 where
  pub trading_pnl : ℤ
  pub observed_native_spend : ℤ
  pub definitive_costs : List CostItem
  pub locked_recoverable : List CostItem
  pub base_asset_delta : Option ℤ
  pub native_lamport_delta : Option ℤ
  pub incomplete_reasons : List String
  pub native_cost_names : Option (List String)

pub record AttemptAccounting : Type 0 where
  pub trading_pnl : ℤ
  pub definitive_costs : List CostItem
  pub definitive_total : ℤ
  pub locked_recoverable : List CostItem
  pub locked_total : ℤ
  pub net_after_definitive_costs : ℤ
  pub liquid_wallet_delta : ℤ
  pub observed_native_spend : ℤ
  pub explained_by_costs : ℤ
  pub explained_by_locked : ℤ
  pub unexplained : ℤ
  pub is_ok : Bool
  pub status : Completeness
  pub incomplete_reasons : List IncompleteReason

unfoldable pub is_lamports : CostUnit → Bool
is_lamports lamports = true
is_lamports token_raw = false
is_lamports bps = false

-- `filter(c => c.unit === 'lamports').map(c => c.name)`
unfoldable pub lamport_names : List CostItem → List String
unfolding is_lamports
lamport_names [] = []
lamport_names (c ∷ cs) = if is_lamports c.unit then c.name ∷ lamport_names cs else lamport_names cs

unfoldable pub native_names : AttemptInput → Option (List String) → List String
unfolding lamport_names
native_names i none = lamport_names i.definitive_costs
native_names i (some names) = names

-- `Set.has`
unfoldable pub has_name : List String → String → Bool
has_name [] n = false
has_name (m ∷ ms) n = str_eq m n || has_name ms n

-- The costs whose names are in the set.
unfoldable pub named : List String → List CostItem → List CostItem
unfolding has_name
named names [] = []
named names (c ∷ cs) = if has_name names c.name then c ∷ named names cs else named names cs

unfoldable pub status_of : List IncompleteReason → Completeness
status_of [] = complete
status_of (r ∷ rs) = accounting_incomplete

abbrev pub or_default : Option ℤ → ℤ → ℤ
or_default none d = d
or_default (some x) d = x

-- `if (unexplained !== 0n) incompleteReasons.push(…)`
unfoldable pub all_reasons : List String → ℤ → List IncompleteReason
all_reasons rs unexplained =
    map given rs
    ++ (if eqb_ℤ unexplained (pos 0) then [] else native_spend_unexplained unexplained ∷ [])

unfoldable pub reconcile_attempt : AttemptInput → AttemptAccounting
unfolding sum_amounts native_names named all_reasons status_of
reconcile_attempt i =
    let definitive_total = sum_amounts i.definitive_costs in
    let locked_total = sum_amounts i.locked_recoverable in
    let explained = sum_amounts (named (native_names i i.native_cost_names) i.definitive_costs) in
    let unexplained = i.observed_native_spend -ℤ explained -ℤ locked_total in
    let reasons = all_reasons i.incomplete_reasons unexplained in
    record {
      trading_pnl = i.trading_pnl;
      definitive_costs = i.definitive_costs;
      definitive_total = definitive_total;
      locked_recoverable = i.locked_recoverable;
      locked_total = locked_total;
      net_after_definitive_costs = i.trading_pnl -ℤ definitive_total;
      liquid_wallet_delta =
          or_default i.base_asset_delta i.trading_pnl
          +ℤ or_default i.native_lamport_delta (pos 0 -ℤ i.observed_native_spend);
      observed_native_spend = i.observed_native_spend;
      explained_by_costs = explained;
      explained_by_locked = locked_total;
      unexplained = unexplained;
      is_ok = eqb_ℤ unexplained (pos 0);
      status = status_of reasons;
      incomplete_reasons = reasons;
    }
