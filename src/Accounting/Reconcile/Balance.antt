-- ===== src/Accounting/Reconcile/Balance.antt =====
-- What `reconcileAttempt` of src/accounting/pnl.ts answers: when an attempt is complete.
use Prim.Native.String.{String}
use text.Mathlib.Text.{◌==◌ as str_eq}
use text.Mathlib.TextEquality.{eq_iff}
use atomarb.Common.{
  ◌≡◌, ◌↔◌, refl, sym, ap, subst, true, Bool-cases, inl, inr, Option, none, some, List, [], ◌∷◌,
  ◌++◌, All, arith,
}
use atomarb.Common.Int.{ℤ, pos, pos_part, neg_part, ◌+ℤ◌, ◌-ℤ◌, ltb_ℤ, eqb_ℤ, int_laws, eq_of_parts}
use atomarb.Accounting.{
  CostItem, sum_amounts, ExternalCostInputs, network_costs, if_positive, if_given, cost_list,
  external_costs,
}
use atomarb.Accounting.Reconcile.{
  complete, AttemptInput, is_lamports, lamport_names, native_names, has_name, named, status_of,
  all_reasons, reconcile_attempt,
}

named-All :
    (names : List String) (cs : List CostItem)
    → All (λ c. has_name names c.name ≡ true) cs
    → named names cs ≡ cs
unfolding named
named-All names [] h = refl
named-All names (c ∷ cs) (h, hs) = rw (h, named-All names cs hs) refl

more_names :
    (n : String) (names : List String) (cs : List CostItem)
    → All (λ c. has_name names c.name ≡ true) cs
    → All (λ c. has_name (n ∷ names) c.name ≡ true) cs
unfolding has_name
more_names n names [] h = tt
more_names n names (c ∷ cs) (h, hs) = (ground arith, more_names n names cs hs)

abbrev pub AreLamports : List CostItem → Type 0
AreLamports cs = All (λ c. is_lamports c.unit ≡ true) cs

lamports_named :
    (cs : List CostItem) → AreLamports cs → All (λ c. has_name (lamport_names cs) c.name ≡ true) cs
unfolding lamport_names has_name
lamports_named [] h = tt
lamports_named (c ∷ cs) (h, hs) =
    let e : str_eq c.name c.name ≡ true = (eq_iff c.name c.name).1 refl in
    let same : lamport_names (c ∷ cs) ≡ c.name ∷ lamport_names cs = rw h refl in
    let head : has_name (c.name ∷ lamport_names cs) c.name ≡ true = rw e refl in
    subst (λ names. All (λ d. has_name names d.name ≡ true) (c ∷ cs)) (sym same)
      (head, more_names c.name (lamport_names cs) cs (lamports_named cs hs))

AreLamports-append :
    (xs ys : List CostItem) → AreLamports xs → AreLamports ys → AreLamports (xs ++ ys)
AreLamports-append [] ys h k = k
AreLamports-append (x ∷ xs) ys (h, hs) k = (h, AreLamports-append xs ys hs k)

network_costs-AreLamports :
    (i : ExternalCostInputs) (o : Option ℤ) → AreLamports (network_costs i o)
unfolding network_costs is_lamports
network_costs-AreLamports i none = (refl, (refl, tt))
network_costs-AreLamports i (some fee) = (refl, tt)

if_positive-AreLamports : (n : String) (x : ℤ) → AreLamports (if_positive n x)
unfolding if_positive is_lamports
if_positive-AreLamports n x = elim (Bool-cases (ltb_ℤ (pos 0) x)) [
  | inl more ↦ rw more (refl, tt)
  | inr less ↦ rw less tt
]

if_given-AreLamports : (n : String) (o : Option ℤ) → AreLamports (if_given n o)
unfolding if_given is_lamports
if_given-AreLamports n none = tt
if_given-AreLamports n (some x) = elim (Bool-cases (eqb_ℤ x (pos 0))) [
  | inl nil ↦ rw nil tt
  | inr more ↦ rw more (refl, tt)
]

five-AreLamports :
    (a b c d e : List CostItem)
    → AreLamports a
    → AreLamports b
    → AreLamports c
    → AreLamports d
    → AreLamports e
    → AreLamports (a ++ b ++ c ++ d ++ e)
five-AreLamports a b c d e p q r s t =
    AreLamports-append (a ++ b ++ c ++ d) e
      (AreLamports-append (a ++ b ++ c) d
        (AreLamports-append (a ++ b) c (AreLamports-append a b p q) r) s)
      t

cost_list-AreLamports : (i : ExternalCostInputs) → AreLamports (cost_list i)
unfolding cost_list
cost_list-AreLamports i =
    five-AreLamports (network_costs i i.fee_for_message_lamports)
      (if_positive "jito_tip" i.jito_tip_lamports)
      (if_given "flash_loan_premium" i.flash_loan_premium_lamports)
      (if_positive "rent_non_recoverable" i.non_recoverable_rent_lamports)
      (if_given "recovery_tx_fee" i.recovery_tx_fee_lamports)
      (network_costs-AreLamports i i.fee_for_message_lamports)
      (if_positive-AreLamports "jito_tip" i.jito_tip_lamports)
      (if_given-AreLamports "flash_loan_premium" i.flash_loan_premium_lamports)
      (if_positive-AreLamports "rent_non_recoverable" i.non_recoverable_rent_lamports)
      (if_given-AreLamports "recovery_tx_fee" i.recovery_tx_fee_lamports)

eqb_zero_iff : (u : ℤ) → (eqb_ℤ u (pos 0) ≡ true) ↔ (u ≡ pos 0)
eqb_zero_iff u = (λ h. eq_of_parts u (pos 0) (ground arith), λ h. rw h refl)

status_iff :
    (rs : List String) (u : ℤ)
    → (status_of (all_reasons rs u) ≡ complete) ↔ ((rs ≡ []) × (u ≡ pos 0))
unfolding status_of all_reasons
status_iff [] u = elim (Bool-cases (eqb_ℤ u (pos 0))) [
  | inl nil ↦ rw nil (λ h. (refl, (eqb_zero_iff u).0 nil), λ h. refl)
  | inr more ↦ rw more (λ h. cc, λ (_, z). let e = (eqb_zero_iff u).1 z in cc)
]
status_iff (r ∷ rs) u = (λ h. cc, λ h. cc)

-- The input of an attempt whose costs and deposits are those of `externalCosts`.
abbrev pub attempt_of : ExternalCostInputs → (trading observed : ℤ) → AttemptInput
attempt_of x trading observed = record {
  trading_pnl = trading;
  observed_native_spend = observed;
  definitive_costs = (external_costs x).costs;
  locked_recoverable = (external_costs x).locked;
  base_asset_delta = none;
  native_lamport_delta = none;
  incomplete_reasons = [];
  native_cost_names = none;
}

left_over_iff : (o e l : ℤ) → (o -ℤ e -ℤ l ≡ pos 0) ↔ (o ≡ e +ℤ l)
left_over_iff o e l = (
  λ h. let a = ap pos_part h in let b = ap neg_part h in omega int_laws,
  λ h. rw h (omega int_laws),
)

-- An attempt with the costs and deposits of `externalCosts`, and no reason given, is complete exactly
-- if the wallet lost the total of the costs and what is locked: no cost is lost to the match by names.
pub reconcile-external_costs_iff :
    (x : ExternalCostInputs) (trading observed : ℤ)
    → ((reconcile_attempt (attempt_of x trading observed)).status ≡ complete)
      ↔ (observed ≡ (external_costs x).total +ℤ sum_amounts (external_costs x).locked)
unfolding reconcile_attempt native_names external_costs
reconcile-external_costs_iff x trading observed =
    let cs = cost_list x in
    let l = sum_amounts (if_positive "rent_locked_recoverable" x.recoverable_rent_lamports) in
    let keep = named-All (lamport_names cs) cs (lamports_named cs (cost_list-AreLamports x)) in
    let u = observed -ℤ sum_amounts cs -ℤ l in
    let s = status_iff [] u in
    let o = left_over_iff observed (sum_amounts cs) l in
    rw keep (λ h. o.0 (s.0 h).1, λ h. s.1 (refl, o.1 h))
