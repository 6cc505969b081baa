-- ===== src/Accounting/Costs.antt =====
-- `externalCosts` of src/accounting/pnl.ts: what is deducted, and what is only locked.
use Prim.Native.String.{String}
use atomarb.Common.{
  ◌≡◌, refl, sym, ◌∙◌, Bool-cases, inl, inr, Option, none, some, List, [], ◌∷◌, ◌++◌, arith,
}
use atomarb.Common.Int.{ℤ, pos, ◌+ℤ◌, ◌*ℤ◌, ◌≤ℤ◌, ltb_ℤ, eqb_ℤ, int_laws, eq_of_parts, ltb_ℤ→ge}
use atomarb.Accounting.{
  CostItem, ExternalCostInputs, sum_amounts, priority_fee, network_costs, if_positive, if_given,
  cost_list, external_costs,
}

pub sum_amounts-append :
    (xs ys : List CostItem) → sum_amounts (xs ++ ys) ≡ sum_amounts xs +ℤ sum_amounts ys
unfolding sum_amounts
sum_amounts-append [] ys = omega int_laws
sum_amounts-append (x ∷ xs) ys = rw (sum_amounts-append xs ys) (omega int_laws)

sum_amounts-if_positive :
    (name : String) (x : ℤ) → pos 0 ≤ℤ x → sum_amounts (if_positive name x) ≡ x
unfolding sum_amounts if_positive
sum_amounts-if_positive name x h = elim (Bool-cases (ltb_ℤ (pos 0) x)) [
  | inl more ↦ rw more (omega int_laws)
  | inr not_more ↦ rw not_more (omega (int_laws, eq_of_parts, ltb_ℤ→ge (pos 0) x not_more))
]

abbrev pub or_nothing : Option ℤ → ℤ
or_nothing none = pos 0
or_nothing (some x) = x

sum_amounts-if_given : (name : String) (o : Option ℤ) → sum_amounts (if_given name o) ≡ or_nothing o
unfolding sum_amounts if_given
sum_amounts-if_given name none = refl
sum_amounts-if_given name (some x) = elim (Bool-cases (eqb_ℤ x (pos 0))) [
  | inl nil ↦ rw nil (sym (eq_of_parts x (pos 0) (ground arith)))
  | inr more ↦ rw more (omega int_laws)
]

-- The network's part: the observed fee of the message if there is one, and else the estimate.
abbrev pub network_fee : ExternalCostInputs → Option ℤ → ℤ
network_fee i (some fee) = fee
network_fee i none =
    i.base_fee_lamports *ℤ pos i.signatures
    +ℤ pos (priority_fee i.compute_unit_limit i.compute_unit_price_micro_lamports)

sum_amounts-network_costs :
    (i : ExternalCostInputs) (o : Option ℤ) → sum_amounts (network_costs i o) ≡ network_fee i o
unfolding sum_amounts network_costs
sum_amounts-network_costs i none = omega int_laws
sum_amounts-network_costs i (some fee) = omega int_laws

five :
    (n t p r c : List CostItem)
    → sum_amounts (n ++ t ++ p ++ r ++ c)
      ≡ sum_amounts n +ℤ sum_amounts t +ℤ sum_amounts p +ℤ sum_amounts r +ℤ sum_amounts c
five n t p r c =
    rw
      (
        sum_amounts-append (n ++ t ++ p ++ r) c,
        sum_amounts-append (n ++ t ++ p) r,
        sum_amounts-append (n ++ t) p,
        sum_amounts-append n t,
      )
      refl

-- For a tip and rents that are not negative, the total that is deducted counts every cost once: the
-- network's fee, observed or estimated but never both, the tip, the premium, the rent that is lost and
-- the fee of the recovery. The recoverable rent is in no cost; it is all that is locked.
pub external_costs-total :
    (i : ExternalCostInputs)
    → pos 0 ≤ℤ i.jito_tip_lamports
    → pos 0 ≤ℤ i.non_recoverable_rent_lamports
    → pos 0 ≤ℤ i.recoverable_rent_lamports
    → ((external_costs i).total
        ≡ network_fee i i.fee_for_message_lamports
          +ℤ i.jito_tip_lamports
          +ℤ or_nothing i.flash_loan_premium_lamports
          +ℤ i.non_recoverable_rent_lamports
          +ℤ or_nothing i.recovery_tx_fee_lamports)
      × (sum_amounts (external_costs i).costs ≡ (external_costs i).total)
      × (sum_amounts (external_costs i).locked ≡ i.recoverable_rent_lamports)
unfolding external_costs cost_list
external_costs-total i h k l =
    let n = network_costs i i.fee_for_message_lamports in
    let t = if_positive "jito_tip" i.jito_tip_lamports in
    let p = if_given "flash_loan_premium" i.flash_loan_premium_lamports in
    let r = if_positive "rent_non_recoverable" i.non_recoverable_rent_lamports in
    let c = if_given "recovery_tx_fee" i.recovery_tx_fee_lamports in
    (
      five n t p r c
          ∙ rw
              (
                sum_amounts-network_costs i i.fee_for_message_lamports,
                sum_amounts-if_positive "jito_tip" i.jito_tip_lamports h,
                sum_amounts-if_given "flash_loan_premium" i.flash_loan_premium_lamports,
                sum_amounts-if_positive "rent_non_recoverable" i.non_recoverable_rent_lamports k,
                sum_amounts-if_given "recovery_tx_fee" i.recovery_tx_fee_lamports,
              )
              refl,
      refl,
      sum_amounts-if_positive "rent_locked_recoverable" i.recoverable_rent_lamports l,
    )
