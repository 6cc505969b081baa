-- ===== src/Pumpswap/Adapter/Budget.antt =====
-- `spendableBudgetFor` of src/adapters/pumpswap/adapter.ts against the quote that it has to reproduce.
use atomarb.Common.{
  ◌∙◌, List, ℕ, ◌+◌, ◌≤◌, ◌<◌, ◌≡◌, ◌⊎◌, refl, true, Bool-cases, inl, inr, [], ◌∷◌, Result, ok, err,
  null, fail, throw, OnlyFails, arith, subst, sym, ap,
}
use atomarb.Common.Int.{
  negsuc, ℤ, pos, pos_part, neg_part, ◌+ℤ◌, ◌≤ℤ◌, ◌<ℤ◌, leb_ℤ, int_laws, eq_of_parts, leb_ℤ→gt,
  leb_ℤ→le,
}
use atomarb.Pumpswap.Math.{
  PoolMathState, FeeBps, sum_of, BuyQuoteResult, corrected, total_fee_bps, floor_quote_of,
  buy_quote_input,
}
use atomarb.Pumpswap.Math.Spend.{IsSpent, buy_quote_input-IsSpent}
use atomarb.Pumpswap.Adapter.Quote.{debits_within, first_within, budget_for}
use atomarb.Pumpswap.Math.Growth.{
  buy_quote_input-OnlyFails, buy_quote_input-effective, corrected_le, uncorrected,
  floor_quote_of_mono, still_allowed,
}

-- A budget that reproduces a quote: it is the amount of the quote or one unit more, its debit is at
-- most that of the quote, and it buys at least as much.
pub record IsReproduced (s : PoolMathState) (fees : FeeBps) (r : BuyQuoteResult) (b : ℤ)
    (again : BuyQuoteResult) : Type 0 where
  pub near : (b ≡ r.total_with_fees) ⊎ (b ≡ r.total_with_fees +ℤ pos 1)
  pub repeated : buy_quote_input s fees b ≡ ok again
  pub debit : again.total_with_fees ≤ℤ r.total_with_fees
  pub bought : r.base_out ≤ again.base_out

neg_of : (a : ℤ) → pos 0 <ℤ a → neg_part a ≡ 0
neg_of (pos n) h = refl
neg_of (negsuc n) h = absurd (omega arith)

one_more : (a : ℤ) (q : ℕ) → a ≡ pos q → pos (q + 1) ≡ a +ℤ pos 1
one_more a q e = rw e (omega int_laws)

-- A budget of one unit more, of which nothing more is taken, buys no less.
bought_more :
    (s : PoolMathState) (fees : FeeBps) (q : ℕ) (r more : BuyQuoteResult)
    → IsSpent s fees q r
    → IsSpent s fees (q + 1) more
    → r.effective_quote ≤ℤ more.effective_quote
    → r.base_out ≤ more.base_out
bought_more s fees q r more spent spent_more h =
    let same : more.eff_q ≡ r.eff_q =
      omega (arith, spent.effective.value, spent_more.effective.value) in
    let further : pos_part r.curve_input ≤ pos_part more.curve_input = omega (
      int_laws,
      h,
      ap pos_part spent.curve,
      ap neg_part spent.curve,
      ap pos_part spent_more.curve,
      ap neg_part spent_more.curve,
      neg_of r.curve_input spent.curve_pos,
      neg_of more.curve_input spent_more.curve_pos,
    ) in
    spent_more.most r.base_out (
      rw same (
        still_allowed r.base_out s.base_reserve r.eff_q (pos_part r.curve_input)
          (pos_part more.curve_input) spent.effective.quote_pos further spent.keeps_product))

-- The effective amount of the larger budget, whose debit stays below it.
effective_more :
    (s : PoolMathState) (fees : FeeBps) (q : ℕ) (r more : BuyQuoteResult)
    → buy_quote_input s fees (pos q) ≡ ok r
    → buy_quote_input s fees (pos (q + 1)) ≡ ok more
    → more.total_with_fees ≤ℤ pos q
    → r.effective_quote ≤ℤ more.effective_quote
effective_more s fees q r more e f h =
    let m = floor_quote_of fees (q + 1) in
    let (pos_more, spent) = buy_quote_input-IsSpent s fees (pos (q + 1)) more f in
    let c = buy_quote_input-effective s fees (pos (q + 1)) more f in
    let t : corrected m (m + sum_of more.paid) (q + 1) +ℤ pos (sum_of more.paid) <ℤ pos (q + 1) =
      rw (← c) (rw (← spent.total) (omega (arith, h))) in
    let u = uncorrected m (sum_of more.paid) (q + 1) t in
    let l = corrected_le (floor_quote_of fees q) (floor_quote_of fees q + sum_of r.paid) q in
    rw (buy_quote_input-effective s fees (pos q) r e, c, u)
      (omega (arith, l, floor_quote_of_mono fees q))

leb_ℤ_refl : (a : ℤ) → leb_ℤ a a ≡ true
leb_ℤ_refl a = ground arith

-- The loop at a budget whose debit is what is asked for.
first_within-exact :
    (s : PoolMathState) (fees : FeeBps) (r : BuyQuoteResult) (b : ℤ) (bs : List ℤ)
    → buy_quote_input s fees b ≡ ok r
    → first_within s fees r.total_with_fees (b ∷ bs) ≡ ok b
unfolding first_within debits_within
first_within-exact s fees r b bs e = rw (e, leb_ℤ_refl r.total_with_fees) refl

exact_next :
    (s : PoolMathState) (fees : FeeBps) (r : BuyQuoteResult) (q : ℕ)
    → buy_quote_input s fees (pos q) ≡ ok r
    → r.total_with_fees ≡ pos q
    → first_within s fees (pos q) (pos q ∷ []) ≡ ok (pos q)
exact_next s fees r q e t =
    subst (λ x. first_within s fees x (pos q ∷ []) ≡ ok (pos q)) t
      (first_within-exact s fees r (pos q) [] e)

-- The budgets, by how the first of them ends.
budget_by :
    (s : PoolMathState) (fees : FeeBps) (r : BuyQuoteResult) (q : ℕ) (m : Result BuyQuoteResult)
    → buy_quote_input s fees (pos q) ≡ ok r
    → r.total_with_fees ≡ pos q
    → OnlyFails m
    → buy_quote_input s fees (pos (q + 1)) ≡ m
    → (b : ℤ) × (again : BuyQuoteResult) × (first_within s fees (pos q) (pos (q + 1) ∷ pos q ∷ [])
        ≡ ok b)
      × IsReproduced s fees r b again
unfolding first_within debits_within
budget_by s fees r q (ok more) e t o f = elim (Bool-cases (leb_ℤ more.total_with_fees (pos q))) [
  | inl within ↦
      let (p, spent) = buy_quote_input-IsSpent s fees (pos q) r e in
      let (p_more, spent_more) = buy_quote_input-IsSpent s fees (pos (q + 1)) more f in
      let l = leb_ℤ→le more.total_with_fees (pos q) within in
      (
        pos (q + 1),
        more,
        rw (f, within) refl,
        record {
          near = inr (one_more r.total_with_fees q t);
          repeated = f;
          debit = omega (arith, l, ap pos_part t, ap neg_part t);
          bought =
              bought_more s fees q r more spent spent_more (effective_more s fees q r more e f l);
        },
      )
  | inr over ↦ (
    pos q,
    r,
    rw (f, over) (exact_next s fees r q e t),
    record { near = inl (sym t); repeated = e; debit = omega arith; bought = omega arith },
  )
]
budget_by s fees r q (err (fail c)) e t o f = (
  pos q,
  r,
  rw f (exact_next s fees r q e t),
  record { near = inl (sym t); repeated = e; debit = omega arith; bought = omega arith },
)
budget_by s fees r q (err null) e t o f = absurd o
budget_by s fees r q (err (throw x)) e t o f = absurd o

budget_for_eq :
    (s : PoolMathState) (fees : FeeBps) (x : ℤ)
    → budget_for s fees x ≡ first_within s fees x ((x +ℤ pos 1) ∷ x ∷ [])
unfolding budget_for
budget_for_eq s fees x = refl

budget_eq :
    (s : PoolMathState) (fees : FeeBps) (x : ℤ) (q : ℕ) (b : ℤ)
    → x ≡ pos q
    → first_within s fees (pos q) (pos (q + 1) ∷ pos q ∷ []) ≡ ok b
    → budget_for s fees x ≡ ok b
budget_eq s fees x q b e h =
    let k : pos q +ℤ pos 1 ≡ pos (q + 1) = omega int_laws in rw (budget_for_eq s fees x, e, k) h

-- The budget of a quote for `q`.
budget_at :
    (s : PoolMathState) (fees : FeeBps) (q : ℕ) (r : BuyQuoteResult)
    → IsSpent s fees q r
    → total_fee_bps fees < 10_000
    → buy_quote_input s fees (pos q) ≡ ok r
    → (b : ℤ) × (again : BuyQuoteResult) × (budget_for s fees r.total_with_fees ≡ ok b)
      × IsReproduced s fees r b again
budget_at s fees q r spent rates h =
    let near = spent.nearly_all rates in
    elim (Bool-cases (leb_ℤ (pos q) r.total_with_fees)) [
      | inl exact ↦
          let l = leb_ℤ→le (pos q) r.total_with_fees exact in
          let t : r.total_with_fees ≡ pos q =
            eq_of_parts r.total_with_fees (pos q) (omega (arith, spent.within, l)) in
          let (b, again, found, rep) =
            budget_by s fees r q (buy_quote_input s fees (pos (q + 1))) h t
              (buy_quote_input-OnlyFails s fees (pos (q + 1))) refl in
          (b, again, budget_eq s fees r.total_with_fees q b t found, rep)
      | inr gap ↦
          let l = leb_ℤ→gt (pos q) r.total_with_fees gap in
          let t : pos q ≡ r.total_with_fees +ℤ pos 1 =
            eq_of_parts (pos q) (r.total_with_fees +ℤ pos 1) (omega (int_laws, near, l)) in
          let k : buy_quote_input s fees (r.total_with_fees +ℤ pos 1) ≡ ok r = rw t at h in
          (
            r.total_with_fees +ℤ pos 1,
            r,
            budget_for_eq s fees r.total_with_fees
                ∙ first_within-exact s fees r (r.total_with_fees +ℤ pos 1) (r.total_with_fees ∷ [])
                    k,
            record { near = inr refl; repeated = k; debit = omega arith; bought = omega arith },
          )
    ]

-- The budget for the amount of a quote is always found, and it reproduces the quote or betters it: it
-- is the amount or one unit more, its debit is at most the amount, and it buys at least what the quote
-- promised. Supposes that the fee rates add up to less than 100%.
pub budget_for-IsReproduced :
    (s : PoolMathState) (fees : FeeBps) (quote : ℤ) (r : BuyQuoteResult)
    → total_fee_bps fees < 10_000
    → buy_quote_input s fees quote ≡ ok r
    → (b : ℤ) × (again : BuyQuoteResult) × (budget_for s fees r.total_with_fees ≡ ok b)
      × IsReproduced s fees r b again
budget_for-IsReproduced s fees (pos q) r rates h =
    budget_at s fees q r (buy_quote_input-IsSpent s fees (pos q) r h).1 rates h
budget_for-IsReproduced s fees (negsuc n) r rates h =
    absurd (omega (arith, (buy_quote_input-IsSpent s fees (negsuc n) r h).0))
