-- ===== src/Pumpswap/Math/Spend.antt =====
-- `buyQuoteInput` of src/adapters/pumpswap/math.ts: what a given amount of quote tokens buys.
use atomarb.Common.{
  ℕ, ◌+◌, ◌-◌, ◌*◌, ◌/◌, ◌≤◌, ◌<◌, ◌≡◌, ◌⊎◌, refl, Bool-cases, inl, inr, Result, ok, fail,
  zero_amount, zero_out, amount_too_small, ◌>>=◌, ◌>>◌, exit_if, on_ok, on_pass, ok_inj, ltb, ◌==◌,
  arith, subst,
}
use atomarb.Common.Int.{ℤ, pos, pos_part, ◌+ℤ◌, ◌-ℤ◌, ◌<ℤ◌, ◌≤ℤ◌, leb_ℤ, int_laws, leb_ℤ→gt}
use atomarb.Common.Div.{div_bounds, le_of_mul_lt}
use atomarb.Pumpswap.Math.{
  PoolMathState, FeeBps, effective_quote_reserve, Charges, charges, sum_of, BuyQuoteResult,
  corrected, base_out_of, total_fee_bps, floor_quote_of, spend_paid, buy_quote_input,
}
use atomarb.Pumpswap.Math.Fees.{
  IsCharged, charges-IsCharged, IsEffective, effective_quote_reserve-IsEffective,
}

-- What a buyer who spends `q` quote tokens is told.
pub record IsSpent (s : PoolMathState) (fees : FeeBps) (q : ℕ) (r : BuyQuoteResult) : Type 0 where
  pub effective : IsEffective s r.eff_q
  pub within : r.total_with_fees ≤ℤ pos q
  pub nearly_all : total_fee_bps fees < 10_000 → pos q ≤ℤ r.total_with_fees +ℤ pos 1
  pub total : r.total_with_fees ≡ r.effective_quote +ℤ pos (sum_of r.paid)
  pub charged : IsCharged fees (floor_quote_of fees q) r.paid
  pub curve : r.curve_input +ℤ pos 1 ≡ r.effective_quote
  pub curve_pos : pos 0 <ℤ r.curve_input
  pub bought : 0 < r.base_out
  pub keeps_product :
      r.base_out * (r.eff_q + pos_part r.curve_input) ≤ s.base_reserve * pos_part r.curve_input
  pub most :
      (b : ℕ)
      → b * (r.eff_q + pos_part r.curve_input) ≤ s.base_reserve * pos_part r.curve_input
      → b ≤ r.base_out

-- The correction caps the total at what is spent.
corrected_total :
    (f w q : ℕ)
    → f ≤ w
    → let t = corrected f w q +ℤ pos (w - f) in (t ≡ pos q) ⊎ ((t ≡ pos w) × (w ≤ q))
unfolding corrected
corrected_total f w q h = elim (Bool-cases (ltb q w)) [
  | inl over ↦ inl (rw over (omega int_laws))
  | inr under ↦ inr (rw under (omega int_laws), ground arith)
]

-- The fees on the quotient reach its share, so that little is left over.
floor_share :
    (fees : FeeBps) (q : ℕ) (c : Charges)
    → IsCharged fees (floor_quote_of fees q) c
    → total_fee_bps fees < 10_000
    → q ≤ floor_quote_of fees q + sum_of c + 1
unfolding floor_quote_of
floor_share fees q c k h =
    let d = 10_000 + total_fee_bps fees in
    let b = div_bounds (q * 10_000) d (omega arith) in
    le_of_mul_lt q (q * 10_000 / d + sum_of c + 1) 10_000
      (omega (arith, b, k.lp.reaches, k.protocol.reaches, k.creator.reaches))

-- The total, for a quotient and its fees.
total_within :
    (f w q n : ℕ)
    → f + n ≡ w
    → (corrected f w q +ℤ pos n ≤ℤ pos q) × (q ≤ w + 1 → pos q ≤ℤ corrected f w q +ℤ pos n +ℤ pos 1)
total_within f w q n h =
    let e : n ≡ w - f = omega (arith, h) in
    elim (corrected_total f w q (omega (arith, h))) [
      | inl t ↦ rw (e, t) (omega int_laws, λ k. omega int_laws)
      | inr (t, u) ↦ rw (e, t) (omega (arith, u), λ k. omega int_laws)
    ]

minus_one : (a : ℤ) → a -ℤ pos 1 +ℤ pos 1 ≡ a
minus_one a = omega int_laws

bought_keeps : (b e x : ℕ) → 0 < e → base_out_of b e x * (e + x) ≤ b * x
unfolding base_out_of
bought_keeps b e x h = omega (arith, div_bounds (b * x) (e + x) (omega arith))

bought_most : (b e x y : ℕ) → 0 < e → y * (e + x) ≤ b * x → y ≤ base_out_of b e x
unfolding base_out_of
bought_most b e x y h k =
    le_of_mul_lt y (b * x / (e + x)) (e + x)
      (omega (arith, div_bounds (b * x) (e + x) (omega arith)))

spend_paid-IsSpent :
    (s : PoolMathState) (fees : FeeBps) (eff q : ℕ) (c : Charges) (r : BuyQuoteResult)
    → IsEffective s eff
    → IsCharged fees (floor_quote_of fees q) c
    → spend_paid s eff q (floor_quote_of fees q) c ≡ ok r
    → IsSpent s fees q r
unfolding spend_paid
spend_paid-IsSpent s fees eff q c r e k h =
    let f = floor_quote_of fees q in
    let effective = corrected f (f + sum_of c) q in
    let curve = effective -ℤ pos 1 in
    let out = base_out_of s.base_reserve eff (pos_part curve) in
    let last : Result BuyQuoteResult = ok (record {
      spendable_quote_in = q;
      effective_quote = effective;
      paid = c;
      total_with_fees = effective +ℤ pos (sum_of c);
      curve_input = curve;
      base_out = out;
      eff_q = eff;
    }) in
    let (w, n) = total_within f (f + sum_of c) q (sum_of c) refl in
    on_pass (leb_ℤ curve (pos 0)) (fail amount_too_small)
      (exit_if (out == 0) (fail zero_out) >> last) h
      λ positive h1. on_pass (out == 0) (fail zero_out) last h1 λ some h2.
        subst (IsSpent s fees q) (ok_inj h2) (record {
          effective = e;
          within = w;
          nearly_all = λ t. n (floor_share fees q c k t);
          total = refl;
          charged = k;
          curve = minus_one effective;
          curve_pos = leb_ℤ→gt curve (pos 0) positive;
          bought = ground arith;
          keeps_product = bought_keeps s.base_reserve eff (pos_part curve) e.quote_pos;
          most = λ b l. bought_most s.base_reserve eff (pos_part curve) b e.quote_pos l;
        })

-- Spending a positive quote amount costs, with the fees, at most that amount and, if the fee rates add
-- up to less than 100%, at most one unit less. The fees are those of the amount's quotient, and what
-- is left of it less one unit buys the most base tokens, and at least one, that keep the product of
-- the reserves from falling.
pub buy_quote_input-IsSpent :
    (s : PoolMathState) (fees : FeeBps) (quote : ℤ) (r : BuyQuoteResult)
    → buy_quote_input s fees quote ≡ ok r
    → (pos 0 <ℤ quote) × IsSpent s fees (pos_part quote) r
unfolding buy_quote_input
buy_quote_input-IsSpent s fees quote r h =
    let q = pos_part quote in
    let last = λ (eff : ℕ) (c : Charges). spend_paid s eff q (floor_quote_of fees q) c in
    let next = λ (eff : ℕ). charges fees (floor_quote_of fees q) >>= last eff in
    on_ok (effective_quote_reserve s)
      (λ eff. exit_if (leb_ℤ quote (pos 0)) (fail zero_amount) >> next eff) h
      λ eff e h1. on_pass (leb_ℤ quote (pos 0)) (fail zero_amount) (next eff) h1 λ z h2.
        on_ok (charges fees (floor_quote_of fees q)) (last eff) h2 λ c d h3. (
          leb_ℤ→gt quote (pos 0) z,
          spend_paid-IsSpent s fees eff q c r (effective_quote_reserve-IsEffective s eff e)
              (charges-IsCharged fees (floor_quote_of fees q) c d) h3,
        )
