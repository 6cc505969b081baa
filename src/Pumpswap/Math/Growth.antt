-- ===== src/Pumpswap/Math/Growth.antt =====
-- How `buyQuoteInput` of src/adapters/pumpswap/math.ts ends, and how its amounts grow.
use atomarb.Common.{
  ◌/◌, ◌-◌, ℕ, ◌+◌, ◌*◌, ◌≤◌, ◌<◌, ◌≡◌, refl, Bool-cases, inl, inr, Result, ok, fail, zero_amount,
  zero_out, amount_too_small, ◌>>=◌, ◌>>◌, exit_if, on_ok, on_pass, ok_inj, OnlyFails,
  fail_if-OnlyFails, >>=-OnlyFails, ltb, ◌==◌, arith, subst, ◌||◌, negative_virtual_quote_reserves,
  empty_pool,
}
use atomarb.Common.Int.{ℤ, pos, pos_part, ◌+ℤ◌, ◌-ℤ◌, ◌≤ℤ◌, ◌<ℤ◌, ltb_ℤ, leb_ℤ, int_laws}
use atomarb.Common.Div.{div_bounds, le_of_mul_lt, le_of_mul_le, mul_mono_l, mul_mono_r}
use atomarb.Pumpswap.Math.{
  PoolMathState, FeeBps, effective_quote_reserve, Charges, charges, sum_of, BuyQuoteResult,
  corrected, base_out_of, total_fee_bps, floor_quote_of, spend_paid, buy_quote_input,
}
use atomarb.Pumpswap.Math.Fees.{charges-ok}

pub effective-OnlyFails : (s : PoolMathState) → OnlyFails (effective_quote_reserve s)
unfolding effective_quote_reserve
effective-OnlyFails s =
    let eff = s.quote_reserve + pos_part s.virtual_quote_reserves in
    fail_if-OnlyFails (ltb_ℤ s.virtual_quote_reserves (pos 0)) negative_virtual_quote_reserves
      (exit_if (eff == 0 || s.base_reserve == 0) (fail empty_pool) >> ok eff)
      (fail_if-OnlyFails (eff == 0 || s.base_reserve == 0) empty_pool (ok eff) tt)

charges-OnlyFails : (fees : FeeBps) (amount : ℕ) → OnlyFails (charges fees amount)
charges-OnlyFails fees amount = let (c, e, k) = charges-ok fees amount in rw e tt

spend_paid-OnlyFails :
    (s : PoolMathState) (eff q f : ℕ) (c : Charges) → OnlyFails (spend_paid s eff q f c)
unfolding spend_paid
spend_paid-OnlyFails s eff q f c =
    let curve = corrected f (f + sum_of c) q -ℤ pos 1 in
    let out = base_out_of s.base_reserve eff (pos_part curve) in
    let last : Result BuyQuoteResult = ok (record {
      spendable_quote_in = q;
      effective_quote = corrected f (f + sum_of c) q;
      paid = c;
      total_with_fees = corrected f (f + sum_of c) q +ℤ pos (sum_of c);
      curve_input = curve;
      base_out = out;
      eff_q = eff;
    }) in
    fail_if-OnlyFails (leb_ℤ curve (pos 0)) amount_too_small
      (exit_if (out == 0) (fail zero_out) >> last) (fail_if-OnlyFails (out == 0) zero_out last tt)

-- The math of a buy never throws.
pub buy_quote_input-OnlyFails :
    (s : PoolMathState) (fees : FeeBps) (quote : ℤ) → OnlyFails (buy_quote_input s fees quote)
unfolding buy_quote_input
buy_quote_input-OnlyFails s fees quote =
    let q = pos_part quote in
    let last = λ (eff : ℕ) (c : Charges). spend_paid s eff q (floor_quote_of fees q) c in
    let next = λ (eff : ℕ). charges fees (floor_quote_of fees q) >>= last eff in
    >>=-OnlyFails (effective_quote_reserve s)
      (λ eff. exit_if (leb_ℤ quote (pos 0)) (fail zero_amount) >> next eff) (effective-OnlyFails s)
      λ eff e. fail_if-OnlyFails (leb_ℤ quote (pos 0)) zero_amount (next eff) (
        >>=-OnlyFails (charges fees (floor_quote_of fees q)) (last eff)
          (charges-OnlyFails fees (floor_quote_of fees q))
          λ c k. spend_paid-OnlyFails s eff q (floor_quote_of fees q) c)

-- The amount for the curve before its last unit is taken off.
pub buy_quote_input-effective :
    (s : PoolMathState) (fees : FeeBps) (quote : ℤ) (r : BuyQuoteResult)
    → buy_quote_input s fees quote ≡ ok r
    → let f = floor_quote_of fees (pos_part quote) in
      r.effective_quote ≡ corrected f (f + sum_of r.paid) (pos_part quote)
unfolding buy_quote_input spend_paid
buy_quote_input-effective s fees quote r h =
    let q = pos_part quote in
    let f = floor_quote_of fees q in
    let last = λ (eff : ℕ) (c : Charges). spend_paid s eff q f c in
    let next = λ (eff : ℕ). charges fees f >>= last eff in
    on_ok (effective_quote_reserve s)
      (λ eff. exit_if (leb_ℤ quote (pos 0)) (fail zero_amount) >> next eff) h
      λ eff e h1. on_pass (leb_ℤ quote (pos 0)) (fail zero_amount) (next eff) h1 λ z h2.
        on_ok (charges fees f) (last eff) h2 λ c d h3.
          let curve = corrected f (f + sum_of c) q -ℤ pos 1 in
          let out = base_out_of s.base_reserve eff (pos_part curve) in
          let done : Result BuyQuoteResult = ok (record {
            spendable_quote_in = q;
            effective_quote = corrected f (f + sum_of c) q;
            paid = c;
            total_with_fees = corrected f (f + sum_of c) q +ℤ pos (sum_of c);
            curve_input = curve;
            base_out = out;
            eff_q = eff;
          }) in
          on_pass (leb_ℤ curve (pos 0)) (fail amount_too_small)
            (exit_if (out == 0) (fail zero_out) >> done) h3
            λ positive h4. on_pass (out == 0) (fail zero_out) done h4 λ some h5.
              subst (λ (r : BuyQuoteResult). r.effective_quote ≡ corrected f (f + sum_of r.paid) q)
                (ok_inj h5) refl

-- Below the cap nothing is taken off the quotient; it is never raised.
pub corrected_le : (f w q : ℕ) → corrected f w q ≤ℤ pos f
unfolding corrected
corrected_le f w q = elim (Bool-cases (ltb q w)) [
  | inl over ↦ rw over (let l : q < w = ground arith in omega (int_laws, l))
  | inr under ↦ rw under (omega arith)
]

pub uncorrected :
    (f n q : ℕ) → corrected f (f + n) q +ℤ pos n <ℤ pos q → corrected f (f + n) q ≡ pos f
unfolding corrected
uncorrected f n q h = elim (Bool-cases (ltb q (f + n))) [
  | inl over ↦
      let k : pos f -ℤ (pos (f + n) -ℤ pos q) +ℤ pos n <ℤ pos q = rw over at h in
      absurd (omega (int_laws, k))
  | inr under ↦ rw under refl
]

pub floor_quote_of_mono :
    (fees : FeeBps) (q : ℕ) → floor_quote_of fees q ≤ floor_quote_of fees (q + 1)
unfolding floor_quote_of
floor_quote_of_mono fees q =
    let d = 10_000 + total_fee_bps fees in
    le_of_mul_lt (q * 10_000 / d) ((q + 1) * 10_000 / d) d (
      omega (
        arith,
        div_bounds (q * 10_000) d (omega arith),
        div_bounds ((q + 1) * 10_000) d (omega arith),
      ))

-- More goes into the curve, and the same that was bought is still allowed.
pub still_allowed :
    (b base e x y : ℕ) → 0 < e → x ≤ y → b * (e + x) ≤ base * x → b * (e + y) ≤ base * y
still_allowed b base e x y p h k =
    let small : b ≤ base =
      le_of_mul_le b base (e + x) (omega arith)
        (omega (arith, k, mul_mono_r x (e + x) base (omega arith))) in
    let (d, eq) : (d : ℕ) × (y ≡ x + d) = (y - x, omega arith) in
    rw eq (omega (arith, k, mul_mono_l b base d small))
