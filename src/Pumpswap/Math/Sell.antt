-- ===== src/Pumpswap/Math/Sell.antt =====
-- `sellBaseInput` of src/adapters/pumpswap/math.ts: what a given amount of base tokens brings.
use atomarb.Common.{
  ℕ, ◌+◌, ◌*◌, ◌/◌, ◌≤◌, ◌<◌, ◌≡◌, refl, Result, ok, fail, zero_amount, zero_out,
  boost_real_reserve_cap, ◌>>=◌, ◌>>◌, exit_if, on_ok, on_pass, ok_inj, arith, subst,
}
use atomarb.Common.Int.{
  ℤ, pos, pos_part, ◌<ℤ◌, ◌-ℤ◌, ◌+ℤ◌, leb_ℤ, ltb_ℤ, int_laws, leb_ℤ→gt, ltb_ℤ→ge,
}
use atomarb.Common.Div.{le_of_mul_lt, div_bounds}
use atomarb.Pumpswap.Math.{
  PoolMathState, FeeBps, effective_quote_reserve, Charges, charges, sum_of, SellResult,
  sell_base_input, sell_paid, quote_out_of,
}
use atomarb.Pumpswap.Math.Fees.{
  IsCharged, charges-IsCharged, IsEffective, effective_quote_reserve-IsEffective,
}

-- What a seller of `b` base tokens is told.
pub record IsSold (s : PoolMathState) (fees : FeeBps) (b : ℕ) (r : SellResult) : Type 0 where
  pub amount : r.base_in ≡ b
  pub effective : IsEffective s r.eff_q
  pub covered : r.quote_amount_out ≤ s.quote_reserve + r.paid.lp_fee
  pub keeps_product :
      r.eff_q * s.base_reserve + r.quote_amount_out * (s.base_reserve + b)
      ≤ r.eff_q * (s.base_reserve + b)
  pub most :
      (q : ℕ)
      → r.eff_q * s.base_reserve + q * (s.base_reserve + b) ≤ r.eff_q * (s.base_reserve + b)
      → q ≤ r.quote_amount_out
  pub charged : IsCharged fees r.quote_amount_out r.paid
  pub positive : pos 0 <ℤ r.user_quote_out
  pub total : r.user_quote_out +ℤ pos (sum_of r.paid) ≡ pos r.quote_amount_out

out_most :
    (s : PoolMathState) (e x q : ℕ)
    → 0 < s.base_reserve
    → e * s.base_reserve + q * (s.base_reserve + x) ≤ e * (s.base_reserve + x)
    → q ≤ quote_out_of s e x
unfolding quote_out_of
out_most s e x q h k =
    let d = s.base_reserve + x in
    le_of_mul_lt q (e * x / d) d (omega (arith, div_bounds (e * x) d (omega arith)))

out_keeps :
    (s : PoolMathState) (e x : ℕ)
    → 0 < s.base_reserve
    → e * s.base_reserve + quote_out_of s e x * (s.base_reserve + x) ≤ e * (s.base_reserve + x)
unfolding quote_out_of
out_keeps s e x h = omega (arith, div_bounds (e * x) (s.base_reserve + x) (omega arith))

minus_plus : (a b : ℕ) → pos a -ℤ pos b +ℤ pos b ≡ pos a
minus_plus a b = omega int_laws

sell_paid-IsSold :
    (s : PoolMathState) (fees : FeeBps) (eff b : ℕ) (c : Charges) (r : SellResult)
    → IsEffective s eff
    → IsCharged fees (quote_out_of s eff b) c
    → sell_paid s eff b (quote_out_of s eff b) c ≡ ok r
    → IsSold s fees b r
unfolding sell_paid
sell_paid-IsSold s fees eff b c r e k h =
    let out = quote_out_of s eff b in
    let user = pos out -ℤ pos (sum_of c) in
    let last : Result SellResult = ok (record {
      base_in = b;
      quote_amount_out = out;
      paid = c;
      user_quote_out = user;
      eff_q = eff;
    }) in
    on_pass (ltb_ℤ (pos s.quote_reserve) (pos out -ℤ pos c.lp_fee)) (fail boost_real_reserve_cap)
      (exit_if (leb_ℤ user (pos 0)) (fail zero_out) >> last) h
      λ cap h1. on_pass (leb_ℤ user (pos 0)) (fail zero_out) last h1 λ positive h2.
        subst (IsSold s fees b) (ok_inj h2) (record {
          amount = refl;
          effective = e;
          covered = omega (int_laws, ltb_ℤ→ge (pos s.quote_reserve) (pos out -ℤ pos c.lp_fee) cap);
          keeps_product = out_keeps s eff b e.base_pos;
          most = λ q l. out_most s eff b q e.base_pos l;
          charged = k;
          positive = leb_ℤ→gt user (pos 0) positive;
          total = minus_plus out (sum_of c);
        })

-- A sale is of a positive amount. It brings the most quote tokens that keep the product of the
-- reserves from falling; each fee is its share of them rounded up; the seller gets the rest, which is
-- positive; and the real quote vault covers all but the fee that stays in the pool.
pub sell_base_input-IsSold :
    (s : PoolMathState) (fees : FeeBps) (base_in : ℤ) (r : SellResult)
    → sell_base_input s fees base_in ≡ ok r
    → (pos 0 <ℤ base_in) × IsSold s fees (pos_part base_in) r
unfolding sell_base_input
sell_base_input-IsSold s fees base_in r h =
    let b = pos_part base_in in
    let last = λ (eff : ℕ) (c : Charges). sell_paid s eff b (quote_out_of s eff b) c in
    let next = λ (eff : ℕ). charges fees (quote_out_of s eff b) >>= last eff in
    on_ok (effective_quote_reserve s)
      (λ eff. exit_if (leb_ℤ base_in (pos 0)) (fail zero_amount) >> next eff) h
      λ eff e h1. on_pass (leb_ℤ base_in (pos 0)) (fail zero_amount) (next eff) h1 λ z h2.
        on_ok (charges fees (quote_out_of s eff b)) (last eff) h2 λ c d h3. (
          leb_ℤ→gt base_in (pos 0) z,
          sell_paid-IsSold s fees eff b c r (effective_quote_reserve-IsEffective s eff e)
              (charges-IsCharged fees (quote_out_of s eff b) c d) h3,
        )
