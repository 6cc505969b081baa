-- ===== src/Pumpswap/Math/Buy.antt =====
-- `buyBaseInput` of src/adapters/pumpswap/math.ts: the price of a given amount of base tokens.
use atomarb.Pumpswap.Math.Growth.{effective-OnlyFails}
use atomarb.Common.{
  inr, inl, Bool-cases, >>=-OnlyFails, OnlyFails, ℕ, ◌+◌, ◌-◌, ◌*◌, ◌/◌, ◌≤◌, ◌<◌, ◌≡◌, ◌↔◌, refl,
  ◌∙◌, sym, false, ok, fail, zero_amount, buy_exceeds_reserves, ◌>>◌, exit_if, on_ok, on_pass,
  ok_inj, leb, arith, subst,
}
use atomarb.Common.Int.{ℤ, pos, pos_part, ◌<ℤ◌, leb_ℤ}
use atomarb.Common.Div.{le_of_mul_lt, mul_sub}
use atomarb.Bigint.{IsCeil, ceil_div-ok}
use atomarb.Pumpswap.Math.{
  PoolMathState, FeeBps, effective_quote_reserve, Charges, sum_of, BuyBaseResult, buy_base_input,
  buy_priced,
}
use atomarb.Pumpswap.Math.Fees.{
  IsCharged, charges-ok, IsEffective, effective_quote_reserve-IsEffective,
  effective_quote_reserve-ok,
}

-- What a buyer of `out` base tokens is told.
pub record IsPriced (s : PoolMathState) (fees : FeeBps) (out : ℕ) (r : BuyBaseResult) : Type 0 where
  pub amount : r.base_out ≡ out
  pub effective : IsEffective s r.eff_q
  pub room : out < s.base_reserve
  pub keeps_product :
      r.eff_q * s.base_reserve ≤ (r.eff_q + r.quote_amount_in) * (s.base_reserve - out)
  pub least :
      (q : ℕ)
      → r.eff_q * s.base_reserve ≤ (r.eff_q + q) * (s.base_reserve - out)
      → r.quote_amount_in ≤ q
  pub charged : IsCharged fees r.quote_amount_in r.paid
  pub total : r.user_quote_in ≡ r.quote_amount_in + sum_of r.paid

-- The price is rounded up at the point where the product of the reserves is kept.
price_keeps : (e b out q : ℕ) → out ≤ b → IsCeil (e * out) (b - out) q → e * b ≤ (e + q) * (b - out)
price_keeps e b out q h c = omega (arith, mul_sub e out b h, c.reaches)

price_least :
    (e b out p q : ℕ) → out < b → IsCeil (e * out) (b - out) p → e * b ≤ (e + q) * (b - out) → p ≤ q
price_least e b out p q h c k =
    le_of_mul_lt p q (b - out) (omega (arith, mul_sub e out b (omega arith), c.below))

charged-IsPriced :
    (s : PoolMathState) (fees : FeeBps) (eff out : ℕ) (c : Charges)
    → IsEffective s eff
    → out < s.base_reserve
    → (q : ℕ) → IsCeil (eff * out) (s.base_reserve - out) q
    → IsCharged fees q c
    → IsPriced s fees out (record {
      base_out = out;
      quote_amount_in = q;
      paid = c;
      user_quote_in = q + sum_of c;
      eff_q = eff;
    })
charged-IsPriced s fees eff out c e h q k d = record {
  amount = refl;
  effective = e;
  room = h;
  keeps_product = price_keeps eff s.base_reserve out q (omega arith) k;
  least = λ p l. price_least eff s.base_reserve out q p h k l;
  charged = d;
  total = refl;
}

-- The trade that the checks let through is priced, and no division throws.
pub buy_base_priced_lem :
    (s : PoolMathState) (fees : FeeBps) (eff : ℕ) (base_out : ℤ)
    → IsEffective s eff
    → pos 0 <ℤ base_out
    → pos_part base_out < s.base_reserve
    → (r : BuyBaseResult) × (buy_base_input s fees base_out ≡ ok r)
      × IsPriced s fees (pos_part base_out) r
unfolding buy_base_input buy_priced
buy_base_priced_lem s fees eff base_out e h k =
    let out = pos_part base_out in
    let z : leb_ℤ base_out (pos 0) ≡ false = ground arith in
    let b : leb s.base_reserve out ≡ false = ground arith in
    let (d, c) = ceil_div-ok (eff * out) (s.base_reserve - out) (omega arith) in
    let q = (eff * out + (s.base_reserve - out) - 1) / (s.base_reserve - out) in
    let (paid, l, p) = charges-ok fees q in
    (
      record {
        base_out = out;
        quote_amount_in = q;
        paid = paid;
        user_quote_in = q + sum_of paid;
        eff_q = eff;
      },
      rw (effective_quote_reserve-ok s eff e, z, b, d, l) refl,
      charged-IsPriced s fees eff out paid e k q c p,
    )

buy_base-passed :
    (s : PoolMathState) (fees : FeeBps) (base_out : ℤ) (r : BuyBaseResult)
    → buy_base_input s fees base_out ≡ ok r
    → (eff : ℕ) × IsEffective s eff × (pos 0 <ℤ base_out) × (pos_part base_out < s.base_reserve)
unfolding buy_base_input
buy_base-passed s fees base_out r h =
    let out = pos_part base_out in
    let last = λ (eff : ℕ). buy_priced s fees eff out in
    let next =
      λ (eff : ℕ). exit_if (leb s.base_reserve out) (fail buy_exceeds_reserves) >> last eff in
    on_ok (effective_quote_reserve s)
      (λ eff. exit_if (leb_ℤ base_out (pos 0)) (fail zero_amount) >> next eff) h
      λ eff e h1. on_pass (leb_ℤ base_out (pos 0)) (fail zero_amount) (next eff) h1 λ z h2.
        on_pass (leb s.base_reserve out) (fail buy_exceeds_reserves) (last eff) h2
          λ b h3. (eff, effective_quote_reserve-IsEffective s eff e, ground arith, ground arith)

-- A base amount that is bought is positive and below the reserve, and the price is the least number of
-- quote tokens that keeps the product of the reserves from falling; each fee is its share of the price
-- rounded up, and the buyer pays the price and the fees.
pub buy_base_input-IsPriced :
    (s : PoolMathState) (fees : FeeBps) (base_out : ℤ) (r : BuyBaseResult)
    → buy_base_input s fees base_out ≡ ok r
    → (pos 0 <ℤ base_out) × IsPriced s fees (pos_part base_out) r
buy_base_input-IsPriced s fees base_out r h =
    let (eff, e, p, k) = buy_base-passed s fees base_out r h in
    let (r', h', d) = buy_base_priced_lem s fees eff base_out e p k in
    (p, subst (IsPriced s fees (pos_part base_out)) (ok_inj (sym h' ∙ h)) d)

-- What the checks do not let through is a rejection, and the rest is priced.
buy_base_input-OnlyFails :
    (s : PoolMathState) (fees : FeeBps) (base_out : ℤ) → OnlyFails (buy_base_input s fees base_out)
unfolding buy_base_input
buy_base_input-OnlyFails s fees base_out =
    let out = pos_part base_out in
    let next = λ (eff : ℕ).
      exit_if (leb_ℤ base_out (pos 0)) (fail zero_amount)
      >> (exit_if (leb s.base_reserve out) (fail buy_exceeds_reserves)
          >> buy_priced s fees eff out) in
    >>=-OnlyFails (effective_quote_reserve s) next (effective-OnlyFails s) λ eff e.
      elim (Bool-cases (leb_ℤ base_out (pos 0))) [
        | inl nil ↦ rw nil tt
        | inr more ↦ elim (Bool-cases (leb s.base_reserve out)) [
          | inl over ↦ rw (more, over) tt
          | inr under ↦
              let i = effective_quote_reserve-IsEffective s eff e in
              let (r, h, _) =
                buy_base_priced_lem s fees eff base_out i (ground arith) (ground arith) in
              let k : buy_priced s fees eff out ≡ ok r = rw (e, more, under) at h in
              rw (more, under, k) tt
        ]
      ]

-- A buy succeeds exactly if the virtual reserve is not negative, neither reserve is empty, and the
-- amount is positive and below the base reserve; in every other case it is rejected with a reason, and
-- nothing is thrown, so that no division is by zero.
pub buy_base_input-ok_iff :
    (s : PoolMathState) (fees : FeeBps) (base_out : ℤ)
    → (((r : BuyBaseResult) × (buy_base_input s fees base_out ≡ ok r)) ↔ (
        (eff : ℕ) × IsEffective s eff × (pos 0 <ℤ base_out) × (pos_part base_out < s.base_reserve)))
      × OnlyFails (buy_base_input s fees base_out)
buy_base_input-ok_iff s fees base_out = (
  (
    λ (r, h). buy_base-passed s fees base_out r h,
    λ (eff, e, p, k). let (r, h, _) = buy_base_priced_lem s fees eff base_out e p k in (r, h),
  ),
  buy_base_input-OnlyFails s fees base_out,
)
