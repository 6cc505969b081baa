-- ===== src/Pumpswap/Math/Agree.antt =====
-- How the trades of src/adapters/pumpswap/math.ts fit together: buying by quote against buying by
-- base, and selling what was bought.
use atomarb.Common.{ℕ, ◌+◌, ◌-◌, ◌*◌, ◌≤◌, ◌<◌, ◌≡◌, sym, ◌∙◌, ap, ok, arith}
use atomarb.Common.Int.{ℤ, pos, pos_part, neg_part, ◌+ℤ◌, ◌≤ℤ◌, int_laws}
use atomarb.Common.Div.{lt_of_mul_lt, le_of_mul_le, mul_sub, mul_mono_l}
use atomarb.Pumpswap.Math.{
  PoolMathState, FeeBps, sum_of, BuyBaseResult, BuyQuoteResult, SellResult, buy_base_input,
  buy_quote_input, sell_base_input,
}
use atomarb.Pumpswap.Math.Buy.{buy_base_priced_lem, buy_base_input-IsPriced}
use atomarb.Pumpswap.Math.Spend.{buy_quote_input-IsSpent}
use atomarb.Pumpswap.Math.Sell.{sell_base_input-IsSold}

-- What a positive quote input buys is less than the reserve, and pays for itself.
bought_lt : (b e x y : ℕ) → 0 < e → 0 < b → y * (e + x) ≤ b * x → y < b
bought_lt b e x y h k l = lt_of_mul_lt y b (e + x) (omega (arith, l, product_pos b e h k))
  where
    product_pos : (b e : ℕ) → 0 < e → 0 < b → 0 < b * e
    product_pos b e h k = omega (arith, mul_mono_l 1 b e (omega arith))

bought_paid : (b e x y : ℕ) → y ≤ b → y * (e + x) ≤ b * x → e * b ≤ (e + x) * (b - y)
bought_paid b e x y h l = omega (arith, mul_sub (e + x) y b h)

-- The base tokens that a quote amount buys can also be asked for by number, at a price that is at
-- most the curve input of the quote amount.
pub spend-buy_le :
    (s : PoolMathState) (fees : FeeBps) (quote : ℤ) (r : BuyQuoteResult)
    → buy_quote_input s fees quote ≡ ok r
    → (t : BuyBaseResult) × (buy_base_input s fees (pos r.base_out) ≡ ok t)
      × (t.quote_amount_in ≤ pos_part r.curve_input)
spend-buy_le s fees quote r h =
    let (_, i) = buy_quote_input-IsSpent s fees quote r h in
    let e = i.effective in
    let x = pos_part r.curve_input in
    let lt = bought_lt s.base_reserve r.eff_q x r.base_out e.quote_pos e.base_pos i.keeps_product in
    let (t, k, p) =
      buy_base_priced_lem s fees r.eff_q (pos r.base_out) e (omega (arith, i.bought)) lt in
    let same : t.eff_q ≡ r.eff_q = p.effective.value ∙ sym e.value in
    let paid =
      bought_paid s.base_reserve r.eff_q x r.base_out (omega (arith, lt)) i.keeps_product in
    (t, k, p.least x (rw same paid))

-- The pool after a buy: the base tokens are gone, the price and the fee for the pool have come in.
abbrev pub after_buy : PoolMathState → BuyBaseResult → PoolMathState
after_buy s r = record s {
  base_reserve = s.base_reserve - r.base_out;
  quote_reserve = s.quote_reserve + r.quote_amount_in + r.paid.lp_fee;
}

-- `d` is what is left of the base reserve when `b` has been bought.
back_le :
    (e q l o d b : ℕ)
    → 0 < d
    → e * (d + b) ≤ (e + q) * d
    → (e + q + l) * d + o * (d + b) ≤ (e + q + l) * (d + b)
    → o ≤ q + l
back_le e q l o d b p h k = le_of_mul_le o (q + l) (d + b) (omega arith) (omega (arith, h, k))

back_le_at :
    (e q l o b full : ℕ)
    → b < full
    → e * full ≤ (e + q) * (full - b)
    → (e + q + l) * (full - b) + o * ((full - b) + b) ≤ (e + q + l) * ((full - b) + b)
    → o ≤ q + l
back_le_at e q l o b full p h k =
    let same : full - b + b ≡ full = omega arith in
    back_le e q l o (full - b) b (omega arith) (rw same h) k

-- Base tokens that are sold right after they were bought bring at most what the buyer paid, whatever
-- the fees of the two trades are.
pub buy-sell_le :
    (s : PoolMathState) (fees fees' : FeeBps) (x : ℤ) (r : BuyBaseResult) (t : SellResult)
    → buy_base_input s fees x ≡ ok r
    → sell_base_input (after_buy s r) fees' x ≡ ok t
    → t.user_quote_out ≤ℤ pos r.user_quote_in
buy-sell_le s fees fees' x r t h k =
    let (_, p) = buy_base_input-IsPriced s fees x r h in
    let (_, d) = sell_base_input-IsSold (after_buy s r) fees' x t k in
    let b = pos_part x in
    let eff : t.eff_q ≡ r.eff_q + r.quote_amount_in + r.paid.lp_fee =
      omega (arith, p.effective.value, d.effective.value) in
    let kept : (r.eff_q + r.quote_amount_in + r.paid.lp_fee) * (s.base_reserve - b)
          + t.quote_amount_out * (s.base_reserve - b + b)
        ≤ (r.eff_q + r.quote_amount_in + r.paid.lp_fee) * (s.base_reserve - b + b) =
      rw (eff, p.amount) at d.keeps_product in
    let o =
      back_le_at r.eff_q r.quote_amount_in r.paid.lp_fee t.quote_amount_out b s.base_reserve p.room
        p.keeps_product kept in
    user_le t.user_quote_out (sum_of t.paid) t.quote_amount_out r.user_quote_in d.total
      (omega (arith, o, p.total))
  where
    user_le : (u : ℤ) (n o v : ℕ) → u +ℤ pos n ≡ pos o → o ≤ v → u ≤ℤ pos v
    user_le u n o v h k = let a = ap pos_part h in let b = ap neg_part h in omega int_laws
