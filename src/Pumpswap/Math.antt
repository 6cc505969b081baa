-- ===== src/Pumpswap/Math.antt =====
-- The swap functions of src/adapters/pumpswap/math.ts. A rejected trade is a `fail` exit, and the
-- `throw` of a division is one too.
pub mod Fees
pub mod Buy
pub mod Spend
pub mod Sell
pub mod Agree
pub mod Growth
use atomarb.Common.{
  ℕ, ◌+◌, ◌-◌, ◌*◌, ◌/◌, Bool, true, false, ◌||◌, Result, ok, err, fail, throw, division_by_zero,
  negative_virtual_quote_reserves, empty_pool, zero_amount, buy_exceeds_reserves, amount_too_small,
  zero_out, boost_real_reserve_cap, ◌>>=◌, ◌>>◌, exit_if, ltb, leb, ◌==◌, if◌then◌else◌,
}
use atomarb.Common.Int.{ℤ, pos, pos_part, ◌+ℤ◌, ◌-ℤ◌, ltb_ℤ, leb_ℤ}
use atomarb.Bigint.{ceil_div}

pub record PoolMathState : Type 0 where
  pub base_reserve : ℕ
  pub quote_reserve : ℕ
  pub virtual_quote_reserves : ℤ

pub record FeeBps : Type 0 where
  pub lp_bps : ℕ
  pub protocol_bps : ℕ
  pub creator_bps : ℕ

unfoldable pub fee_ceil : ℕ → ℕ → Result ℕ
unfolding ceil_div
fee_ceil amount bps = if bps == 0 || amount == 0 then ok 0 else ceil_div (amount * bps) 10_000

unfoldable pub effective_quote_reserve : PoolMathState → Result ℕ
effective_quote_reserve s = do
  exit_if (ltb_ℤ s.virtual_quote_reserves (pos 0)) (fail negative_virtual_quote_reserves)
  let eff_q = s.quote_reserve + pos_part s.virtual_quote_reserves
  exit_if (eff_q == 0 || s.base_reserve == 0) (fail empty_pool)
  ok eff_q

-- The three fees that each of the three functions takes, in order.
pub record Charges : Type 0 where
  pub lp_fee : ℕ
  pub protocol_fee : ℕ
  pub creator_fee : ℕ

unfoldable pub charges : FeeBps → ℕ → Result Charges
unfolding fee_ceil
charges fees amount = do
  lp ← fee_ceil amount fees.lp_bps
  protocol ← fee_ceil amount fees.protocol_bps
  creator ← fee_ceil amount fees.creator_bps
  ok (record { lp_fee = lp; protocol_fee = protocol; creator_fee = creator })

abbrev pub sum_of : Charges → ℕ
sum_of c = c.lp_fee + c.protocol_fee + c.creator_fee

pub record BuyBaseResult : Type 0 where
  pub base_out : ℕ
  pub quote_amount_in : ℕ
  pub paid : Charges
  pub user_quote_in : ℕ
  pub eff_q : ℕ

-- `buyBaseInput` after its checks.
unfoldable pub buy_priced : PoolMathState → FeeBps → ℕ → ℕ → Result BuyBaseResult
unfolding charges ceil_div
buy_priced s fees eff_q out = do
  quote_amount_in ← ceil_div (eff_q * out) (s.base_reserve - out)
  paid ← charges fees quote_amount_in
  ok (record {
    base_out = out;
    quote_amount_in = quote_amount_in;
    paid = paid;
    user_quote_in = quote_amount_in + sum_of paid;
    eff_q = eff_q;
  })

-- A number of the arguments that passed the test on its sign is its `pos_part`.
unfoldable pub buy_base_input : PoolMathState → FeeBps → ℤ → Result BuyBaseResult
unfolding effective_quote_reserve buy_priced
buy_base_input s fees base_out = do
  eff_q ← effective_quote_reserve s
  exit_if (leb_ℤ base_out (pos 0)) (fail zero_amount)
  exit_if (leb s.base_reserve (pos_part base_out)) (fail buy_exceeds_reserves)
  buy_priced s fees eff_q (pos_part base_out)

pub record BuyQuoteResult : Type 0 where
  pub spendable_quote_in : ℕ
  pub effective_quote : ℤ
  pub paid : Charges
  pub total_with_fees : ℤ
  pub curve_input : ℤ
  pub base_out : ℕ
  pub eff_q : ℕ

-- `if (withFees > quote) effectiveQuote -= withFees - quote`
unfoldable pub corrected : ℕ → ℕ → ℕ → ℤ
corrected effective with_fees quote =
    if ltb quote with_fees then pos effective -ℤ (pos with_fees -ℤ pos quote) else pos effective

unfoldable pub base_out_of : ℕ → ℕ → ℕ → ℕ
base_out_of base_reserve eff_q curve_input = base_reserve * curve_input / (eff_q + curve_input)

-- `buyQuoteInput` after the fees are taken on the quotient.
unfoldable pub spend_paid : PoolMathState → ℕ → ℕ → ℕ → Charges → Result BuyQuoteResult
unfolding corrected base_out_of
spend_paid s eff_q q floor_quote paid = do
  let effective_quote = corrected floor_quote (floor_quote + sum_of paid) q
  let curve_input = effective_quote -ℤ pos 1
  exit_if (leb_ℤ curve_input (pos 0)) (fail amount_too_small)
  let base_out = base_out_of s.base_reserve eff_q (pos_part curve_input)
  exit_if (base_out == 0) (fail zero_out)
  ok (record {
    spendable_quote_in = q;
    effective_quote = effective_quote;
    paid = paid;
    total_with_fees = effective_quote +ℤ pos (sum_of paid);
    curve_input = curve_input;
    base_out = base_out;
    eff_q = eff_q;
  })

abbrev pub total_fee_bps : FeeBps → ℕ
total_fee_bps fees = fees.lp_bps + fees.protocol_bps + fees.creator_bps

-- `(quote * 10_000n) / (10_000n + totalFeeBps)`
unfoldable pub floor_quote_of : FeeBps → ℕ → ℕ
floor_quote_of fees q = q * 10_000 / (10_000 + total_fee_bps fees)

unfoldable pub buy_quote_input : PoolMathState → FeeBps → ℤ → Result BuyQuoteResult
unfolding effective_quote_reserve charges floor_quote_of spend_paid
buy_quote_input s fees quote = do
  eff_q ← effective_quote_reserve s
  exit_if (leb_ℤ quote (pos 0)) (fail zero_amount)
  paid ← charges fees (floor_quote_of fees (pos_part quote))
  spend_paid s eff_q (pos_part quote) (floor_quote_of fees (pos_part quote)) paid

pub record SellResult : Type 0 where
  pub base_in : ℕ
  pub quote_amount_out : ℕ
  pub paid : Charges
  pub user_quote_out : ℤ
  pub eff_q : ℕ

-- `sellBaseInput` after the fees are taken.
unfoldable pub sell_paid : PoolMathState → ℕ → ℕ → ℕ → Charges → Result SellResult
sell_paid s eff_q b quote_amount_out paid = do
  exit_if (ltb_ℤ (pos s.quote_reserve) (pos quote_amount_out -ℤ pos paid.lp_fee))
      (fail boost_real_reserve_cap)
  let user_quote_out = pos quote_amount_out -ℤ pos (sum_of paid)
  exit_if (leb_ℤ user_quote_out (pos 0)) (fail zero_out)
  ok (record {
    base_in = b;
    quote_amount_out = quote_amount_out;
    paid = paid;
    user_quote_out = user_quote_out;
    eff_q = eff_q;
  })

unfoldable pub quote_out_of : PoolMathState → ℕ → ℕ → ℕ
quote_out_of s eff_q b = eff_q * b / (s.base_reserve + b)

unfoldable pub sell_base_input : PoolMathState → FeeBps → ℤ → Result SellResult
unfolding effective_quote_reserve charges quote_out_of sell_paid
sell_base_input s fees base_in = do
  eff_q ← effective_quote_reserve s
  exit_if (leb_ℤ base_in (pos 0)) (fail zero_amount)
  paid ← charges fees (quote_out_of s eff_q (pos_part base_in))
  sell_paid s eff_q (pos_part base_in) (quote_out_of s eff_q (pos_part base_in)) paid
