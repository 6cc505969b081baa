-- ===== src/Pumpswap/Adapter/Quote.antt =====
-- `quoteExactIn` and `spendableBudgetFor` of src/adapters/pumpswap/adapter.ts. Prices in floating point
-- and the notes for an audit, which nothing reads, are left out, and so are the basis points of a fee
-- item: `tf!.bps` reads a tier that the gate sets whenever it sets the two tiers.
use Prim.Native.String.{String}
use atomarb.Common.{
  same_mint_both_sides, sell_disabled, mint_not_in_pool, buy_disabled, ℕ, Bool, true, false, not,
  ◌&&◌, Option, none, some, List, [], ◌∷◌, ◌++◌, Result, ok, err, null, fail, throw,
  negative_operand, zero_amount, amount_too_small, Code, ◌>>=◌, ◌>>◌, exit_if, ltb, ◌==◌,
  if◌then◌else◌,
}
use atomarb.Common.Int.{ℤ, pos, negsuc, ◌+ℤ◌, ◌-ℤ◌, leb_ℤ}
use atomarb.Raydium.Layout.{PublicKey}
use atomarb.Raydium.TransferFee.{TransferFeeTier, TransferFeeConfigView}
use atomarb.Raydium.Adapter.Validate.{failing}
use atomarb.Raydium.Adapter.Quote.{fee_item}
use atomarb.Pumpswap.Params.{PumpswapParams}
use atomarb.Pumpswap.Schedule.{FeeSchedule}
use atomarb.Pumpswap.Math.{
  PoolMathState, FeeBps, Charges, BuyQuoteResult, SellResult, buy_quote_input, sell_base_input,
}
use atomarb.Pumpswap.TransferFee.{transfer_fee_amount_worst_case}
use atomarb.Adapter.{pumpswap, DecodedPool, FeeItem, Quote}
use atomarb.Pumpswap.Adapter.{
  PumpswapAdapter, pumpswap_params, schedule, fees_of, math_state, pool_accounts, is_buy_disabled,
  is_sell_disabled,
}

-- `ceilDiv` throws at an amount below 0; a rate of 0 takes no fee of it.
unfoldable pub fee_below_zero : Option TransferFeeTier → Result ℕ
fee_below_zero none = ok 0
fee_below_zero (some fee) = if fee.bps == 0 then ok 0 else err (throw negative_operand)

unfoldable pub worst_below_zero : Option TransferFeeConfigView → Option TransferFeeTier → Result ℕ
unfolding fee_below_zero
worst_below_zero none fallback = fee_below_zero fallback
worst_below_zero (some tiers) fallback = do
  a ← fee_below_zero (some tiers.older)
  b ← fee_below_zero (some tiers.newer)
  ok (if ltb b a then a else b)

-- `transferFeeAmountWorstCase` of any amount.
unfoldable pub transfer_fee_of :
    ℤ → Option TransferFeeConfigView → Option TransferFeeTier → Result ℕ
unfolding transfer_fee_amount_worst_case worst_below_zero
transfer_fee_of (pos n) tiers fallback = transfer_fee_amount_worst_case n tiers fallback
transfer_fee_of (negsuc n) tiers fallback = worst_below_zero tiers fallback

-- What every quote of the call has in common.
pub record Base : Type 0 where
  pub pool : DecodedPool
  pub needed : List PublicKey
  pub reasons : List Code

unfoldable pub quote_with :
    Base
    → (input output : PublicKey) → (amount_in out vault_in vault_out : ℤ) → List FeeItem
    → List Code
    → Quote
quote_with b input output amount_in out vault_in vault_out fees more = record {
  adapter = pumpswap;
  pool = b.pool.address;
  input_mint = input;
  output_mint = output;
  amount_in = amount_in;
  amount_out_to_user = out;
  vault_in_delta = vault_in;
  vault_out_delta = vault_out;
  fees = fees;
  accounts_needed = b.needed;
  state_hash = b.pool.state_hash;
  min_slot = b.pool.snapshot.min_slot;
  max_slot = b.pool.snapshot.max_slot;
  reject_reasons = b.reasons ++ more;
}

-- `if (amount > 0n) fs.push(…)`
unfoldable pub if_charged : String → ℕ → PublicKey → String → List FeeItem
if_charged name amount mint recipient =
    if ltb 0 amount then fee_item name (pos amount) mint recipient ∷ [] else []

unfoldable pub fee_items : DecodedPool → Charges → ℕ → List FeeItem
unfolding if_charged
fee_items d paid transfer_fee =
    fee_item "lp_fee" (pos paid.lp_fee) d.mint_b.mint "lp"
      ∷ fee_item "protocol_fee" (pos paid.protocol_fee) d.mint_b.mint "protocol"
      ∷ if_charged "coin_creator_fee" paid.creator_fee d.mint_b.mint "creator"
    ++ if_charged "token2022_transfer_fee" transfer_fee d.mint_a.mint "token2022_transfer_fee"

-- A buy, by how the math ends.
unfoldable pub buy_quote :
    PumpswapParams → DecodedPool → Base → ℤ → Result BuyQuoteResult → Result Quote
unfolding quote_with fee_items transfer_fee_amount_worst_case ◌+ℤ◌ ◌-ℤ◌
buy_quote p d b x (err (fail code)) =
    ok (quote_with b d.mint_b.mint d.mint_a.mint x (pos 0) (pos 0) (pos 0) [] (code ∷ []))
buy_quote p d b x (err null) = err null
buy_quote p d b x (err (throw t)) = err (throw t)
buy_quote p d b x (ok r) = do
  transfer_fee ←
      transfer_fee_amount_worst_case r.base_out p.token_2022.transfer_fee_tiers
        p.token_2022.transfer_fee
  ok (
      quote_with b d.mint_b.mint d.mint_a.mint r.total_with_fees
        (pos r.base_out -ℤ pos transfer_fee) (r.effective_quote +ℤ pos r.paid.lp_fee)
        (pos r.base_out) (fee_items d r.paid transfer_fee) [])

-- A sale, by how the math ends.
unfoldable pub sell_quote : DecodedPool → Base → ℤ → ℕ → Result SellResult → Result Quote
unfolding quote_with fee_items ◌-ℤ◌
sell_quote d b x transfer_fee (err (fail code)) =
    ok (quote_with b d.mint_a.mint d.mint_b.mint x (pos 0) (pos 0) (pos 0) [] (code ∷ []))
sell_quote d b x transfer_fee (err null) = err null
sell_quote d b x transfer_fee (err (throw t)) = err (throw t)
sell_quote d b x transfer_fee (ok r) = ok (
    quote_with b d.mint_a.mint d.mint_b.mint x r.user_quote_out (x -ℤ pos transfer_fee)
      (pos r.quote_amount_out -ℤ pos r.paid.lp_fee) (fee_items d r.paid transfer_fee) [])

-- The reasons that are known before the math.
unfoldable pub early_reasons : PumpswapParams → Bool → ℤ → List Code
unfolding failing is_buy_disabled is_sell_disabled
early_reasons p is_buy x =
    failing (
      (is_buy_disabled p.global_config.disable_flags && is_buy, buy_disabled)
      ∷ (is_sell_disabled p.global_config.disable_flags && not is_buy, sell_disabled)
      ∷ [])
    ++ (p.token_2022.rejects ++ failing ((leb_ℤ x (pos 0), zero_amount) ∷ []))

-- The body behind the choice of the side.
unfoldable pub priced : PumpswapParams → DecodedPool → Base → FeeSchedule → Bool → ℤ → Result Quote
unfolding buy_quote sell_quote buy_quote_input sell_base_input transfer_fee_of
priced p d b sched true x = buy_quote p d b x (buy_quote_input (math_state p d) (fees_of sched) x)
priced p d b sched false x = do
  transfer_fee ← transfer_fee_of x p.token_2022.transfer_fee_tiers p.token_2022.transfer_fee
  sell_quote d b x transfer_fee (sell_base_input (math_state p d) (fees_of sched) x)

unfoldable pub quote_exact_in : PumpswapAdapter → DecodedPool → PublicKey → ℤ → Result Quote
unfolding pumpswap_params schedule pool_accounts early_reasons priced
quote_exact_in self d input_mint amount_in = do
  p ← pumpswap_params d
  let is_buy = input_mint == d.mint_b.mint
  let is_sell = input_mint == d.mint_a.mint
  exit_if (not is_buy && not is_sell) (fail mint_not_in_pool)
  exit_if (is_buy && is_sell) (fail same_mint_both_sides)
  sched ← schedule self p d
  needed ← pool_accounts self p d
  priced p d (record { pool = d; needed = needed; reasons = early_reasons p is_buy amount_in })
      sched is_buy amount_in

-- The debit of a budget is at most the amount.
unfoldable pub debits_within : ℤ → Result BuyQuoteResult → Result Bool
debits_within amount_in (ok r) = ok (leb_ℤ r.total_with_fees amount_in)
debits_within amount_in (err (fail code)) = ok false
debits_within amount_in (err null) = err null
debits_within amount_in (err (throw t)) = err (throw t)

-- The loop over the budgets.
unfoldable pub first_within : PoolMathState → FeeBps → ℤ → List ℤ → Result ℤ
unfolding debits_within buy_quote_input
first_within s fees amount_in [] = err (fail amount_too_small)
first_within s fees amount_in (budget ∷ budgets) =
    debits_within amount_in (buy_quote_input s fees budget) >>= λ within.
    if within then ok budget else first_within s fees amount_in budgets

unfoldable pub budget_for : PoolMathState → FeeBps → ℤ → Result ℤ
unfolding first_within ◌+ℤ◌
budget_for s fees amount_in = first_within s fees amount_in ((amount_in +ℤ pos 1) ∷ amount_in ∷ [])

unfoldable pub spendable_budget_for : PumpswapAdapter → DecodedPool → ℤ → Result ℤ
unfolding pumpswap_params schedule budget_for
spendable_budget_for self d amount_in = do
  p ← pumpswap_params d
  sched ← schedule self p d
  budget_for (math_state p d) (fees_of sched) amount_in
