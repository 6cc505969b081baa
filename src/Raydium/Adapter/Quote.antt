-- ===== src/Raydium/Adapter/Quote.antt =====
-- `quoteExactIn` and `quoteExactOut` of src/adapters/raydium_cpmm/adapter.ts. The price impact and the
-- notes for an audit, which nothing reads, are left out.
use Prim.Native.String.{String}
use atomarb.Raydium.Decode.{is_swap_enabled}
use atomarb.Common.{
  overflowed, range, not_approved, ℕ, not, Option, none, some, List, [], ◌∷◌, ◌++◌, Result, ok, err,
  null, fail, throw, overflow, overflowed, Code, ◌>>=◌, or_exit, ltb, if◌then◌else◌,
}
use atomarb.Common.Int.{ℤ, pos, ◌-ℤ◌, ltb_ℤ}
use atomarb.Raydium.Layout.{PublicKey}
use atomarb.Raydium.Params.{RaydiumCpmmParams}
use atomarb.Raydium.TransferFee.{TransferFeeConfigView}
use atomarb.Raydium.Swap.{
  SwapBaseInputOk, SwapBaseOutputOk, simulate_swap_base_input, simulate_swap_base_output,
}
use atomarb.Adapter.{raydium_cpmm, DecodedPool, FeeItem, Quote}
use atomarb.Raydium.Adapter.{
  RaydiumCpmmAdapter, params_of, Sides, swap_context, accounts_needed, now_of,
}
use atomarb.Raydium.Adapter.Validate.{failing}

-- A quote with nothing but its reasons to reject.
unfoldable pub rejected :
    RaydiumCpmmAdapter → RaydiumCpmmParams → DecodedPool → Sides → ℤ → List Code → Quote
unfolding accounts_needed
rejected self p d s amount_in reasons = record {
  adapter = raydium_cpmm;
  pool = d.address;
  input_mint = s.in_mint.mint;
  output_mint = s.out_mint.mint;
  amount_in = amount_in;
  amount_out_to_user = pos 0;
  vault_in_delta = pos 0;
  vault_out_delta = pos 0;
  fees = [];
  accounts_needed = accounts_needed self p d;
  state_hash = d.state_hash;
  min_slot = d.snapshot.min_slot;
  max_slot = d.snapshot.max_slot;
  reject_reasons = reasons;
}

abbrev pub fee_item : String → ℤ → PublicKey → String → FeeItem
fee_item name amount mint recipient = record {
  name = name;
  amount = amount;
  mint = mint;
  recipient = recipient;
}

-- `if (r.creatorFeeRate > 0n)`
unfoldable pub creator_item : Sides → SwapBaseInputOk → List FeeItem
creator_item s r =
    if ltb 0 r.creator_fee_rate
    then fee_item "creator_fee" (pos r.curve.creator_fee)
        (if r.is_creator_fee_on_input then s.in_mint.mint else s.out_mint.mint) "creator"
      ∷ []
    else []

-- `if (ctx.inputMint.transferFee)`, and the same for the output.
unfoldable pub transfer_item : Option TransferFeeConfigView → String → ℕ → PublicKey → List FeeItem
transfer_item none name amount mint = []
transfer_item (some view) name amount mint =
    fee_item name (pos amount) mint "token2022_transfer_fee" ∷ []

unfoldable pub fee_items : Sides → SwapBaseInputOk → List FeeItem
unfolding creator_item transfer_item ◌-ℤ◌
fee_items s r =
    fee_item "lp_fee" (pos r.curve.trade_fee -ℤ pos r.curve.protocol_fee -ℤ pos r.curve.fund_fee)
        s.in_mint.mint "lp"
      ∷ fee_item "protocol_fee" (pos r.curve.protocol_fee) s.in_mint.mint "protocol"
      ∷ fee_item "fund_fee" (pos r.curve.fund_fee) s.in_mint.mint "fund"
      ∷ creator_item s r
    ++ (transfer_item s.ctx.input_mint.transfer_fee "token2022_transfer_fee_in" r.transfer_fee_in
          s.in_mint.mint
        ++ transfer_item s.ctx.output_mint.transfer_fee "token2022_transfer_fee_out"
            r.transfer_fee_out s.out_mint.mint)

unfoldable pub accepted :
    RaydiumCpmmAdapter → RaydiumCpmmParams → DecodedPool → Sides → ℤ → SwapBaseInputOk → Quote
unfolding accounts_needed fee_items
accepted self p d s amount_in r = record {
  adapter = raydium_cpmm;
  pool = d.address;
  input_mint = s.in_mint.mint;
  output_mint = s.out_mint.mint;
  amount_in = amount_in;
  amount_out_to_user = pos r.amount_received;
  vault_in_delta = pos r.actual_amount_in;
  vault_out_delta = pos r.amount_out;
  fees = fee_items s r;
  accounts_needed = accounts_needed self p d;
  state_hash = d.state_hash;
  min_slot = d.snapshot.min_slot;
  max_slot = d.snapshot.max_slot;
  reject_reasons = [];
}

-- The quote by how the simulation ends: an `OverflowError` is caught, any other error is not.
unfoldable pub quote_of :
    RaydiumCpmmAdapter
    → RaydiumCpmmParams
    → DecodedPool
    → Sides
    → ℤ
    → Result SwapBaseInputOk
    → Result Quote
unfolding rejected accepted
quote_of self p d s x (ok r) = ok (accepted self p d s x r)
quote_of self p d s x (err (fail code)) = ok (rejected self p d s x (code ∷ []))
quote_of self p d s x (err null) = err null
quote_of self p d s x (err (throw overflow)) = ok (rejected self p d s x (overflowed ∷ []))
quote_of self p d s x (err (throw t)) = err (throw t)

-- The program's gate before the math.
unfoldable pub gate : RaydiumCpmmParams → ℤ → List Code
unfolding is_swap_enabled failing
gate p now = failing (
    (not (is_swap_enabled p.pool.status), not_approved)
    ∷ (ltb_ℤ now (pos p.pool.open_time), not_approved)
    ∷ [])

-- The quote by the gate's reasons.
unfoldable pub gated :
    RaydiumCpmmAdapter → RaydiumCpmmParams → DecodedPool → Sides → ℤ → List Code → Result Quote
unfolding rejected quote_of simulate_swap_base_input
gated self p d s x [] = quote_of self p d s x (simulate_swap_base_input s.ctx x none)
gated self p d s x (c ∷ cs) = ok (rejected self p d s x (c ∷ cs))

-- A time that is unknown is NaN, which `BigInt` throws at.
unfoldable pub quote_exact_in : RaydiumCpmmAdapter → DecodedPool → PublicKey → ℤ → Result Quote
unfolding params_of swap_context now_of gate gated
quote_exact_in self d input_mint amount_in = do
  p ← params_of d.params
  s ← swap_context p d input_mint
  now ← or_exit (now_of self p d) (throw range)
  gated self p d s amount_in (gate p now)

-- An `OverflowError` is a failure of the quote.
unfoldable pub on_overflow {ℓ} : {A : Type ℓ} → Result A → Result A
on_overflow (ok a) = ok a
on_overflow (err null) = err null
on_overflow (err (fail code)) = err (fail code)
on_overflow (err (throw overflow)) = err (fail overflowed)
on_overflow (err (throw t)) = err (throw t)

unfoldable pub quote_exact_out :
    RaydiumCpmmAdapter → DecodedPool → PublicKey → ℤ → Result SwapBaseOutputOk
unfolding params_of swap_context on_overflow simulate_swap_base_output
quote_exact_out self d input_mint received = do
  p ← params_of d.params
  s ← swap_context p d input_mint
  on_overflow (simulate_swap_base_output s.ctx received none)
