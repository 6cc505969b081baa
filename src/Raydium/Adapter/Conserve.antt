-- ===== src/Raydium/Adapter/Conserve.antt =====
-- What an accepted quote of src/adapters/raydium_cpmm/adapter.ts accounts for.
use atomarb.Common.{
  ◌∙◌, ℕ, ◌≤◌, ◌<◌, ◌≡◌, ◌≢◌, refl, sym, ap, subst, none, List, [], ◌∷◌, Result, ok, err, null,
  fail, throw, overflow, overflowed, range, ok_inj, on_ok, ◌>>=◌, or_exit, Code,
}
use atomarb.Common.Int.{ℤ, pos, negsuc, ◌+ℤ◌, int_laws}
use atomarb.Raydium.Layout.{PublicKey}
use atomarb.Raydium.Params.{RaydiumCpmmParams}
use atomarb.Raydium.Curve.Input.{run-creator_zero}
use atomarb.Raydium.Pool.{fee_rates_of, adjust_creator_fee_rate}
use atomarb.Raydium.Swap.{SwapBaseInputOk, simulate_swap_base_input}
use atomarb.Raydium.Swap.Input.{swap_run}
use atomarb.Raydium.Swap.Settle.{simulate_swap_base_input-IsSettled, run-curve}
use atomarb.Adapter.{DecodedPool, Quote}
use atomarb.Raydium.Adapter.{RaydiumCpmmAdapter, params_of, Sides, swap_context, now_of}
use atomarb.Raydium.Adapter.Quote.{rejected, accepted, quote_of, gate, gated, quote_exact_in}
use atomarb.Raydium.Adapter.Fees.{fees_in_mint, get_transfer_fee-none, fee_items-sums}

-- The calls behind a quote with no reason to reject.
pub record QuoteRun (self : RaydiumCpmmAdapter) (d : DecodedPool) (mint : PublicKey) (x : ℤ)
    (q : Quote) : Type 0 where
  pub params : RaydiumCpmmParams
  pub sides : Sides
  pub swap : SwapBaseInputOk
  pub params_eq : params_of d.params ≡ ok params
  pub sides_eq : swap_context params d mint ≡ ok sides
  pub swap_eq : simulate_swap_base_input sides.ctx x none ≡ ok swap
  pub quote_eq : accepted self params d sides x swap ≡ q

not_rejected :
    (self : RaydiumCpmmAdapter) (p : RaydiumCpmmParams) (d : DecodedPool) (s : Sides) (x : ℤ)
    (c : Code) (cs : List Code) (q : Quote)
    → ok (rejected self p d s x (c ∷ cs)) ≡ ok q
    → q.reject_reasons ≢ []
unfolding rejected
not_rejected self p d s x c cs q h e =
    let k : c ∷ cs ≡ q.reject_reasons = ap Quote.reject_reasons (ok_inj h) in cc

module _ (self : RaydiumCpmmAdapter) (p : RaydiumCpmmParams) (d : DecodedPool) (mint : PublicKey)
    (x : ℤ) (s : Sides) (q : Quote) (ep : params_of d.params ≡ ok p)
    (es : swap_context p d mint ≡ ok s) (bare : q.reject_reasons ≡ []) where
  quote_of-run :
      (m : Result SwapBaseInputOk)
      → simulate_swap_base_input s.ctx x none ≡ m
      → quote_of self p d s x m ≡ ok q
      → QuoteRun self d mint x q
  unfolding quote_of
  quote_of-run (ok r) e h = record {
    params = p;
    sides = s;
    swap = r;
    params_eq = ep;
    sides_eq = es;
    swap_eq = e;
    quote_eq = ok_inj h;
  }
  quote_of-run (err (fail c)) e h = absurd (not_rejected self p d s x c [] q h bare)
  quote_of-run (err null) e h = cc
  quote_of-run (err (throw overflow)) e h =
      absurd (not_rejected self p d s x overflowed [] q h bare)
  quote_of-run (err (throw t)) e h = cc

  gated-run : (cs : List Code) → gated self p d s x cs ≡ ok q → QuoteRun self d mint x q
  unfolding gated
  gated-run [] h = quote_of-run (simulate_swap_base_input s.ctx x none) refl h
  gated-run (c ∷ cs) h = absurd (not_rejected self p d s x c cs q h bare)

pub quote_run :
    (self : RaydiumCpmmAdapter) (d : DecodedPool) (mint : PublicKey) (x : ℤ) (q : Quote)
    → quote_exact_in self d mint x ≡ ok q
    → q.reject_reasons ≡ []
    → QuoteRun self d mint x q
unfolding quote_exact_in
quote_run self d mint x q h bare =
    let third = λ (p : RaydiumCpmmParams) (s : Sides) (now : ℤ). gated self p d s x (gate p now) in
    let second = λ (p : RaydiumCpmmParams) (s : Sides).
      or_exit (now_of self p d) (throw range) >>= third p s in
    on_ok (params_of d.params) (λ p. swap_context p d mint >>= second p) h
      λ p ep h1. on_ok (swap_context p d mint) (second p) h1 λ s es h2.
        on_ok (or_exit (now_of self p d) (throw range)) (third p s) h2
          λ now en h3. gated-run self p d mint x s q ep es bare (gate p now) h3

rate_zero :
    (s : Sides) (r : SwapBaseInputOk)
    → r.creator_fee_rate ≡ adjust_creator_fee_rate s.ctx.pool s.ctx.config.creator_fee_rate
    → r.creator_fee_rate ≡ 0
    → (fee_rates_of s.ctx.config s.ctx.pool).creator_fee_rate ≡ 0
unfolding fee_rates_of
rate_zero s r h z = sym h ∙ z

-- Where the amounts of a quote go.
pub record IsExact (q : Quote) (r : SwapBaseInputOk) : Type 0 where
  pub sent : q.amount_in ≡ fees_in_mint q.input_mint q.fees +ℤ pos r.curve.input_amount_less_fees
  pub received :
      pos r.curve.output_amount_swapped ≡ fees_in_mint q.output_mint q.fees +ℤ q.amount_out_to_user
  pub credited : (0 < r.amount_received) × (q.amount_out_to_user ≡ pos r.amount_received)
  pub product : r.constant_before ≤ r.constant_after

accepted-IsExact :
    (self : RaydiumCpmmAdapter) (p : RaydiumCpmmParams) (d : DecodedPool) (s : Sides) (n : ℕ)
    (r : SwapBaseInputOk)
    → s.in_mint.mint ≢ s.out_mint.mint
    → simulate_swap_base_input s.ctx (pos n) none ≡ ok r
    → IsExact (accepted self p d s (pos n) r) r
unfolding accepted
accepted-IsExact self p d s n r apart e =
    let run = swap_run s.ctx n none e in
    let settled = simulate_swap_base_input-IsSettled s.ctx n none r e in
    let (sum_in, sum_out) =
      fee_items-sums s r apart (λ z. run-creator_zero (rate_zero s r run.rate z) (run-curve run))
        (get_transfer_fee-none s.ctx.input_mint s.ctx.epoch n r.transfer_fee_in run.fee_in_eq)
        (get_transfer_fee-none s.ctx.output_mint s.ctx.epoch r.amount_out r.transfer_fee_out
          run.fee_out_eq) in
    record {
      sent = rw sum_in (omega (int_laws, settled.sent));
      received = rw sum_out (omega (int_laws, settled.received));
      credited = (settled.received_pos, refl);
      product = settled.product;
    }

accepted_exactly :
    (self : RaydiumCpmmAdapter) (p : RaydiumCpmmParams) (d : DecodedPool) (s : Sides) (x : ℤ)
    (r : SwapBaseInputOk)
    → s.in_mint.mint ≢ s.out_mint.mint
    → simulate_swap_base_input s.ctx x none ≡ ok r
    → IsExact (accepted self p d s x r) r
unfolding simulate_swap_base_input
accepted_exactly self p d s (pos n) r apart e = accepted-IsExact self p d s n r apart e
accepted_exactly self p d s (negsuc n) r apart e = cc

apart_of :
    (self : RaydiumCpmmAdapter) (d : DecodedPool) (mint : PublicKey) (x : ℤ) (q : Quote)
    → (run : QuoteRun self d mint x q) → q.input_mint ≢ q.output_mint
    → (run.sides).in_mint.mint ≢ (run.sides).out_mint.mint
unfolding accepted
apart_of self d mint x q run apart =
    subst (λ (q : Quote). q.input_mint ≢ q.output_mint) (sym run.quote_eq) apart

-- A quote with no reason to reject is exact, when the pool's two mints differ: what the user sends is
-- the fee items in the input's mint and what goes into the curve; what leaves the curve is the fee
-- items in the output's mint and what the user gets, which is more than 0; and the product of the
-- reserves does not fall.
pub quote_exact_in-IsExact :
    (self : RaydiumCpmmAdapter) (d : DecodedPool) (mint : PublicKey) (x : ℤ) (q : Quote)
    → q.input_mint ≢ q.output_mint
    → quote_exact_in self d mint x ≡ ok q
    → q.reject_reasons ≡ []
    → (run : QuoteRun self d mint x q) × IsExact q run.swap
quote_exact_in-IsExact self d mint x q apart h bare =
    let run = quote_run self d mint x q h bare in
    (
      run,
      subst (λ (q : Quote). IsExact q run.swap) run.quote_eq
          (accepted_exactly self run.params d run.sides x run.swap
            (apart_of self d mint x q run apart) run.swap_eq),
    )
