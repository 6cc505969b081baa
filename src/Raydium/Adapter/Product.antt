-- ===== src/Raydium/Adapter/Product.antt =====
-- The vaults behind `applySwap` of src/adapters/raydium_cpmm/adapter.ts, and the product of the reserves.
use atomarb.Common.{
  ◌∙◌, ℕ, ◌+◌, ◌*◌, ◌≤◌, ◌≡◌, sym, subst, false, inl, inr, none, ok, ok_inj, u64_max, arith,
}
use atomarb.Common.Int.{pos, int_laws}
use atomarb.Raydium.Layout.{PoolState, fee_rate_denominator}
use atomarb.Raydium.Params.{RaydiumCpmmParams}
use atomarb.Raydium.Pool.{
  TradeDirection, zero_for_one, one_for_zero, Reserves, apply_fee_update, vault_amount_without_fee,
}
use atomarb.Raydium.Swap.{
  SwapBaseInputOk, simulate_swap_base_input, reserves_by, reserves_for, SwapContext,
}
use atomarb.Raydium.Swap.Input.{swap_run}
use atomarb.Raydium.Swap.Sides.{fees_in, fees_out, reserves_by_lem}
use atomarb.Raydium.Pool.Counters.{vault_amount_without_fee_lem}
use atomarb.Common.Div.{mul_mono_l}
use atomarb.Raydium.Swap.Settle.{next_reserves, lp_fee, simulate_swap_base_input-IsSettled}
use atomarb.Adapter.{DecodedPool, Quote}
use atomarb.Raydium.Adapter.{RaydiumCpmmAdapter, sides_of}
use atomarb.Raydium.Adapter.Runs.{Transferred, same_of, mint_of}
use atomarb.Raydium.Adapter.Apply.{differs, moved, vault_a_after, vault_b_after}

-- The vaults behind the swap, in either direction.
pub moved-Transferred :
    (t : TradeDirection) (self : RaydiumCpmmAdapter) (p : RaydiumCpmmParams) (d : DecodedPool)
    (q : Quote) (pool : PoolState) (v : Reserves) (r : SwapBaseInputOk) (n : ℕ)
    → q.input_mint ≡ mint_of t d
    → simulate_swap_base_input (sides_of p d t).ctx (pos n) none ≡ ok r
    → differs r q ≡ false
    → let s = sides_of p d t in
      Transferred d q (moved self p d q pool (vault_a_after s r) (vault_b_after s r) v)
unfolding moved sides_of
moved-Transferred zero_for_one self p d q pool v r n m e h =
    let run = swap_run (sides_of p d zero_for_one).ctx n none e in
    let (i, o, u) = same_of r q h in
    inl (m, rw (← i) (omega (int_laws, run.vault_in)), rw (← o) (omega (int_laws, run.vault_out)))
moved-Transferred one_for_zero self p d q pool v r n m e h =
    let run = swap_run (sides_of p d one_for_zero).ctx n none e in
    let (i, o, u) = same_of r q h in
    inr (m, rw (← i) (omega (int_laws, run.vault_in)), rw (← o) (omega (int_laws, run.vault_out)))

-- What is left of the vaults behind the swap, less the fees that are owed then, against what was left
-- before.
product_grows :
    (ctx : SwapContext) (r : SwapBaseInputOk) (pool : PoolState) (n win wout vin vout : ℕ)
    → ctx.config.protocol_fee_rate + ctx.config.fund_fee_rate ≤ fee_rate_denominator
    → ctx.output_vault_amount ≤ u64_max
    → simulate_swap_base_input ctx (pos n) none ≡ ok r
    → apply_fee_update ctx.pool ctx.direction r.is_creator_fee_on_input r.curve.protocol_fee
        r.curve.fund_fee r.curve.creator_fee
      ≡ ok pool
    → win + fees_in ctx.direction ctx.pool ≡ ctx.input_vault_amount
    → wout + fees_out ctx.direction ctx.pool ≡ ctx.output_vault_amount
    → vin + fees_in ctx.direction pool ≡ r.vault_in_after
    → vout + fees_out ctx.direction pool ≡ r.vault_out_after
    → win * wout ≤ vin * vout
unfolding reserves_for
product_grows ctx r pool n win wout vin vout rates u e eu wi wo vi vo =
    let run = swap_run ctx n none e in
    let settled = simulate_swap_base_input-IsSettled ctx n none r e in
    let (p, up, rp) = next_reserves ctx n none r rates u e in
    let same : p ≡ pool = ok_inj (sym up ∙ eu) in
    let (next_in, next_out) =
      reserves_by_lem ctx.direction pool r.vault_in_after r.vault_out_after
        (record {
          reserve_in = r.curve.new_input_vault_amount + lp_fee r.curve;
          reserve_out = r.curve.new_output_vault_amount;
        })
        (subst
          (λ (p : PoolState).
            reserves_by ctx.direction p r.vault_in_after r.vault_out_after
            ≡ ok (record {
              reserve_in = r.curve.new_input_vault_amount + lp_fee r.curve;
              reserve_out = r.curve.new_output_vault_amount;
            }))
          same rp) in
    let (bi, bo) =
      reserves_by_lem ctx.direction ctx.pool ctx.input_vault_amount ctx.output_vault_amount
        (record { reserve_in = r.reserve_in; reserve_out = r.reserve_out }) run.reserves_eq in
    let a : win ≡ r.reserve_in = omega (arith, wi, bi) in
    let b : wout ≡ r.reserve_out = omega (arith, wo, bo) in
    let c : vout ≡ r.curve.new_output_vault_amount = omega (arith, vo, next_out) in
    let f : r.curve.new_input_vault_amount ≤ vin = omega (arith, vi, next_in) in
    rw (a, b, c)
      (omega (
        arith,
        settled.product,
        run.before,
        run.after,
        mul_mono_l r.curve.new_input_vault_amount vin r.curve.new_output_vault_amount f,
      ))

-- The product of the reserves, in either direction.
pub grown :
    (t : TradeDirection) (p : RaydiumCpmmParams) (d : DecodedPool) (pool : PoolState)
    (v w : Reserves) (r : SwapBaseInputOk) (n : ℕ)
    → p.config.protocol_fee_rate + p.config.fund_fee_rate ≤ fee_rate_denominator
    → d.vault_a.amount ≤ u64_max
    → d.vault_b.amount ≤ u64_max
    → vault_amount_without_fee p.pool d.vault_a.amount d.vault_b.amount ≡ ok w
    → simulate_swap_base_input (sides_of p d t).ctx (pos n) none ≡ ok r
    → apply_fee_update p.pool
        (sides_of p d t).direction
        r.is_creator_fee_on_input
        r.curve.protocol_fee
        r.curve.fund_fee
        r.curve.creator_fee
      ≡ ok pool
    → vault_amount_without_fee pool
        (vault_a_after (sides_of p d t) r)
        (vault_b_after (sides_of p d t) r)
      ≡ ok v
    → w.reserve_0 * w.reserve_1 ≤ v.reserve_0 * v.reserve_1
unfolding sides_of
grown zero_for_one p d pool v w r n rates ua ub ew e eu ev =
    let (w0, w1, wa, wb) =
      vault_amount_without_fee_lem p.pool d.vault_a.amount d.vault_b.amount w ew in
    let (v0, v1, va, vb) =
      vault_amount_without_fee_lem pool r.vault_in_after r.vault_out_after v ev in
    product_grows (sides_of p d zero_for_one).ctx r pool n w.reserve_0 w.reserve_1 v.reserve_0
      v.reserve_1 rates ub e eu w0 w1 v0 v1
grown one_for_zero p d pool v w r n rates ua ub ew e eu ev =
    let (w0, w1, wa, wb) =
      vault_amount_without_fee_lem p.pool d.vault_a.amount d.vault_b.amount w ew in
    let (v0, v1, va, vb) =
      vault_amount_without_fee_lem pool r.vault_out_after r.vault_in_after v ev in
    omega (
      arith,
      product_grows (sides_of p d one_for_zero).ctx r pool n w.reserve_1 w.reserve_0 v.reserve_1
          v.reserve_0 rates ua e eu w1 w0 v1 v0,
    )
