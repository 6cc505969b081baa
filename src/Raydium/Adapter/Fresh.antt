-- ===== src/Raydium/Adapter/Fresh.antt =====
-- `applySwap` of src/adapters/raydium_cpmm/adapter.ts takes every quote that was made on the pool.
use text.Mathlib.Text.{◌==◌ as str_eq}
use text.Mathlib.TextEquality.{eq_iff}
use atomarb.Common.{
  ℕ, ◌+◌, ◌≤◌, ◌≡◌, ◌∙◌, refl, sym, subst, true, false, none, [], ok, on_ok, ok_inj, u64_max,
  if◌then◌else◌, arith,
}
use atomarb.Common.Int.{ℤ, pos_part}
use atomarb.Raydium.Layout.{PublicKey, PoolState, fee_rate_denominator}
use atomarb.Raydium.Params.{RaydiumCpmmParams}
use atomarb.Raydium.Pool.{
  TradeDirection, zero_for_one, one_for_zero, is_zero_for_one, Reserves, vault_amount_without_fee,
}
use atomarb.Raydium.Swap.{SwapBaseInputOk, SwapReserves, simulate_swap_base_input, reserves_by}
use atomarb.Raydium.Swap.Settle.{next_reserves}
use atomarb.Adapter.{DecodedPool, Quote}
use atomarb.Raydium.Adapter.{String, RaydiumCpmmAdapter, params_of, Sides, sides_of, swap_context}
use atomarb.Raydium.Adapter.Quote.{accepted, quote_exact_in}
use atomarb.Raydium.Adapter.Conserve.{quote_run}
use atomarb.Raydium.Adapter.Decode.{on_throw}
use atomarb.Raydium.Adapter.Validate.{is_empty}
use atomarb.Raydium.Adapter.Runs.{amount_of, mint_of, by_direction}
use atomarb.Raydium.Adapter.Apply.{differs, moved, settled, apply_swap}

-- The reserves of the pool behind a swap exist.
vaults-ok :
    (t : TradeDirection) (p : PoolState) (vin vout : ℕ) (rr : SwapReserves)
    → reserves_by t p vin vout ≡ ok rr
    → (v : Reserves) × (vault_amount_without_fee p
          (if is_zero_for_one t then vin else vout)
          (if is_zero_for_one t then vout else vin)
        ≡ ok v)
unfolding reserves_by
vaults-ok zero_for_one p vin vout rr h =
    on_ok (vault_amount_without_fee p vin vout) _ h λ v e h1. (v, e)
vaults-ok one_for_zero p vin vout rr h =
    on_ok (vault_amount_without_fee p vout vin) _ h λ v e h1. (v, e)

own_amounts :
    (self : RaydiumCpmmAdapter) (p : RaydiumCpmmParams) (d : DecodedPool) (s : Sides) (x : ℤ)
    (r : SwapBaseInputOk)
    → differs r (accepted self p d s x r) ≡ false
unfolding differs accepted
own_amounts self p d s x r = ground arith

-- The body behind the simulation, on the quote that it came from.
settled-ok :
    (t : TradeDirection) (self : RaydiumCpmmAdapter) (p : RaydiumCpmmParams) (d : DecodedPool)
    (x : ℤ) (r : SwapBaseInputOk)
    → p.config.protocol_fee_rate + p.config.fund_fee_rate ≤ fee_rate_denominator
    → d.vault_a.amount ≤ u64_max
    → d.vault_b.amount ≤ u64_max
    → simulate_swap_base_input (sides_of p d t).ctx x none ≡ ok r
    → let s = sides_of p d t in
      (e : DecodedPool) × (settled self p d (accepted self p d s x r) s r ≡ ok e)
unfolding sides_of settled
settled-ok zero_for_one self p d x r rates ua ub h =
    let s = sides_of p d zero_for_one in
    let q = accepted self p d s x r in
    let k = amount_of s x r h in
    let (pool, up, rp) = next_reserves s.ctx (pos_part x) none r rates ub k in
    let (v, ev) = vaults-ok zero_for_one pool r.vault_in_after r.vault_out_after _ rp in
    (
      moved self p d q pool r.vault_in_after r.vault_out_after v,
      rw (own_amounts self p d s x r, up, ev) refl,
    )
settled-ok one_for_zero self p d x r rates ua ub h =
    let s = sides_of p d one_for_zero in
    let q = accepted self p d s x r in
    let k = amount_of s x r h in
    let (pool, up, rp) = next_reserves s.ctx (pos_part x) none r rates ua k in
    let (v, ev) = vaults-ok one_for_zero pool r.vault_in_after r.vault_out_after _ rp in
    (
      moved self p d q pool r.vault_out_after r.vault_in_after v,
      rw (own_amounts self p d s x r, up, ev) refl,
    )

own_mint :
    (t : TradeDirection) (p : RaydiumCpmmParams) (d : DecodedPool)
    → (sides_of p d t).in_mint.mint ≡ mint_of t d
unfolding sides_of
own_mint zero_for_one p d = refl
own_mint one_for_zero p d = refl

own_hash : (s : String) → str_eq s s ≡ true
own_hash s = (eq_iff s s).1 refl

-- The call, once the pieces are known.
apply_swap-eq :
    (self : RaydiumCpmmAdapter) (p : RaydiumCpmmParams) (d : DecodedPool) (s : Sides) (x : ℤ)
    (r : SwapBaseInputOk)
    → params_of d.params ≡ ok p
    → swap_context p d s.in_mint.mint ≡ ok s
    → simulate_swap_base_input s.ctx x none ≡ ok r
    → apply_swap self d (accepted self p d s x r) ≡ settled self p d (accepted self p d s x r) s r
unfolding apply_swap accepted is_empty on_throw
apply_swap-eq self p d s x r ep es er = rw (own_hash d.state_hash, ep, es, er) refl

-- A quote with no reason to reject can be applied to the pool that it was made on: none of the checks
-- fails, no counter overflows, and the vaults cover what is owed then. Supposes that protocol and fund
-- rate are together at most 100%, and that the vaults are u64s.
pub quote_exact_in-apply_swap :
    (self : RaydiumCpmmAdapter) (d : DecodedPool) (mint : PublicKey) (x : ℤ) (q : Quote)
    (p : RaydiumCpmmParams)
    → params_of d.params ≡ ok p
    → p.config.protocol_fee_rate + p.config.fund_fee_rate ≤ fee_rate_denominator
    → d.vault_a.amount ≤ u64_max
    → d.vault_b.amount ≤ u64_max
    → quote_exact_in self d mint x ≡ ok q
    → q.reject_reasons ≡ []
    → (e : DecodedPool) × (apply_swap self d q ≡ ok e)
quote_exact_in-apply_swap self d mint x q p ep rates ua ub h bare =
    let run = quote_run self d mint x q h bare in
    let same : run.params ≡ p = ok_inj (sym run.params_eq ∙ ep) in
    let es =
      subst (λ (p : RaydiumCpmmParams). swap_context p d mint ≡ ok run.sides) same run.sides_eq in
    let eq =
      subst (λ (p : RaydiumCpmmParams). accepted self p d run.sides x run.swap ≡ q) same
        run.quote_eq in
    subst (λ (q : Quote). (e : DecodedPool) × (apply_swap self d q ≡ ok e)) eq
      (by_direction p d mint run.sides
        (λ (s : Sides).
          simulate_swap_base_input s.ctx x none ≡ ok run.swap
          → swap_context p d mint ≡ ok s
          → (e : DecodedPool) × (apply_swap self d (accepted self p d s x run.swap) ≡ ok e))
        es
        (λ t m er ec.
          let (e, k) = settled-ok t self p d x run.swap rates ua ub er in
          (
            e,
            apply_swap-eq self p d (sides_of p d t) x run.swap ep
                  (subst (λ (k : PublicKey). swap_context p d k ≡ ok (sides_of p d t))
                    (m ∙ sym (own_mint t p d)) ec)
                  er
                ∙ k,
          ))
        run.swap_eq es)
