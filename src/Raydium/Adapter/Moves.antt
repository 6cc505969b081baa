-- ===== src/Raydium/Adapter/Moves.antt =====
-- What `applySwap` of src/adapters/raydium_cpmm/adapter.ts does to a pool.
use text.Mathlib.Text.{◌==◌ as str_eq}
use text.Mathlib.TextEquality.{eq_iff}
use atomarb.Common.{
  ◌∙◌, ◌+◌, ◌*◌, ◌≤◌, ◌≡◌, refl, sym, subst, true, false, none, List, [], ◌∷◌, ok, ok_inj, Code,
  u64_max,
}
use atomarb.Common.Int.{pos_part}
use atomarb.Raydium.Layout.{PoolState, fee_rate_denominator}
use atomarb.Raydium.Params.{RaydiumCpmmParams}
use atomarb.Raydium.Pool.{TradeDirection, Reserves, apply_fee_update, vault_amount_without_fee}
use atomarb.Raydium.Swap.{SwapBaseInputOk, simulate_swap_base_input}
use atomarb.Adapter.{DecodedPool, Quote}
use atomarb.Raydium.Adapter.{String, RaydiumCpmmAdapter, params_of, Sides, sides_of}
use atomarb.Raydium.Adapter.Validate.{is_empty}
use atomarb.Raydium.Adapter.Runs.{IsHeld, Transferred, amount_of, mint_of, by_direction, apply_run}
use atomarb.Raydium.Adapter.Apply.{differs, moved, vault_a_after, vault_b_after, apply_swap}
use atomarb.Raydium.Adapter.Product.{moved-Transferred, grown}

-- What a quote that is applied does.
pub record IsMoved (self : RaydiumCpmmAdapter) (d : DecodedPool) (q : Quote) (e : DecodedPool)
    : Type 0 where
  pub current : q.state_hash ≡ d.state_hash
  pub accepted : q.reject_reasons ≡ []
  pub transferred : Transferred d q e
  pub held : IsHeld e
  pub product : d.reserve_a * d.reserve_b ≤ e.reserve_a * e.reserve_b
  pub same_mints : (e.mint_a ≡ d.mint_a) × (e.mint_b ≡ d.mint_b) × (e.address ≡ d.address)

empty_of : (cs : List Code) → is_empty cs ≡ true → cs ≡ []
unfolding is_empty
empty_of [] h = refl
empty_of (c ∷ cs) h = cc

params_same :
    (d : DecodedPool) (p r : RaydiumCpmmParams)
    → params_of d.params ≡ ok p
    → params_of d.params ≡ ok r
    → p ≡ r
params_same d p r h k = ok_inj (sym h ∙ k)

eq_of_str : (a b : String) → str_eq a b ≡ true → a ≡ b
eq_of_str a b h = (eq_iff a b).0 h

-- The record that is returned, in either direction.
moved-IsMoved :
    (t : TradeDirection) (self : RaydiumCpmmAdapter) (p : RaydiumCpmmParams) (d : DecodedPool)
    (q : Quote) (pool : PoolState) (v w : Reserves) (r : SwapBaseInputOk)
    → str_eq q.state_hash d.state_hash ≡ true
    → is_empty q.reject_reasons ≡ true
    → p.config.protocol_fee_rate + p.config.fund_fee_rate ≤ fee_rate_denominator
    → d.vault_a.amount ≤ u64_max
    → d.vault_b.amount ≤ u64_max
    → (w.reserve_0 ≡ d.reserve_a) × (w.reserve_1 ≡ d.reserve_b)
    → vault_amount_without_fee p.pool d.vault_a.amount d.vault_b.amount ≡ ok w
    → differs r q ≡ false
    → q.input_mint ≡ mint_of t d
    → simulate_swap_base_input (sides_of p d t).ctx q.amount_in none ≡ ok r
    → apply_fee_update p.pool
        (sides_of p d t).direction
        r.is_creator_fee_on_input
        r.curve.protocol_fee
        r.curve.fund_fee
        r.curve.creator_fee
      ≡ ok pool
    → vault_amount_without_fee pool
        (vault_a_after (sides_of p d t) r)
        (vault_b_after (sides_of p d t) r)
      ≡ ok v
    → let s = sides_of p d t in
      IsMoved self d q (moved self p d q pool (vault_a_after s r) (vault_b_after s r) v)
unfolding moved params_of
moved-IsMoved t self p d q pool v w r hash bare rates ua ub wr ew same m e eu ev =
    let n = pos_part q.amount_in in
    let k = amount_of (sides_of p d t) q.amount_in r e in
    let s = sides_of p d t in
    record {
      current = eq_of_str q.state_hash d.state_hash hash;
      accepted = empty_of q.reject_reasons bare;
      transferred = moved-Transferred t self p d q pool v r n m k same;
      held = record {
        params = record p { pool = pool };
        fees = v;
        params_eq = refl;
        reserves_eq = ev;
        held_a = refl;
        held_b = refl;
      };
      product = rw (← wr.0, ← wr.1) (grown t p d pool v w r n rates ua ub ew k eu ev);
      same_mints = (refl, refl, refl);
    }

-- Applying a quote to a pool whose reserves are its vaults less the fees it owes: the quote was made on
-- this very state and has no reason to reject; the vault of its input mint grows by what it says goes
-- in, the other falls by what it says goes out; the reserves are again the vaults less the fees owed,
-- their product does not fall, and the mints and the address stay. Supposes that protocol and fund rate
-- are together at most 100%, and that the vaults are u64s.
pub apply_swap-IsMoved :
    (self : RaydiumCpmmAdapter) (d : DecodedPool) (q : Quote) (e : DecodedPool) (held : IsHeld d)
    → (held.params).config.protocol_fee_rate + (held.params).config.fund_fee_rate
      ≤ fee_rate_denominator
    → d.vault_a.amount ≤ u64_max
    → d.vault_b.amount ≤ u64_max
    → apply_swap self d q ≡ ok e
    → IsMoved self d q e
apply_swap-IsMoved self d q e held rates ua ub h =
    let run = apply_run self d q e h in
    let p = run.params in
    let s = run.sides in
    let r = run.swap in
    let same : held.params ≡ p = params_same d held.params p held.params_eq run.params_eq in
    subst (IsMoved self d q) run.result_eq (
      by_direction p d q.input_mint s
        (λ (s : Sides).
          simulate_swap_base_input s.ctx q.amount_in none ≡ ok r
          → apply_fee_update p.pool s.direction r.is_creator_fee_on_input r.curve.protocol_fee
              r.curve.fund_fee r.curve.creator_fee
            ≡ ok run.pool
          → vault_amount_without_fee run.pool (vault_a_after s r) (vault_b_after s r)
            ≡ ok run.reserves
          → IsMoved self d q
              (moved self p d q run.pool (vault_a_after s r) (vault_b_after s r) run.reserves))
        run.sides_eq
        (λ t m.
          moved-IsMoved t self p d q run.pool run.reserves held.fees r run.current run.bare
            (subst
              (λ (p : RaydiumCpmmParams).
                p.config.protocol_fee_rate + p.config.fund_fee_rate ≤ fee_rate_denominator)
              same rates)
            ua ub (held.held_a, held.held_b)
            (subst
              (λ (p : RaydiumCpmmParams).
                vault_amount_without_fee p.pool d.vault_a.amount d.vault_b.amount ≡ ok held.fees)
              same held.reserves_eq)
            run.same m)
        run.swap_eq run.pool_eq run.reserves_eq)
