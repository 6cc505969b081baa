-- ===== src/Raydium/Adapter/Runs.antt =====
-- The calls behind `applySwap` of src/adapters/raydium_cpmm/adapter.ts, and the direction of a swap.
use text.Mathlib.Text.{◌==◌ as str_eq}
use atomarb.Common.{
  ◌≡◌, ◌⊎◌, subst, Bool, true, false, not, ◌||◌, Bool-cases, inl, inr, none, Result, ok, fail, null,
  throw, err, ok_inj, on_ok, on_pass, ◌>>=◌, ◌>>◌, exit_if, Code, state_hash_mismatch,
  quote_rejected, quote_state_mismatch, mint_not_in_pool, overflowed, ◌==◌, arith,
}
use atomarb.Common.Int.{ℤ, pos, negsuc, pos_part, ◌+ℤ◌, eqb_ℤ, eq_of_parts}
use atomarb.Raydium.Layout.{PublicKey, PoolState}
use atomarb.Raydium.Params.{RaydiumCpmmParams}
use atomarb.Raydium.Pool.{
  TradeDirection, zero_for_one, one_for_zero, Reserves, apply_fee_update, vault_amount_without_fee,
}
use atomarb.Raydium.Swap.{SwapBaseInputOk, simulate_swap_base_input}
use atomarb.Adapter.{DecodedPool, Quote}
use atomarb.Raydium.Adapter.{RaydiumCpmmAdapter, params_of, Sides, sides_of, swap_context}
use atomarb.Raydium.Adapter.Decode.{on_throw}
use atomarb.Raydium.Adapter.Validate.{is_empty}
use atomarb.Raydium.Adapter.Apply.{
  differs, moved, vault_a_after, vault_b_after, settled, apply_swap,
}

-- The reserves of a pool are what its vaults hold less the fees that it owes.
pub record IsHeld (d : DecodedPool) : Type 0 where
  pub params : RaydiumCpmmParams
  pub fees : Reserves
  pub params_eq : params_of d.params ≡ ok params
  pub reserves_eq :
      vault_amount_without_fee (params.pool) d.vault_a.amount d.vault_b.amount ≡ ok fees
  pub held_a : fees.reserve_0 ≡ d.reserve_a
  pub held_b : fees.reserve_1 ≡ d.reserve_b

-- A swap context is that of one of the two directions.
pub swap_context-cases :
    (p : RaydiumCpmmParams) (d : DecodedPool) (mint : PublicKey) (s : Sides)
    → swap_context p d mint ≡ ok s
    → ((mint ≡ d.mint_a.mint) × (sides_of p d zero_for_one ≡ s))
      ⊎ ((mint ≡ d.mint_b.mint) × (sides_of p d one_for_zero ≡ s))
unfolding swap_context
swap_context-cases p d mint s h = elim (Bool-cases (mint == d.mint_a.mint)) [
  | inl a ↦ inl (ground arith, ok_inj (rw a at h))
  | inr a ↦ elim (Bool-cases (mint == d.mint_b.mint)) [
    | inl b ↦ inr (ground arith, ok_inj (rw (a, b) at h))
    | inr b ↦ let k : err (fail mint_not_in_pool) ≡ ok s = rw (a, b) at h in cc
  ]
]

-- A reserve moved with the vaults: the input side's vault grew by what was transferred in, the output
-- side's fell by what was transferred out.
abbrev pub Transferred : DecodedPool → Quote → DecodedPool → Type 0
Transferred d q e =
    ((q.input_mint ≡ d.mint_a.mint)
      × (pos e.vault_a.amount ≡ pos d.vault_a.amount +ℤ q.vault_in_delta)
      × (pos e.vault_b.amount +ℤ q.vault_out_delta ≡ pos d.vault_b.amount))
    ⊎ ((q.input_mint ≡ d.mint_b.mint)
        × (pos e.vault_b.amount ≡ pos d.vault_b.amount +ℤ q.vault_in_delta)
        × (pos e.vault_a.amount +ℤ q.vault_out_delta ≡ pos d.vault_a.amount))

pub same_of :
    (r : SwapBaseInputOk) (q : Quote)
    → differs r q ≡ false
    → (pos r.actual_amount_in ≡ q.vault_in_delta)
      × (pos r.amount_out ≡ q.vault_out_delta)
      × (pos r.amount_received ≡ q.amount_out_to_user)
unfolding differs
same_of r q h =
    let (a, b, c) =
      three (eqb_ℤ (pos r.amount_received) q.amount_out_to_user)
        (eqb_ℤ (pos r.actual_amount_in) q.vault_in_delta)
        (eqb_ℤ (pos r.amount_out) q.vault_out_delta) h in
    (
      eqb_of (pos r.actual_amount_in) q.vault_in_delta b,
      eqb_of (pos r.amount_out) q.vault_out_delta c,
      eqb_of (pos r.amount_received) q.amount_out_to_user a,
    )
  where
    three :
        (a b c : Bool) → (not a || not b || not c) ≡ false → (a ≡ true) × (b ≡ true) × (c ≡ true)
    three a b c h = ground arith

    eqb_of : (a b : ℤ) → eqb_ℤ a b ≡ true → a ≡ b
    eqb_of a b h = eq_of_parts a b (ground arith)

pub on_throw-eq-ok {ℓ} :
    {A : Type ℓ} (m : Result A) (c : Code) {a : A} → on_throw m c ≡ ok a → m ≡ ok a
unfolding on_throw
on_throw-eq-ok (ok a) c h = h
on_throw-eq-ok (err null) c h = cc
on_throw-eq-ok (err (fail d)) c h = cc
on_throw-eq-ok (err (throw t)) c h = cc

-- The calls behind a quote that was applied.
pub record ApplyRun (self : RaydiumCpmmAdapter) (d : DecodedPool) (q : Quote) (e : DecodedPool)
    : Type 0 where
  pub params : RaydiumCpmmParams
  pub sides : Sides
  pub swap : SwapBaseInputOk
  pub pool : PoolState
  pub reserves : Reserves
  pub current : str_eq q.state_hash d.state_hash ≡ true
  pub bare : is_empty q.reject_reasons ≡ true
  pub params_eq : params_of d.params ≡ ok params
  pub sides_eq : swap_context params d q.input_mint ≡ ok sides
  pub swap_eq : simulate_swap_base_input sides.ctx q.amount_in none ≡ ok swap
  pub same : differs swap q ≡ false
  pub pool_eq :
      apply_fee_update
        (params.pool)
        sides.direction
        swap.is_creator_fee_on_input
        (swap.curve).protocol_fee
        (swap.curve).fund_fee
        (swap.curve).creator_fee
      ≡ ok pool
  pub reserves_eq :
      vault_amount_without_fee pool (vault_a_after sides swap) (vault_b_after sides swap)
      ≡ ok reserves
  pub result_eq :
      moved self params d q pool (vault_a_after sides swap) (vault_b_after sides swap) reserves ≡ e

of_not : (b : Bool) → not b ≡ false → b ≡ true
of_not b h = ground arith

pub apply_run :
    (self : RaydiumCpmmAdapter) (d : DecodedPool) (q : Quote) (e : DecodedPool)
    → apply_swap self d q ≡ ok e
    → ApplyRun self d q e
unfolding apply_swap settled
apply_run self d q e h =
    let seventh =
      λ (p : RaydiumCpmmParams) (s : Sides) (r : SwapBaseInputOk) (pool : PoolState) (v : Reserves).
        ok (moved self p d q pool (vault_a_after s r) (vault_b_after s r) v) in
    let sixth = λ (p : RaydiumCpmmParams) (s : Sides) (r : SwapBaseInputOk) (pool : PoolState).
      vault_amount_without_fee pool (vault_a_after s r) (vault_b_after s r)
      >>= seventh p s r pool in
    let fifth = λ (p : RaydiumCpmmParams) (s : Sides) (r : SwapBaseInputOk).
      apply_fee_update p.pool s.direction r.is_creator_fee_on_input r.curve.protocol_fee
        r.curve.fund_fee r.curve.creator_fee
      >>= sixth p s r in
    let fourth = λ (p : RaydiumCpmmParams) (s : Sides) (r : SwapBaseInputOk).
      exit_if (differs r q) (fail quote_state_mismatch) >> fifth p s r in
    let third = λ (p : RaydiumCpmmParams) (s : Sides).
      on_throw (simulate_swap_base_input s.ctx q.amount_in none) overflowed >>= fourth p s in
    let second = λ (p : RaydiumCpmmParams). swap_context p d q.input_mint >>= third p in
    on_pass (not (str_eq q.state_hash d.state_hash)) (fail state_hash_mismatch)
      (exit_if (not (is_empty q.reject_reasons)) (fail quote_rejected)
        >> (params_of d.params >>= second))
      h
      λ c1 h1.
        on_pass (not (is_empty q.reject_reasons)) (fail quote_rejected)
          (params_of d.params >>= second) h1
          λ c2 h2. on_ok (params_of d.params) second h2 λ p ep h3.
            on_ok (swap_context p d q.input_mint) (third p) h3 λ s es h4.
              on_ok (on_throw (simulate_swap_base_input s.ctx q.amount_in none) overflowed)
                (fourth p s) h4
                λ r er h5.
                  on_pass (differs r q) (fail quote_state_mismatch) (fifth p s r) h5 λ c3 h6.
                    on_ok
                      (apply_fee_update p.pool s.direction r.is_creator_fee_on_input
                        r.curve.protocol_fee r.curve.fund_fee r.curve.creator_fee)
                      (sixth p s r) h6
                      λ pool eu h7.
                        on_ok
                          (vault_amount_without_fee pool (vault_a_after s r) (vault_b_after s r))
                          (seventh p s r pool) h7
                          λ v ev h8. record {
                            params = p;
                            sides = s;
                            swap = r;
                            pool = pool;
                            reserves = v;
                            current = of_not (str_eq q.state_hash d.state_hash) c1;
                            bare = of_not (is_empty q.reject_reasons) c2;
                            params_eq = ep;
                            sides_eq = es;
                            swap_eq =
                                on_throw-eq-ok (simulate_swap_base_input s.ctx q.amount_in none)
                                  overflowed er;
                            same = c3;
                            pool_eq = eu;
                            reserves_eq = ev;
                            result_eq = ok_inj h8;
                          }

-- An amount that is swapped is not negative.
pub amount_of :
    (s : Sides) (x : ℤ) (r : SwapBaseInputOk)
    → simulate_swap_base_input s.ctx x none ≡ ok r
    → simulate_swap_base_input s.ctx (pos (pos_part x)) none ≡ ok r
unfolding simulate_swap_base_input
amount_of s (pos n) r h = h
amount_of s (negsuc n) r h = cc

-- The mint on the input side.
abbrev pub mint_of : TradeDirection → DecodedPool → PublicKey
mint_of zero_for_one d = d.mint_a.mint
mint_of one_for_zero d = d.mint_b.mint

-- The direction of a swap context, and a statement about its sides.
pub by_direction {ℓ} :
    (p : RaydiumCpmmParams) (d : DecodedPool) (mint : PublicKey) (s : Sides) (P : Sides → Type ℓ)
    → swap_context p d mint ≡ ok s
    → ((t : TradeDirection) → mint ≡ mint_of t d → P (sides_of p d t))
    → P s
by_direction p d mint s P h k = elim (swap_context-cases p d mint s h) [
  | inl (m, e) ↦ subst P e (k zero_for_one m)
  | inr (m, e) ↦ subst P e (k one_for_zero m)
]
