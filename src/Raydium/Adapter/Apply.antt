-- ===== src/Raydium/Adapter/Apply.antt =====
-- `applySwap` of src/adapters/raydium_cpmm/adapter.ts.
use text.Mathlib.Text.{◌==◌ as str_eq}
use atomarb.Common.{
  overflowed, quote_rejected, quote_state_mismatch, state_hash_mismatch, ℕ, Bool, not, ◌||◌, none,
  List, [], ◌∷◌, Result, ok, fail, ◌>>=◌, ◌>>◌, exit_if, if◌then◌else◌,
}
use atomarb.Common.Int.{pos, eqb_ℤ}
use atomarb.Raydium.Layout.{PoolState}
use atomarb.Raydium.Params.{RaydiumCpmmParams}
use atomarb.Raydium.Pool.{Reserves, is_zero_for_one, apply_fee_update, vault_amount_without_fee}
use atomarb.Raydium.Swap.{SwapBaseInputOk, simulate_swap_base_input}
use atomarb.Adapter.{DecodedPool, of_raydium, Quote}
use atomarb.Raydium.Adapter.{RaydiumCpmmAdapter, params_of, Sides, swap_context}
use atomarb.Raydium.Adapter.Decode.{on_throw}
use atomarb.Raydium.Adapter.Validate.{is_empty}

-- The recomputed swap is not the one of the quote.
unfoldable pub differs : SwapBaseInputOk → Quote → Bool
differs r q =
    not (eqb_ℤ (pos r.amount_received) q.amount_out_to_user)
    || not (eqb_ℤ (pos r.actual_amount_in) q.vault_in_delta)
    || not (eqb_ℤ (pos r.amount_out) q.vault_out_delta)

abbrev pub six_fees : PoolState → List ℕ
six_fees p =
    p.protocol_fees_token_0 ∷ p.protocol_fees_token_1 ∷ p.fund_fees_token_0 ∷ p.fund_fees_token_1
    ∷ p.creator_fees_token_0 ∷ p.creator_fees_token_1 ∷ []

-- The pool that is returned.
unfoldable pub moved :
    RaydiumCpmmAdapter
    → RaydiumCpmmParams
    → DecodedPool
    → Quote
    → (pool : PoolState) (a b : ℕ) → Reserves
    → DecodedPool
moved self p d q pool a b reserves = record d {
  vault_a = record (d.vault_a) { amount = a };
  vault_b = record (d.vault_b) { amount = b };
  reserve_a = reserves.reserve_0;
  reserve_b = reserves.reserve_1;
  params = of_raydium (record p { pool = pool });
  state_hash = self.hash_json (record {
    prev = d.state_hash;
    input_mint = q.input_mint;
    amount_in = q.amount_in;
    vault_a = a;
    vault_b = b;
    fees = six_fees pool;
  });
}

-- The amounts of the two vaults after the swap.
abbrev pub vault_a_after : Sides → SwapBaseInputOk → ℕ
vault_a_after s r = if is_zero_for_one s.direction then r.vault_in_after else r.vault_out_after

abbrev pub vault_b_after : Sides → SwapBaseInputOk → ℕ
vault_b_after s r = if is_zero_for_one s.direction then r.vault_out_after else r.vault_in_after

-- The body behind the simulation.
unfoldable pub settled :
    RaydiumCpmmAdapter
    → RaydiumCpmmParams
    → DecodedPool
    → Quote
    → Sides
    → SwapBaseInputOk
    → Result DecodedPool
unfolding differs apply_fee_update vault_amount_without_fee moved
settled self p d q s r = do
  exit_if (differs r q) (fail quote_state_mismatch)
  pool ←
      apply_fee_update p.pool s.direction r.is_creator_fee_on_input r.curve.protocol_fee
        r.curve.fund_fee r.curve.creator_fee
  reserves ← vault_amount_without_fee pool (vault_a_after s r) (vault_b_after s r)
  ok (moved self p d q pool (vault_a_after s r) (vault_b_after s r) reserves)

-- Every error of the simulation is caught here.
unfoldable pub apply_swap : RaydiumCpmmAdapter → DecodedPool → Quote → Result DecodedPool
unfolding params_of swap_context is_empty on_throw simulate_swap_base_input settled
apply_swap self d q = do
  exit_if (not (str_eq q.state_hash d.state_hash)) (fail state_hash_mismatch)
  exit_if (not (is_empty q.reject_reasons)) (fail quote_rejected)
  p ← params_of d.params
  s ← swap_context p d q.input_mint
  r ← on_throw (simulate_swap_base_input s.ctx q.amount_in none) overflowed
  settled self p d q s r
