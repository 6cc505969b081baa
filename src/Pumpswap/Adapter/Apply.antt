-- ===== src/Pumpswap/Adapter/Apply.antt =====
-- `applySwap` of src/adapters/pumpswap/adapter.ts.
use atomarb.Common.{
  negative_reserve, quote_rejected, quote_pool_mismatch, ℕ, ◌+◌, not, ◌||◌, Option, Result, ok,
  fail, ◌>>=◌, ◌>>◌, exit_if, ◌==◌, if◌then◌else◌,
}
use atomarb.Common.Int.{ℤ, pos, pos_part, ◌+ℤ◌, ◌-ℤ◌, ltb_ℤ}
use atomarb.Raydium.Adapter.Validate.{is_empty}
use atomarb.Pumpswap.Params.{PumpswapParams}
use atomarb.Pumpswap.Schedule.{FeeSchedule}
use atomarb.Adapter.{of_pumpswap, DecodedPool, Quote}
use atomarb.Pumpswap.Adapter.{PumpswapAdapter, pumpswap_params, schedule_at, or_no_schedule}

unfoldable pub new_base : DecodedPool → Quote → ℤ
unfolding ◌+ℤ◌ ◌-ℤ◌
new_base d q =
    if q.input_mint == d.mint_b.mint
    then pos d.reserve_a -ℤ q.vault_out_delta
    else pos d.reserve_a +ℤ q.vault_in_delta

unfoldable pub new_quote : DecodedPool → Quote → ℤ
unfolding ◌+ℤ◌ ◌-ℤ◌
new_quote d q =
    if q.input_mint == d.mint_b.mint
    then pos d.reserve_b +ℤ q.vault_in_delta
    else pos d.reserve_b -ℤ q.vault_out_delta

-- The pool that is returned, of reserves that are not below 0.
unfoldable pub moved :
    PumpswapAdapter
    → PumpswapParams
    → DecodedPool
    → Quote
    → (base quote : ℕ) → Option FeeSchedule
    → DecodedPool
unfolding ◌+ℤ◌
moved self p d q base quote sched = record d {
  vault_a = record (d.vault_a) { amount = base };
  vault_b = record (d.vault_b) { amount = quote };
  reserve_a = base;
  reserve_b = quote;
  params = of_pumpswap (record p {
    effective_quote_reserve = pos quote +ℤ p.pool.virtual_quote_reserves;
    fee_schedule = sched;
    swaps_applied = p.swaps_applied + 1;
  });
  state_hash = self.sha256_hex (record {
    prev = d.state_hash;
    input_mint = q.input_mint;
    amount_in = q.amount_in;
    vault_in_delta = q.vault_in_delta;
    vault_out_delta = q.vault_out_delta;
  });
}

unfoldable pub apply_swap : PumpswapAdapter → DecodedPool → Quote → Result DecodedPool
unfolding is_empty pumpswap_params new_base new_quote schedule_at or_no_schedule moved ◌+ℤ◌
apply_swap self d q = do
  exit_if (not (q.pool == d.address)) (fail quote_pool_mismatch)
  exit_if (not (is_empty q.reject_reasons)) (fail quote_rejected)
  p ← pumpswap_params d
  exit_if (ltb_ℤ (new_base d q) (pos 0) || ltb_ℤ (new_quote d q) (pos 0)) (fail negative_reserve)
  let base = pos_part (new_base d q)
  let quote = pos_part (new_quote d q)
  sched ← or_no_schedule (schedule_at self p d base (pos quote +ℤ p.pool.virtual_quote_reserves))
  ok (moved self p d q base quote sched)
