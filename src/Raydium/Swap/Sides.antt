-- ===== src/Raydium/Swap/Sides.antt =====
-- The fee counters of the input side and of the output side, in either direction.
use atomarb.Common.{ℕ, ◌+◌, ◌≤◌, ◌≡◌, Bool, true, false, ok, arith, on_ok, u64_max}
use atomarb.Raydium.Layout.{PoolState}
use atomarb.Raydium.Curve.Input.{taken, not_taken}
use atomarb.Raydium.Pool.{
  TradeDirection, zero_for_one, one_for_zero, fees_of_0, fees_of_1, vault_amount_without_fee,
  advance_fees, apply_fee_update,
}
use atomarb.Raydium.Pool.Counters.{
  vault_amount_without_fee_lem, vault_amount_without_fee-ok, apply_fee_update-ok,
}
use atomarb.Raydium.Swap.{SwapReserves, reserves_by}

abbrev pub fees_in : TradeDirection → PoolState → ℕ
fees_in zero_for_one p = fees_of_0 p
fees_in one_for_zero p = fees_of_1 p

abbrev pub fees_out : TradeDirection → PoolState → ℕ
fees_out zero_for_one p = fees_of_1 p
fees_out one_for_zero p = fees_of_0 p

-- Each side's reserve and counters add up to its vault.
pub reserves_by_lem :
    (d : TradeDirection) (p : PoolState) (vin vout : ℕ) (r : SwapReserves)
    → reserves_by d p vin vout ≡ ok r
    → (r.reserve_in + fees_in d p ≡ vin) × (r.reserve_out + fees_out d p ≡ vout)
unfolding reserves_by
reserves_by_lem zero_for_one p vin vout r h =
    on_ok (vault_amount_without_fee p vin vout) _ h
      λ v e h1. ground (arith, vault_amount_without_fee_lem p vin vout v e)
reserves_by_lem one_for_zero p vin vout r h =
    on_ok (vault_amount_without_fee p vout vin) _ h
      λ v e h1. ground (arith, vault_amount_without_fee_lem p vout vin v e)

pub reserves_by-ok :
    (d : TradeDirection) (p : PoolState) (vin vout rin rout : ℕ)
    → rin + fees_in d p ≡ vin
    → rout + fees_out d p ≡ vout
    → vin ≤ u64_max
    → vout ≤ u64_max
    → reserves_by d p vin vout ≡ ok (record { reserve_in = rin; reserve_out = rout })
unfolding reserves_by
reserves_by-ok zero_for_one p vin vout rin rout e k l m =
    rw (vault_amount_without_fee-ok p vin vout rin rout e k l m)
reserves_by-ok one_for_zero p vin vout rin rout e k l m =
    rw (vault_amount_without_fee-ok p vout vin rout rin k e m l)

-- A swap credits protocol and fund on the input side, and the creator on the side that pays it.
pub advance_fees_sides :
    (d : TradeDirection) (p : PoolState) (on_input : Bool) (protocol fund creator : ℕ)
    → (fees_in d (advance_fees p d on_input protocol fund creator)
        ≡ fees_in d p + protocol + fund + taken on_input creator)
      × (fees_out d (advance_fees p d on_input protocol fund creator)
          ≡ fees_out d p + not_taken on_input creator)
unfolding advance_fees
advance_fees_sides zero_for_one p true protocol fund creator = omega arith
advance_fees_sides zero_for_one p false protocol fund creator = omega arith
advance_fees_sides one_for_zero p true protocol fund creator = omega arith
advance_fees_sides one_for_zero p false protocol fund creator = omega arith

pub apply_fee_update_sides :
    (d : TradeDirection) (p : PoolState) (on_input : Bool) (protocol fund creator : ℕ)
    → (p.enable_creator_fee ≡ false → creator ≡ 0)
    → fees_in d (advance_fees p d on_input protocol fund creator) ≤ u64_max
    → fees_out d (advance_fees p d on_input protocol fund creator) ≤ u64_max
    → apply_fee_update p d on_input protocol fund creator
      ≡ ok (advance_fees p d on_input protocol fund creator)
apply_fee_update_sides zero_for_one p on_input protocol fund creator z h k =
    apply_fee_update-ok p zero_for_one on_input protocol fund creator z h k
apply_fee_update_sides one_for_zero p on_input protocol fund creator z h k =
    apply_fee_update-ok p one_for_zero on_input protocol fund creator z k h
