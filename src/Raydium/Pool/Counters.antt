-- ===== src/Raydium/Pool/Counters.antt =====
-- The fee counters and the reserves that are left beside them.
use atomarb.Common.{ℕ, ◌+◌, ◌≤◌, ◌≡◌, refl, Bool, true, false, ◌&&◌, not, ok, arith, u64_max, ◌==◌}
use atomarb.Raydium.Layout.{PoolState}
use atomarb.Raydium.Pool.{
  TradeDirection, Reserves, fees_of_0, fees_of_1, vault_amount_without_fee, advance_fees,
  fees_overflow, apply_fee_update,
}

-- The reserves are given exactly when both vaults cover their counters, which fit in a u64; then
-- nothing is lost: reserve and counters add up to the vault.
pub vault_amount_without_fee_lem :
    (p : PoolState) (v0 v1 : ℕ) (r : Reserves)
    → vault_amount_without_fee p v0 v1 ≡ ok r
    → (r.reserve_0 + fees_of_0 p ≡ v0)
      × (r.reserve_1 + fees_of_1 p ≡ v1)
      × (fees_of_0 p ≤ u64_max)
      × (fees_of_1 p ≤ u64_max)
unfolding vault_amount_without_fee
vault_amount_without_fee_lem p v0 v1 r h = ground arith

pub vault_amount_without_fee-ok :
    (p : PoolState) (v0 v1 r0 r1 : ℕ)
    → r0 + fees_of_0 p ≡ v0
    → r1 + fees_of_1 p ≡ v1
    → v0 ≤ u64_max
    → v1 ≤ u64_max
    → vault_amount_without_fee p v0 v1
      ≡ ok (record { reserve_0 = r0; reserve_1 = r1; fees_0 = fees_of_0 p; fees_1 = fees_of_1 p })
unfolding vault_amount_without_fee
vault_amount_without_fee-ok p v0 v1 r0 r1 e0 e1 l0 l1 = ground arith

-- A counter of a pool is at most its side's sum, so small sums leave no counter to overflow.
fees_overflow-false :
    (p : PoolState) → fees_of_0 p ≤ u64_max → fees_of_1 p ≤ u64_max → fees_overflow p ≡ false
unfolding fees_overflow
fees_overflow-false p h k = ground arith

-- While both sums still fit in a u64, and no creator fee is credited to a pool without one, the
-- update returns the advanced counters.
pub apply_fee_update-ok :
    (p : PoolState) (d : TradeDirection) (on_input : Bool) (protocol fund creator : ℕ)
    → (p.enable_creator_fee ≡ false → creator ≡ 0)
    → fees_of_0 (advance_fees p d on_input protocol fund creator) ≤ u64_max
    → fees_of_1 (advance_fees p d on_input protocol fund creator) ≤ u64_max
    → apply_fee_update p d on_input protocol fund creator
      ≡ ok (advance_fees p d on_input protocol fund creator)
unfolding apply_fee_update
apply_fee_update-ok p d on_input protocol fund creator z h k = rw (
  disabled p.enable_creator_fee creator z,
  fees_overflow-false (advance_fees p d on_input protocol fund creator) h k,
)
  where
    disabled :
        (enabled : Bool) (creator : ℕ)
        → (enabled ≡ false → creator ≡ 0)
        → (not enabled && not (creator == 0)) ≡ false
    disabled true creator z = refl
    disabled false creator z = let e = z refl in ground arith
