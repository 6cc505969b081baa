-- ===== src/Raydium/Decode/Counters.antt =====
-- The fee counters of a decoded pool of src/adapters/raydium_cpmm/layout.ts are numbers of 64 bits.
use atomarb.Common.{
  ℕ, zero, suc, ◌+◌, ◌*◌, ◌^◌, ◌≤◌, ◌<◌, ◌≡◌, refl, subst, [], ◌∷◌, take, drop, length, ok, fail,
  unknown_layout, ◌>>◌, exit_if, on_pass, ok_inj, not, ◌==◌, ltb, false, u64_max, arith,
}
use native.Mathlib.Omega.{pow_step}
use atomarb.Bytes.{Bytes, AreBytes, subarray, value_of, bytes_equal, read, read_u64_le}
use atomarb.Raydium.Layout.{PoolState, HasU64Fees}
use atomarb.Raydium.Decode.{
  pool_state_len, pool_state_discriminator, pool_off, field, pool_state_of, decode_pool_state,
}

drop-AreBytes : (n : ℕ) (bs : Bytes) → AreBytes bs → AreBytes (drop n bs)
drop-AreBytes zero bs h = h
drop-AreBytes (suc n) [] h = tt
drop-AreBytes (suc n) (b ∷ bs) (h, hs) = drop-AreBytes n bs hs

power_step : (n : ℕ) → 256 ^ suc n ≡ 256 * 256 ^ n
power_step n = pow_step 256 n

power_pos : (n : ℕ) → 0 < 256 ^ n
power_pos zero = omega arith
power_pos (suc n) = omega (arith, power_step n, power_pos n)

more : (b v n : ℕ) → b < 256 → v < 256 ^ n → b + 256 * v < 256 ^ suc n
more b v n h k = omega (arith, power_step n, h, k)

-- The value of so many bytes.
value_of-take : (n : ℕ) (bs : Bytes) → AreBytes bs → value_of (take n bs) < 256 ^ n
unfolding value_of
value_of-take zero bs h = omega arith
value_of-take (suc n) [] h = power_pos (suc n)
value_of-take (suc n) (b ∷ bs) (h, hs) = more b (value_of (take n bs)) n h (value_of-take n bs hs)

field-u64 : (buf : Bytes) (off : ℕ) → AreBytes buf → field 8 buf off ≤ u64_max
unfolding field subarray
field-u64 buf off h = omega (arith, value_of-take 8 (drop off buf) (drop-AreBytes off buf h))

pool_state_of-HasU64Fees : (buf : Bytes) → AreBytes buf → HasU64Fees (pool_state_of buf)
unfolding pool_state_of
pool_state_of-HasU64Fees buf h = record {
  protocol_0 = field-u64 buf pool_off.protocol_fees_token_0 h;
  protocol_1 = field-u64 buf pool_off.protocol_fees_token_1 h;
  fund_0 = field-u64 buf pool_off.fund_fees_token_0 h;
  fund_1 = field-u64 buf pool_off.fund_fees_token_1 h;
  creator_0 = field-u64 buf pool_off.creator_fees_token_0 h;
  creator_1 = field-u64 buf pool_off.creator_fees_token_1 h;
}

-- Every field of eight bytes inside the buffer is what `readU64LE` gives there.
read_u64_le-field :
    (buf : Bytes) (off : ℕ) → off + 8 ≤ length buf → read_u64_le buf off ≡ ok (field 8 buf off)
unfolding read_u64_le read field
read_u64_le-field buf off h = let e : ltb (length buf) (off + 8) ≡ false = ground arith in rw e refl

-- The counters stand in two runs of bytes of the layout: four behind the supply of the pool's shares,
-- and two behind the padding of the creator's switch.
pub record AreRead (buf : Bytes) (p : PoolState) : Type 0 where
  pub protocol_0 : read_u64_le buf 341 ≡ ok p.protocol_fees_token_0
  pub protocol_1 : read_u64_le buf 349 ≡ ok p.protocol_fees_token_1
  pub fund_0 : read_u64_le buf 357 ≡ ok p.fund_fees_token_0
  pub fund_1 : read_u64_le buf 365 ≡ ok p.fund_fees_token_1
  pub creator_0 : read_u64_le buf 397 ≡ ok p.creator_fees_token_0
  pub creator_1 : read_u64_le buf 405 ≡ ok p.creator_fees_token_1

pool_state_of-AreRead : (buf : Bytes) → length buf ≡ 637 → AreRead buf (pool_state_of buf)
unfolding pool_state_of
pool_state_of-AreRead buf l = record {
  protocol_0 = read_u64_le-field buf 341 (omega (arith, l));
  protocol_1 = read_u64_le-field buf 349 (omega (arith, l));
  fund_0 = read_u64_le-field buf 357 (omega (arith, l));
  fund_1 = read_u64_le-field buf 365 (omega (arith, l));
  creator_0 = read_u64_le-field buf 397 (omega (arith, l));
  creator_1 = read_u64_le-field buf 405 (omega (arith, l));
}

passed_eq : (a b : ℕ) → not (a == b) ≡ false → a ≡ b
passed_eq a b h = ground arith

-- A buffer of bytes that decodes as a pool has the 637 bytes of the layout, and each of the six fee
-- counters of the pool is what `readU64LE` reads, inside the buffer, at the place that the layout gives
-- it: the protocol's at 341 and 349, the fund's at 357 and 365, the creator's at 397 and 405. Every
-- counter is a number of 64 bits.
pub decode_pool_state-HasU64Fees :
    (buf : Bytes) (p : PoolState)
    → AreBytes buf
    → decode_pool_state buf ≡ ok p
    → (length buf ≡ 637) × AreRead buf p × HasU64Fees p
unfolding decode_pool_state
decode_pool_state-HasU64Fees buf p h e =
    let d = not (bytes_equal (subarray buf 0 8) pool_state_discriminator) in
    on_pass (not (length buf == pool_state_len)) (fail unknown_layout)
      (exit_if d (fail unknown_layout) >> ok (pool_state_of buf)) e
      λ len e1. on_pass d (fail unknown_layout) (ok (pool_state_of buf)) e1 λ disc e2.
        let l = passed_eq (length buf) pool_state_len len in
        (
          l,
          subst (AreRead buf) (ok_inj e2) (pool_state_of-AreRead buf l),
          subst HasU64Fees (ok_inj e2) (pool_state_of-HasU64Fees buf h),
        )
