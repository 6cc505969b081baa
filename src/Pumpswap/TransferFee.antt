-- ===== src/Pumpswap/TransferFee.antt =====
-- The transfer fee of src/adapters/pumpswap/math.ts, `transferFeeAmount` and its worst case over both
-- tiers, against the one of src/adapters/raydium_cpmm/math.ts.
use atomarb.Common.{
  ℕ, ◌+◌, ◌-◌, ◌*◌, ◌/◌, ◌≤◌, ◌≡◌, ◌⊎◌, refl, false, ◌||◌, Bool-cases, inl, inr, Option, none, some,
  Result, ok, ◌>>=◌, u64_max, ltb, ◌==◌, if◌then◌else◌, arith,
}
use atomarb.Common.Div.{le_of_mul_lt, ceil_bounds, mul_mono_r}
use atomarb.Bigint.{ceil_div}
use atomarb.Raydium.TransferFee.{TransferFeeTier, TransferFeeConfigView, transfer_fee_calculate_fee}

unfoldable pub capped : TransferFeeTier → ℕ → ℕ
capped fee raw = if ltb fee.max_fee raw then fee.max_fee else raw

unfoldable pub amount_for : ℕ → TransferFeeTier → Result ℕ
unfolding capped ceil_div
amount_for amount fee =
    if fee.bps == 0 || amount == 0
    then ok 0
    else do raw ← ceil_div (amount * fee.bps) 10_000; ok (capped fee raw)

unfoldable pub transfer_fee_amount : ℕ → Option TransferFeeTier → Result ℕ
unfolding amount_for
transfer_fee_amount amount none = ok 0
transfer_fee_amount amount (some fee) = amount_for amount fee

unfoldable pub transfer_fee_amount_worst_case :
    ℕ → Option TransferFeeConfigView → Option TransferFeeTier → Result ℕ
unfolding transfer_fee_amount
transfer_fee_amount_worst_case amount none fallback = transfer_fee_amount amount fallback
transfer_fee_amount_worst_case amount (some tiers) fallback = do
  a ← transfer_fee_amount amount (some tiers.older)
  b ← transfer_fee_amount amount (some tiers.newer)
  ok (if ltb b a then a else b)

-- A rate of at most 100% keeps the raw fee below the amount, which fits in 64 bits.
raw_le : (amount bps : ℕ) → bps ≤ 10_000 → (amount * bps + 10_000 - 1) / 10_000 ≤ amount
raw_le amount bps h =
    le_of_mul_lt ((amount * bps + 10_000 - 1) / 10_000) amount 10_000 (
      omega
        (arith, ceil_bounds (amount * bps) 10_000 (omega arith), mul_mono_r bps 10_000 amount h))

capped_eq :
    (fee : TransferFeeTier) (raw : ℕ)
    → capped fee raw ≡ (if ltb raw fee.max_fee then raw else fee.max_fee)
unfolding capped
capped_eq fee raw = ground arith

-- The two adapters charge the same transfer fee on every amount of 64 bits, for a rate of at most
-- 100%, though they round up and cap it in different code.
pub transfer_fee_amount-transfer_fee_calculate_fee :
    (amount : ℕ) (fee : TransferFeeTier)
    → amount ≤ u64_max
    → fee.bps ≤ 10_000
    → transfer_fee_amount amount (some fee) ≡ transfer_fee_calculate_fee fee amount
unfolding transfer_fee_amount amount_for transfer_fee_calculate_fee
transfer_fee_amount-transfer_fee_calculate_fee amount fee h k =
    elim (Bool-cases (fee.bps == 0 || amount == 0)) [
      | inl zero ↦ rw zero refl
      | inr charged ↦
          let r = raw_le amount fee.bps k in
          let u : ltb u64_max ((amount * fee.bps + 10_000 - 1) / 10_000) ≡ false =
            ground (arith, r, h) in
          rw (charged, u, capped_eq fee ((amount * fee.bps + 10_000 - 1) / 10_000)) refl
    ]

-- Every transfer fee is returned: no division throws.
amount_for-ok : (amount : ℕ) (fee : TransferFeeTier) → (f : ℕ) × (amount_for amount fee ≡ ok f)
unfolding amount_for
amount_for-ok amount fee = elim (Bool-cases (fee.bps == 0 || amount == 0)) [
  | inl zero ↦ (0, rw zero refl)
  | inr charged ↦ (capped fee ((amount * fee.bps + 10_000 - 1) / 10_000), rw charged refl)
]

larger : (a b : ℕ) → let m = if ltb b a then a else b in (a ≤ m) × (b ≤ m) × ((m ≡ a) ⊎ (m ≡ b))
larger a b = ground arith

-- With both tiers known, the worst case is returned for every amount, and it is the larger of the two
-- tiers' fees: at least each of them, and one of them.
pub transfer_fee_amount_worst_case-IsLarger :
    (amount : ℕ) (tiers : TransferFeeConfigView) (fallback : Option TransferFeeTier)
    → (a : ℕ) × (b : ℕ) × (m : ℕ) × (transfer_fee_amount amount (some tiers.older) ≡ ok a)
      × (transfer_fee_amount amount (some tiers.newer) ≡ ok b)
      × (transfer_fee_amount_worst_case amount (some tiers) fallback ≡ ok m)
      × (a ≤ m)
      × (b ≤ m)
      × ((m ≡ a) ⊎ (m ≡ b))
unfolding transfer_fee_amount_worst_case transfer_fee_amount
transfer_fee_amount_worst_case-IsLarger amount tiers fallback =
    let (a, e) = amount_for-ok amount tiers.older in
    let (b, f) = amount_for-ok amount tiers.newer in
    let (x, y, z) = larger a b in (a, b, (if ltb b a then a else b), e, f, rw (e, f) refl, x, y, z)
