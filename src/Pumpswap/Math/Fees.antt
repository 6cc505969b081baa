-- ===== src/Pumpswap/Math/Fees.antt =====
-- Bounds of the fees of src/adapters/pumpswap/math.ts, and its effective reserve.
use atomarb.Common.{
  ℕ, ◌+◌, ◌-◌, ◌*◌, ◌/◌, ◌<◌, ◌≡◌, refl, ◌∙◌, true, false, ◌||◌, Bool-cases, inl, inr, ok, fail,
  negative_virtual_quote_reserves, empty_pool, ◌>>◌, exit_if, on_pass, ok_inj, ◌==◌, arith, subst,
  sym,
}
use atomarb.Common.Int.{pos, pos_part, ◌≤ℤ◌, ltb_ℤ}
use atomarb.Bigint.{IsCeil, ceil_div-ok}
use atomarb.Pumpswap.Math.{
  PoolMathState, FeeBps, fee_ceil, effective_quote_reserve, Charges, charges,
}

zero_product : (amount bps : ℕ) → (bps == 0 || amount == 0) ≡ true → amount * bps ≡ 0
zero_product amount bps h = elim (Bool-cases (bps == 0)) [
  | inl z ↦ let e : bps ≡ 0 = ground arith in rw e (omega arith)
  | inr n ↦ let e : amount ≡ 0 = ground arith in rw e (omega arith)
]

-- A fee is the exact share rounded up, and `feeCeil` always returns it.
pub fee_ceil-ok :
    (amount bps : ℕ) → (f : ℕ) × (fee_ceil amount bps ≡ ok f) × IsCeil (amount * bps) 10_000 f
unfolding fee_ceil
fee_ceil-ok amount bps = elim (Bool-cases (bps == 0 || amount == 0)) [
  | inl zero ↦
      let e = zero_product amount bps zero in
      (0, rw zero refl, record { reaches = omega (arith, e); below = omega arith })
  | inr some ↦
      let (e, c) = ceil_div-ok (amount * bps) 10_000 (omega arith) in
      ((amount * bps + 10_000 - 1) / 10_000, rw some e, c)
]

pub record IsCharged (fees : FeeBps) (amount : ℕ) (c : Charges) : Type 0 where
  pub lp : IsCeil (amount * fees.lp_bps) 10_000 c.lp_fee
  pub protocol : IsCeil (amount * fees.protocol_bps) 10_000 c.protocol_fee
  pub creator : IsCeil (amount * fees.creator_bps) 10_000 c.creator_fee

pub charges-ok :
    (fees : FeeBps) (amount : ℕ)
    → (c : Charges) × (charges fees amount ≡ ok c) × IsCharged fees amount c
unfolding charges
charges-ok fees amount =
    let (l, el, cl) = fee_ceil-ok amount fees.lp_bps in
    let (p, ep, cp) = fee_ceil-ok amount fees.protocol_bps in
    let (k, ek, ck) = fee_ceil-ok amount fees.creator_bps in
    (
      record { lp_fee = l; protocol_fee = p; creator_fee = k },
      rw (el, ep, ek) refl,
      record { lp = cl; protocol = cp; creator = ck },
    )

pub charges-IsCharged :
    (fees : FeeBps) (amount : ℕ) (c : Charges)
    → charges fees amount ≡ ok c
    → IsCharged fees amount c
charges-IsCharged fees amount c h =
    let (d, e, k) = charges-ok fees amount in subst (IsCharged fees amount) (ok_inj (sym e ∙ h)) k

-- The effective reserve, when there is one.
pub record IsEffective (s : PoolMathState) (eff_q : ℕ) : Type 0 where
  pub virtual_nonneg : pos 0 ≤ℤ s.virtual_quote_reserves
  pub value : eff_q ≡ s.quote_reserve + pos_part s.virtual_quote_reserves
  pub quote_pos : 0 < eff_q
  pub base_pos : 0 < s.base_reserve

pub effective_quote_reserve-IsEffective :
    (s : PoolMathState) (eff_q : ℕ) → effective_quote_reserve s ≡ ok eff_q → IsEffective s eff_q
unfolding effective_quote_reserve
effective_quote_reserve-IsEffective s eff_q h =
    let eff = s.quote_reserve + pos_part s.virtual_quote_reserves in
    on_pass (ltb_ℤ s.virtual_quote_reserves (pos 0)) (fail negative_virtual_quote_reserves)
      (exit_if (eff == 0 || s.base_reserve == 0) (fail empty_pool) >> ok eff) h
      λ virt h1. on_pass (eff == 0 || s.base_reserve == 0) (fail empty_pool) (ok eff) h1 λ full h2.
        subst (IsEffective s) (ok_inj h2) (record {
          virtual_nonneg = ground arith;
          value = refl;
          quote_pos = ground arith;
          base_pos = ground arith;
        })

pub effective_quote_reserve-ok :
    (s : PoolMathState) (eff_q : ℕ) → IsEffective s eff_q → effective_quote_reserve s ≡ ok eff_q
unfolding effective_quote_reserve
effective_quote_reserve-ok s eff_q e =
    let eff = s.quote_reserve + pos_part s.virtual_quote_reserves in
    let v : ltb_ℤ s.virtual_quote_reserves (pos 0) ≡ false = ground (arith, e.virtual_nonneg) in
    let f : (eff == 0 || s.base_reserve == 0) ≡ false =
      ground (arith, e.value, e.quote_pos, e.base_pos) in
    rw (v, f, e.value) refl
