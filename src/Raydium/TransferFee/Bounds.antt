-- ===== src/Raydium/TransferFee/Bounds.antt =====
-- Bounds of the Token-2022 transfer fee, and the exactness of its checked inverse.
use atomarb.Common.{
  ℕ, ◌+◌, ◌≤◌, ◌<◌, ◌≡◌, false, not, Option, none, some, ok, subst, sym, ◌∙◌, throw, overflow,
  arith, on_ok, on_pass, on_null, on_null-eq-ok, u64_max, ltb, ◌==◌, ==_iff, Bool-cases, inl, inr,
}
use atomarb.Common.Div.{mul_mono_r}
use atomarb.Raydium.TransferFee.{
  max_fee_basis_points, TransferFeeTier, TransferFeeConfigView, spl_token, token_2022, MintFeeView,
  fee_by, inverse_by, TokenProgramKind, epoch_fee_tier, transfer_fee_calculate_fee,
  transfer_fee_calculate_inverse_fee, checked_inverse_fee, get_transfer_fee,
  get_transfer_inverse_fee,
}

-- The fee is at most the cap, and at most the amount where the rate is at most 100%.
pub transfer_fee_calculate_fee_bounds :
    (tier : TransferFeeTier) (amount fee : ℕ)
    → transfer_fee_calculate_fee tier amount ≡ ok fee
    → (fee ≤ tier.max_fee) × (tier.bps ≤ max_fee_basis_points → fee ≤ amount)
unfolding transfer_fee_calculate_fee
transfer_fee_calculate_fee_bounds tier amount fee h =
    (ground arith, λ le. ground (arith, mul_mono_r tier.bps max_fee_basis_points amount le))

-- At a rate of 100% the fee is the cap, once the amount reaches it.
full_rate :
    (tier : TransferFeeTier) (amount : ℕ)
    → tier.bps ≡ max_fee_basis_points
    → tier.max_fee ≤ amount
    → 0 < amount
    → amount ≤ u64_max
    → transfer_fee_calculate_fee tier amount ≡ ok tier.max_fee
unfolding transfer_fee_calculate_fee
full_rate tier amount e le p fits = rw e (ground arith)

checked_inverse_fee-full :
    (tier : TransferFeeTier) (post fee : ℕ)
    → tier.bps ≡ max_fee_basis_points
    → checked_inverse_fee tier post ≡ ok fee
    → fee ≡ tier.max_fee
unfolding checked_inverse_fee
checked_inverse_fee-full tier post fee full h = ground arith

checked_inverse_fee-partial :
    (tier : TransferFeeTier) (post fee : ℕ)
    → (tier.bps == max_fee_basis_points) ≡ false
    → checked_inverse_fee tier post ≡ ok fee
    → transfer_fee_calculate_fee tier (post + fee) ≡ ok fee
unfolding checked_inverse_fee
checked_inverse_fee-partial tier post fee partial h =
    on_ok (on_null (transfer_fee_calculate_inverse_fee tier post) (throw overflow)) _
      (rw partial at h)
      λ f ef h1. on_pass (ltb u64_max (post + f)) _ _ h1 λ fits h2.
        on_ok (on_null (transfer_fee_calculate_fee tier (post + f)) (throw overflow)) _ h2
          λ check ec h3. on_pass (not (check == f)) _ _ h3 λ same h4.
            let e : f ≡ fee = ground arith in
            let e' : check ≡ fee = ground arith in
            rw (← e) (
              subst (λ n. transfer_fee_calculate_fee tier (post + f) ≡ ok n) (e' ∙ sym e)
                (on_null-eq-ok _ _ ec))

checked_inverse_fee-exact :
    (tier : TransferFeeTier) (post fee : ℕ)
    → 0 < post
    → post + fee ≤ u64_max
    → checked_inverse_fee tier post ≡ ok fee
    → transfer_fee_calculate_fee tier (post + fee) ≡ ok fee
checked_inverse_fee-exact tier post fee p fits h =
    elim (Bool-cases (tier.bps == max_fee_basis_points)) [
      | inl full ↦
          let e = (==_iff tier.bps max_fee_basis_points).0 full in
          let f = checked_inverse_fee-full tier post fee e h in
          subst (λ n. transfer_fee_calculate_fee tier (post + fee) ≡ ok n) (sym f)
            (full_rate tier (post + fee) e (omega (arith, f)) (omega arith) fits)
      | inr partial ↦ checked_inverse_fee-partial tier post fee partial h
    ]

-- The inverse fee is exact: sending `post` and the inverse fee, the recipient is left with `post`.
-- Supposes that the sum is a u64, which every caller checks.
pub get_transfer_inverse_fee-exact :
    (mint : MintFeeView) (epoch post fee : ℕ)
    → post + fee ≤ u64_max
    → get_transfer_inverse_fee mint epoch post ≡ ok fee
    → get_transfer_fee mint epoch (post + fee) ≡ ok fee
unfolding get_transfer_inverse_fee get_transfer_fee
get_transfer_inverse_fee-exact mint epoch post fee fits h =
    by_program mint.program mint.transfer_fee h
  where
    by_program :
        (k : TokenProgramKind) (t : Option TransferFeeConfigView)
        → inverse_by k t epoch post ≡ ok fee
        → fee_by k t epoch (post + fee) ≡ ok fee
    by_program spl_token t h = ground arith
    by_program token_2022 none h = ground arith
    by_program token_2022 (some cfg) h = on_pass (post == 0) _ _ h λ pos h1.
        rw (checked_inverse_fee-exact (epoch_fee_tier cfg epoch) post fee (ground arith) fits h1)
