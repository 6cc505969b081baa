-- ===== src/Raydium/TransferFee.antt =====
-- The Token-2022 transfer fee of src/adapters/raydium_cpmm/math.ts.
pub mod Bounds
use atomarb.Common.{
  ℕ, ◌+◌, ◌-◌, ◌*◌, ◌/◌, Bool, true, false, ◌||◌, not, Option, none, some, Result, ok, err, null,
  fail, throw, overflow, invalid_input, transfer_fee_calculate_not_match, ◌>>=◌, ◌>>◌, exit_if,
  on_null, u64_max, ltb, leb, ◌==◌, if◌then◌else◌,
}

abbrev pub max_fee_basis_points : ℕ
max_fee_basis_points = 10_000

pub record TransferFeeTier : Type 0 where
  pub epoch : ℕ
  pub max_fee : ℕ
  pub bps : ℕ

pub record TransferFeeConfigView : Type 0 where
  pub older : TransferFeeTier
  pub newer : TransferFeeTier

pub data TokenProgramKind : Type 0 where
  spl_token token_2022 : TokenProgramKind

pub record MintFeeView : Type 0 where
  pub program : TokenProgramKind
  pub transfer_fee : Option TransferFeeConfigView

unfoldable pub epoch_fee_tier : TransferFeeConfigView → ℕ → TransferFeeTier
epoch_fee_tier cfg epoch = if leb cfg.newer.epoch epoch then cfg.newer else cfg.older

unfoldable pub transfer_fee_calculate_fee : TransferFeeTier → ℕ → Result ℕ
transfer_fee_calculate_fee tier pre = if tier.bps == 0 || pre == 0 then ok 0 else do
  let raw = (pre * tier.bps + max_fee_basis_points - 1) / max_fee_basis_points
  exit_if (ltb u64_max raw) null
  ok (if ltb raw tier.max_fee then raw else tier.max_fee)

-- `const s = …; return s > U64_MAX ? null : s`
unfoldable pub in_u64 : ℕ → Result ℕ
in_u64 s = if ltb u64_max s then err null else ok s

unfoldable pub uncapped_pre_fee : TransferFeeTier → ℕ → Result ℕ
unfolding in_u64
uncapped_pre_fee tier post =
    let denominator = max_fee_basis_points - tier.bps in
    let raw = (post * max_fee_basis_points + denominator - 1) / denominator in
    if leb tier.max_fee (raw - post) then in_u64 (post + tier.max_fee) else in_u64 raw

unfoldable pub transfer_fee_calculate_pre_fee_amount : TransferFeeTier → ℕ → Result ℕ
unfolding uncapped_pre_fee in_u64
transfer_fee_calculate_pre_fee_amount tier post =
    if ltb max_fee_basis_points tier.bps
    then err null
    else if tier.bps == 0
    then ok post
    else if post == 0
    then ok 0
    else if tier.bps == max_fee_basis_points
    then in_u64 (tier.max_fee + post)
    else uncapped_pre_fee tier post

unfoldable pub transfer_fee_calculate_inverse_fee : TransferFeeTier → ℕ → Result ℕ
transfer_fee_calculate_inverse_fee tier post = do
  pre ← transfer_fee_calculate_pre_fee_amount tier post
  transfer_fee_calculate_fee tier pre

-- `getTransferFee`, on the mint's program and extension.
unfoldable pub fee_by : TokenProgramKind → Option TransferFeeConfigView → ℕ → ℕ → Result ℕ
fee_by spl_token _ epoch pre = ok 0
fee_by token_2022 none epoch pre = ok 0
fee_by token_2022 (some cfg) epoch pre =
    on_null (transfer_fee_calculate_fee (epoch_fee_tier cfg epoch) pre) (throw overflow)

unfoldable pub get_transfer_fee : MintFeeView → ℕ → ℕ → Result ℕ
unfolding fee_by
get_transfer_fee mint epoch pre = fee_by mint.program mint.transfer_fee epoch pre

-- The inverse fee of one tier, checked against the fee of the sum.
unfoldable pub checked_inverse_fee : TransferFeeTier → ℕ → Result ℕ
checked_inverse_fee tier post = if tier.bps == max_fee_basis_points then ok tier.max_fee else do
  fee ← on_null (transfer_fee_calculate_inverse_fee tier post) (throw overflow)
  let sum = post + fee
  exit_if (ltb u64_max sum) (throw overflow)
  check ← on_null (transfer_fee_calculate_fee tier sum) (throw overflow)
  exit_if (not (check == fee)) (fail transfer_fee_calculate_not_match)
  ok fee

-- `getTransferInverseFee`, on the same two.
unfoldable pub inverse_by : TokenProgramKind → Option TransferFeeConfigView → ℕ → ℕ → Result ℕ
inverse_by spl_token _ epoch post = ok 0
inverse_by token_2022 none epoch post = do exit_if (post == 0) (fail invalid_input); ok 0
inverse_by token_2022 (some cfg) epoch post = do
  exit_if (post == 0) (fail invalid_input)
  checked_inverse_fee (epoch_fee_tier cfg epoch) post

unfoldable pub get_transfer_inverse_fee : MintFeeView → ℕ → ℕ → Result ℕ
unfolding inverse_by
get_transfer_inverse_fee mint epoch post = inverse_by mint.program mint.transfer_fee epoch post
