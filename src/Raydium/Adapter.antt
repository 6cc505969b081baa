-- ===== src/Raydium/Adapter.antt =====
-- The class of src/adapters/raydium_cpmm/adapter.ts: its fields, the accounts it needs, and the sides
-- of a swap. The operations stand in the child modules.
pub mod Decode
pub mod Validate
pub mod Quote
pub mod Fees
pub mod Conserve
pub mod Apply
pub mod Runs
pub mod Moves
pub mod Fresh
pub mod Decoded
pub mod Validated
pub mod Instruction
pub mod Tests
pub mod Product
use Prim.Native.String.{String}
use atomarb.Common.{
  wrong_owner, range, pool_account_required, epoch_warmup, mint_not_in_pool, type_error, ℕ, ◌+◌,
  ◌-◌, ◌/◌, ◌%◌, Bool, true, false, not, Option, none, some, List, [], ◌∷◌, Result, ok, err, fail,
  throw, ◌>>=◌, ◌>>◌, exit_if, or_exit, ltb, leb, ◌==◌, if◌then◌else◌,
}
use atomarb.Common.Int.{ℤ}
use atomarb.Raydium.Layout.{PublicKey, PoolState}
use atomarb.Raydium.Params.{RaydiumCpmmParams}
use atomarb.Raydium.TransferFee.{
  TokenProgramKind, spl_token, token_2022, TransferFeeTier, TransferFeeConfigView, MintFeeView,
}
use atomarb.Raydium.Decode.{decode_pool_state}
use atomarb.Raydium.Pool.{TradeDirection, zero_for_one, one_for_zero}
use atomarb.Raydium.Swap.{SwapContext}
use atomarb.Adapter.{DecodedPool, Params, of_raydium, of_pumpswap, PoolRef}
use atomarb.Adapter.Accounts.{MintInfo, TokenAccountInfo, RawAccount}
use atomarb.Token.{TokenPrograms}
use atomarb.Snapshot.{Platform}

pub record EpochSchedule : Type 0 where
  pub slots_per_epoch : ℕ
  pub first_normal_epoch : ℕ
  pub first_normal_slot : ℕ

-- A quotient by 0 is no integer, and `BigInt` throws.
unfoldable pub epoch_for_slot : ℕ → EpochSchedule → Result ℕ
epoch_for_slot slot s = do
  exit_if (ltb slot s.first_normal_slot) (throw epoch_warmup)
  exit_if (s.slots_per_epoch == 0) (throw range)
  ok (s.first_normal_epoch + (slot - s.first_normal_slot) / s.slots_per_epoch)

-- What `hashJson` hashes after a swap.
pub record Applied : Type 0 where
  pub prev : String
  pub input_mint : PublicKey
  pub amount_in : ℤ
  pub vault_a : ℕ
  pub vault_b : ℕ
  pub fees : List ℕ

-- The fields of the class, and what the libraries derive from its program: the authority with its
-- bump, and the address of a vault by pool and mint.
pub record RaydiumCpmmAdapter : Type 0 where
  pub platform : Platform
  pub program_id : PublicKey
  pub epoch_schedule : EpochSchedule
  pub authority : PublicKey
  pub authority_bump : ℕ
  pub pool_vault_pda : (pool mint : PublicKey) → PublicKey
  pub hash_json : Applied → String

-- When there is no older tier, it is the newer one.
unfoldable pub view_of :
    TokenProgramKind → (newer older : Option TransferFeeTier) → Option TransferFeeConfigView
view_of spl_token newer older = none
view_of token_2022 none older = none
view_of token_2022 (some t) none = some (record { older = t; newer = t })
view_of token_2022 (some t) (some o) = some (record { older = o; newer = t })

unfoldable pub transfer_fee_view : MintInfo → Option TransferFeeConfigView
unfolding view_of
transfer_fee_view m = view_of m.program m.transfer_fee m.transfer_fee_older

abbrev pub mint_fee_view : MintInfo → Option TransferFeeConfigView → MintFeeView
mint_fee_view m tf = record { program = m.program; transfer_fee = tf }

unfoldable pub program_id_of : TokenPrograms → TokenProgramKind → PublicKey
program_id_of k spl_token = k.token_program_id
program_id_of k token_2022 = k.token_2022_program_id

-- `d.params as RaydiumCpmmParams`: the fields of any other value are undefined.
unfoldable pub params_of : Params → Result RaydiumCpmmParams
params_of (of_raydium p) = ok p
params_of (of_pumpswap p) = err (throw type_error)

unfoldable pub required_accounts :
    RaydiumCpmmAdapter → PoolRef → Option RawAccount → Result (List PublicKey)
unfolding decode_pool_state
required_accounts self pool pool_account = do
  account ← or_exit pool_account (fail pool_account_required)
  exit_if (not (account.owner == self.program_id)) (fail wrong_owner)
  st ← decode_pool_state account.bytes
  ok (
      pool.address ∷ st.amm_config ∷ st.token_0_vault ∷ st.token_1_vault ∷ st.token_0_mint
      ∷ st.token_1_mint ∷ [])

-- What `swapContext` returns.
pub record Sides : Type 0 where
  pub ctx : SwapContext
  pub direction : TradeDirection
  pub in_mint : MintInfo
  pub out_mint : MintInfo
  pub in_vault : TokenAccountInfo
  pub out_vault : TokenAccountInfo

unfoldable pub sides_of : RaydiumCpmmParams → DecodedPool → TradeDirection → Sides
sides_of p d zero_for_one = record {
  ctx = record {
    pool = p.pool;
    config = p.config;
    direction = zero_for_one;
    input_vault_amount = d.vault_a.amount;
    output_vault_amount = d.vault_b.amount;
    input_mint = mint_fee_view d.mint_a p.transfer_fee_0;
    output_mint = mint_fee_view d.mint_b p.transfer_fee_1;
    epoch = p.epoch;
  };
  direction = zero_for_one;
  in_mint = d.mint_a;
  out_mint = d.mint_b;
  in_vault = d.vault_a;
  out_vault = d.vault_b;
}
sides_of p d one_for_zero = record {
  ctx = record {
    pool = p.pool;
    config = p.config;
    direction = one_for_zero;
    input_vault_amount = d.vault_b.amount;
    output_vault_amount = d.vault_a.amount;
    input_mint = mint_fee_view d.mint_b p.transfer_fee_1;
    output_mint = mint_fee_view d.mint_a p.transfer_fee_0;
    epoch = p.epoch;
  };
  direction = one_for_zero;
  in_mint = d.mint_b;
  out_mint = d.mint_a;
  in_vault = d.vault_b;
  out_vault = d.vault_a;
}

unfoldable pub swap_context : RaydiumCpmmParams → DecodedPool → PublicKey → Result Sides
unfolding sides_of
swap_context p d input_mint =
    if input_mint == d.mint_a.mint
    then ok (sides_of p d zero_for_one)
    else if input_mint == d.mint_b.mint
    then ok (sides_of p d one_for_zero)
    else err (fail mint_not_in_pool)

unfoldable pub has_key : List PublicKey → PublicKey → Bool
has_key [] k = false
has_key (j ∷ js) k = if j == k then true else has_key js k

-- The values of a map by key: each key once, at the place where it came first.
unfoldable pub distinct_from : List PublicKey → List PublicKey → List PublicKey
unfolding has_key
distinct_from seen [] = []
distinct_from seen (k ∷ ks) = elim (has_key seen k) [
  | true ↦ distinct_from seen ks
  | false ↦ k ∷ distinct_from (k ∷ seen) ks
]

unfoldable pub distinct : List PublicKey → List PublicKey
unfolding distinct_from
distinct ks = distinct_from [] ks

unfoldable pub accounts_needed :
    RaydiumCpmmAdapter → RaydiumCpmmParams → DecodedPool → List PublicKey
unfolding program_id_of distinct
accounts_needed self p d = distinct (
    p.authority
    ∷ p.config_address
    ∷ d.address
    ∷ d.vault_a.address
    ∷ d.vault_b.address
    ∷ program_id_of self.platform.token_programs d.mint_a.program
    ∷ program_id_of self.platform.token_programs d.mint_b.program
    ∷ d.mint_a.mint
    ∷ d.mint_b.mint
    ∷ p.pool.observation_key
    ∷ [])

-- `p.nowUnix ?? Math.floor(Date.parse(d.snapshot.receivedAtUtc) / 1000)`
unfoldable pub or_parsed : Option ℤ → Option ℤ → Option ℤ
or_parsed none parsed = parsed
or_parsed (some now) parsed = some now

unfoldable pub now_of : RaydiumCpmmAdapter → RaydiumCpmmParams → DecodedPool → Option ℤ
unfolding or_parsed
now_of self p d = or_parsed p.now_unix (self.platform.unix_seconds d.snapshot.received_at_utc)
