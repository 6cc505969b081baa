-- ===== src/Pumpswap/Gate.antt =====
-- `token2022Gate` of src/adapters/pumpswap/math.ts: what the extensions of a mint let through. The texts
-- of details are left out, their codes are kept.
pub mod Harm
pub mod Verdicts
mod Tests
use atomarb.Common.{
  pausable, transfer_hook_no_program, transfer_fee_charged, Code, permanent_delegate, transfer_hook,
  freeze_authority_set, non_transferable, default_frozen, transfer_fee_invalid, paused, ℕ, ◌/◌,
  Bool, not, ◌||◌, ◌&&◌, Option, none, some, List, [], ◌∷◌, ◌++◌, length, Result, ok, throw, range,
  ◌>>=◌, ◌>>◌, exit_if, ltb, leb, ◌==◌, if◌then◌else◌,
}
use atomarb.Bytes.{Bytes, subarray}
use atomarb.Raydium.TransferFee.{TransferFeeTier, TransferFeeConfigView}
use atomarb.Raydium.Decode.{field, any_non_zero}
use atomarb.Raydium.Layout.{PublicKey}
use atomarb.Adapter.Accounts.{RawAccount, MintInfo}
use atomarb.Token.{TlvEntry, parse_tlv, mint_size}

pub record Token2022Gate : Type 0 where
  pub rejects : List Code
  pub warnings : List Code
  pub transfer_fee : Option TransferFeeTier
  pub transfer_fee_tiers : Option TransferFeeConfigView

unfoldable pub reject_with : Token2022Gate → Code → Token2022Gate
reject_with g c = record g { rejects = g.rejects ++ c ∷ [] }

unfoldable pub warn_with : Token2022Gate → Code → Token2022Gate
warn_with g c = record g { warnings = g.warnings ++ c ∷ [] }

-- A missing byte is not zero.
unfoldable pub is_zero_32 : Bytes → Bool
unfolding any_non_zero subarray
is_zero_32 b = leb 32 (length b) && not (any_non_zero (subarray b 0 32))

abbrev pub slots_per_epoch : ℕ
slots_per_epoch = 432_000

unfoldable pub epoch_of : RawAccount → Option ℕ
epoch_of raw = if ltb 0 raw.context_slot then some (raw.context_slot / slots_per_epoch) else none

unfoldable pub on_pausable : Token2022Gate → Bytes → Token2022Gate
unfolding reject_with warn_with field
on_pausable g d =
    if leb 33 (length d) && field 1 d 32 == 1 then reject_with g paused else warn_with g pausable

unfoldable pub on_default_state : Token2022Gate → Bytes → Token2022Gate
unfolding reject_with field
on_default_state g d =
    if leb 1 (length d) && field 1 d 0 == 2 then reject_with g default_frozen else g

-- The program of a hook that is too short counts as none.
unfoldable pub on_transfer_hook : Token2022Gate → Bytes → Token2022Gate
unfolding reject_with warn_with is_zero_32 subarray
on_transfer_hook g d =
    if leb 64 (length d) && not (is_zero_32 (subarray d 32 32))
    then reject_with g transfer_hook
    else warn_with g transfer_hook_no_program

unfoldable pub on_permanent_delegate : Token2022Gate → Bytes → Token2022Gate
unfolding warn_with is_zero_32 subarray
on_permanent_delegate g d =
    if leb 32 (length d) && not (is_zero_32 (subarray d 0 32))
    then warn_with g permanent_delegate
    else g

-- The tier of the snapshot's epoch; the older one when the epoch is unknown.
unfoldable pub pick_tier : Option ℕ → TransferFeeTier → TransferFeeTier → TransferFeeTier
pick_tier none older newer = older
pick_tier (some epoch) older newer = if leb newer.epoch epoch then newer else older

unfoldable pub with_tiers :
    Token2022Gate → Option ℕ → TransferFeeTier → TransferFeeTier → Token2022Gate
unfolding reject_with warn_with pick_tier
with_tiers g epoch older newer =
    if ltb 10_000 older.bps || ltb 10_000 newer.bps
    then reject_with g transfer_fee_invalid
    else (let pick = pick_tier epoch older newer in
        let h = record g {
          transfer_fee_tiers = some (record { older = older; newer = newer });
          transfer_fee = some pick;
        } in
        if ltb 0 pick.bps || ltb 0 newer.bps || ltb 0 older.bps
        then warn_with h transfer_fee_charged
        else h)

-- A read behind the end of the data throws; a missing byte of a rate is 0.
unfoldable pub on_transfer_fee_config : Token2022Gate → Option ℕ → Bytes → Result Token2022Gate
unfolding with_tiers field
on_transfer_fee_config g epoch d = do
  exit_if (ltb (length d) 106) (throw range)
  ok (
      with_tiers g epoch
        (record { epoch = field 8 d 72; max_fee = field 8 d 80; bps = field 2 d 88 })
        (record { epoch = field 8 d 90; max_fee = field 8 d 98; bps = field 2 d 106 }))

-- The `switch` over the type of an entry.
unfoldable pub on_entry : Option ℕ → Token2022Gate → TlvEntry → Result Token2022Gate
unfolding reject_with on_pausable on_default_state on_transfer_hook on_permanent_delegate
    on_transfer_fee_config
on_entry epoch g e =
    if e.type_id == 9
    then ok (reject_with g non_transferable)
    else if e.type_id == 26
    then ok (on_pausable g e.bytes)
    else if e.type_id == 6
    then ok (on_default_state g e.bytes)
    else if e.type_id == 14
    then ok (on_transfer_hook g e.bytes)
    else if e.type_id == 12
    then ok (on_permanent_delegate g e.bytes)
    else if e.type_id == 1
    then on_transfer_fee_config g epoch e.bytes
    else ok g

unfoldable pub gate_entries : Option ℕ → Token2022Gate → List TlvEntry → Result Token2022Gate
unfolding on_entry
gate_entries epoch g [] = ok g
gate_entries epoch g (e ∷ es) = on_entry epoch g e >>= λ h. gate_entries epoch h es

unfoldable pub start_gate : Option PublicKey → Token2022Gate
start_gate none = record {
  rejects = [];
  warnings = [];
  transfer_fee = none;
  transfer_fee_tiers = none;
}
start_gate (some k) = record {
  rejects = [];
  warnings = freeze_authority_set ∷ [];
  transfer_fee = none;
  transfer_fee_tiers = none;
}

-- The key of the Token-2022 program is the first argument.
unfoldable pub token_2022_gate : PublicKey → RawAccount → MintInfo → Result Token2022Gate
unfolding start_gate parse_tlv gate_entries epoch_of
token_2022_gate token_2022_program raw mint =
    if not (raw.owner == token_2022_program) || leb (length raw.bytes) mint_size
    then ok (start_gate mint.freeze_authority)
    else (parse_tlv raw.bytes >>= λ tlv.
        gate_entries (epoch_of raw) (start_gate mint.freeze_authority) tlv)
