-- ===== src/Pumpswap/Gate/Tests.antt =====
-- A mint that is paused, and the theorem of Gate.Harm at it.
use atomarb.Common.{
  ℕ, zero, suc, ◌≡◌, ◌↔◌, refl, All, none, false, List, [], ◌∷◌, ◌++◌, ok, arith, paused,
}
use atomarb.Bytes.{Bytes, subarray, read, read_u16_le, read_u8, value_of}
use atomarb.Raydium.Decode.{field}
use atomarb.Raydium.Adapter.Tests.{mint_0}
use atomarb.Adapter.Accounts.{RawAccount}
use atomarb.Token.{TlvEntry, parse_tlv, tlv_from, tlv_turn}
use atomarb.Pumpswap.Gate.{
  Token2022Gate, token_2022_gate, start_gate, gate_entries, on_entry, on_pausable, reject_with,
  epoch_of,
}
use atomarb.Pumpswap.Gate.Verdicts.{Harm}
use atomarb.Pumpswap.Gate.Harm.{token_2022_gate-rejects_iff}

abbrev zeros : ℕ → Bytes
zeros zero = []
zeros (suc n) = 0 ∷ zeros n

-- A Token-2022 mint with one extension, `Pausable`, that is paused.
abbrev paused_mint : RawAccount
paused_mint = record {
  pubkey = 20;
  bytes = zeros 165 ++ (1 ∷ 26 ∷ 0 ∷ 33 ∷ 0 ∷ zeros 32 ++ (1 ∷ []));
  owner = 9;
  lamports = 1;
  executable = false;
  context_slot = 302_400_000;
  received_at_utc = 1_700_000_000;
  batch_id = 1;
}

abbrev verdict : Token2022Gate
verdict = record {
  rejects = paused ∷ [];
  warnings = [];
  transfer_fee = none;
  transfer_fee_tiers = none;
}

gate_eq : token_2022_gate 9 paused_mint mint_0 ≡ ok verdict
unfolding token_2022_gate start_gate gate_entries on_entry on_pausable reject_with parse_tlv
    tlv_from tlv_turn subarray read read_u16_le read_u8 value_of field epoch_of
gate_eq = refl

token_2022_gate-rejects_iff_example :
    (tlv : List TlvEntry) × (parse_tlv paused_mint.bytes ≡ ok tlv)
    × ((verdict.rejects ≡ []) ↔ All (λ e. ¬ Harm e) tlv)
token_2022_gate-rejects_iff_example =
    token_2022_gate-rejects_iff 9 paused_mint mint_0 verdict refl (omega arith) gate_eq
