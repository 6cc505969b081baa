-- ===== src/Token.antt =====
-- Token accounts and mints, src/state/token.ts: the TLV extensions and the two parsers. The keys of the
-- two token programs are arguments. Every error of a parser is the exit `bad_account`.
pub mod Tlv
pub mod Layout
pub mod Tests
use atomarb.Common.{
  ℕ, zero, suc, ◌+◌, ◌-◌, ◌*◌, ◌/◌, Bool, true, false, ◌&&◌, ◌||◌, not, Option, none, some, List,
  [], ◌∷◌, map, length, Result, ok, err, throw, range, bad_account, out_of_fuel, ◌>>=◌, ◌>>◌,
  exit_if, or_exit, ltb, leb, ◌==◌, if◌then◌else◌,
}
use atomarb.Bytes.{Bytes, subarray, read_u8, read_u16_le, read_u32_le, read_u64_le, read_pubkey}
use atomarb.Raydium.Layout.{PublicKey}
use atomarb.Raydium.TransferFee.{TokenProgramKind, spl_token, token_2022, TransferFeeTier}
use atomarb.Adapter.Accounts.{RawAccount, MintInfo, TokenAccountInfo}

abbrev pub mint_size : ℕ
mint_size = 82

abbrev pub account_size : ℕ
account_size = 165

-- `EXT.TransferFeeConfig`
abbrev pub ext_transfer_fee_config : ℕ
ext_transfer_fee_config = 1

pub record TokenPrograms : Type 0 where
  pub token_program_id : PublicKey
  pub token_2022_program_id : PublicKey

unfoldable pub token_program_kind : TokenPrograms → PublicKey → Option TokenProgramKind
token_program_kind k owner =
    if owner == k.token_program_id
    then some spl_token
    else if owner == k.token_2022_program_id
    then some token_2022
    else none

pub record TlvEntry : Type 0 where
  pub type_id : ℕ
  pub bytes : Bytes

-- The end of a turn of the loop: `break`, the error of an entry that overruns, or the entry.
unfoldable pub tlv_turn : Bytes → ℕ → ℕ → ℕ → Result (List TlvEntry) → Result (List TlvEntry)
unfolding subarray
tlv_turn buf off type_id len rest =
    if type_id == 0
    then ok []
    else (exit_if (ltb (length buf) (off + 4 + len)) (throw range)
        >> (rest >>= λ es.
            ok (record { type_id = type_id; bytes = subarray buf (off + 4) len } ∷ es)))

-- The loop of `parseTlv`, with as many turns as there is fuel.
unfoldable pub tlv_from : ℕ → Bytes → ℕ → Result (List TlvEntry)
unfolding read_u16_le tlv_turn
tlv_from zero buf off = err (throw out_of_fuel)
tlv_from (suc n) buf off =
    if leb (off + 4) (length buf)
    then (read_u16_le buf off >>= λ type_id. read_u16_le buf (off + 2) >>= λ len.
        tlv_turn buf off type_id len (tlv_from n buf (off + 4 + len)))
    else ok []

unfoldable pub parse_tlv : Bytes → Result (List TlvEntry)
unfolding tlv_from
parse_tlv buf =
    if leb (length buf) account_size then ok [] else tlv_from (length buf) buf (account_size + 1)

unfoldable pub read_c_option_pubkey : Bytes → ℕ → Result (Option PublicKey)
unfolding read_u32_le read_pubkey
read_c_option_pubkey buf off = do
  tag ← read_u32_le buf off
  if tag == 1 then (read_pubkey buf (off + 4) >>= λ k. ok (some k)) else ok none

unfoldable pub find_entry : ℕ → List TlvEntry → Option TlvEntry
find_entry t [] = none
find_entry t (e ∷ es) = if e.type_id == t then some e else find_entry t es

unfoldable pub read_tier : Bytes → ℕ → Result TransferFeeTier
unfolding read_u64_le read_u16_le
read_tier buf off = do
  epoch ← read_u64_le buf off
  max_fee ← read_u64_le buf (off + 8)
  bps ← read_u16_le buf (off + 16)
  ok (record { epoch = epoch; max_fee = max_fee; bps = bps })

-- `if (tf) { … }`
unfoldable pub with_transfer_fee : MintInfo → Option TlvEntry → Result MintInfo
unfolding read_tier
with_transfer_fee info none = ok info
with_transfer_fee info (some tf) = do
  older ← read_tier tf.bytes 72
  newer ← read_tier tf.bytes 90
  exit_if (ltb 10_000 newer.bps || ltb 10_000 older.bps) (throw bad_account)
  ok (record info { transfer_fee = some newer; transfer_fee_older = some older })

unfoldable pub is_token_2022 : TokenProgramKind → Bool
is_token_2022 spl_token = false
is_token_2022 token_2022 = true

-- `if (kind === 'token_2022' && d.length > MINT_SIZE) { … }`
unfoldable pub with_extensions : Bool → Bytes → MintInfo → Result MintInfo
unfolding read_u8 parse_tlv find_entry with_transfer_fee
with_extensions false d info = ok info
with_extensions true d info = do
  exit_if (ltb (length d) (account_size + 1)) (throw bad_account)
  account_type ← read_u8 d account_size
  exit_if (not (account_type == 1)) (throw bad_account)
  tlv ← parse_tlv d
  with_transfer_fee (record info { extensions = map TlvEntry.type_id tlv })
      (find_entry ext_transfer_fee_config tlv)

unfoldable pub parse_mint : TokenPrograms → RawAccount → Result MintInfo
unfolding token_program_kind read_u8 read_u64_le read_c_option_pubkey is_token_2022 with_extensions
parse_mint k acc = do
  kind ← or_exit (token_program_kind k acc.owner) (throw bad_account)
  let d = acc.bytes
  exit_if (ltb (length d) mint_size) (throw bad_account)
  exit_if (not (is_token_2022 kind) && not (length d == mint_size)) (throw bad_account)
  initialized ← read_u8 d 45
  exit_if (not (initialized == 1)) (throw bad_account)
  decimals ← read_u8 d 44
  supply ← read_u64_le d 36
  mint_authority ← read_c_option_pubkey d 0
  freeze_authority ← read_c_option_pubkey d 46
  with_extensions (is_token_2022 kind && ltb mint_size (length d)) d (record {
    mint = acc.pubkey;
    program = kind;
    decimals = decimals;
    supply = supply;
    freeze_authority = freeze_authority;
    mint_authority = mint_authority;
    extensions = [];
    transfer_fee = none;
    transfer_fee_older = none;
  })

-- `if (kind === 'token_2022' && d.length > ACCOUNT_SIZE) { … }`
unfoldable pub account_extensions : Bool → Bytes → TokenAccountInfo → Result TokenAccountInfo
unfolding read_u8 parse_tlv
account_extensions false d info = ok info
account_extensions true d info = do
  account_type ← read_u8 d account_size
  exit_if (not (account_type == 2)) (throw bad_account)
  tlv ← parse_tlv d
  ok (record info { extensions = map TlvEntry.type_id tlv })

unfoldable pub parse_token_account : TokenPrograms → RawAccount → Result TokenAccountInfo
unfolding token_program_kind read_u8 read_u64_le read_pubkey is_token_2022 account_extensions
parse_token_account k acc = do
  kind ← or_exit (token_program_kind k acc.owner) (throw bad_account)
  let d = acc.bytes
  exit_if (ltb (length d) account_size) (throw bad_account)
  exit_if (not (is_token_2022 kind) && not (length d == account_size)) (throw bad_account)
  state ← read_u8 d 108
  exit_if (state == 0) (throw bad_account)
  mint ← read_pubkey d 0
  owner ← read_pubkey d 32
  amount ← read_u64_le d 64
  account_extensions (is_token_2022 kind && ltb account_size (length d)) d (record {
    address = acc.pubkey;
    program = kind;
    mint = mint;
    owner = owner;
    amount = amount;
    state = state;
    extensions = [];
  })

-- `transferFeeOn` and `transferFeeInverse`, for a rate of at most 100%, as the parser lets through.
unfoldable pub fee_on : ℕ → TransferFeeTier → ℕ
fee_on amount fee =
    if fee.bps == 0 || amount == 0
    then 0
    else (let raw = (amount * fee.bps + 9_999) / 10_000 in
        if ltb fee.max_fee raw then fee.max_fee else raw)

unfoldable pub transfer_fee_on : ℕ → Option TransferFeeTier → ℕ
unfolding fee_on
transfer_fee_on amount none = 0
transfer_fee_on amount (some fee) = fee_on amount fee

unfoldable pub fee_inverse : ℕ → TransferFeeTier → ℕ
fee_inverse net fee =
    if fee.bps == 0 || net == 0
    then 0
    else if fee.bps == 10_000
    then fee.max_fee
    else (let d = 10_000 - fee.bps in
        let f = (net * 10_000 + d - 1) / d - net in if ltb fee.max_fee f then fee.max_fee else f)

unfoldable pub transfer_fee_inverse : ℕ → Option TransferFeeTier → ℕ
unfolding fee_inverse
transfer_fee_inverse net none = 0
transfer_fee_inverse net (some fee) = fee_inverse net fee
