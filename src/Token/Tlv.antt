-- ===== src/Token/Tlv.antt =====
-- `parseTlv` of src/state/token.ts: its loop ends, and it reads what is laid out as entries.
use atomarb.Common.{
  ℕ, zero, suc, ◌+◌, ◌≤◌, ◌<◌, ◌≡◌, refl, false, Bool-cases, inl, inr, List, ◌∷◌, length, Result,
  ok, err, throw, out_of_fuel, ◌>>=◌, ltb, leb, ◌==◌, arith,
}
use atomarb.Bytes.{Bytes, value_of, subarray, read, read_u16_le}
use atomarb.Token.{TlvEntry, tlv_turn, tlv_from, parse_tlv, account_size}

read_u16_le-inside :
    (buf : Bytes) (off : ℕ)
    → off + 2 ≤ length buf
    → read_u16_le buf off ≡ ok (value_of (subarray buf off 2))
unfolding read_u16_le read
read_u16_le-inside buf off h =
    let e : ltb (length buf) (off + 2) ≡ false = ground arith in rw e refl

-- A result that is not the model's own exit.
abbrev pub IsFueled : Result (List TlvEntry) → Type 0
IsFueled r = ¬ (r ≡ err (throw out_of_fuel))

more-IsFueled :
    (e : TlvEntry) (rest : Result (List TlvEntry))
    → IsFueled rest
    → IsFueled (rest >>= λ es. ok (e ∷ es))
more-IsFueled e (ok es) h k = cc
more-IsFueled e (err x) h k = h (cc)

tlv_turn-IsFueled :
    (buf : Bytes) (off t len : ℕ) (rest : Result (List TlvEntry))
    → (off + 4 + len ≤ length buf → IsFueled rest)
    → IsFueled (tlv_turn buf off t len rest)
unfolding tlv_turn
tlv_turn-IsFueled buf off t len rest h = elim (Bool-cases (t == 0)) [
  | inl stop ↦ rw stop (λ k. cc)
  | inr go ↦ elim (Bool-cases (ltb (length buf) (off + 4 + len))) [
    | inl over ↦ rw (go, over) (λ k. cc)
    | inr inside ↦
        rw (go, inside)
          (more-IsFueled (record { type_id = t; bytes = subarray buf (off + 4) len }) rest
            (h (ground arith)))
  ]
]

tlv_from-IsFueled :
    (n : ℕ) (buf : Bytes) (off : ℕ) → 0 < n → length buf ≤ off + n → IsFueled (tlv_from n buf off)
unfolding tlv_from
tlv_from-IsFueled zero buf off p h = omega arith
tlv_from-IsFueled (suc n) buf off p h = elim (Bool-cases (leb (off + 4) (length buf))) [
  | inl room ↦
      let l : off + 4 ≤ length buf = ground arith in
      let t = value_of (subarray buf off 2) in
      let len = value_of (subarray buf (off + 2) 2) in
      rw
        (
          room,
          read_u16_le-inside buf off (omega (arith, l)),
          read_u16_le-inside buf (off + 2) (omega (arith, l)),
        )
        (tlv_turn-IsFueled buf off t len (tlv_from n buf (off + 4 + len)) (λ k.
          tlv_from-IsFueled n buf (off + 4 + len) (omega (arith, l, h)) (omega (arith, l, h))))
  | inr end ↦ rw end (λ k. cc)
]

-- The loop of `parseTlv` ends by itself on every account, within as many turns as the account has
-- bytes: the fuel of the model never runs out.
pub parse_tlv-IsFueled : (buf : Bytes) → IsFueled (parse_tlv buf)
unfolding parse_tlv
parse_tlv-IsFueled buf = elim (Bool-cases (leb (length buf) account_size)) [
  | inl short ↦ rw short (λ k. cc)
  | inr long ↦
      let l : account_size < length buf = ground arith in
      rw long
        (tlv_from-IsFueled (length buf) buf (account_size + 1) (omega (arith, l)) (omega arith))
]
