-- ===== src/Token/Layout.antt =====
-- Extensions laid out as bytes are what `parseTlv` of src/state/token.ts reads.
use atomarb.Common.{
  ℕ, zero, suc, ◌+◌, ◌≤◌, ◌<◌, ◌≡◌, refl, sym, ap, subst, ◌∙◌, true, false, List, [], ◌∷◌, ◌++◌,
  All, length, length-append, drop-append, take-append, Result, ok, ltb, leb, ◌==◌, arith,
}
use atomarb.Bytes.{Bytes, subarray, read_u16_le, bytes_of}
use atomarb.Bytes.RoundTrip.{read_u16_le-written, length-bytes_of}
use atomarb.Token.{TlvEntry, tlv_turn, tlv_from, parse_tlv, account_size}

-- The type, the length and the data of an entry.
abbrev pub entry_bytes : TlvEntry → Bytes
entry_bytes e = bytes_of 2 e.type_id ++ (bytes_of 2 (length e.bytes) ++ e.bytes)

abbrev pub layout : List TlvEntry → Bytes
layout [] = []
layout (e ∷ es) = entry_bytes e ++ layout es

-- A type that is not the end mark, and a length, of 16 bits each.
abbrev pub AreEntries : List TlvEntry → Type 0
AreEntries es = All (λ e. (0 < e.type_id) × (e.type_id < 65_536) × (length e.bytes < 65_536)) es

append_assoc : (xs ys zs : Bytes) → xs ++ (ys ++ zs) ≡ (xs ++ ys) ++ zs
append_assoc [] ys zs = refl
append_assoc (x ∷ xs) ys zs = rw (append_assoc xs ys zs) refl

regroup :
    (pre a b d rest : Bytes)
    → (pre ++ ((a ++ (b ++ d)) ++ rest) ≡ pre ++ (a ++ ((b ++ d) ++ rest)))
      × (pre ++ ((a ++ (b ++ d)) ++ rest) ≡ (pre ++ a) ++ (b ++ (d ++ rest)))
      × (pre ++ ((a ++ (b ++ d)) ++ rest) ≡ (pre ++ a ++ b) ++ (d ++ rest))
      × (pre ++ ((a ++ (b ++ d)) ++ rest) ≡ (pre ++ a ++ b ++ d) ++ rest)
regroup pre a b d rest =
    let one = sym (append_assoc a (b ++ d) rest) in
    let two = sym (append_assoc b d rest) in
    let p : pre ++ ((a ++ (b ++ d)) ++ rest) ≡ pre ++ (a ++ ((b ++ d) ++ rest)) =
      ap (λ t. pre ++ t) one in
    let q : pre ++ ((a ++ (b ++ d)) ++ rest) ≡ (pre ++ a) ++ (b ++ (d ++ rest)) =
      p ∙ append_assoc pre a ((b ++ d) ++ rest) ∙ ap (λ t. (pre ++ a) ++ t) two in
    let r : pre ++ ((a ++ (b ++ d)) ++ rest) ≡ (pre ++ a ++ b) ++ (d ++ rest) =
      q ∙ append_assoc (pre ++ a) b (d ++ rest) in
    (p, q, r, r ∙ append_assoc (pre ++ a ++ b) d rest)

subarray-append : (pre d rest : Bytes) → subarray (pre ++ (d ++ rest)) (length pre) (length d) ≡ d
unfolding subarray
subarray-append pre d rest = rw (drop-append pre (d ++ rest), take-append d rest) refl

-- What the four reads of an entry find, where it stands after `pre`.
record IsAt (buf pre : Bytes) (e : TlvEntry) (rest : Bytes) : Type 0 where
  read_type : read_u16_le buf (length pre) ≡ ok e.type_id
  read_len : read_u16_le buf (length pre + 2) ≡ ok (length e.bytes)
  read_data : subarray buf (length pre + 4) (length e.bytes) ≡ e.bytes
  next : Bytes
  next_length : length next ≡ length pre + 4 + length e.bytes
  next_eq : buf ≡ next ++ rest
  room : length pre + 4 + length e.bytes ≤ length buf

entry-IsAt :
    (pre : Bytes) (e : TlvEntry) (rest : Bytes)
    → e.type_id < 65_536
    → length e.bytes < 65_536
    → IsAt (pre ++ (entry_bytes e ++ rest)) pre e rest
entry-IsAt pre e rest t l =
    let a = bytes_of 2 e.type_id in
    let b = bytes_of 2 (length e.bytes) in
    let (p, q, r, s) = regroup pre a b e.bytes rest in
    let two = length-bytes_of 2 e.type_id in
    let two' = length-bytes_of 2 (length e.bytes) in
    let n1 : length (pre ++ a) ≡ length pre + 2 =
      length-append pre a ∙ ap (λ k. length pre + k) two in
    let n2 : length (pre ++ a ++ b) ≡ length pre + 4 =
      omega (arith, length-append (pre ++ a) b, n1, two') in
    let n3 : length (pre ++ a ++ b ++ e.bytes) ≡ length pre + 4 + length e.bytes =
      omega (arith, length-append (pre ++ a ++ b) e.bytes, n2) in
    record {
      read_type = rw p (read_u16_le-written e.type_id pre ((b ++ e.bytes) ++ rest) t);
      read_len = rw q (
          subst (λ k. read_u16_le ((pre ++ a) ++ (b ++ (e.bytes ++ rest))) k ≡ ok (length e.bytes))
            n1 (read_u16_le-written (length e.bytes) (pre ++ a) (e.bytes ++ rest) l));
      read_data = rw r (
          subst (λ k. subarray ((pre ++ a ++ b) ++ (e.bytes ++ rest)) k (length e.bytes) ≡ e.bytes)
            n2 (subarray-append (pre ++ a ++ b) e.bytes rest));
      next = pre ++ a ++ b ++ e.bytes;
      next_length = n3;
      next_eq = s;
      room = rw s (omega (arith, length-append (pre ++ a ++ b ++ e.bytes) rest, n3));
    }

le→leb : (a b : ℕ) → a ≤ b → leb a b ≡ true
le→leb a b h = ground arith

gt→leb : (a b : ℕ) → b < a → leb a b ≡ false
gt→leb a b h = ground arith

tlv_turn-entry :
    (buf : Bytes) (off t len : ℕ) (d : Bytes) (rest : Result (List TlvEntry)) (es : List TlvEntry)
    → 0 < t
    → off + 4 + len ≤ length buf
    → subarray buf (off + 4) len ≡ d
    → rest ≡ ok es
    → tlv_turn buf off t len rest ≡ ok (record { type_id = t; bytes = d } ∷ es)
unfolding tlv_turn
tlv_turn-entry buf off t len d rest es p room e h =
    let go : (t == 0) ≡ false = ground arith in
    let inside : ltb (length buf) (off + 4 + len) ≡ false = ground arith in
    rw (go, inside, h, e) refl

not_below : (k : ℕ) → ¬ (k < 0)
not_below k = omega arith

tlv_from-layout :
    (es : List TlvEntry) (n : ℕ) (pre : Bytes)
    → AreEntries es
    → length es < n
    → tlv_from n (pre ++ layout es) (length pre) ≡ ok es
unfolding tlv_from
tlv_from-layout [] zero pre h l = absurd (not_below 0 l)
tlv_from-layout [] (suc n) pre h l =
    let end : leb (length pre + 4) (length (pre ++ [])) ≡ false =
      gt→leb (length pre + 4) (length (pre ++ [])) (omega (arith, length-append pre [])) in
    rw end refl
tlv_from-layout (e ∷ es) zero pre h l = absurd (not_below (suc (length es)) l)
tlv_from-layout (e ∷ es) (suc n) pre ((p, t, m), hs) l =
    let whole = pre ++ (entry_bytes e ++ layout es) in
    let at = entry-IsAt pre e (layout es) t m in
    let room : leb (length pre + 4) (length whole) ≡ true =
      le→leb (length pre + 4) (length whole) (omega (arith, at.room)) in
    let inner : tlv_from n (at.next ++ layout es) (length at.next) ≡ ok es =
      tlv_from-layout es n at.next hs (omega (arith, l)) in
    let rest : tlv_from n whole (length pre + 4 + length e.bytes) ≡ ok es =
      subst (λ k. tlv_from n whole k ≡ ok es) at.next_length
        (subst (λ b. tlv_from n b (length at.next) ≡ ok es) (sym at.next_eq) inner) in
    rw (room, at.read_type, at.read_len)
      (tlv_turn-entry whole (length pre) e.type_id (length e.bytes) e.bytes
        (tlv_from n whole (length pre + 4 + length e.bytes)) es p at.room at.read_data rest)

layout_long : (es : List TlvEntry) → length es ≤ length (layout es)
layout_long [] = omega arith
layout_long (e ∷ es) =
    let a = bytes_of 2 e.type_id in
    let b = bytes_of 2 (length e.bytes) in
    omega (
      arith,
      length-append (entry_bytes e) (layout es),
      length-append a (b ++ e.bytes),
      length-bytes_of 2 e.type_id,
      layout_long es,
    )

-- Any extensions, each with a type that is not 0 and a type and a length of 16 bits, laid out one after
-- the other behind the base layout and the account-type byte, are what `parseTlv` reads: all of them, in
-- order, and nothing else.
pub parse_tlv-layout :
    (base : Bytes) (es : List TlvEntry)
    → length base ≡ account_size + 1
    → AreEntries es
    → parse_tlv (base ++ layout es) ≡ ok es
unfolding parse_tlv
parse_tlv-layout base es h k =
    let n = length (base ++ layout es) in
    let len = length-append base (layout es) in
    let long : leb n account_size ≡ false = gt→leb n account_size (omega (arith, len, h)) in
    let e : tlv_from n (base ++ layout es) (length base) ≡ ok es =
      tlv_from-layout es n base k (omega (arith, len, h, layout_long es)) in
    let e' : tlv_from n (base ++ layout es) (account_size + 1) ≡ ok es =
      subst (λ o. tlv_from n (base ++ layout es) o ≡ ok es) h e in
    rw long e'
