-- ===== src/Bytes/RoundTrip.antt =====
-- What src/util/bytes.ts writes is what it reads back.
use atomarb.Common.{
  Bool-cases, inl, inr, ◌⊎◌, ℕ, zero, suc, ◌+◌, ◌*◌, ◌/◌, ◌^◌, ◌≤◌, ◌<◌, ◌≡◌, refl, ◌++◌, length,
  length-append, drop-append, take-append, ok, ◌>>=◌, ltb, u64_max, arith, subst, false,
}
use native.Mathlib.Numerals.{unary_clauses}
use atomarb.Common.Int.{◌<ℤ◌, pos}
use atomarb.Common.Div.{lt_of_mul_lt, div_bounds}
use atomarb.Bytes.{
  negsuc, range, throw, err, ℤ, Bytes, AreBytes, value_of, subarray, read, read_u16_le, read_u64_le,
  bytes_of, write_u64_le,
}

pub length-bytes_of : (n v : ℕ) → length (bytes_of n v) ≡ n
unfolding bytes_of
length-bytes_of zero v = refl
length-bytes_of (suc n) v = rw (length-bytes_of n (v / 256)) refl

pub bytes_of-AreBytes : (n v : ℕ) → AreBytes (bytes_of n v)
unfolding bytes_of
bytes_of-AreBytes zero v = tt
bytes_of-AreBytes (suc n) v = (omega arith, bytes_of-AreBytes n (v / 256))

lt_of_mul_lt_pow : (n v : ℕ) → v < 256 ^ suc n → v / 256 < 256 ^ n
lt_of_mul_lt_pow n v h =
    let k : v < 256 ^ n * 256 = simp unary_clauses at h in
    lt_of_mul_lt (v / 256) (256 ^ n) 256 (omega (arith, k, div_bounds v 256 (omega arith)))

le→ltb : (a b : ℕ) → b ≤ a → ltb a b ≡ false
le→ltb a b h = ground arith

pub value_of-bytes_of : (n v : ℕ) → v < 256 ^ n → value_of (bytes_of n v) ≡ v
unfolding bytes_of value_of
value_of-bytes_of zero v h = omega (arith, h)
value_of-bytes_of (suc n) v h =
    let less : v / 256 < 256 ^ n = lt_of_mul_lt_pow n v h in
    rw (value_of-bytes_of n (v / 256) less) (omega arith)

-- Bytes in the middle of a buffer are read as they stand.
pub read-append :
    (pre bs post : Bytes) → read (length bs) (pre ++ (bs ++ post)) (length pre) ≡ ok bs
unfolding read subarray
read-append pre bs post =
    let inside : ltb (length (pre ++ (bs ++ post))) (length pre + length bs) ≡ false =
      le→ltb (length (pre ++ (bs ++ post))) (length pre + length bs)
        (omega (arith, length-append pre (bs ++ post), length-append bs post)) in
    rw (inside, drop-append pre (bs ++ post), take-append bs post) refl

read_written :
    (n v : ℕ) (pre post : Bytes)
    → v < 256 ^ n
    → (read n (pre ++ (bytes_of n v ++ post)) (length pre) >>= λ bs. ok (value_of bs)) ≡ ok v
read_written n v pre post h =
    let r = read-append pre (bytes_of n v) post in
    let e : read n (pre ++ (bytes_of n v ++ post)) (length pre) ≡ ok (bytes_of n v) =
      subst (λ k. read k (pre ++ (bytes_of n v ++ post)) (length pre) ≡ ok (bytes_of n v))
        (length-bytes_of n v) r in
    rw (e, value_of-bytes_of n v h) refl

pub read_u16_le-written :
    (v : ℕ) (pre post : Bytes)
    → v < 65_536
    → read_u16_le (pre ++ (bytes_of 2 v ++ post)) (length pre) ≡ ok v
unfolding read_u16_le
read_u16_le-written v pre post h = read_written 2 v pre post (omega (arith, h))

accepted :
    (v : ℕ) (pre post : Bytes)
    → v ≤ u64_max
    → (write_u64_le (pos v) ≡ ok (bytes_of 8 v))
      × (read_u64_le (pre ++ (bytes_of 8 v ++ post)) (length pre) ≡ ok v)
unfolding write_u64_le read_u64_le
accepted v pre post h = (rw (le→ltb u64_max v h) refl, read_written 8 v pre post (omega (arith, h)))

-- `writeU64LE` gives the bytes of exactly the numbers of 64 bits, and throws a range error at every
-- other number, negative ones included; the bytes are eight, and they are what `readU64LE` reads back
-- where they stand, whatever is around them.
pub write_u64_le-read_u64_le :
    (v : ℤ) (pre post : Bytes)
    → ((bs : Bytes) × (n : ℕ) × (v ≡ pos n)
        × (n ≤ u64_max)
        × (write_u64_le v ≡ ok bs)
        × (length bs ≡ 8)
        × AreBytes bs
        × (read_u64_le (pre ++ (bs ++ post)) (length pre) ≡ ok n))
      ⊎ ((write_u64_le v ≡ err (throw range)) × ((v <ℤ pos 0) ⊎ (pos u64_max <ℤ v)))
unfolding write_u64_le
write_u64_le-read_u64_le (negsuc n) pre post = inr (refl, inl (omega arith))
write_u64_le-read_u64_le (pos v) pre post = elim (Bool-cases (ltb u64_max v)) [
  | inl over ↦ inr (rw over refl, inr (ground arith))
  | inr fits ↦
      let (w, r) = accepted v pre post (ground arith) in
      inl (bytes_of 8 v, v, refl, ground arith, w, length-bytes_of 8 v, bytes_of-AreBytes 8 v, r)
]
