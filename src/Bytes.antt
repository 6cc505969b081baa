-- ===== src/Bytes.antt =====
-- The little-endian readers and writers of src/util/bytes.ts. A byte array is the list of its bytes.
pub mod RoundTrip
pub mod Tests
use atomarb.Common.{
  ℕ, zero, suc, ◌+◌, ◌-◌, ◌*◌, ◌/◌, ◌%◌, ◌^◌, ◌<◌, Bool, List, [], ◌∷◌, ◌++◌, take, drop, length,
  All, Result, ok, err, throw, range, ◌>>=◌, ◌>>◌, exit_if, ltb, leb, ◌==◌, if◌then◌else◌, u64_max,
  true, false, ◌&&◌,
}
use atomarb.Common.Int.{ℤ, pos, negsuc, sub_ℕ}

abbrev pub Bytes : Type 0
Bytes = List ℕ

-- Every byte is below 256.
abbrev pub AreBytes : Bytes → Type 0
AreBytes bs = All (λ (b : ℕ). b < 256) bs

-- `(v << 8) | b`, from the last byte to the first.
unfoldable pub value_of : Bytes → ℕ
value_of [] = 0
value_of (b ∷ bs) = b + 256 * value_of bs

-- `buf.subarray(off, off + n)`
unfoldable pub subarray : Bytes → ℕ → ℕ → Bytes
subarray buf off n = take n (drop off buf)

-- The bounds check that every reader starts with, and the bytes.
unfoldable pub read : ℕ → Bytes → ℕ → Result Bytes
unfolding subarray
read n buf off = do exit_if (ltb (length buf) (off + n)) (throw range); ok (subarray buf off n)

unfoldable pub read_u8 : Bytes → ℕ → Result ℕ
unfolding read value_of
read_u8 buf off = read 1 buf off >>= λ bs. ok (value_of bs)

unfoldable pub read_u16_le : Bytes → ℕ → Result ℕ
unfolding read value_of
read_u16_le buf off = read 2 buf off >>= λ bs. ok (value_of bs)

unfoldable pub read_u32_le : Bytes → ℕ → Result ℕ
unfolding read value_of
read_u32_le buf off = read 4 buf off >>= λ bs. ok (value_of bs)

unfoldable pub read_u64_le : Bytes → ℕ → Result ℕ
unfolding read value_of
read_u64_le buf off = read 8 buf off >>= λ bs. ok (value_of bs)

-- `u >= 1n << 63n ? u - (1n << 64n) : u`, for a width of `w` bits.
unfoldable pub signed : ℕ → ℕ → ℤ
signed w u = if leb (2 ^ (w - 1)) u then sub_ℕ u (2 ^ w) else pos u

unfoldable pub read_i64_le : Bytes → ℕ → Result ℤ
unfolding read_u64_le signed
read_i64_le buf off = read_u64_le buf off >>= λ u. ok (signed 64 u)

unfoldable pub read_u128_le : Bytes → ℕ → Result ℕ
unfolding read read_u64_le
read_u128_le buf off = do
  exit_if (ltb (length buf) (off + 16)) (throw range)
  low ← read_u64_le buf off
  high ← read_u64_le buf (off + 8)
  ok (low + high * 2 ^ 64)

-- A key is the number that its 32 bytes spell.
unfoldable pub read_pubkey : Bytes → ℕ → Result ℕ
unfolding read value_of
read_pubkey buf off = read 32 buf off >>= λ bs. ok (value_of bs)

-- `(v >> 8 * i) & 0xff`, for each i in turn.
unfoldable pub bytes_of : ℕ → ℕ → Bytes
bytes_of zero v = []
bytes_of (suc n) v = v % 256 ∷ bytes_of n (v / 256)

unfoldable pub write_u64_le : ℤ → Result Bytes
unfolding bytes_of
write_u64_le (negsuc n) = err (throw range)
write_u64_le (pos v) = do exit_if (ltb u64_max v) (throw range); ok (bytes_of 8 v)

-- `v >>> 0` and `v & 0xffff` wrap around.
unfoldable pub write_u32_le : ℕ → Bytes
unfolding bytes_of
write_u32_le v = bytes_of 4 (v % 2 ^ 32)

unfoldable pub write_u16_le : ℕ → Bytes
unfolding bytes_of
write_u16_le v = bytes_of 2 (v % 2 ^ 16)

unfoldable pub bytes_equal : Bytes → Bytes → Bool
bytes_equal [] [] = true
bytes_equal [] (b ∷ bs) = false
bytes_equal (a ∷ xs) [] = false
bytes_equal (a ∷ xs) (b ∷ bs) = a == b && bytes_equal xs bs
