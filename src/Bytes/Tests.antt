-- ===== src/Bytes/Tests.antt =====
-- A number written between other bytes, and the theorem of Bytes.RoundTrip at it.
use atomarb.Common.{◌⊎◌, ◌≤◌, ◌≡◌, [], ◌∷◌, ◌++◌, length, ok}
use atomarb.Common.Int.{◌<ℤ◌, pos}
use atomarb.Bytes.{range, throw, err, u64_max, ℕ, Bytes, AreBytes, read_u64_le, write_u64_le}
use atomarb.Bytes.RoundTrip.{write_u64_le-read_u64_le}

write_u64_le-read_u64_le_example :
    ((bs : Bytes) × (n : ℕ) × (pos 1_000_000_000 ≡ pos n)
      × (n ≤ u64_max)
      × (write_u64_le (pos 1_000_000_000) ≡ ok bs)
      × (length bs ≡ 8)
      × AreBytes bs
      × (read_u64_le ((7 ∷ 8 ∷ []) ++ (bs ++ (9 ∷ []))) 2 ≡ ok n))
    ⊎ ((write_u64_le (pos 1_000_000_000) ≡ err (throw range))
        × ((pos 1_000_000_000 <ℤ pos 0) ⊎ (pos u64_max <ℤ pos 1_000_000_000)))
write_u64_le-read_u64_le_example =
    write_u64_le-read_u64_le (pos 1_000_000_000) (7 ∷ 8 ∷ []) (9 ∷ [])
