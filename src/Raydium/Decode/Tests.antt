-- ===== src/Raydium/Decode/Tests.antt =====
-- A pool account that holds its discriminator and its fee counters, and the theorem of Decode.Counters at it.
use atomarb.Common.{◌++◌, ◌<◌, ℕ, zero, suc, ◌≡◌, refl, [], ◌∷◌, length, arith}
use atomarb.Bytes.{Bytes, AreBytes, subarray, bytes_equal}
use atomarb.Raydium.Layout.{HasU64Fees}
use atomarb.Raydium.Decode.{pool_state_discriminator, pool_state_of, decode_pool_state}
use atomarb.Raydium.Decode.Counters.{AreRead, decode_pool_state-HasU64Fees}

abbrev zeros : ℕ → Bytes
zeros zero = []
zeros (suc n) = 0 ∷ zeros n

zeros-AreBytes : (n : ℕ) → AreBytes (zeros n)
zeros-AreBytes zero = tt
zeros-AreBytes (suc n) = (omega arith, zeros-AreBytes n)

AreBytes-append : (xs ys : Bytes) → AreBytes xs → AreBytes ys → AreBytes (xs ++ ys)
AreBytes-append [] ys h k = k
AreBytes-append (x ∷ xs) ys (h, hs) k = (h, AreBytes-append xs ys hs k)

-- Two counters side by side.
abbrev counters : (m n : ℕ) → Bytes
counters m n = (m ∷ zeros 7) ++ (n ∷ zeros 7)

counters-AreBytes : (m n : ℕ) → m < 256 → n < 256 → AreBytes (counters m n)
counters-AreBytes m n h k =
    AreBytes-append (m ∷ zeros 7) (n ∷ zeros 7) (h, zeros-AreBytes 7) (k, zeros-AreBytes 7)

abbrev creator_part : Bytes
creator_part = zeros 24 ++ (counters 13 17 ++ zeros 224)

-- The counters of the protocol are 3 and 5, those of the fund 7 and 11, those of the creator 13 and 17.
abbrev account : Bytes
account =
    (pool_state_discriminator ++ zeros 333) ++ (counters 3 5 ++ (counters 7 11 ++ creator_part))

discriminator-AreBytes : AreBytes pool_state_discriminator
discriminator-AreBytes = (
  omega arith,
  (
    omega arith,
    (omega arith, (omega arith, (omega arith, (omega arith, (omega arith, (omega arith, tt)))))),
  ),
)

creator_part-AreBytes : AreBytes creator_part
creator_part-AreBytes =
    AreBytes-append (zeros 24) (counters 13 17 ++ zeros 224) (zeros-AreBytes 24) (
      AreBytes-append (counters 13 17) (zeros 224)
        (counters-AreBytes 13 17 (omega arith) (omega arith)) (zeros-AreBytes 224))

account-AreBytes : AreBytes account
account-AreBytes =
    AreBytes-append (pool_state_discriminator ++ zeros 333)
      (counters 3 5 ++ (counters 7 11 ++ creator_part))
      (AreBytes-append pool_state_discriminator (zeros 333) discriminator-AreBytes
        (zeros-AreBytes 333))
      (AreBytes-append (counters 3 5) (counters 7 11 ++ creator_part)
        (counters-AreBytes 3 5 (omega arith) (omega arith))
        (AreBytes-append (counters 7 11) creator_part
          (counters-AreBytes 7 11 (omega arith) (omega arith)) creator_part-AreBytes))

decode_pool_state-HasU64Fees_example :
    (length account ≡ 637)
    × AreRead account (pool_state_of account)
    × HasU64Fees (pool_state_of account)
unfolding decode_pool_state subarray bytes_equal
decode_pool_state-HasU64Fees_example =
    decode_pool_state-HasU64Fees account (pool_state_of account) account-AreBytes refl
