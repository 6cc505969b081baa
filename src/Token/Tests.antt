-- ===== src/Token/Tests.antt =====
-- A mint with two extensions, and the theorems of the Token modules at it.
use atomarb.Common.{ℕ, zero, suc, ◌≡◌, refl, List, [], ◌∷◌, ◌++◌, ok, arith}
use atomarb.Bytes.{Bytes}
use atomarb.Token.{TlvEntry, parse_tlv}
use atomarb.Token.Layout.{layout, parse_tlv-layout}

abbrev zeros : ℕ → Bytes
zeros zero = []
zeros (suc n) = 0 ∷ zeros n

-- `DefaultAccountState` and `Pausable`
abbrev extensions : List TlvEntry
extensions = record { type_id = 6; bytes = 1 ∷ [] } ∷ record { type_id = 26; bytes = zeros 33 } ∷ []

parse_tlv-layout_example : parse_tlv (zeros 166 ++ layout extensions) ≡ ok extensions
parse_tlv-layout_example =
    parse_tlv-layout (zeros 166) extensions refl
      ((omega arith, omega arith, omega arith), ((omega arith, omega arith, omega arith), tt))
