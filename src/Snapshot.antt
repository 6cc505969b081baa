-- ===== src/Snapshot.antt =====
-- The state hash of a snapshot, src/state/snapshot.ts, and the values that the libraries give: the known
-- keys, derived addresses, dates and hashes. A hash is taken of the parts that its text joins.
pub mod Pools
use Prim.Native.String.{String}
use atomarb.Common.{ℕ, Option, none, some, List, [], ◌∷◌}
use atomarb.Common.Int.{ℤ}
use atomarb.Bytes.{Bytes}
use atomarb.Raydium.Layout.{PublicKey}
use atomarb.Token.{TokenPrograms}
use atomarb.Adapter.Accounts.{AccountBundle, RawAccount}

-- A key, and the slot and the bytes of its account; `missing` is `none`.
pub record HashPart : Type 0 where
  pub key : PublicKey
  pub content : Option (ℕ × Bytes)

-- `unix_seconds` is the quotient of `Date.parse` by 1000, rounded down; `none` is NaN.
pub record Platform : Type 0 where
  pub wsol_mint : PublicKey
  pub token_programs : TokenPrograms
  pub associated_token_address : (owner mint token_program : PublicKey) → PublicKey
  pub unix_seconds : ℕ → Option ℤ
  pub sha256_hex : List HashPart → String

unfoldable pub content_of : Option RawAccount → Option (ℕ × Bytes)
content_of none = none
content_of (some a) = some (a.context_slot, a.bytes)

unfoldable pub parts_of : List PublicKey → AccountBundle → List HashPart
unfolding content_of
parts_of [] bundle = []
parts_of (k ∷ ks) bundle =
    record { key = k; content = content_of (bundle.accounts k) } ∷ parts_of ks bundle

unfoldable pub state_hash_of : Platform → List PublicKey → AccountBundle → String
unfolding parts_of
state_hash_of platform keys bundle = platform.sha256_hex (parts_of keys bundle)
