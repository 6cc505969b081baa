-- ===== src/Routing/Enumerate.antt =====
-- `enumerateCircuits` and `filterByMinQuoteReserve` of src/routing/circuit.ts. A map keyed by text is an
-- association list in insertion order; the id and the reason of a dropped pool are left out as texts.
pub mod Found
pub mod Legs
pub mod Pairs
use atomarb.Common.{
  ℕ, ◌≡◌, Bool, true, false, Bool-cases, inl, inr, Option, none, some, List, [], ◌∷◌, ◌++◌, All,
  ◌==◌, if◌then◌else◌,
}
use atomarb.Common.Int.{ℤ, pos, ltb_ℤ}
use atomarb.Raydium.Layout.{PublicKey}
use atomarb.Adapter.{AdapterId, raydium_cpmm, pumpswap, DecodedPool}
use atomarb.Routing.{cross_adapter, same_adapter, Circuit}

-- The other mint of a pool that has wrapped SOL on one side.
unfoldable pub token_of : PublicKey → DecodedPool → Option PublicKey
token_of wsol p =
    if p.mint_a.mint == wsol
    then some p.mint_b.mint
    else if p.mint_b.mint == wsol
    then some p.mint_a.mint
    else none

-- `byToken.get(k) ?? []`, `push` and `set`
unfoldable pub add_to_group :
    PublicKey
    → DecodedPool
    → List (PublicKey × List DecodedPool)
    → List (PublicKey × List DecodedPool)
add_to_group k p [] = (k, p ∷ []) ∷ []
add_to_group k p ((l, ps) ∷ gs) =
    if l == k then (l, ps ++ p ∷ []) ∷ gs else (l, ps) ∷ add_to_group k p gs

unfoldable pub add_by :
    Option PublicKey
    → DecodedPool
    → List (PublicKey × List DecodedPool)
    → List (PublicKey × List DecodedPool)
unfolding add_to_group
add_by none p gs = gs
add_by (some k) p gs = add_to_group k p gs

unfoldable pub by_token :
    PublicKey
    → List DecodedPool
    → List (PublicKey × List DecodedPool)
    → List (PublicKey × List DecodedPool)
unfolding token_of add_by
by_token wsol [] gs = gs
by_token wsol (p ∷ ps) gs = by_token wsol ps (add_by (token_of wsol p) p gs)

-- `uniq.set(p.address, p)`: the last pool of an address, at the place of the first.
unfoldable pub set_pool : DecodedPool → List DecodedPool → List DecodedPool
set_pool p [] = p ∷ []
set_pool p (q ∷ qs) = if q.address == p.address then p ∷ qs else q ∷ set_pool p qs

unfoldable pub unique : List DecodedPool → List DecodedPool → List DecodedPool
unfolding set_pool
unique [] acc = acc
unique (p ∷ ps) acc = unique ps (set_pool p acc)

unfoldable pub same_id : AdapterId → AdapterId → Bool
same_id raydium_cpmm raydium_cpmm = true
same_id raydium_cpmm pumpswap = false
same_id pumpswap raydium_cpmm = false
same_id pumpswap pumpswap = true

unfoldable pub circuit_of : PublicKey → DecodedPool → DecodedPool → Circuit
unfolding same_id
circuit_of k a b = record {
  token = k;
  pool_a = a;
  pool_b = b;
  category = if same_id a.adapter b.adapter then same_adapter else cross_adapter;
}

-- The inner loop, for one pool `a`.
unfoldable pub pairs_with : PublicKey → DecodedPool → List DecodedPool → List Circuit
unfolding circuit_of
pairs_with k a [] = []
pairs_with k a (b ∷ bs) =
    if a.address == b.address then pairs_with k a bs else circuit_of k a b ∷ pairs_with k a bs

unfoldable pub pairs : PublicKey → List DecodedPool → List DecodedPool → List Circuit
unfolding pairs_with
pairs k [] all = []
pairs k (a ∷ ps) all = pairs_with k a all ++ pairs k ps all

unfoldable pub circuits_of : List (PublicKey × List DecodedPool) → List Circuit
unfolding unique pairs
circuits_of [] = []
circuits_of ((k, ps) ∷ gs) = pairs k (unique ps []) (unique ps []) ++ circuits_of gs

unfoldable pub enumerate_circuits : PublicKey → List DecodedPool → List Circuit
unfolding by_token circuits_of
enumerate_circuits wsol pools = circuits_of (by_token wsol pools [])

pub data DropReason : Type 0 where
  not_wsol_quoted below_min_quote_reserve : DropReason

pub record DroppedPool : Type 0 where
  pub pool : PublicKey
  pub adapter : AdapterId
  pub wsol_reserve : ℕ
  pub reason : DropReason

unfoldable pub wsol_reserve_of : PublicKey → DecodedPool → Option ℕ
wsol_reserve_of wsol p =
    if p.mint_a.mint == wsol
    then some p.reserve_a
    else if p.mint_b.mint == wsol
    then some p.reserve_b
    else none

-- One turn of the loop, before the pools that follow.
unfoldable pub sort_out :
    ℤ
    → DecodedPool
    → Option ℕ
    → List DecodedPool × List DroppedPool
    → List DecodedPool × List DroppedPool
sort_out min p none (kept, dropped) = (
  kept,
  record { pool = p.address; adapter = p.adapter; wsol_reserve = 0; reason = not_wsol_quoted }
      ∷ dropped,
)
sort_out min p (some r) (kept, dropped) =
    if ltb_ℤ (pos r) min
    then (
      kept,
      record {
        pool = p.address;
        adapter = p.adapter;
        wsol_reserve = r;
        reason = below_min_quote_reserve;
      }
          ∷ dropped,
    )
    else (p ∷ kept, dropped)

unfoldable pub filter_by_min_quote_reserve :
    PublicKey → List DecodedPool → ℤ → List DecodedPool × List DroppedPool
unfolding wsol_reserve_of sort_out
filter_by_min_quote_reserve wsol [] min = ([], [])
filter_by_min_quote_reserve wsol (p ∷ ps) min =
    sort_out min p (wsol_reserve_of wsol p) (filter_by_min_quote_reserve wsol ps min)
