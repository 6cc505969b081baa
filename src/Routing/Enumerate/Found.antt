-- ===== src/Routing/Enumerate/Found.antt =====
-- `enumerateCircuits` of src/routing/circuit.ts finds every pair: the pools of a token are in one group,
-- their addresses survive the deduplication, and the two loops produce each pair of them.
use atomarb.Common.{
  ◌≡◌, ◌≢◌, ◌⊎◌, refl, sym, ◌∙◌, subst, true, false, Bool-cases, inl, inr, Option, none, some, List,
  [], ◌∷◌, ◌++◌, ◌==◌, if◌then◌else◌, arith,
}
use atomarb.Raydium.Layout.{PublicKey}
use atomarb.Adapter.{DecodedPool}
use atomarb.Routing.{Circuit}
use atomarb.Routing.Enumerate.{
  token_of, add_to_group, add_by, by_token, set_pool, unique, circuit_of, pairs_with, pairs,
  circuits_of, enumerate_circuits,
}

-- A pool of the list is at the address.
abbrev pub Has : PublicKey → List DecodedPool → Type 0
Has x [] = ⊥
Has x (p ∷ ps) = (p.address ≡ x) ⊎ Has x ps

-- A circuit of the list goes from the pool at `x` to the one at `y`, through the token `k`.
abbrev pub Between : (k x y : PublicKey) → List Circuit → Type 0
Between k x y [] = ⊥
Between k x y (c ∷ cs) =
    ((c.token ≡ k) × (c.pool_a.address ≡ x) × (c.pool_b.address ≡ y)) ⊎ Between k x y cs

set_pool-keeps :
    (p : DecodedPool) (qs : List DecodedPool) (x : PublicKey) → Has x qs → Has x (set_pool p qs)
unfolding set_pool
set_pool-keeps p [] x h = absurd h
set_pool-keeps p (q ∷ qs) x (inl e) = elim (Bool-cases (q.address == p.address)) [
  | inl same ↦ rw same (inl (ground (arith, e)))
  | inr other ↦ rw other (inl e)
]
set_pool-keeps p (q ∷ qs) x (inr h) = elim (Bool-cases (q.address == p.address)) [
  | inl same ↦ rw same (inr h)
  | inr other ↦ rw other (inr (set_pool-keeps p qs x h))
]

set_pool-Has : (p : DecodedPool) (qs : List DecodedPool) → Has p.address (set_pool p qs)
unfolding set_pool
set_pool-Has p [] = inl refl
set_pool-Has p (q ∷ qs) = elim (Bool-cases (q.address == p.address)) [
  | inl same ↦ rw same (inl refl)
  | inr other ↦ rw other (inr (set_pool-Has p qs))
]

unique-keeps : (ps acc : List DecodedPool) (x : PublicKey) → Has x acc → Has x (unique ps acc)
unfolding unique
unique-keeps [] acc x h = h
unique-keeps (p ∷ ps) acc x h = unique-keeps ps (set_pool p acc) x (set_pool-keeps p acc x h)

unique-Has : (ps acc : List DecodedPool) (x : PublicKey) → Has x ps → Has x (unique ps acc)
unfolding unique
unique-Has [] acc x h = absurd h
unique-Has (p ∷ ps) acc x (inl e) =
    unique-keeps ps (set_pool p acc) x (subst (λ z. Has z (set_pool p acc)) e (set_pool-Has p acc))
unique-Has (p ∷ ps) acc x (inr h) = unique-Has ps (set_pool p acc) x h

-- The pools that are kept for a token.
abbrev group_of : PublicKey → List (PublicKey × List DecodedPool) → List DecodedPool
group_of k [] = []
group_of k ((l, ps) ∷ gs) = if l == k then ps else group_of k gs

Has-append_one :
    (ps : List DecodedPool) (p : DecodedPool) (x : PublicKey) → Has x ps → Has x (ps ++ p ∷ [])
Has-append_one [] p x h = absurd h
Has-append_one (q ∷ ps) p x (inl e) = inl e
Has-append_one (q ∷ ps) p x (inr h) = inr (Has-append_one ps p x h)

Has-last : (ps : List DecodedPool) (p : DecodedPool) → Has p.address (ps ++ p ∷ [])
Has-last [] p = inl refl
Has-last (q ∷ ps) p = inr (Has-last ps p)

add-keeps :
    (k l : PublicKey) (p : DecodedPool) (gs : List (PublicKey × List DecodedPool)) (x : PublicKey)
    → Has x (group_of k gs)
    → Has x (group_of k (add_to_group l p gs))
unfolding add_to_group
add-keeps k l p [] x h = absurd h
add-keeps k l p ((m, ps) ∷ gs) x h = elim (Bool-cases (m == k)) [
  | inl here ↦ elim (Bool-cases (m == l)) [
    | inl same ↦ rw same (rw here (Has-append_one ps p x (rw here at h)))
    | inr other ↦ rw other (rw here (rw here at h))
  ]
  | inr there ↦ elim (Bool-cases (m == l)) [
    | inl same ↦ rw same (rw there (rw there at h))
    | inr other ↦ rw other (rw there (add-keeps k l p gs x (rw there at h)))
  ]
]

self_eq : (k : PublicKey) → (k == k) ≡ true
self_eq k = ground arith

add-Has :
    (k : PublicKey) (p : DecodedPool) (gs : List (PublicKey × List DecodedPool))
    → Has p.address (group_of k (add_to_group k p gs))
unfolding add_to_group
add-Has k p [] = rw (self_eq k) (inl refl)
add-Has k p ((m, ps) ∷ gs) = elim (Bool-cases (m == k)) [
  | inl same ↦ rw same (rw same (Has-last ps p))
  | inr other ↦ rw other (rw other (add-Has k p gs))
]

add_by-keeps :
    (o : Option PublicKey) (k : PublicKey) (p : DecodedPool)
    (gs : List (PublicKey × List DecodedPool)) (x : PublicKey)
    → Has x (group_of k gs)
    → Has x (group_of k (add_by o p gs))
unfolding add_by
add_by-keeps none k p gs x h = h
add_by-keeps (some l) k p gs x h = add-keeps k l p gs x h

-- A pool of the list is at the address, and its other mint is the token.
abbrev pub HasTokenOf : (wsol k x : PublicKey) → List DecodedPool → Type 0
HasTokenOf wsol k x [] = ⊥
HasTokenOf wsol k x (p ∷ ps) =
    ((token_of wsol p ≡ some k) × (p.address ≡ x)) ⊎ HasTokenOf wsol k x ps

module _ (wsol k x : PublicKey) where
  by_token-keeps :
      (ps : List DecodedPool) (gs : List (PublicKey × List DecodedPool))
      → Has x (group_of k gs)
      → Has x (group_of k (by_token wsol ps gs))
  unfolding by_token
  by_token-keeps [] gs h = h
  by_token-keeps (p ∷ ps) gs h =
      by_token-keeps ps (add_by (token_of wsol p) p gs) (add_by-keeps (token_of wsol p) k p gs x h)

  by_token-Has :
      (ps : List DecodedPool) (gs : List (PublicKey × List DecodedPool))
      → HasTokenOf wsol k x ps
      → Has x (group_of k (by_token wsol ps gs))
  unfolding by_token add_by
  by_token-Has [] gs h = absurd h
  by_token-Has (p ∷ ps) gs (inl (t, e)) =
      by_token-keeps ps (add_by (token_of wsol p) p gs)
        (rw t (subst (λ z. Has z (group_of k (add_to_group k p gs))) e (add-Has k p gs)))
  by_token-Has (p ∷ ps) gs (inr h) = by_token-Has ps (add_by (token_of wsol p) p gs) h

module _ (k x y : PublicKey) where
  Between-left : (cs ds : List Circuit) → Between k x y cs → Between k x y (cs ++ ds)
  Between-left [] ds h = absurd h
  Between-left (c ∷ cs) ds (inl h) = inl h
  Between-left (c ∷ cs) ds (inr h) = inr (Between-left cs ds h)

  Between-right : (cs ds : List Circuit) → Between k x y ds → Between k x y (cs ++ ds)
  Between-right [] ds h = h
  Between-right (c ∷ cs) ds h = inr (Between-right cs ds h)

apart_test : (a b y : PublicKey) → b ≡ y → a ≢ y → (a == b) ≡ false
apart_test a b y e n = ground arith

pairs_with-Has :
    (k : PublicKey) (a : DecodedPool) (bs : List DecodedPool) (y : PublicKey)
    → Has y bs
    → a.address ≢ y
    → Between k a.address y (pairs_with k a bs)
unfolding pairs_with circuit_of
pairs_with-Has k a [] y h n = absurd h
pairs_with-Has k a (b ∷ bs) y (inl e) n =
    rw (apart_test a.address b.address y e n) (inl (refl, refl, e))
pairs_with-Has k a (b ∷ bs) y (inr h) n = elim (Bool-cases (a.address == b.address)) [
  | inl same ↦ rw same (pairs_with-Has k a bs y h n)
  | inr other ↦ rw other (inr (pairs_with-Has k a bs y h n))
]

pairs-Has :
    (k : PublicKey) (ps all : List DecodedPool) (x y : PublicKey)
    → Has x ps
    → Has y all
    → x ≢ y
    → Between k x y (pairs k ps all)
unfolding pairs
pairs-Has k [] all x y h g n = absurd h
pairs-Has k (a ∷ ps) all x y (inl e) g n =
    Between-left k x y (pairs_with k a all) (pairs k ps all) (
      subst (λ z. Between k z y (pairs_with k a all)) e
        (pairs_with-Has k a all y g (λ q. n (sym e ∙ q))))
pairs-Has k (a ∷ ps) all x y (inr h) g n =
    Between-right k x y (pairs_with k a all) (pairs k ps all) (pairs-Has k ps all x y h g n)

circuits_of-Has :
    (gs : List (PublicKey × List DecodedPool)) (k x y : PublicKey)
    → Has x (group_of k gs)
    → Has y (group_of k gs)
    → x ≢ y
    → Between k x y (circuits_of gs)
unfolding circuits_of
circuits_of-Has [] k x y h g n = absurd h
circuits_of-Has ((l, ps) ∷ gs) k x y h g n = elim (Bool-cases (l == k)) [
  | inl here ↦
      let e : l ≡ k = ground arith in
      let i = unique-Has ps [] x (rw here at h) in
      let j = unique-Has ps [] y (rw here at g) in
      Between-left k x y (pairs l (unique ps []) (unique ps [])) (circuits_of gs) (
        subst (λ z. Between z x y (pairs l (unique ps []) (unique ps []))) e
          (pairs-Has l (unique ps []) (unique ps []) x y i j n))
  | inr there ↦
      Between-right k x y (pairs l (unique ps []) (unique ps [])) (circuits_of gs)
        (circuits_of-Has gs k x y (rw there at h) (rw there at g) n)
]

-- Of two pools of a token at different addresses, the circuit from one to the other is found.
pub enumerate_circuits-Has :
    (wsol k x y : PublicKey) (pools : List DecodedPool)
    → HasTokenOf wsol k x pools
    → HasTokenOf wsol k y pools
    → x ≢ y
    → Between k x y (enumerate_circuits wsol pools)
unfolding enumerate_circuits
enumerate_circuits-Has wsol k x y pools h g n =
    circuits_of-Has (by_token wsol pools []) k x y (by_token-Has wsol k x pools [] h)
      (by_token-Has wsol k y pools [] g) n
