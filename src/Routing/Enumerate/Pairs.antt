-- ===== src/Routing/Enumerate/Pairs.antt =====
-- The circuits of `enumerateCircuits` of src/routing/circuit.ts are the ordered pairs of distinct pools of
-- one token.
use atomarb.Common.{
  ◌≡◌, ◌≢◌, ◌⊎◌, ◌↔◌, refl, sym, ◌∙◌, ap, subst, true, false, inl, inr, some, List, [], ◌∷◌, All,
  ◌==◌, arith,
}
use atomarb.Raydium.Layout.{PublicKey}
use atomarb.Adapter.{DecodedPool}
use atomarb.Routing.{Circuit}
use atomarb.Routing.Enumerate.{token_of, by_token, enumerate_circuits}
use atomarb.Routing.Enumerate.Found.{Between, HasTokenOf, enumerate_circuits-Has}
use atomarb.Routing.Enumerate.Legs.{IsPairOf, by_token-All, circuits_of-All}

-- The pool has wrapped SOL on one side and the token on the other.
abbrev pub Trades : (wsol k : PublicKey) → DecodedPool → Type 0
Trades wsol k p =
    ((p.mint_a.mint ≡ wsol) × (p.mint_b.mint ≡ k))
    ⊎ ((p.mint_a.mint ≢ wsol) × (p.mint_b.mint ≡ wsol) × (p.mint_a.mint ≡ k))

abbrev pub Listed : DecodedPool → List DecodedPool → Type 0
Listed p [] = ⊥
Listed p (q ∷ qs) = (q ≡ p) ⊎ Listed p qs

token_of-Trades :
    (wsol k : PublicKey) (p : DecodedPool) → token_of wsol p ≡ some k → Trades wsol k p
unfolding token_of
token_of-Trades wsol k p h = ground arith

Trades-token_of :
    (wsol k : PublicKey) (p : DecodedPool) → Trades wsol k p → token_of wsol p ≡ some k
unfolding token_of
Trades-token_of wsol k p (inl (a, b)) =
    let t : (p.mint_a.mint == wsol) ≡ true = ground (arith, a) in rw (t, b) refl
Trades-token_of wsol k p (inr (n, b, a)) =
    let t : (p.mint_a.mint == wsol) ≡ false = ground (arith, n) in
    let u : (p.mint_b.mint == wsol) ≡ true = ground (arith, b) in rw (t, u, a) refl

-- A pool of the list that trades the token against wrapped SOL.
abbrev pub IsLeg :
    (wsol : PublicKey) (pools : List DecodedPool) (k : PublicKey) → DecodedPool → Type 0
IsLeg wsol pools k p = Listed p pools × Trades wsol k p

abbrev pub HasLegAt : (wsol : PublicKey) (pools : List DecodedPool) → (k x : PublicKey) → Type 0
HasLegAt wsol pools k x = (p : DecodedPool) × IsLeg wsol pools k p × (p.address ≡ x)

HasLegAt-HasTokenOf :
    (wsol k x : PublicKey) (p : DecodedPool) (pools : List DecodedPool)
    → Listed p pools
    → Trades wsol k p
    → p.address ≡ x
    → HasTokenOf wsol k x pools
HasLegAt-HasTokenOf wsol k x p [] l t e = absurd l
HasLegAt-HasTokenOf wsol k x p (q ∷ qs) (inl same) t e =
    inl (
      Trades-token_of wsol k q (subst (Trades wsol k) (sym same) t),
      ap DecodedPool.address same ∙ e,
    )
HasLegAt-HasTokenOf wsol k x p (q ∷ qs) (inr l) t e = inr (HasLegAt-HasTokenOf wsol k x p qs l t e)

each-IsLeg :
    (wsol : PublicKey) (pools ps : List DecodedPool)
    → ((p : DecodedPool) → Listed p ps → Listed p pools)
    → All (λ p. (k : PublicKey) → token_of wsol p ≡ some k → IsLeg wsol pools k p) ps
each-IsLeg wsol pools [] h = tt
each-IsLeg wsol pools (p ∷ ps) h = (
  λ k t. (h p (inl refl), token_of-Trades wsol k p t),
  each-IsLeg wsol pools ps (λ q l. h q (inr l)),
)

enumerate_circuits-All :
    (wsol : PublicKey) (pools : List DecodedPool)
    → All (IsPairOf (IsLeg wsol pools)) (enumerate_circuits wsol pools)
unfolding enumerate_circuits
enumerate_circuits-All wsol pools =
    circuits_of-All (IsLeg wsol pools) (by_token wsol pools [])
      (by_token-All (IsLeg wsol pools) wsol pools [] (each-IsLeg wsol pools pools (λ p l. l)) tt)

legs-Between :
    (wsol k x y : PublicKey) (pools : List DecodedPool) (cs : List Circuit)
    → All (IsPairOf (IsLeg wsol pools)) cs
    → Between k x y cs
    → HasLegAt wsol pools k x × HasLegAt wsol pools k y × (x ≢ y)
legs-Between wsol k x y pools [] h b = absurd b
legs-Between wsol k x y pools (c ∷ cs) (h, hs) (inl (t, a, b)) = (
  (c.pool_a, subst (λ z. IsLeg wsol pools z c.pool_a) t h.leg_a, a),
  (c.pool_b, subst (λ z. IsLeg wsol pools z c.pool_b) t h.leg_b, b),
  λ e. h.apart (a ∙ e ∙ sym b),
)
legs-Between wsol k x y pools (c ∷ cs) (h, hs) (inr b) = legs-Between wsol k x y pools cs hs b

-- Every circuit that `enumerateCircuits` gives has two pools of the list as its legs, at different
-- addresses, each with wrapped SOL on one side and the circuit's token on the other, and its category
-- tells whether their adapters are the same; and a circuit from one address to another through a token
-- is given exactly if two such pools are at these addresses, and the addresses differ.
pub enumerate_circuits-Between_iff :
    (wsol : PublicKey) (pools : List DecodedPool)
    → All (IsPairOf (IsLeg wsol pools)) (enumerate_circuits wsol pools)
      × ((k x y : PublicKey)
          → Between k x y (enumerate_circuits wsol pools)
            ↔ (HasLegAt wsol pools k x × HasLegAt wsol pools k y × (x ≢ y)))
enumerate_circuits-Between_iff wsol pools =
    let sound = enumerate_circuits-All wsol pools in
    (
      sound,
      λ k x y. (
        legs-Between wsol k x y pools (enumerate_circuits wsol pools) sound,
        λ ((p, (l, t), e), (q, (m, u), f), n).
            enumerate_circuits-Has wsol k x y pools (HasLegAt-HasTokenOf wsol k x p pools l t e)
              (HasLegAt-HasTokenOf wsol k y q pools m u f) n,
      ),
    )
