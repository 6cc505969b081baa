-- ===== src/Routing/Enumerate/Legs.antt =====
-- Both legs of every circuit that `enumerateCircuits` of src/routing/circuit.ts gives are pools of the
-- circuit's token, whatever is asked of such a pool.
use atomarb.Common.{
  ◌≡◌, ◌≢◌, ◌↔◌, refl, subst, false, Bool-cases, inl, inr, Option, none, some, List, [], ◌∷◌, ◌++◌,
  All, All-append_one, ◌==◌, if◌then◌else◌, arith,
}
use atomarb.Raydium.Layout.{PublicKey}
use atomarb.Adapter.{AdapterId, raydium_cpmm, pumpswap, DecodedPool}
use atomarb.Routing.{cross_adapter, same_adapter, Circuit}
use atomarb.Routing.Enumerate.{
  token_of, add_to_group, add_by, by_token, set_pool, unique, same_id, circuit_of, pairs_with,
  pairs, circuits_of,
}

module _ (Leg : PublicKey → DecodedPool → Type 0) where
  set_pool-All :
      (k : PublicKey) (p : DecodedPool) (qs : List DecodedPool)
      → Leg k p
      → All (Leg k) qs
      → All (Leg k) (set_pool p qs)
  unfolding set_pool
  set_pool-All k p [] l h = (l, tt)
  set_pool-All k p (q ∷ qs) l (h, hs) = elim (Bool-cases (q.address == p.address)) [
    | inl same ↦ rw same (l, hs)
    | inr other ↦ rw other (h, set_pool-All k p qs l hs)
  ]

  unique-All :
      (k : PublicKey) (ps acc : List DecodedPool)
      → All (Leg k) ps
      → All (Leg k) acc
      → All (Leg k) (unique ps acc)
  unfolding unique
  unique-All k [] acc h g = g
  unique-All k (p ∷ ps) acc (h, hs) g =
      unique-All k ps (set_pool p acc) hs (set_pool-All k p acc h g)

  abbrev pub AreGroups : List (PublicKey × List DecodedPool) → Type 0
  AreGroups gs = All (λ g. All (Leg g.0) g.1) gs

  add_to_group-All :
      (k : PublicKey) (p : DecodedPool) (gs : List (PublicKey × List DecodedPool))
      → Leg k p
      → AreGroups gs
      → AreGroups (add_to_group k p gs)
  unfolding add_to_group
  add_to_group-All k p [] l h = ((l, tt), tt)
  add_to_group-All k p ((m, ps) ∷ gs) l (h, hs) = elim (Bool-cases (m == k)) [
    | inl same ↦
        let e : k ≡ m = ground arith in
        rw same (All-append_one (Leg m) ps p h (subst (λ z. Leg z p) e l), hs)
    | inr other ↦ rw other (h, add_to_group-All k p gs l hs)
  ]

  add_by-All :
      (o : Option PublicKey) (p : DecodedPool) (gs : List (PublicKey × List DecodedPool))
      → ((k : PublicKey) → o ≡ some k → Leg k p)
      → AreGroups gs
      → AreGroups (add_by o p gs)
  unfolding add_by
  add_by-All none p gs l h = h
  add_by-All (some k) p gs l h = add_to_group-All k p gs (l k refl) h

  pub by_token-All :
      (wsol : PublicKey) (ps : List DecodedPool) (gs : List (PublicKey × List DecodedPool))
      → All (λ p. (k : PublicKey) → token_of wsol p ≡ some k → Leg k p) ps
      → AreGroups gs
      → AreGroups (by_token wsol ps gs)
  unfolding by_token
  by_token-All wsol [] gs l h = h
  by_token-All wsol (p ∷ ps) gs (l, ls) h =
      by_token-All wsol ps (add_by (token_of wsol p) p gs) ls
        (add_by-All (token_of wsol p) p gs l h)

  -- Both legs are pools of the token, they are at different addresses, and the category tells whether
  -- the adapters are the same.
  pub record IsPairOf (c : Circuit) : Type 0 where
    pub leg_a : Leg c.token c.pool_a
    pub leg_b : Leg c.token c.pool_b
    pub apart : c.pool_a.address ≢ c.pool_b.address
    pub category : (c.category ≡ same_adapter) ↔ (c.pool_a.adapter ≡ c.pool_b.adapter)

  category_iff :
      (a b : AdapterId)
      → ((if same_id a b then same_adapter else cross_adapter) ≡ same_adapter) ↔ (a ≡ b)
  unfolding same_id
  category_iff raydium_cpmm raydium_cpmm = (λ h. refl, λ h. refl)
  category_iff raydium_cpmm pumpswap = (λ h. cc, λ h. cc)
  category_iff pumpswap raydium_cpmm = (λ h. cc, λ h. cc)
  category_iff pumpswap pumpswap = (λ h. refl, λ h. refl)

  circuit_of-IsPairOf :
      (k : PublicKey) (a b : DecodedPool)
      → Leg k a
      → Leg k b
      → (a.address == b.address) ≡ false
      → IsPairOf (circuit_of k a b)
  unfolding circuit_of
  circuit_of-IsPairOf k a b h g n = record {
    leg_a = h;
    leg_b = g;
    apart = ground arith;
    category = category_iff a.adapter b.adapter;
  }

  pairs_with-All :
      (k : PublicKey) (a : DecodedPool) (bs : List DecodedPool)
      → Leg k a
      → All (Leg k) bs
      → All IsPairOf (pairs_with k a bs)
  unfolding pairs_with
  pairs_with-All k a [] l h = tt
  pairs_with-All k a (b ∷ bs) l (h, hs) = elim (Bool-cases (a.address == b.address)) [
    | inl same ↦ rw same (pairs_with-All k a bs l hs)
    | inr other ↦ rw other (circuit_of-IsPairOf k a b l h other, pairs_with-All k a bs l hs)
  ]

  append-All : (cs ds : List Circuit) → All IsPairOf cs → All IsPairOf ds → All IsPairOf (cs ++ ds)
  append-All [] ds h g = g
  append-All (c ∷ cs) ds (h, hs) g = (h, append-All cs ds hs g)

  pairs-All :
      (k : PublicKey) (ps all : List DecodedPool)
      → All (Leg k) ps
      → All (Leg k) all
      → All IsPairOf (pairs k ps all)
  unfolding pairs
  pairs-All k [] all h g = tt
  pairs-All k (a ∷ ps) all (h, hs) g =
      append-All (pairs_with k a all) (pairs k ps all) (pairs_with-All k a all h g)
        (pairs-All k ps all hs g)

  pub circuits_of-All :
      (gs : List (PublicKey × List DecodedPool)) → AreGroups gs → All IsPairOf (circuits_of gs)
  unfolding circuits_of
  circuits_of-All [] h = tt
  circuits_of-All ((k, ps) ∷ gs) (h, hs) =
      let u = unique-All k ps [] h tt in
      append-All (pairs k (unique ps []) (unique ps [])) (circuits_of gs)
        (pairs-All k (unique ps []) (unique ps []) u u) (circuits_of-All gs hs)
