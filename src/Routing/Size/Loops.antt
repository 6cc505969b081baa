-- ===== src/Routing/Size/Loops.antt =====
-- The loops of `sizeCircuit` of src/routing/circuit.ts keep the invariant of the search, and its answer.
use atomarb.Common.{
  ℕ, zero, suc, ◌≡◌, refl, subst, sym, Bool-cases, inl, inr, Option, none, some, List, [], ◌∷◌, All,
  All-append_one, Result, ok, ok_inj, on_ok, ◌>>=◌, if◌then◌else◌,
}
use atomarb.Common.Int.{ℤ, pos, ◌+ℤ◌, ◌-ℤ◌, ◌≤ℤ◌, ◌<ℤ◌, div_trunc, ltb_ℤ, ltb_ℤ→ge}
use atomarb.Raydium.Layout.{PublicKey}
use atomarb.Adapter.{AdapterId, PoolAdapter}
use atomarb.Routing.{
  Circuit, CircuitEval, above_max_capital, CircuitResult, failed, evaluate_circuit,
}
use atomarb.Routing.Evaluate.{IsRoundTrip, evaluate_circuit-IsRoundTrip}
use atomarb.Routing.Size.{
  Search, cached, remember, fill, ev, consider, grid_loop, score, refine_loop, SizingResult,
  find_index, lower, upper, refine, in_range, sorted_set, result_of, is_none, size_by, size_circuit,
}
use atomarb.Routing.Size.Best.{
  IsBelow, IsChosen, IsSearched, entries, entries-append_one, consider_covers, consider-IsChosen,
  All-IsBelow, cached-run,
}

module _ (run : ℤ → Result CircuitResult) (max : ℤ) where
  -- A size that was evaluated is added; its result is considered at once.
  remember-IsSearched :
      (s : Search) (best : Option CircuitEval) (x : ℤ) (r : CircuitResult)
      → run x ≡ ok r
      → x ≤ℤ max
      → IsSearched run max s best
      → IsSearched run max (remember s x r) (consider best r)
  unfolding remember
  remember-IsSearched s best x r e l h = record {
    faithful =
        All-append_one (λ t. (run t.0 ≡ ok t.1) × (t.0 ≤ℤ max)) s.cache (x, r) h.faithful (e, l);
    covered =
        All-append_one (λ t. IsBelow (consider best r) t.1) s.cache (x, r)
          (All-IsBelow best r s.cache h.covered) (consider_covers run max best r h.chosen);
    listed = rw (h.listed, entries-append_one s.cache x r) refl;
    chosen = consider-IsChosen run max x best r e l h.chosen;
  }

  again-IsSearched :
      (s : Search) (best : Option CircuitEval) (x : ℤ) (r : CircuitResult)
      → (run x ≡ ok r) × (x ≤ℤ max)
      → IsSearched run max s best
      → IsSearched run max s (consider best r)
  again-IsSearched s best x r (e, l) h = record {
    faithful = h.faithful;
    covered = All-IsBelow best r s.cache h.covered;
    listed = h.listed;
    chosen = consider-IsChosen run max x best r e l h.chosen;
  }

  fill-IsSearched :
      (s : Search) (best : Option CircuitEval) (x : ℤ) (o : Option CircuitResult)
      (t : Search × CircuitResult)
      → o ≡ cached s.cache x
      → x ≤ℤ max
      → fill run s x o ≡ ok t
      → IsSearched run max s best
      → IsSearched run max t.0 (consider best t.1)
  unfolding fill
  fill-IsSearched s best x (some r) t e l h k =
      let again =
        again-IsSearched s best x r (cached-run run max x s.cache r k.faithful (sym e)) k in
      subst (λ u. IsSearched run max u.0 (consider best u.1)) (ok_inj h) again
  fill-IsSearched s best x none t e l h k =
      on_ok (run x) (λ r. ok (remember s x r, r)) h
        λ r d h1.
          subst (λ u. IsSearched run max u.0 (consider best u.1)) (ok_inj h1)
            (remember-IsSearched s best x r d l k)

  ev-IsSearched :
      (s : Search) (best : Option CircuitEval) (x : ℤ) (t : Search × CircuitResult)
      → ev run max s x ≡ ok t
      → IsSearched run max s best
      → IsSearched run max t.0 (consider best t.1)
  unfolding ev consider
  ev-IsSearched s best x t h k = elim (Bool-cases (ltb_ℤ max x)) [
    | inl over ↦
        let e : ok (s, failed above_max_capital) ≡ ok t = rw over at h in
        subst (λ u. IsSearched run max u.0 (consider best u.1)) (ok_inj e) k
    | inr under ↦
        fill-IsSearched s best x (cached s.cache x) t refl (ltb_ℤ→ge max x under) (rw under at h) k
  ]

  grid_loop-IsSearched :
      (xs : List ℤ) (s : Search) (best : Option CircuitEval) (t : Search × Option CircuitEval)
      → grid_loop run max xs s best ≡ ok t
      → IsSearched run max s best
      → IsSearched run max t.0 t.1
  unfolding grid_loop
  grid_loop-IsSearched [] s best t h k = subst (λ u. IsSearched run max u.0 u.1) (ok_inj h) k
  grid_loop-IsSearched (x ∷ xs) s best t h k =
      on_ok (ev run max s x) (λ u. grid_loop run max xs u.0 (consider best u.1)) h
        λ u e h1.
          grid_loop-IsSearched xs u.0 (consider best u.1) t h1 (ev-IsSearched s best x u e k)

  refine_loop-IsSearched :
      (n : ℕ) (lo hi : ℤ) (s : Search) (best : Option CircuitEval) (t : Search × Option CircuitEval)
      → refine_loop run max n lo hi s best ≡ ok t
      → IsSearched run max s best
      → IsSearched run max t.0 t.1
  unfolding refine_loop
  refine_loop-IsSearched zero lo hi s best t h k =
      subst (λ u. IsSearched run max u.0 u.1) (ok_inj h) k
  refine_loop-IsSearched (suc n) lo hi s best t h k =
      let m1 = lo +ℤ div_trunc (hi -ℤ lo) 3 in
      let m2 = hi -ℤ div_trunc (hi -ℤ lo) 3 in
      let last = λ (u v : Search × CircuitResult).
        let up = ltb_ℤ (score u.1) (score v.1) in
        refine_loop run max n (if up then m1 else lo) (if up then hi else m2) v.0
          (consider (consider best u.1) v.1) in
      elim (Bool-cases (ltb_ℤ (pos 1) (hi -ℤ lo))) [
        | inl wide ↦
            let e : (ev run max s m1 >>= λ u. ev run max u.0 m2 >>= λ v. last u v) ≡ ok t =
              rw wide at h in
            on_ok (ev run max s m1) (λ u. ev run max u.0 m2 >>= λ v. last u v) e
              λ u a h1.
                on_ok (ev run max u.0 m2) (λ v. last u v) h1
                  λ v b h2.
                    let up = ltb_ℤ (score u.1) (score v.1) in
                    refine_loop-IsSearched n (if up then m1 else lo) (if up then hi else m2) v.0
                      (consider (consider best u.1) v.1) t h2
                      (ev-IsSearched u.0 (consider best u.1) m2 v b (ev-IsSearched s best m1 u a k))
        | inr narrow ↦
            let e : ok (s, best) ≡ ok t = rw narrow at h in
            subst (λ u. IsSearched run max u.0 u.1) (ok_inj e) k
      ]

  refine-IsSearched :
      (n : ℕ) (sizes : List ℤ) (s : Search) (best : Option CircuitEval)
      (t : Search × Option CircuitEval)
      → refine run max n sizes (s, best) ≡ ok t
      → IsSearched run max s best
      → IsSearched run max t.0 t.1
  unfolding refine
  refine-IsSearched n sizes s none t h k = subst (λ u. IsSearched run max u.0 u.1) (ok_inj h) k
  refine-IsSearched n sizes s (some b) t h k =
      let i = find_index sizes b.amount_in 0 in
      let loop = λ (lo hi : ℤ). refine_loop run max n lo hi s (some b) in
      on_ok (lower sizes b.amount_in i) (λ lo. upper sizes b.amount_in max i >>= loop lo) h
        λ lo a h1.
          on_ok (upper sizes b.amount_in max i) (loop lo) h1
            λ hi c h2. refine_loop-IsSearched n lo hi s (some b) t h2 k

  -- The answer of a search: what was evaluated is listed as it is, at sizes within the capital; the
  -- best is the result of a size, with a profit; and no listed size has a larger profit, or any if
  -- there is no best.
  pub record IsBestOf (r : SizingResult) : Type 0 where
    pub search : List (ℤ × CircuitResult)
    pub faithful : All (λ t. (run t.0 ≡ ok t.1) × (t.0 ≤ℤ max)) search
    pub listed : r.evaluated_sizes ≡ entries search
    pub chosen : IsChosen run max r.best
    pub unbeaten : All (λ t. IsBelow r.best t.1) search
    pub zero_trade : r.zero_trade_chosen ≡ is_none r.best

  result_of-IsBestOf :
      (t : Search × Option CircuitEval) → IsSearched run max t.0 t.1 → IsBestOf (result_of t)
  unfolding result_of
  result_of-IsBestOf (s, best) h = record {
    search = s.cache;
    faithful = h.faithful;
    listed = h.listed;
    chosen = h.chosen;
    unbeaten = h.covered;
    zero_trade = refl;
  }

  pub size_by-IsBestOf :
      (grid : List ℤ) (n : ℕ) (r : SizingResult) → size_by run grid max n ≡ ok r → IsBestOf r
  unfolding size_by
  size_by-IsBestOf grid n r h =
      let sizes = sorted_set (in_range max grid) in
      let start : Search = record { cache = []; evaluated_sizes = [] } in
      let last = λ (t : Search × Option CircuitEval). ok (result_of t) in
      let next = λ (g : Search × Option CircuitEval). refine run max n sizes g >>= last in
      let begin : IsSearched run max start none = record {
        faithful = tt;
        covered = tt;
        listed = refl;
        chosen = tt;
      } in
      on_ok (grid_loop run max sizes start none) next h λ g a h1.
        on_ok (refine run max n sizes g) last h1 λ t b h2. subst IsBestOf (ok_inj h2) (
          result_of-IsBestOf t (
            refine-IsSearched n sizes g.0 g.1 t b
              (grid_loop-IsSearched sizes start none g a begin)))

-- What `sizeCircuit` chooses is the best of all sizes that it evaluated, none of them above the
-- capital: the list of them is what the circuit gives at each, the choice has a profit and no listed
-- size has a larger one, and it is a round trip at a size within the capital; with no choice, no listed
-- size has a profit.
pub size_circuit-IsBestOf :
    (wsol : PublicKey) (adapters : AdapterId → PoolAdapter) (c : Circuit) (grid : List ℤ) (max : ℤ)
    (n : ℕ) (r : SizingResult)
    → size_circuit wsol adapters c grid max n ≡ ok r
    → IsBestOf (evaluate_circuit wsol adapters c) max r
      × ((b : CircuitEval)
          → r.best ≡ some b
          → (pos 0 <ℤ b.pnl.pnl) × ((x : ℤ) × (x ≤ℤ max) × IsRoundTrip wsol adapters c x b))
unfolding size_circuit
size_circuit-IsBestOf wsol adapters c grid max n r h =
    let run = evaluate_circuit wsol adapters c in
    let s = size_by-IsBestOf run max grid n r h in
    (
      s,
      λ b e.
          let (p, (x, k, l)) = subst (IsChosen run max) e s.chosen in
          (p, (x, l, evaluate_circuit-IsRoundTrip wsol adapters c x b k)),
    )
