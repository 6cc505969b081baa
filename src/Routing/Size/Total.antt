-- ===== src/Routing/Size/Total.antt =====
-- `sizeCircuit` of src/routing/circuit.ts returns whenever the evaluations do.
use atomarb.Common.{
  ◌+◌, length, arith, ◌<◌, ltb, ℕ, zero, suc, ◌≡◌, refl, Bool-cases, inl, inr, Option, none, some,
  List, [], ◌∷◌, Result, ok, if◌then◌else◌,
}
use atomarb.Common.Int.{eqb_ℤ, ◌*ℤ◌, ℤ, pos, ◌+ℤ◌, ◌-ℤ◌, div_trunc, ltb_ℤ}
use atomarb.Routing.{
  evaluate_circuit, Circuit, PoolAdapter, AdapterId, PublicKey, CircuitEval, above_max_capital,
  CircuitResult, failed,
}
use atomarb.Routing.Size.{
  next_index, size_at, size_circuit, Search, cached, remember, fill, ev, consider, grid_loop, score,
  refine_loop, SizingResult, find_index, lower, upper, refine, in_range, sorted_set, result_of,
  size_by,
}

-- A size that is found stands in the list.
find_index-below : (xs : List ℤ) (x : ℤ) (k j : ℕ) → find_index xs x k ≡ some j → j < k + length xs
unfolding find_index
find_index-below [] x k j h = cc
find_index-below (y ∷ ys) x k j h = elim (Bool-cases (eqb_ℤ y x)) [
  | inl same ↦ let e : some k ≡ some j = rw same at h in ground (arith, e)
  | inr other ↦ omega (arith, find_index-below ys x (suc k) j (rw other at h))
]

size_at-ok : (xs : List ℤ) (i : ℕ) → i < length xs → (x : ℤ) × (size_at xs i ≡ ok x)
unfolding size_at
size_at-ok [] i h = absurd (omega (arith, h))
size_at-ok (x ∷ xs) zero h = (x, refl)
size_at-ok (x ∷ xs) (suc i) h = size_at-ok xs i (omega arith)

-- No neighbour is read outside the list.
lower-ok :
    (sizes : List ℤ) (amount : ℤ) (i : Option ℕ)
    → find_index sizes amount 0 ≡ i
    → (lo : ℤ) × (lower sizes amount i ≡ ok lo)
unfolding lower
lower-ok sizes amount none h = (div_trunc amount 2, refl)
lower-ok sizes amount (some zero) h = (div_trunc amount 2, refl)
lower-ok sizes amount (some (suc i)) h =
    let k = find_index-below sizes amount 0 (suc i) h in size_at-ok sizes i (omega arith)

upper-ok :
    (sizes : List ℤ) (amount max : ℤ) (i : Option ℕ) → (hi : ℤ) × (upper sizes amount max i ≡ ok hi)
unfolding upper
upper-ok sizes amount max i = elim (Bool-cases (ltb (next_index i) (length sizes))) [
  | inl inside ↦ let (x, e) = size_at-ok sizes (next_index i) (ground arith) in (x, rw inside e)
  | inr last ↦ ((if ltb_ℤ max (amount *ℤ pos 2) then max else amount *ℤ pos 2), rw last refl)
]

module _ (run : ℤ → Result CircuitResult) (max : ℤ)
    (returns : (x : ℤ) → (r : CircuitResult) × (run x ≡ ok r)) where
  fill_returns :
      (s : Search) (x : ℤ) (o : Option CircuitResult)
      → (t : Search × CircuitResult) × (fill run s x o ≡ ok t)
  unfolding fill
  fill_returns s x (some r) = ((s, r), refl)
  fill_returns s x none = let (r, e) = returns x in ((remember s x r, r), rw e refl)

  ev_returns : (s : Search) (x : ℤ) → (t : Search × CircuitResult) × (ev run max s x ≡ ok t)
  unfolding ev
  ev_returns s x = elim (Bool-cases (ltb_ℤ max x)) [
    | inl over ↦ ((s, failed above_max_capital), rw over refl)
    | inr under ↦ let (t, e) = fill_returns s x (cached s.cache x) in (t, rw (under, e) refl)
  ]

  grid_loop_returns :
      (xs : List ℤ) (s : Search) (best : Option CircuitEval)
      → (t : Search × Option CircuitEval) × (grid_loop run max xs s best ≡ ok t)
  unfolding grid_loop
  grid_loop_returns [] s best = ((s, best), refl)
  grid_loop_returns (x ∷ xs) s best =
      let (u, e) = ev_returns s x in
      let (t, f) = grid_loop_returns xs u.0 (consider best u.1) in (t, rw e f)

  refine_loop_returns :
      (n : ℕ) (lo hi : ℤ) (s : Search) (best : Option CircuitEval)
      → (t : Search × Option CircuitEval) × (refine_loop run max n lo hi s best ≡ ok t)
  unfolding refine_loop
  refine_loop_returns zero lo hi s best = ((s, best), refl)
  refine_loop_returns (suc n) lo hi s best =
      let m1 = lo +ℤ div_trunc (hi -ℤ lo) 3 in
      let m2 = hi -ℤ div_trunc (hi -ℤ lo) 3 in
      elim (Bool-cases (ltb_ℤ (pos 1) (hi -ℤ lo))) [
        | inl wide ↦
            let (u, a) = ev_returns s m1 in
            let (v, b) = ev_returns u.0 m2 in
            let up = ltb_ℤ (score u.1) (score v.1) in
            let (t, f) =
              refine_loop_returns n (if up then m1 else lo) (if up then hi else m2) v.0
                (consider (consider best u.1) v.1) in
            (t, rw (wide, a, b) f)
        | inr narrow ↦ ((s, best), rw narrow refl)
      ]

  refine_returns :
      (n : ℕ) (sizes : List ℤ) (s : Search) (best : Option CircuitEval)
      → (t : Search × Option CircuitEval) × (refine run max n sizes (s, best) ≡ ok t)
  unfolding refine
  refine_returns n sizes s none = ((s, none), refl)
  refine_returns n sizes s (some b) =
      let (lo, d) = lower-ok sizes b.amount_in (find_index sizes b.amount_in 0) refl in
      let (hi, e) = upper-ok sizes b.amount_in max (find_index sizes b.amount_in 0) in
      let (t, f) = refine_loop_returns n lo hi s (some b) in (t, rw (d, e) f)

  size_by_returns : (grid : List ℤ) (n : ℕ) → (r : SizingResult) × (size_by run grid max n ≡ ok r)
  unfolding size_by
  size_by_returns grid n =
      let sizes = sorted_set (in_range max grid) in
      let start : Search = record { cache = []; evaluated_sizes = [] } in
      let (g, a) = grid_loop_returns sizes start none in
      let (t, b) = refine_returns n sizes g.0 g.1 in (result_of t, rw (a, b) refl)

-- If the evaluation of the circuit returns at every size, `sizeCircuit` returns, for every grid,
-- capital and number of refinement steps: in particular, no neighbour of the best grid point is read
-- outside the array of the sizes, which would throw.
pub size_circuit_returns :
    (wsol : PublicKey) (adapters : AdapterId → PoolAdapter) (c : Circuit) (grid : List ℤ) (max : ℤ)
    (n : ℕ)
    → ((x : ℤ) → (r : CircuitResult) × (evaluate_circuit wsol adapters c x ≡ ok r))
    → (r : SizingResult) × (size_circuit wsol adapters c grid max n ≡ ok r)
unfolding size_circuit
size_circuit_returns wsol adapters c grid max n h =
    size_by_returns (evaluate_circuit wsol adapters c) max h grid n
