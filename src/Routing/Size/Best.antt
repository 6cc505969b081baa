-- ===== src/Routing/Size/Best.antt =====
-- `sizeCircuit` of src/routing/circuit.ts answers the best of all sizes that it evaluated.
use atomarb.Common.{
  ◌≡◌, refl, sym, true, ◌&&◌, Bool-cases, inl, inr, Option, none, some, List, [], ◌∷◌, ◌++◌, All,
  Result, ok, arith,
}
use atomarb.Common.Int.{ℤ, pos, ◌≤ℤ◌, ◌<ℤ◌, ltb_ℤ, eqb_ℤ, int_laws, ltb_ℤ→lt, ltb_ℤ→ge, eq_of_parts}
use atomarb.Routing.{CircuitEval, CircuitResult, evaluated, failed}
use atomarb.Routing.Size.{Evaluated, entry_of, Search, cached, is_better, consider}

-- A result that the best does not lose to.
abbrev pub IsBelow : Option CircuitEval → CircuitResult → Type 0
IsBelow best (failed r) = Unit
IsBelow none (evaluated e) = e.pnl.pnl ≤ℤ pos 0
IsBelow (some b) (evaluated e) = e.pnl.pnl ≤ℤ b.pnl.pnl

-- The best has a profit, and is what the circuit gives at a size within the capital.
abbrev pub IsChosen : (ℤ → Result CircuitResult) → ℤ → Option CircuitEval → Type 0
IsChosen run max none = Unit
IsChosen run max (some b) =
    (pos 0 <ℤ b.pnl.pnl) × ((x : ℤ) × (run x ≡ ok (evaluated b)) × (x ≤ℤ max))

abbrev pub entries : List (ℤ × CircuitResult) → List Evaluated
entries [] = []
entries ((x, r) ∷ c) = entry_of x r ∷ entries c

pub entries-append_one :
    (c : List (ℤ × CircuitResult)) (x : ℤ) (r : CircuitResult)
    → entries (c ++ (x, r) ∷ []) ≡ entries c ++ entry_of x r ∷ []
entries-append_one [] x r = refl
entries-append_one ((y, q) ∷ c) x r = rw (entries-append_one c x r) refl

pub record IsSearched (run : ℤ → Result CircuitResult) (max : ℤ) (s : Search)
    (best : Option CircuitEval) : Type 0 where
  pub faithful : All (λ t. (run t.0 ≡ ok t.1) × (t.0 ≤ℤ max)) s.cache
  pub covered : All (λ t. IsBelow best t.1) s.cache
  pub listed : s.evaluated_sizes ≡ entries s.cache
  pub chosen : IsChosen run max best

-- The best never gets worse.
consider-IsBelow :
    (best : Option CircuitEval) (r q : CircuitResult) → IsBelow best q → IsBelow (consider best r) q
unfolding consider is_better
consider-IsBelow best r (failed q) h = tt
consider-IsBelow best (failed r) (evaluated d) h = h
consider-IsBelow none (evaluated e) (evaluated d) h = elim (Bool-cases (ltb_ℤ (pos 0) e.pnl.pnl)) [
  | inl more ↦ rw more (omega (int_laws, ltb_ℤ→lt (pos 0) e.pnl.pnl more, h))
  | inr less ↦ rw less h
]
consider-IsBelow (some b) (evaluated e) (evaluated d) h =
    elim (Bool-cases (ltb_ℤ (pos 0) e.pnl.pnl && ltb_ℤ b.pnl.pnl e.pnl.pnl)) [
      | inl more ↦
          let l : ltb_ℤ b.pnl.pnl e.pnl.pnl ≡ true = ground arith in
          rw more (omega (int_laws, ltb_ℤ→lt b.pnl.pnl e.pnl.pnl l, h))
      | inr less ↦ rw less h
    ]

-- What was just considered is covered.
pub consider_covers :
    (run : ℤ → Result CircuitResult) (max : ℤ) (best : Option CircuitEval) (r : CircuitResult)
    → IsChosen run max best
    → IsBelow (consider best r) r
unfolding consider is_better
consider_covers run max best (failed r) h = tt
consider_covers run max none (evaluated e) h = elim (Bool-cases (ltb_ℤ (pos 0) e.pnl.pnl)) [
  | inl more ↦ rw more (omega arith)
  | inr less ↦ rw less (ltb_ℤ→ge (pos 0) e.pnl.pnl less)
]
consider_covers run max (some b) (evaluated e) (p, h) =
    elim (Bool-cases (ltb_ℤ (pos 0) e.pnl.pnl && ltb_ℤ b.pnl.pnl e.pnl.pnl)) [
      | inl more ↦ rw more (omega arith)
      | inr less ↦ rw less (ground (arith, p))
    ]

pub consider-IsChosen :
    (run : ℤ → Result CircuitResult) (max x : ℤ) (best : Option CircuitEval) (r : CircuitResult)
    → run x ≡ ok r
    → x ≤ℤ max
    → IsChosen run max best
    → IsChosen run max (consider best r)
unfolding consider is_better
consider-IsChosen run max x best (failed r) e l h = h
consider-IsChosen run max x none (evaluated d) e l h = elim (Bool-cases (ltb_ℤ (pos 0) d.pnl.pnl)) [
  | inl more ↦ rw more (ltb_ℤ→lt (pos 0) d.pnl.pnl more, (x, e, l))
  | inr less ↦ rw less tt
]
consider-IsChosen run max x (some b) (evaluated d) e l h =
    elim (Bool-cases (ltb_ℤ (pos 0) d.pnl.pnl && ltb_ℤ b.pnl.pnl d.pnl.pnl)) [
      | inl more ↦
          let p : ltb_ℤ (pos 0) d.pnl.pnl ≡ true = ground arith in
          rw more (ltb_ℤ→lt (pos 0) d.pnl.pnl p, (x, e, l))
      | inr less ↦ rw less h
    ]

pub All-IsBelow :
    (best : Option CircuitEval) (r : CircuitResult) (c : List (ℤ × CircuitResult))
    → All (λ t. IsBelow best t.1) c
    → All (λ t. IsBelow (consider best r) t.1) c
All-IsBelow best r [] h = tt
All-IsBelow best r ((x, q) ∷ c) (h, hs) = (consider-IsBelow best r q h, All-IsBelow best r c hs)

pub cached-run :
    (run : ℤ → Result CircuitResult) (max x : ℤ) (c : List (ℤ × CircuitResult)) (r : CircuitResult)
    → All (λ t. (run t.0 ≡ ok t.1) × (t.0 ≤ℤ max)) c
    → cached c x ≡ some r
    → (run x ≡ ok r) × (x ≤ℤ max)
unfolding cached
cached-run run max x [] r h e = cc
cached-run run max x ((y, q) ∷ c) r (h, hs) e = elim (Bool-cases (eqb_ℤ y x)) [
  | inl same ↦
      let k : some q ≡ some r = rw same at e in
      let i = eq_of_parts y x (ground arith) in let j : q ≡ r = cc in rw (sym i, sym j) h
  | inr other ↦ cached-run run max x c r hs (rw other at e)
]
