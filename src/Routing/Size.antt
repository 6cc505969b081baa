-- ===== src/Routing/Size.antt =====
-- `sizeCircuit` of src/routing/circuit.ts. The evaluation of the circuit at a size is the argument `run`;
-- a throw of it is an exit. What `ev` changes is a `Search`, and `best` is passed beside it.
pub mod Best
pub mod Loops
pub mod Total
use atomarb.Common.{
  type_error, length, throw, ltb, ℕ, zero, suc, ◌+◌, ◌^◌, Bool, true, false, ◌&&◌, Option, none,
  some, List, [], ◌∷◌, ◌++◌, get_elem?, Result, ok, err, ◌>>=◌, if◌then◌else◌,
}
use atomarb.Common.Int.{ℤ, pos, ◌+ℤ◌, ◌-ℤ◌, ◌*ℤ◌, div_trunc, ltb_ℤ, leb_ℤ, eqb_ℤ}
use atomarb.Raydium.Layout.{PublicKey}
use atomarb.Adapter.{AdapterId, PoolAdapter}
use atomarb.Routing.{
  Circuit, CircuitEval, Reason, above_max_capital, CircuitResult, evaluated, failed,
  evaluate_circuit,
}

-- An entry of `evaluated`.
pub record Evaluated : Type 0 where
  pub amount_in : ℤ
  pub pnl : Option ℤ
  pub reason : Option Reason

unfoldable pub entry_of : ℤ → CircuitResult → Evaluated
entry_of x (evaluated e) = record { amount_in = x; pnl = some e.pnl.pnl; reason = none }
entry_of x (failed r) = record { amount_in = x; pnl = none; reason = some r }

pub record Search : Type 0 where
  pub cache : List (ℤ × CircuitResult)
  pub evaluated_sizes : List Evaluated

-- `Map.get`
unfoldable pub cached : List (ℤ × CircuitResult) → ℤ → Option CircuitResult
cached [] x = none
cached ((y, r) ∷ c) x = if eqb_ℤ y x then some r else cached c x

unfoldable pub remember : Search → ℤ → CircuitResult → Search
unfolding entry_of
remember s x r = record {
  cache = s.cache ++ (x, r) ∷ [];
  evaluated_sizes = s.evaluated_sizes ++ entry_of x r ∷ [];
}

-- `if (!r) { … }`
unfoldable pub fill :
    (ℤ → Result CircuitResult) → Search → ℤ → Option CircuitResult → Result (Search × CircuitResult)
unfolding remember
fill run s x (some r) = ok (s, r)
fill run s x none = run x >>= λ r. ok (remember s x r, r)

-- `ev`
unfoldable pub ev : (ℤ → Result CircuitResult) → ℤ → Search → ℤ → Result (Search × CircuitResult)
unfolding cached fill
ev run max s x =
    if ltb_ℤ max x then ok (s, failed above_max_capital) else fill run s x (cached s.cache x)

unfoldable pub is_better : Option CircuitEval → ℤ → Bool
is_better none p = true
is_better (some b) p = ltb_ℤ b.pnl.pnl p

unfoldable pub consider : Option CircuitEval → CircuitResult → Option CircuitEval
unfolding is_better
consider best (failed r) = best
consider best (evaluated e) =
    if ltb_ℤ (pos 0) e.pnl.pnl && is_better best e.pnl.pnl then some e else best

-- `for (const s of sizes) consider(ev(s))`
unfoldable pub grid_loop :
    (ℤ → Result CircuitResult)
    → ℤ
    → List ℤ
    → Search
    → Option CircuitEval
    → Result (Search × Option CircuitEval)
unfolding ev consider
grid_loop run max [] s best = ok (s, best)
grid_loop run max (x ∷ xs) s best =
    ev run max s x >>= λ t. grid_loop run max xs t.0 (consider best t.1)

-- `r.ok ? r.value.pnl.pnl : -(1n << 120n)`
unfoldable pub score : CircuitResult → ℤ
score (evaluated e) = e.pnl.pnl
score (failed r) = pos 0 -ℤ pos (2 ^ 120)

-- The refinement, with the steps that are left.
unfoldable pub refine_loop :
    (ℤ → Result CircuitResult)
    → ℤ
    → ℕ
    → (lo hi : ℤ) → Search
    → Option CircuitEval
    → Result (Search × Option CircuitEval)
unfolding ev consider score
refine_loop run max zero lo hi s best = ok (s, best)
refine_loop run max (suc n) lo hi s best =
    if ltb_ℤ (pos 1) (hi -ℤ lo)
    then (let m1 = lo +ℤ div_trunc (hi -ℤ lo) 3 in
        let m2 = hi -ℤ div_trunc (hi -ℤ lo) 3 in
        ev run max s m1 >>= λ t. ev run max t.0 m2 >>= λ u.
        let up = ltb_ℤ (score t.1) (score u.1) in
        refine_loop run max n (if up then m1 else lo) (if up then hi else m2) u.0
          (consider (consider best t.1) u.1))
    else ok (s, best)

-- `[...new Set(grid.filter(…))].sort(…)`
unfoldable pub in_range : ℤ → List ℤ → List ℤ
in_range max [] = []
in_range max (g ∷ gs) =
    if ltb_ℤ (pos 0) g && leb_ℤ g max then g ∷ in_range max gs else in_range max gs

-- Into a sorted list, where an equal number is kept once.
unfoldable pub insert : ℤ → List ℤ → List ℤ
insert x [] = x ∷ []
insert x (y ∷ ys) = if eqb_ℤ x y then y ∷ ys else if ltb_ℤ x y then x ∷ y ∷ ys else y ∷ insert x ys

unfoldable pub sorted_set : List ℤ → List ℤ
unfolding insert
sorted_set [] = []
sorted_set (x ∷ xs) = insert x (sorted_set xs)

-- `findIndex`, from the given index on.
unfoldable pub find_index : List ℤ → ℤ → ℕ → Option ℕ
find_index [] x i = none
find_index (y ∷ ys) x i = if eqb_ℤ y x then some i else find_index ys x (suc i)

-- `sizes[i]!`; out of range it is undefined, which no operation on a bigint takes.
unfoldable pub size_at : List ℤ → ℕ → Result ℤ
size_at [] i = err (throw type_error)
size_at (x ∷ xs) zero = ok x
size_at (x ∷ xs) (suc i) = size_at xs i

-- The neighbours of the best grid point; an index that was not found is -1.
unfoldable pub lower : List ℤ → ℤ → Option ℕ → Result ℤ
unfolding size_at
lower sizes amount none = ok (div_trunc amount 2)
lower sizes amount (some zero) = ok (div_trunc amount 2)
lower sizes amount (some (suc i)) = size_at sizes i

-- `bi + 1`
unfoldable pub next_index : Option ℕ → ℕ
next_index none = 0
next_index (some i) = suc i

unfoldable pub upper : List ℤ → ℤ → ℤ → Option ℕ → Result ℤ
unfolding size_at next_index
upper sizes amount max i =
    if ltb (next_index i) (length sizes)
    then size_at sizes (next_index i)
    else ok (if ltb_ℤ max (amount *ℤ pos 2) then max else amount *ℤ pos 2)

pub record SizingResult : Type 0 where
  pub best : Option CircuitEval
  pub evaluated_sizes : List Evaluated
  pub zero_trade_chosen : Bool

unfoldable pub is_none : Option CircuitEval → Bool
is_none none = true
is_none (some e) = false

unfoldable pub result_of : Search × Option CircuitEval → SizingResult
unfolding is_none
result_of (s, best) = record {
  best = best;
  evaluated_sizes = s.evaluated_sizes;
  zero_trade_chosen = is_none best;
}

-- `if (best) { … }`
unfoldable pub refine :
    (ℤ → Result CircuitResult)
    → ℤ
    → ℕ
    → List ℤ
    → Search × Option CircuitEval
    → Result (Search × Option CircuitEval)
unfolding find_index lower upper refine_loop
refine run max steps sizes (s, none) = ok (s, none)
refine run max steps sizes (s, some b) =
    let i = find_index sizes b.amount_in 0 in
    lower sizes b.amount_in i >>= λ lo.
    upper sizes b.amount_in max i >>= λ hi. refine_loop run max steps lo hi s (some b)

unfoldable pub size_by : (ℤ → Result CircuitResult) → List ℤ → ℤ → ℕ → Result SizingResult
unfolding in_range sorted_set grid_loop refine result_of
size_by run grid max steps =
    grid_loop run max (sorted_set (in_range max grid)) (record { cache = []; evaluated_sizes = [] })
      none
    >>= λ g. refine run max steps (sorted_set (in_range max grid)) g >>= λ r. ok (result_of r)

unfoldable pub size_circuit :
    PublicKey → (AdapterId → PoolAdapter) → Circuit → List ℤ → ℤ → ℕ → Result SizingResult
unfolding size_by evaluate_circuit
size_circuit wsol adapters c grid max steps =
    size_by (evaluate_circuit wsol adapters c) grid max steps
