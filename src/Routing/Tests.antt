-- ===== src/Routing/Tests.antt =====
-- A circuit over two pools with adapters that quote a fixed rate, and the theorems of the Routing
-- modules at it. The concrete adapters stand for those of the program.
use atomarb.Routing.Enumerate.{enumerate_circuits}
use atomarb.Routing.Enumerate.Found.{Between}
use atomarb.Routing.Enumerate.Legs.{IsPairOf}
use atomarb.Routing.Enumerate.Pairs.{IsLeg, HasLegAt, enumerate_circuits-Between_iff}
use atomarb.Common.{
  ◌≢◌, ◌↔◌, All, inr, arith, inl, true, ℕ, Bool-cases, null, err, ◌*◌, ◌≡◌, refl, false, none, some,
  [], ◌∷◌, Result, ok,
}
use atomarb.Common.Int.{
  negsuc, leb_ℤ, eqb_ℤ, ℤ, pos, pos_part, ◌+ℤ◌, ◌-ℤ◌, ◌*ℤ◌, ◌≤ℤ◌, ◌<ℤ◌, div_trunc,
}
use atomarb.Raydium.Layout.{PublicKey}
use atomarb.Adapter.{AdapterId, raydium_cpmm, pumpswap, DecodedPool, Quote, PoolAdapter}
use atomarb.Adapter.Accounts.{MintInfo}
use atomarb.Raydium.Adapter.Tests.{before, mint_0}
use atomarb.Accounting.{trading_pnl, inside_quote}
use atomarb.Routing.{
  zero_trade, failed, Circuit, cross_adapter, CircuitEval, CircuitResult, evaluated, is_empty,
  after_leg_b, after_leg_a, evaluate_circuit,
}
use atomarb.Routing.Evaluate.{IsRoundTrip, evaluate_circuit-IsRoundTrip}
use atomarb.Routing.Size.{
  entry_of, cached, remember, fill, ev, is_better, consider, grid_loop, score, refine_loop,
  in_range, insert, sorted_set, find_index, size_at, lower, next_index, upper, SizingResult,
  is_none, result_of, refine, size_by, size_circuit,
}
use atomarb.Routing.Size.Loops.{IsBestOf, size_circuit-IsBestOf}
use atomarb.Routing.Size.Total.{size_circuit_returns}

-- What a test computes through.
routing : Unit {0}
unfolding is_empty after_leg_b after_leg_a evaluate_circuit trading_pnl inside_quote entry_of cached
    remember fill ev is_better consider grid_loop score refine_loop in_range insert sorted_set
    find_index size_at lower next_index upper is_none result_of refine size_by size_circuit ◌+ℤ◌
    ◌-ℤ◌ ◌*ℤ◌ div_trunc
routing = tt

abbrev mint_of : PublicKey → MintInfo
mint_of key = record mint_0 { mint = key }

-- The key 10 stands for wrapped SOL and 20 for the token.
abbrev pool_a : DecodedPool
pool_a = record before { address = 1; mint_a = mint_of 10; mint_b = mint_of 20; state_hash = "a" }

abbrev pool_b : DecodedPool
pool_b = record pool_a { adapter = pumpswap; address = 2; state_hash = "b" }

abbrev circuit : Circuit
circuit = record { token = 20; pool_a = pool_a; pool_b = pool_b; category = cross_adapter }

abbrev quote_at : AdapterId → DecodedPool → PublicKey → PublicKey → ℤ → ℤ → Quote
quote_at id pool from to x y = record {
  adapter = id;
  pool = pool.address;
  input_mint = from;
  output_mint = to;
  amount_in = x;
  amount_out_to_user = y;
  vault_in_delta = x;
  vault_out_delta = y;
  fees = [];
  accounts_needed = [];
  state_hash = pool.state_hash;
  min_slot = pool.snapshot.min_slot;
  max_slot = pool.snapshot.max_slot;
  reject_reasons = [];
}

-- Only the operation that a circuit calls does something.
abbrev adapter_at : AdapterId → (DecodedPool → PublicKey → ℤ → Result Quote) → PoolAdapter
adapter_at id quote_exact_in = record {
  id = id;
  required_accounts = λ pool account. ok [];
  decode_snapshot = λ pool bundle. err null;
  validate_pool = λ d. err null;
  quote_exact_in = quote_exact_in;
  apply_swap = λ d q. ok d;
}

-- Two tokens for one unit of wrapped SOL in one pool, and three units for five tokens in the other.
abbrev adapters : AdapterId → PoolAdapter
adapters raydium_cpmm =
    adapter_at raydium_cpmm
      λ pool mint x. ok (quote_at raydium_cpmm pool mint 20 x (pos (pos_part x * 2)))
adapters pumpswap =
    adapter_at pumpswap
      λ pool mint x. ok (quote_at pumpswap pool mint 10 x (div_trunc (pos (pos_part x * 3)) 5))

abbrev at_100 : CircuitEval
at_100 = record {
  amount_in = pos 100;
  quote_a = quote_at raydium_cpmm pool_a 10 20 (pos 100) (pos 200);
  quote_b = quote_at pumpswap pool_b 20 10 (pos 200) (pos 120);
  pnl = record {
    base_mint = 10;
    amount_in = pos 100;
    amount_out = pos 120;
    pnl = pos 20;
    fees_inside_quotes = [];
  };
}

at_100_eq : evaluate_circuit 10 adapters circuit (pos 100) ≡ ok (evaluated at_100)
unfolding routing
at_100_eq = refl

evaluate_circuit-IsRoundTrip_example : IsRoundTrip 10 adapters circuit (pos 100) at_100
evaluate_circuit-IsRoundTrip_example =
    evaluate_circuit-IsRoundTrip 10 adapters circuit (pos 100) at_100 at_100_eq

-- The grid point 500 is above the capital of 100.
abbrev sized : SizingResult
sized = record {
  best = some at_100;
  evaluated_sizes = record { amount_in = pos 100; pnl = some (pos 20); reason = none } ∷ [];
  zero_trade_chosen = false;
}

sized_eq : size_circuit 10 adapters circuit (pos 500 ∷ pos 100 ∷ []) (pos 100) 0 ≡ ok sized
unfolding routing
sized_eq = refl

size_circuit-IsBestOf_example :
    IsBestOf (evaluate_circuit 10 adapters circuit) (pos 100) sized
    × ((b : CircuitEval)
        → sized.best ≡ some b
        → (pos 0 <ℤ b.pnl.pnl) × ((x : ℤ) × (x ≤ℤ pos 100) × IsRoundTrip 10 adapters circuit x b))
size_circuit-IsBestOf_example =
    size_circuit-IsBestOf 10 adapters circuit (pos 500 ∷ pos 100 ∷ []) (pos 100) 0 sized sized_eq

-- Each of these quotes is taken in full: the circuit is evaluated at every size.
taken : (x y : ℕ) → (eqb_ℤ (pos x) (pos x) ≡ true) × (eqb_ℤ (pos y) (pos y) ≡ true)
taken x y = ground arith

abbrev eval_at : ℕ → CircuitEval
eval_at x =
    let out = div_trunc (pos (x * 2 * 3)) 5 in
    record {
      amount_in = pos x;
      quote_a = quote_at raydium_cpmm pool_a 10 20 (pos x) (pos (x * 2));
      quote_b = quote_at pumpswap pool_b 20 10 (pos (x * 2)) out;
      pnl = record {
        base_mint = 10;
        amount_in = pos x;
        amount_out = out;
        pnl = out -ℤ pos x;
        fees_inside_quotes = [];
      };
    }

evaluate_circuit_returns :
    (x : ℤ) → (r : CircuitResult) × (evaluate_circuit 10 adapters circuit x ≡ ok r)
unfolding routing
evaluate_circuit_returns (pos x) = elim (Bool-cases (leb_ℤ (pos x) (pos 0))) [
  | inl nil ↦ (failed zero_trade, rw nil refl)
  | inr more ↦
      let out : leb_ℤ (pos (x * 2)) (pos 0) ≡ false = ground arith in
      (evaluated (eval_at x), rw (more, out, (taken x (x * 2)).1) refl)
]
evaluate_circuit_returns (negsuc x) =
    let nil : leb_ℤ (negsuc x) (pos 0) ≡ true = ground arith in (failed zero_trade, rw nil refl)

-- Two sizes of the grid are within the capital, and the best of them has a neighbour below it.
size_circuit_returns_example :
    (r : SizingResult) × (size_circuit 10 adapters circuit
        (pos 500 ∷ pos 100 ∷ pos 50 ∷ [])
        (pos 200)
        8
      ≡ ok r)
size_circuit_returns_example =
    size_circuit_returns 10 adapters circuit (pos 500 ∷ pos 100 ∷ pos 50 ∷ []) (pos 200) 8
      evaluate_circuit_returns

enumerate_circuits-Between_iff_example :
    let pools = pool_a ∷ pool_b ∷ pool_a ∷ [] in
    All (IsPairOf (IsLeg 10 pools)) (enumerate_circuits 10 pools)
    × ((k x y : PublicKey)
        → Between k x y (enumerate_circuits 10 pools)
          ↔ (HasLegAt 10 pools k x × HasLegAt 10 pools k y × (x ≢ y)))
enumerate_circuits-Between_iff_example =
    enumerate_circuits-Between_iff 10 (pool_a ∷ pool_b ∷ pool_a ∷ [])
