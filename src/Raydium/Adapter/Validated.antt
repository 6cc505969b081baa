-- ===== src/Raydium/Adapter/Validated.antt =====
-- What `validatePool` of src/adapters/raydium_cpmm/adapter.ts promises a quote.
use atomarb.Common.{
  ℕ, ◌+◌, ◌≤◌, ◌<◌, ◌≡◌, ◌∙◌, refl, sym, subst, Bool, true, false, ◌||◌, Option, none, some, List,
  [], ◌∷◌, ◌++◌, All, ok, ok_inj, on_ok, Code, u64_max, ltb, leb, ◌==◌, arith,
}
use atomarb.Common.Int.{ℤ, pos, ltb_ℤ}
use atomarb.Raydium.Layout.{PublicKey, fee_rate_denominator}
use atomarb.Raydium.Params.{RaydiumCpmmParams}
use atomarb.Adapter.{DecodedPool, Quote, ValidationResult}
use atomarb.Raydium.Adapter.{RaydiumCpmmAdapter, params_of, now_of, Sides, swap_context}
use atomarb.Raydium.Adapter.Validate.{
  failing, account_checks, open_checks, gate_checks, mint_checks, value_checks, reject_checks,
  is_empty, result_of, validate_pool,
}
use atomarb.Raydium.Adapter.Quote.{gate, gated, quote_of, quote_exact_in}
use atomarb.Raydium.Adapter.Apply.{apply_swap}
use atomarb.Raydium.Adapter.Fresh.{quote_exact_in-apply_swap}
use atomarb.Raydium.Swap.{simulate_swap_base_input}

abbrev Passed : Bool × Code → Type 0
Passed (fails, code) = fails ≡ false

failing-All : (cs : List (Bool × Code)) → is_empty (failing cs) ≡ true → All Passed cs
unfolding failing is_empty
failing-All [] h = tt
failing-All ((true, c) ∷ cs) h = cc
failing-All ((false, c) ∷ cs) h = (refl, failing-All cs h)

All-split : (xs ys : List (Bool × Code)) → All Passed (xs ++ ys) → All Passed xs × All Passed ys
All-split [] ys h = (tt, h)
All-split (x ∷ xs) ys (h, hs) = let (a, b) = All-split xs ys hs in ((h, a), b)

-- The time is known, and the pool is open.
open_checks-Passed :
    (o : Option ℤ) (open_time : ℕ) (rest : List (Bool × Code))
    → All Passed (open_checks o open_time ++ rest)
    → (now : ℤ) × (o ≡ some now) × (ltb_ℤ now (pos open_time) ≡ false)
unfolding open_checks
open_checks-Passed none open_time rest (h, hs) = cc
open_checks-Passed (some now) open_time rest (h, hs) = (now, refl, h)

-- The gate of a quote repeats two of the checks.
gate_checks-gate :
    (self : RaydiumCpmmAdapter) (p : RaydiumCpmmParams) (d : DecodedPool)
    → All Passed (gate_checks self p d)
    → (now : ℤ) × (now_of self p d ≡ some now) × (gate p now ≡ [])
unfolding gate_checks gate failing
gate_checks-gate self p d (swap, rest) =
    let (now, e, opened) = open_checks-Passed (now_of self p d) p.pool.open_time _ rest in
    (now, e, rw (swap, opened) refl)

-- What is known of a pool that passed.
pub record IsTradable (self : RaydiumCpmmAdapter) (p : RaydiumCpmmParams) (d : DecodedPool)
    : Type 0 where
  pub now : ℤ
  pub now_eq : now_of self p d ≡ some now
  pub opened : gate p now ≡ []
  pub reserves : (0 < d.reserve_a) × (0 < d.reserve_b)
  pub input_fees : p.config.trade_fee_rate + p.config.creator_fee_rate < fee_rate_denominator
  pub shares : p.config.protocol_fee_rate + p.config.fund_fee_rate ≤ fee_rate_denominator

not_zero : (a b : ℕ) → (a == 0 || b == 0) ≡ false → (0 < a) × (0 < b)
not_zero a b h = ground arith

below : (a b : ℕ) → leb b a ≡ false → a < b
below a b h = ground arith

at_most : (a b : ℕ) → ltb b a ≡ false → a ≤ b
at_most a b h = ground arith

reject_checks-IsTradable :
    (self : RaydiumCpmmAdapter) (p : RaydiumCpmmParams) (d : DecodedPool)
    → All Passed (reject_checks self p d)
    → IsTradable self p d
unfolding reject_checks value_checks
reject_checks-IsTradable self p d h =
    let behind_b = mint_checks d.mint_b ++ value_checks p d in
    let behind_a = mint_checks d.mint_a ++ behind_b in
    let (accounts, h1) = All-split (account_checks self p d) (gate_checks self p d ++ behind_a) h in
    let (gates, h2) = All-split (gate_checks self p d) behind_a h1 in
    let (mints_a, h3) = All-split (mint_checks d.mint_a) behind_b h2 in
    let (mints_b, (zero, (inputs, (shares, u)))) =
      All-split (mint_checks d.mint_b) (value_checks p d) h3 in
    let (now, e, opened) = gate_checks-gate self p d gates in
    record {
      now = now;
      now_eq = e;
      opened = opened;
      reserves = not_zero d.reserve_a d.reserve_b zero;
      input_fees = below _ _ inputs;
      shares = at_most _ _ shares;
    }

validate_pool-IsTradable :
    (self : RaydiumCpmmAdapter) (p : RaydiumCpmmParams) (d : DecodedPool) (v : ValidationResult)
    → params_of d.params ≡ ok p
    → validate_pool self d ≡ ok v
    → v.is_ok ≡ true
    → IsTradable self p d
unfolding validate_pool result_of
validate_pool-IsTradable self p d v ep h = on_ok (params_of d.params) _ h λ p2 ep2 h.
    let same : p2 ≡ p = ok_inj (sym ep2 ∙ ep) in
    subst (λ p. v.is_ok ≡ true → IsTradable self p d) same
      (subst (λ v. v.is_ok ≡ true → IsTradable self p2 d) (ok_inj h)
        λ good. reject_checks-IsTradable self p2 d (failing-All (reject_checks self p2 d) good))

-- On a pool that passes the validation a quote is never refused by the gate: it is made by the simulation
-- of the swap, on either side. And a quote with no reason to reject can be applied to the pool. Supposes
-- that the vaults are u64s.
pub validate_pool-quote_exact_in :
    (self : RaydiumCpmmAdapter) (d : DecodedPool) (mint : PublicKey) (x : ℤ) (v : ValidationResult)
    (p : RaydiumCpmmParams) (q : Quote)
    → params_of d.params ≡ ok p
    → d.vault_a.amount ≤ u64_max
    → d.vault_b.amount ≤ u64_max
    → validate_pool self d ≡ ok v
    → v.is_ok ≡ true
    → quote_exact_in self d mint x ≡ ok q
    → IsTradable self p d
      × ((s : Sides) × (swap_context p d mint ≡ ok s)
          × (quote_of self p d s x (simulate_swap_base_input s.ctx x none) ≡ ok q))
      × (q.reject_reasons ≡ [] → (e : DecodedPool) × (apply_swap self d q ≡ ok e))
unfolding quote_exact_in gated
validate_pool-quote_exact_in self d mint x v p q ep ua ub ev good h =
    let t = validate_pool-IsTradable self p d v ep ev good in
    (
      t,
      on_ok (swap_context p d mint) _ (rw ep at h)
          λ s es k. (s, es, rw (t.now_eq, t.opened, gated) at k),
      λ bare. quote_exact_in-apply_swap self d mint x q p ep t.shares ua ub h bare,
    )
