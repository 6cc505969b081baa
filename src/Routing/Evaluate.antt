-- ===== src/Routing/Evaluate.antt =====
-- What an evaluation of `evaluateCircuit` of src/routing/circuit.ts consists of.
use atomarb.Common.{
  ◌≡◌, refl, true, ◌||◌, not, Bool-cases, inl, inr, List, [], ◌∷◌, Result, ok, err, null, fail,
  Code, ok_inj, on_ok, on_pass, throw, circuit_mismatch, leg_mismatch, ◌>>=◌, ◌>>◌, exit_if, ◌==◌,
  arith, subst, sym, ap, map, ◌++◌,
}
use atomarb.Common.Int.{ℤ, pos, ◌-ℤ◌, ◌<ℤ◌, leb_ℤ, eqb_ℤ, leb_ℤ→gt, eq_of_parts}
use atomarb.Raydium.Layout.{PublicKey}
use atomarb.Adapter.{AdapterId, Quote, PoolAdapter}
use atomarb.Accounting.{TradingPnl, trading_pnl, inside_quote}
use atomarb.Routing.{
  Circuit, CircuitEval, evaluated, failed, zero_trade, leg_a_zero_out, leg_a_reject, leg_b_reject,
  is_empty, after_leg_b, after_leg_a, evaluate_circuit,
}

-- Two quotes that make a round trip.
pub record IsRoundTrip (wsol : PublicKey) (adapters : AdapterId → PoolAdapter) (c : Circuit) (x : ℤ)
    (e : CircuitEval) : Type 0 where
  pub size : e.amount_in ≡ x
  pub size_pos : pos 0 <ℤ x
  pub leg_a : (adapters c.pool_a.adapter).quote_exact_in c.pool_a wsol x ≡ ok e.quote_a
  pub leg_b :
      (adapters c.pool_b.adapter).quote_exact_in c.pool_b c.token e.quote_a.amount_out_to_user
      ≡ ok e.quote_b
  pub between_pos : pos 0 <ℤ e.quote_a.amount_out_to_user
  pub handed_on : e.quote_b.amount_in ≡ e.quote_a.amount_out_to_user
  pub accepted : (e.quote_a.reject_reasons ≡ []) × (e.quote_b.reject_reasons ≡ [])
  pub starts : e.quote_a.input_mint ≡ wsol
  pub ends : e.quote_b.output_mint ≡ wsol
  pub profit : e.pnl.pnl ≡ e.quote_b.amount_out_to_user -ℤ e.quote_a.amount_in

is_empty-eq : (rs : List Code) → is_empty rs ≡ true → rs ≡ []
unfolding is_empty
is_empty-eq [] h = refl
is_empty-eq (r ∷ rs) h = cc

-- The checks of `tradingPnl`.
trading_pnl-ok :
    (wsol : PublicKey) (qa qb : Quote) (p : TradingPnl)
    → trading_pnl wsol qa qb ≡ ok p
    → (qa.input_mint ≡ wsol)
      × (qb.output_mint ≡ wsol)
      × (qb.amount_in ≡ qa.amount_out_to_user)
      × (p.pnl ≡ qb.amount_out_to_user -ℤ qa.amount_in)
unfolding trading_pnl
trading_pnl-ok wsol qa qb p h =
    let a = not (qa.input_mint == wsol) || not (qb.output_mint == wsol) in
    let b = not (eqb_ℤ qb.amount_in qa.amount_out_to_user) in
    let last : Result TradingPnl = ok (record {
      base_mint = wsol;
      amount_in = qa.amount_in;
      amount_out = qb.amount_out_to_user;
      pnl = qb.amount_out_to_user -ℤ qa.amount_in;
      fees_inside_quotes = map inside_quote (qa.fees ++ qb.fees);
    }) in
    on_pass a (throw circuit_mismatch) (exit_if b (throw leg_mismatch) >> last) h λ mints h1.
      on_pass b (throw leg_mismatch) last h1 λ amounts h2. (
        ground arith,
        ground arith,
        eq_of_parts qb.amount_in qa.amount_out_to_user (ground arith),
        sym (ap TradingPnl.pnl (ok_inj h2)),
      )

evaluated_inj : (a b : CircuitEval) → evaluated a ≡ evaluated b → a ≡ b
evaluated_inj a b h = cc

back :
    (wsol : PublicKey) (adapters : AdapterId → PoolAdapter) (c : Circuit) (x : ℤ) (qa qb : Quote)
    (p : TradingPnl)
    → pos 0 <ℤ x
    → (adapters c.pool_a.adapter).quote_exact_in c.pool_a wsol x ≡ ok qa
    → qa.reject_reasons ≡ []
    → pos 0 <ℤ qa.amount_out_to_user
    → (adapters c.pool_b.adapter).quote_exact_in c.pool_b c.token qa.amount_out_to_user ≡ ok qb
    → qb.reject_reasons ≡ []
    → trading_pnl wsol qa qb ≡ ok p
    → IsRoundTrip wsol adapters c x (record { amount_in = x; quote_a = qa; quote_b = qb; pnl = p })
back wsol adapters c x qa qb p pos_x la ra mid lb rb t =
    let (i, o, m, profit) = trading_pnl-ok wsol qa qb p t in
    record {
      size = refl;
      size_pos = pos_x;
      leg_a = la;
      leg_b = lb;
      between_pos = mid;
      handed_on = m;
      accepted = (ra, rb);
      starts = i;
      ends = o;
      profit = profit;
    }

after_leg_b-IsRoundTrip :
    (wsol : PublicKey) (adapters : AdapterId → PoolAdapter) (c : Circuit) (x : ℤ) (qa : Quote)
    (o : Result Quote) (e : CircuitEval)
    → pos 0 <ℤ x
    → (adapters c.pool_a.adapter).quote_exact_in c.pool_a wsol x ≡ ok qa
    → qa.reject_reasons ≡ []
    → pos 0 <ℤ qa.amount_out_to_user
    → (adapters c.pool_b.adapter).quote_exact_in c.pool_b c.token qa.amount_out_to_user ≡ o
    → after_leg_b wsol x qa o ≡ ok (evaluated e)
    → IsRoundTrip wsol adapters c x e
unfolding after_leg_b
after_leg_b-IsRoundTrip wsol adapters c x qa (err (fail code)) e px la ra mid lb h = cc
after_leg_b-IsRoundTrip wsol adapters c x qa (err null) e px la ra mid lb h = cc
after_leg_b-IsRoundTrip wsol adapters c x qa (err (throw t)) e px la ra mid lb h = cc
after_leg_b-IsRoundTrip wsol adapters c x qa (ok qb) e px la ra mid lb h =
    elim (Bool-cases (is_empty qb.reject_reasons)) [
      | inl bare ↦
          let f = λ (p : TradingPnl).
            ok (evaluated (record { amount_in = x; quote_a = qa; quote_b = qb; pnl = p })) in
          let k : (trading_pnl wsol qa qb >>= f) ≡ ok (evaluated e) = rw bare at h in
          on_ok (trading_pnl wsol qa qb) f k λ p t h1.
            subst (IsRoundTrip wsol adapters c x)
              (evaluated_inj (record { amount_in = x; quote_a = qa; quote_b = qb; pnl = p }) e
                (ok_inj h1))
              (back wsol adapters c x qa qb p px la ra mid lb (is_empty-eq qb.reject_reasons bare)
                t)
      | inr rejected ↦
          let k : ok (failed (leg_b_reject qb.reject_reasons)) ≡ ok (evaluated e) =
            rw rejected at h in
          cc
    ]

after_leg_a-IsRoundTrip :
    (wsol : PublicKey) (adapters : AdapterId → PoolAdapter) (c : Circuit) (x : ℤ) (o : Result Quote)
    (e : CircuitEval)
    → pos 0 <ℤ x
    → (adapters c.pool_a.adapter).quote_exact_in c.pool_a wsol x ≡ o
    → after_leg_a wsol adapters c x o ≡ ok (evaluated e)
    → IsRoundTrip wsol adapters c x e
unfolding after_leg_a
after_leg_a-IsRoundTrip wsol adapters c x (err (fail code)) e px la h = cc
after_leg_a-IsRoundTrip wsol adapters c x (err null) e px la h = cc
after_leg_a-IsRoundTrip wsol adapters c x (err (throw t)) e px la h = cc
after_leg_a-IsRoundTrip wsol adapters c x (ok qa) e px la h =
    elim (Bool-cases (is_empty qa.reject_reasons)) [
      | inl bare ↦ elim (Bool-cases (leb_ℤ qa.amount_out_to_user (pos 0))) [
        | inl nil ↦
            let k : ok (failed leg_a_zero_out) ≡ ok (evaluated e) = rw (bare, nil) at h in cc
        | inr more ↦
            after_leg_b-IsRoundTrip wsol adapters c x qa
              ((adapters c.pool_b.adapter).quote_exact_in c.pool_b c.token qa.amount_out_to_user) e
              px la (is_empty-eq qa.reject_reasons bare)
              (leb_ℤ→gt qa.amount_out_to_user (pos 0) more) refl (rw (bare, more) at h)
      ]
      | inr rejected ↦
          let k : ok (failed (leg_a_reject qa.reject_reasons)) ≡ ok (evaluated e) =
            rw rejected at h in
          cc
    ]

-- An evaluation is of a positive size, and it is a round trip through both adapters' quotes, neither
-- of them with a reason to reject: it starts and ends in wrapped SOL, leg B is quoted for exactly what
-- leg A pays out, which is positive, and the profit is what comes back less what went in.
pub evaluate_circuit-IsRoundTrip :
    (wsol : PublicKey) (adapters : AdapterId → PoolAdapter) (c : Circuit) (x : ℤ) (e : CircuitEval)
    → evaluate_circuit wsol adapters c x ≡ ok (evaluated e)
    → IsRoundTrip wsol adapters c x e
unfolding evaluate_circuit
evaluate_circuit-IsRoundTrip wsol adapters c x e h = elim (Bool-cases (leb_ℤ x (pos 0))) [
  | inl nil ↦ let k : ok (failed zero_trade) ≡ ok (evaluated e) = rw nil at h in cc
  | inr more ↦
      after_leg_a-IsRoundTrip wsol adapters c x
        ((adapters c.pool_a.adapter).quote_exact_in c.pool_a wsol x) e (leb_ℤ→gt x (pos 0) more)
        refl (rw more at h)
]
