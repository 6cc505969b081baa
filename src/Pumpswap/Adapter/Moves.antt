-- ===== src/Pumpswap/Adapter/Moves.antt =====
-- What `applySwap` of src/adapters/pumpswap/adapter.ts does with a quote that was made on the pool.
use atomarb.Raydium.Adapter.Validate.{is_empty}
use atomarb.Common.{
  ◌⊎◌, exit_if, fail, negative_reserve, quote_rejected, quote_pool_mismatch, ◌>>=◌, ◌>>◌, ◌∙◌, ℕ,
  ◌+◌, ◌*◌, ◌≤◌, ◌≡◌, ◌≢◌, refl, sym, ap, subst, true, false, not, ◌||◌, inl, inr, [], ok, ok_inj,
  on_ok, on_pass, ◌==◌, arith,
}
use atomarb.Common.Int.{negsuc, ◌<ℤ◌, ℤ, pos, pos_part, neg_part, ◌+ℤ◌, ◌-ℤ◌, ◌≤ℤ◌, ltb_ℤ, int_laws}
use atomarb.Raydium.Layout.{PublicKey}
use atomarb.Pumpswap.Params.{PumpswapParams}
use atomarb.Pumpswap.TransferFee.{transfer_fee_amount_worst_case}
use atomarb.Pumpswap.Adapter.Quote.{transfer_fee_of, quote_exact_in}
use atomarb.Pumpswap.Math.Spend.{buy_quote_input-IsSpent}
use atomarb.Pumpswap.Math.Sell.{sell_base_input-IsSold}
use atomarb.Adapter.{DecodedPool, Quote}
use atomarb.Pumpswap.Adapter.{
  fees_of, FeeSchedule, schedule_at, or_no_schedule, PumpswapAdapter, pumpswap_params, math_state,
}
use atomarb.Pumpswap.Adapter.Quote.{transfer_fee_of, quote_exact_in}
use atomarb.Pumpswap.Adapter.Runs.{BuyRun, SellRun, quote_run}
use atomarb.Pumpswap.Adapter.Apply.{new_base, new_quote, moved, apply_swap}

-- The reserves behind any quote that is applied.
pub record IsApplied (d : DecodedPool) (q : Quote) (e : DecodedPool) : Type 0 where
  pub base : pos e.reserve_a ≡ new_base d q
  pub quote : pos e.reserve_b ≡ new_quote d q
  pub raw : (e.reserve_a ≡ e.vault_a.amount) × (e.reserve_b ≡ e.vault_b.amount)

nonneg_parts :
    (a b : ℤ)
    → (ltb_ℤ a (pos 0) || ltb_ℤ b (pos 0)) ≡ false
    → (pos (pos_part a) ≡ a) × (pos (pos_part b) ≡ b)
nonneg_parts a b h = ground arith

pub apply_swap-IsApplied :
    (self : PumpswapAdapter) (d : DecodedPool) (q : Quote) (e : DecodedPool)
    → apply_swap self d q ≡ ok e
    → IsApplied d q e
unfolding apply_swap moved
apply_swap-IsApplied self d q e h =
    let base = pos_part (new_base d q) in
    let quote = pos_part (new_quote d q) in
    let g1 = λ (p : PumpswapParams).
      or_no_schedule (schedule_at self p d base (pos quote +ℤ p.pool.virtual_quote_reserves))
      >>= λ sched. ok (moved self p d q base quote sched) in
    let below = ltb_ℤ (new_base d q) (pos 0) || ltb_ℤ (new_quote d q) (pos 0) in
    let g2 = λ (p : PumpswapParams). exit_if below (fail negative_reserve) >> g1 p in
    let g3 = pumpswap_params d >>= g2 in
    let g4 = exit_if (not (is_empty q.reject_reasons)) (fail quote_rejected) >> g3 in
    on_pass (not (q.pool == d.address)) (fail quote_pool_mismatch) g4 h λ c1 h1.
      on_pass (not (is_empty q.reject_reasons)) (fail quote_rejected) g3 h1 λ c2 h2.
        on_ok (pumpswap_params d) g2 h2 λ p ep h3.
          on_pass below (fail negative_reserve) (g1 p) h3 λ c3 h4.
            on_ok
              (or_no_schedule
                (schedule_at self p d base (pos quote +ℤ p.pool.virtual_quote_reserves)))
              (λ sched. ok (moved self p d q base quote sched)) h4
              λ sched es h5.
                let k = ok_inj h5 in
                let (b, c) = nonneg_parts (new_base d q) (new_quote d q) c3 in
                subst (IsApplied d q) k (record { base = b; quote = c; raw = (refl, refl) })

none_below : (c : ℤ) → pos 0 <ℤ c → neg_part c ≡ 0
none_below c h = ground arith

buy_product :
    (a b v out lp a' b' : ℕ) (eff ci : ℤ)
    → pos a' ≡ pos a -ℤ pos out
    → pos b' ≡ pos b +ℤ (eff +ℤ pos lp)
    → ci +ℤ pos 1 ≡ eff
    → pos 0 <ℤ ci
    → out * (b + v + pos_part ci) ≤ a * pos_part ci
    → a * (b + v) ≤ (a' + 0) * (b' + v)
buy_product a b v out lp a' b' eff ci ea eb ec cp k =
    let e1 : a ≡ a' + out = omega (int_laws, ap pos_part ea, ap neg_part ea) in
    let e2 : b' ≡ b + pos_part ci + 1 + lp = omega (
      int_laws,
      ap pos_part eb,
      ap neg_part eb,
      ap pos_part ec,
      ap neg_part ec,
      none_below ci cp,
    ) in
    rw (e1, e2) (omega (arith, subst (λ z. out * (b + v + pos_part ci) ≤ z * pos_part ci) e1 k))

sell_product :
    (a b v out lp f a' b' : ℕ) (x : ℤ)
    → pos a' ≡ pos a +ℤ (x -ℤ pos f)
    → pos b' ≡ pos b -ℤ (pos out -ℤ pos lp)
    → pos 0 <ℤ x
    → (b + v) * a + out * (a + pos_part x) ≤ (b + v) * (a + pos_part x)
    → a * (b + v) ≤ (a' + f) * (b' + v)
sell_product a b v out lp f a' b' x ea eb xp k =
    let e1 : a' + f ≡ a + pos_part x =
      omega (int_laws, ap pos_part ea, ap neg_part ea, none_below x xp) in
    let e2 : b' + out ≡ b + lp = omega (int_laws, ap pos_part eb, ap neg_part eb) in
    rw e1 (omega (arith, ap (λ z. (a + pos_part x) * z) e2, k))

-- What a buyer's quote moves: the tokens bought leave the base vault, and no transfer fee is on the
-- way in.
pub record IsBuy (d : DecodedPool) (q : Quote) (e : DecodedPool) (fee : ℕ) : Type 0 where
  pub input : q.input_mint ≡ d.mint_b.mint
  pub no_fee : fee ≡ 0
  pub base_out : pos e.reserve_a ≡ pos d.reserve_a -ℤ q.vault_out_delta

-- What a seller's quote moves: the base vault receives the tokens that are sent less the transfer fee
-- of the base mint, the larger one of its two tiers on the whole amount.
pub record IsSale (p : PumpswapParams) (d : DecodedPool) (q : Quote) (e : DecodedPool) (fee : ℕ)
    : Type 0 where
  pub input : q.input_mint ≡ d.mint_a.mint
  pub amount_pos : pos 0 <ℤ q.amount_in
  pub fee_eq :
      transfer_fee_amount_worst_case
        (pos_part q.amount_in)
        p.token_2022.transfer_fee_tiers
        p.token_2022.transfer_fee
      ≡ ok fee
  pub base_in : pos e.reserve_a ≡ pos d.reserve_a +ℤ (q.amount_in -ℤ pos fee)

-- What the pool `e` holds after the quote, against the pool `d` before it. The product counts the
-- virtual reserves, and the transfer fee that the mint takes from a sale.
pub record IsTraded (p : PumpswapParams) (d : DecodedPool) (q : Quote) (e : DecodedPool)
    : Type 0 where
  pub applied : IsApplied d q e
  pub virtual_nonneg : pos 0 ≤ℤ p.pool.virtual_quote_reserves
  pub fee : ℕ
  pub side : IsBuy d q e fee ⊎ IsSale p d q e fee
  pub keeps_product :
      let v = pos_part p.pool.virtual_quote_reserves in
      d.reserve_a * (d.reserve_b + v) ≤ (e.reserve_a + fee) * (e.reserve_b + v)

buy-IsTraded :
    (p : PumpswapParams) (d : DecodedPool) (sched : FeeSchedule) (x : ℤ) (q : Quote)
    (e : DecodedPool)
    → BuyRun p d sched x q
    → IsApplied d q e
    → IsTraded p d q e
unfolding new_base new_quote
buy-IsTraded p d sched x q e run m =
    let (xp, spent) =
      buy_quote_input-IsSpent (math_state p d) (fees_of sched) x run.bought run.bought_eq in
    let side : (q.input_mint == d.mint_b.mint) ≡ true = ground (arith, run.input) in
    let v = pos_part p.pool.virtual_quote_reserves in
    let value : run.bought.eff_q ≡ d.reserve_b + v = spent.effective.value in
    record {
      applied = m;
      virtual_nonneg = spent.effective.virtual_nonneg;
      fee = 0;
      side = inl (record { input = run.input; no_fee = refl; base_out = m.base ∙ rw side refl });
      keeps_product =
          buy_product d.reserve_a d.reserve_b v run.bought.base_out run.bought.paid.lp_fee
            e.reserve_a e.reserve_b run.bought.effective_quote run.bought.curve_input
            (m.base ∙ rw (side, run.vault_out) refl) (m.quote ∙ rw (side, run.vault_in) refl)
            spent.curve spent.curve_pos
            (subst
              (λ z.
                run.bought.base_out * (z + pos_part run.bought.curve_input)
                ≤ d.reserve_a * pos_part run.bought.curve_input)
              value spent.keeps_product);
    }

other_side : (m a b : ℕ) → m ≡ a → a ≢ b → (m == b) ≡ false
other_side m a b h k = ground arith

-- The transfer fee of an amount that is sold.
fee_of_sold :
    (p : PumpswapParams) (x y : ℤ) (f : ℕ)
    → pos 0 <ℤ x
    → y ≡ x
    → transfer_fee_of x p.token_2022.transfer_fee_tiers p.token_2022.transfer_fee ≡ ok f
    → transfer_fee_amount_worst_case
        (pos_part y)
        p.token_2022.transfer_fee_tiers
        p.token_2022.transfer_fee
      ≡ ok f
unfolding transfer_fee_of
fee_of_sold p (pos n) y f h e k = rw e k
fee_of_sold p (negsuc n) y f h e k = absurd (omega (arith, h))

sell-IsTraded :
    (p : PumpswapParams) (d : DecodedPool) (sched : FeeSchedule) (x : ℤ) (q : Quote)
    (e : DecodedPool)
    → SellRun p d sched x q
    → d.mint_a.mint ≢ d.mint_b.mint
    → IsApplied d q e
    → IsTraded p d q e
unfolding new_base new_quote
sell-IsTraded p d sched x q e run apart m =
    let (xp, sold) =
      sell_base_input-IsSold (math_state p d) (fees_of sched) x run.sold run.sold_eq in
    let side : (q.input_mint == d.mint_b.mint) ≡ false =
      other_side q.input_mint d.mint_a.mint d.mint_b.mint run.input apart in
    let v = pos_part p.pool.virtual_quote_reserves in
    let value : run.sold.eff_q ≡ d.reserve_b + v = sold.effective.value in
    record {
      applied = m;
      virtual_nonneg = sold.effective.virtual_nonneg;
      fee = run.withheld;
      side = inr (record {
        input = run.input;
        amount_pos = rw run.debit xp;
        fee_eq = fee_of_sold p x q.amount_in run.withheld xp run.debit run.withheld_eq;
        base_in = m.base ∙ rw (side, run.vault_in, run.debit) refl;
      });
      keeps_product =
          sell_product d.reserve_a d.reserve_b v run.sold.quote_amount_out run.sold.paid.lp_fee
            run.withheld e.reserve_a e.reserve_b x (m.base ∙ rw (side, run.vault_in) refl)
            (m.quote ∙ rw (side, run.vault_out) refl) xp
            (subst
              (λ z.
                z * d.reserve_a + run.sold.quote_amount_out * (d.reserve_a + pos_part x)
                ≤ z * (d.reserve_a + pos_part x))
              value sold.keeps_product);
    }

-- Of a quote that `quote_exact_in` makes on a pool with no reason to reject, `apply_swap` returns a
-- pool whose reserves are the old ones, moved by the quote's two vault deltas and read back from the
-- vaults. The base vault of a sale receives the positive amount that is sent less the worst-case
-- transfer fee of the base mint on that amount. The product of the base reserve and of the quote
-- reserve with the virtual part does not fall, where a sale counts that transfer fee.
pub apply_swap-IsTraded :
    (self : PumpswapAdapter) (d : DecodedPool) (mint : PublicKey) (x : ℤ) (q : Quote)
    (e : DecodedPool) (p : PumpswapParams)
    → pumpswap_params d ≡ ok p
    → quote_exact_in self d mint x ≡ ok q
    → q.reject_reasons ≡ []
    → apply_swap self d q ≡ ok e
    → IsTraded p d q e
apply_swap-IsTraded self d mint x q e p ep h bare k =
    let run = quote_run self d mint x q h bare in
    let m = apply_swap-IsApplied self d q e k in
    subst (λ z. IsTraded z d q e) (ok_inj (sym run.params_eq ∙ ep))
      (elim run.side [
        | inl b ↦ buy-IsTraded run.params d run.sched x q e b m
        | inr s ↦ sell-IsTraded run.params d run.sched x q e s run.apart m
      ])
