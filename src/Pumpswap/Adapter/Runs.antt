-- ===== src/Pumpswap/Adapter/Runs.antt =====
-- The calls behind a quote of src/adapters/pumpswap/adapter.ts with no reason to reject.
use atomarb.Common.{
  ◌∙◌, ℕ, ◌≡◌, ◌≢◌, ◌⊎◌, refl, sym, ap, Bool, true, false, not, ◌&&◌, inl, inr, List, [], ◌∷◌, ◌++◌,
  Result, ok, err, null, fail, throw, ok_inj, on_ok, on_pass, Code, ◌==◌, arith,
}
use atomarb.Common.Int.{ℤ, pos, ◌+ℤ◌, ◌-ℤ◌}
use atomarb.Raydium.Layout.{PublicKey}
use atomarb.Pumpswap.Params.{PumpswapParams}
use atomarb.Pumpswap.Schedule.{FeeSchedule}
use atomarb.Pumpswap.Math.{BuyQuoteResult, SellResult, buy_quote_input, sell_base_input}
use atomarb.Pumpswap.TransferFee.{transfer_fee_amount_worst_case}
use atomarb.Adapter.{DecodedPool, Quote}
use atomarb.Pumpswap.Adapter.{
  PumpswapAdapter, pumpswap_params, schedule, fees_of, math_state, pool_accounts,
}
use atomarb.Pumpswap.Adapter.Quote.{
  Base, quote_with, buy_quote, sell_quote, early_reasons, transfer_fee_of, priced, quote_exact_in,
}

append_code-ne-nil : (xs : List Code) (c : Code) (cs : List Code) → xs ++ c ∷ cs ≢ []
append_code-ne-nil [] c cs h = cc
append_code-ne-nil (x ∷ xs) c cs h = cc

-- A buy: the math's result, and what the vaults move by.
pub record BuyRun (p : PumpswapParams) (d : DecodedPool) (sched : FeeSchedule) (x : ℤ) (q : Quote)
    : Type 0 where
  pub bought : BuyQuoteResult
  pub bought_eq : buy_quote_input (math_state p d) (fees_of sched) x ≡ ok bought
  pub input : q.input_mint ≡ d.mint_b.mint
  pub debit : q.amount_in ≡ bought.total_with_fees
  pub vault_in : q.vault_in_delta ≡ bought.effective_quote +ℤ pos (bought.paid).lp_fee
  pub vault_out : q.vault_out_delta ≡ pos bought.base_out

-- A sale, with the transfer fee that is withheld on the way in.
pub record SellRun (p : PumpswapParams) (d : DecodedPool) (sched : FeeSchedule) (x : ℤ) (q : Quote)
    : Type 0 where
  pub sold : SellResult
  pub withheld : ℕ
  pub sold_eq : sell_base_input (math_state p d) (fees_of sched) x ≡ ok sold
  pub withheld_eq :
      transfer_fee_of x p.token_2022.transfer_fee_tiers p.token_2022.transfer_fee ≡ ok withheld
  pub input : q.input_mint ≡ d.mint_a.mint
  pub debit : q.amount_in ≡ x
  pub vault_in : q.vault_in_delta ≡ x -ℤ pos withheld
  pub vault_out : q.vault_out_delta ≡ pos sold.quote_amount_out -ℤ pos (sold.paid).lp_fee

buy_run :
    (p : PumpswapParams) (d : DecodedPool) (b : Base) (sched : FeeSchedule) (x : ℤ) (q : Quote)
    (m : Result BuyQuoteResult)
    → buy_quote_input (math_state p d) (fees_of sched) x ≡ m
    → buy_quote p d b x m ≡ ok q
    → q.reject_reasons ≡ []
    → BuyRun p d sched x q
unfolding buy_quote quote_with
buy_run p d b sched x q (err (fail c)) e h bare =
    absurd (append_code-ne-nil b.reasons c [] (ap Quote.reject_reasons (ok_inj h) ∙ bare))
buy_run p d b sched x q (err null) e h bare = cc
buy_run p d b sched x q (err (throw t)) e h bare = cc
buy_run p d b sched x q (ok r) e h bare =
    on_ok
      (transfer_fee_amount_worst_case r.base_out p.token_2022.transfer_fee_tiers
        p.token_2022.transfer_fee)
      _ h
      λ f ef h1.
        let k = ok_inj h1 in
        record {
          bought = r;
          bought_eq = e;
          input = sym (ap Quote.input_mint k);
          debit = sym (ap Quote.amount_in k);
          vault_in = sym (ap Quote.vault_in_delta k);
          vault_out = sym (ap Quote.vault_out_delta k);
        }

sell_run :
    (p : PumpswapParams) (d : DecodedPool) (b : Base) (sched : FeeSchedule) (x : ℤ) (f : ℕ)
    (q : Quote) (m : Result SellResult)
    → transfer_fee_of x p.token_2022.transfer_fee_tiers p.token_2022.transfer_fee ≡ ok f
    → sell_base_input (math_state p d) (fees_of sched) x ≡ m
    → sell_quote d b x f m ≡ ok q
    → q.reject_reasons ≡ []
    → SellRun p d sched x q
unfolding sell_quote quote_with
sell_run p d b sched x f q (err (fail c)) ef e h bare =
    absurd (append_code-ne-nil b.reasons c [] (ap Quote.reject_reasons (ok_inj h) ∙ bare))
sell_run p d b sched x f q (err null) ef e h bare = cc
sell_run p d b sched x f q (err (throw t)) ef e h bare = cc
sell_run p d b sched x f q (ok r) ef e h bare =
    let k = ok_inj h in
    record {
      sold = r;
      withheld = f;
      sold_eq = e;
      withheld_eq = ef;
      input = sym (ap Quote.input_mint k);
      debit = sym (ap Quote.amount_in k);
      vault_in = sym (ap Quote.vault_in_delta k);
      vault_out = sym (ap Quote.vault_out_delta k);
    }

priced-run :
    (p : PumpswapParams) (d : DecodedPool) (b : Base) (sched : FeeSchedule) (side : Bool) (x : ℤ)
    (q : Quote)
    → priced p d b sched side x ≡ ok q
    → q.reject_reasons ≡ []
    → BuyRun p d sched x q ⊎ SellRun p d sched x q
unfolding priced
priced-run p d b sched true x q h bare =
    inl (buy_run p d b sched x q (buy_quote_input (math_state p d) (fees_of sched) x) refl h bare)
priced-run p d b sched false x q h bare =
    on_ok (transfer_fee_of x p.token_2022.transfer_fee_tiers p.token_2022.transfer_fee) _ h
      λ f ef h1. inr (
        sell_run p d b sched x f q (sell_base_input (math_state p d) (fees_of sched) x) ef refl h1
          bare)

-- The pool's parameters and its schedule, and one of the two sides. The two mints differ.
pub record QuoteRun (self : PumpswapAdapter) (d : DecodedPool) (x : ℤ) (q : Quote) : Type 0 where
  pub params : PumpswapParams
  pub sched : FeeSchedule
  pub params_eq : pumpswap_params d ≡ ok params
  pub sched_eq : schedule self params d ≡ ok sched
  pub apart : d.mint_a.mint ≢ d.mint_b.mint
  pub side : BuyRun params d sched x q ⊎ SellRun params d sched x q

mints_apart :
    (m a b : ℕ) → (not (m == b) && not (m == a)) ≡ false → ((m == b) && (m == a)) ≡ false → a ≢ b
mints_apart m a b h k e = ground arith

pub quote_run :
    (self : PumpswapAdapter) (d : DecodedPool) (mint : PublicKey) (x : ℤ) (q : Quote)
    → quote_exact_in self d mint x ≡ ok q
    → q.reject_reasons ≡ []
    → QuoteRun self d x q
unfolding quote_exact_in
quote_run self d mint x q h bare =
    let is_buy = mint == d.mint_b.mint in
    let is_sell = mint == d.mint_a.mint in
    on_ok (pumpswap_params d) _ h λ p ep h1. on_pass (not is_buy && not is_sell) _ _ h1 λ c1 h2.
      on_pass (is_buy && is_sell) _ _ h2 λ c2 h3. on_ok (schedule self p d) _ h3 λ sched es h4.
        on_ok (pool_accounts self p d) _ h4 λ needed en h5. record {
          params = p;
          sched = sched;
          params_eq = ep;
          sched_eq = es;
          apart = mints_apart mint d.mint_a.mint d.mint_b.mint c1 c2;
          side =
              priced-run p d
                (record { pool = d; needed = needed; reasons = early_reasons p is_buy x }) sched
                is_buy x q h5 bare;
        }
