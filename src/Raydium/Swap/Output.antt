-- ===== src/Raydium/Swap/Output.antt =====
-- What a successful `simulateSwapBaseOutput` says: the requested amount arrives, and every unit that
-- the user sends is accounted for.
use atomarb.Common.{
  ℕ, ◌+◌, ◌*◌, ◌≤◌, ◌<◌, ◌≡◌, refl, false, not, Option, ok, fail, invalid_fee_model,
  zero_trading_tokens, arith, on_ok, on_pass, on_null, on_null-eq-ok, ok_inj, subst, sym, u64_max,
  u128_max, ltb, ◌==◌,
}
use atomarb.Common.Int.{pos}
use atomarb.Raydium.Curve.{curve_swap_base_output}
use atomarb.Raydium.Curve.Input.{taken, not_taken}
use atomarb.Raydium.Curve.Output.{output_run, run-IsFairOutput}
use atomarb.Raydium.TransferFee.{get_transfer_fee, get_transfer_inverse_fee}
use atomarb.Raydium.TransferFee.Bounds.{get_transfer_inverse_fee-exact}
use atomarb.Raydium.Pool.{is_creator_fee_on_input, fee_rates_of}
use atomarb.Raydium.Swap.{
  SwapContext, reserves_for, SwapBaseOutputOk, above_maximum, simulate_swap_base_output,
}

-- The calls that a successful simulation made, with its result `s`.
pub record OutputSwapRun (ctx : SwapContext) (amount_out : ℕ) (maximum : Option ℕ)
    (s : SwapBaseOutputOk) : Type 0 where
  pub fee_out_eq :
      get_transfer_inverse_fee ctx.output_mint ctx.epoch amount_out ≡ ok s.out_transfer_fee
  pub curve_eq :
      curve_swap_base_output s.amount_out_with_transfer_fee s.reserve_in s.reserve_out
        (fee_rates_of ctx.config ctx.pool)
        s.is_creator_fee_on_input
      ≡ ok s.curve
  pub fee_in_eq :
      get_transfer_inverse_fee ctx.input_mint ctx.epoch s.input_amount ≡ ok s.input_transfer_fee
  pub with_fee : s.amount_out_with_transfer_fee ≡ amount_out + s.out_transfer_fee
  pub with_fee_fits : s.amount_out_with_transfer_fee ≤ u64_max
  pub input_eq : s.input_amount ≡ s.curve.input_amount
  pub input_pos : 0 < s.input_amount
  pub sent : s.input_transfer_amount ≡ s.input_amount + s.input_transfer_fee
  pub sent_fits : s.input_transfer_amount ≤ u64_max
  pub affordable : above_maximum maximum s.input_transfer_amount ≡ false
  pub output_eq : s.curve.output_amount ≡ s.amount_out_with_transfer_fee
  pub before : s.constant_before ≡ s.reserve_in * s.reserve_out
  pub after : s.constant_after ≡ s.curve.new_input_vault_amount * s.curve.new_output_vault_amount
  pub vault_in : s.vault_in_after ≡ ctx.input_vault_amount + s.input_amount
  pub vault_out : s.vault_out_after + s.amount_out_with_transfer_fee ≡ ctx.output_vault_amount

pub output_swap_run :
    (ctx : SwapContext) (amount_out : ℕ) (maximum : Option ℕ) {s : SwapBaseOutputOk}
    → simulate_swap_base_output ctx (pos amount_out) maximum ≡ ok s
    → OutputSwapRun ctx amount_out maximum s
unfolding simulate_swap_base_output
output_swap_run ctx amount_out maximum h = on_pass (amount_out == 0) _ _ h λ c0 h0.
    on_pass (ltb u64_max amount_out) _ _ h0 λ c1 h1.
      on_ok (get_transfer_inverse_fee ctx.output_mint ctx.epoch amount_out) _ h1 λ fee_out e1 h2.
        on_pass (ltb u64_max (amount_out + fee_out)) _ _ h2 λ c2 h3.
          on_ok (reserves_for ctx) _ h3 λ rs e2 h4.
            on_ok
              (on_null (is_creator_fee_on_input ctx.pool.creator_fee_on ctx.direction)
                (fail invalid_fee_model))
              _ h4
              λ side e3 h5.
                on_ok
                  (on_null
                    (curve_swap_base_output (amount_out + fee_out) rs.reserve_in rs.reserve_out
                      (fee_rates_of ctx.config ctx.pool) side)
                    (fail zero_trading_tokens))
                  _ h5
                  λ c e4 h6.
                    on_pass (ltb u128_max (c.new_input_vault_amount * c.new_output_vault_amount)) _
                      _ h6
                      λ c3 h7. on_pass (ltb u64_max c.input_amount) _ _ h7 λ c4 h8.
                        on_pass (c.input_amount == 0) _ _ h8 λ c5 h9.
                          on_ok (get_transfer_inverse_fee ctx.input_mint ctx.epoch c.input_amount) _
                            h9
                            λ fee_in e5 h10.
                              on_pass (ltb u64_max (c.input_amount + fee_in)) _ _ h10 λ c6 h11.
                                on_pass (above_maximum maximum (c.input_amount + fee_in)) _ _ h11
                                  λ c7 h12.
                                    on_pass (not (c.output_amount == amount_out + fee_out)) _ _ h12
                                      λ c8 h13.
                                        on_pass
                                          (ltb
                                            (c.new_input_vault_amount * c.new_output_vault_amount)
                                            (rs.reserve_in * rs.reserve_out))
                                          _ _ h13
                                          λ c9 h14.
                                            on_pass
                                              (ltb u64_max
                                                (ctx.input_vault_amount + c.input_amount))
                                              _ _ h14
                                              λ c10 h15.
                                                on_pass
                                                  (ltb ctx.output_vault_amount
                                                    (amount_out + fee_out))
                                                  _ _ h15
                                                  λ c11 h16.
                                                    subst (OutputSwapRun ctx amount_out maximum)
                                                      (ok_inj h16)
                                                      (record {
                                                        fee_out_eq = e1;
                                                        curve_eq = on_null-eq-ok _ _ e4;
                                                        fee_in_eq = e5;
                                                        with_fee = refl;
                                                        with_fee_fits = ground arith;
                                                        input_eq = refl;
                                                        input_pos = ground arith;
                                                        sent = refl;
                                                        sent_fits = ground arith;
                                                        affordable = c7;
                                                        output_eq = ground arith;
                                                        before = refl;
                                                        after = refl;
                                                        vault_in = refl;
                                                        vault_out = ground arith;
                                                      })

-- Where every unit of an exact-output swap goes.
pub record IsDelivered (ctx : SwapContext) (amount_out : ℕ) (maximum : Option ℕ)
    (s : SwapBaseOutputOk) : Type 0 where
  -- the fee that Token-2022 withholds from what the vault sends leaves exactly `amount_out`
  pub delivered :
      get_transfer_fee ctx.output_mint ctx.epoch (amount_out + s.out_transfer_fee)
      ≡ ok s.out_transfer_fee
  -- and what it withholds from the user's transfer leaves exactly the curve's input
  pub credited :
      get_transfer_fee ctx.input_mint ctx.epoch s.input_transfer_amount ≡ ok s.input_transfer_fee
  pub sent :
      s.input_transfer_amount
      ≡ s.curve.input_amount_less_fees
        + s.curve.trade_fee
        + taken s.is_creator_fee_on_input s.curve.creator_fee
        + s.input_transfer_fee
  pub received :
      s.curve.output_amount_swapped
      ≡ amount_out + s.out_transfer_fee + not_taken s.is_creator_fee_on_input s.curve.creator_fee
  pub affordable : above_maximum maximum s.input_transfer_amount ≡ false
  pub vault_in :
      s.vault_in_after + s.input_transfer_fee ≡ ctx.input_vault_amount + s.input_transfer_amount
  pub vault_out : s.vault_out_after + amount_out + s.out_transfer_fee ≡ ctx.output_vault_amount
  pub product : s.constant_before ≤ s.constant_after

-- An exact-output swap that succeeds delivers the requested amount to the user, net of the transfer
-- fee on it; the vault is credited the curve's input, net of the fee on that; the user sends at most
-- the maximum; every unit on both sides is accounted for, and the product of the reserves does not
-- fall.
pub simulate_swap_base_output-IsDelivered :
    (ctx : SwapContext) (amount_out : ℕ) (maximum : Option ℕ) (s : SwapBaseOutputOk)
    → simulate_swap_base_output ctx (pos amount_out) maximum ≡ ok s
    → IsDelivered ctx amount_out maximum s
simulate_swap_base_output-IsDelivered ctx amount_out maximum s h =
    let run = output_swap_run ctx amount_out maximum h in
    let fair = run-IsFairOutput (
      output_run s.amount_out_with_transfer_fee s.reserve_in s.reserve_out
        (fee_rates_of ctx.config ctx.pool) s.is_creator_fee_on_input run.curve_eq) in
    record {
      delivered =
          get_transfer_inverse_fee-exact ctx.output_mint ctx.epoch amount_out s.out_transfer_fee
            (omega (arith, run.with_fee, run.with_fee_fits)) run.fee_out_eq;
      credited =
          subst (λ n. get_transfer_fee ctx.input_mint ctx.epoch n ≡ ok s.input_transfer_fee)
            (sym run.sent)
            (get_transfer_inverse_fee-exact ctx.input_mint ctx.epoch s.input_amount
              s.input_transfer_fee (omega (arith, run.sent, run.sent_fits)) run.fee_in_eq);
      sent = omega (arith, run.sent, run.input_eq, fair.paid);
      received = omega (arith, run.with_fee, run.output_eq, fair.received);
      affordable = run.affordable;
      vault_in = omega (arith, run.sent, run.vault_in);
      vault_out = omega (arith, run.vault_out, run.with_fee);
      product = rw (run.before, run.after) fair.product;
    }
