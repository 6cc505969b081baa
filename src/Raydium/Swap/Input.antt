-- ===== src/Raydium/Swap/Input.antt =====
-- What a successful `simulateSwapBaseInput` says: every amount of the result, and the checks passed.
use atomarb.Common.{
  ℕ, ◌+◌, ◌-◌, ◌*◌, ◌≤◌, ◌<◌, ◌≡◌, refl, false, Option, ok, fail, invalid_fee_model,
  zero_trading_tokens, arith, on_ok, on_pass, ok_inj, subst, on_null, on_null-eq-ok, u64_max,
  u128_max, ltb, ◌==◌, if◌then◌else◌,
}
use atomarb.Common.Int.{pos}
use atomarb.Raydium.Curve.{curve_swap_base_input}
use atomarb.Raydium.TransferFee.{get_transfer_fee}
use atomarb.Raydium.Pool.{is_creator_fee_on_input, fee_rates_of, adjust_creator_fee_rate}
use atomarb.Raydium.Swap.{
  SwapContext, reserves_for, SwapBaseInputOk, below_minimum, simulate_swap_base_input,
}

-- The calls that a successful simulation made, with its result `s`.
pub record SwapRun (ctx : SwapContext) (amount_in : ℕ) (minimum : Option ℕ) (s : SwapBaseInputOk)
    : Type 0 where
  pub reserves_eq :
      reserves_for ctx ≡ ok (record { reserve_in = s.reserve_in; reserve_out = s.reserve_out })
  pub side_eq :
      is_creator_fee_on_input ctx.pool.creator_fee_on ctx.direction ≡ ok s.is_creator_fee_on_input
  pub fee_in_eq : get_transfer_fee ctx.input_mint ctx.epoch amount_in ≡ ok s.transfer_fee_in
  pub curve_eq :
      curve_swap_base_input s.actual_amount_in s.reserve_in s.reserve_out
        (fee_rates_of ctx.config ctx.pool)
        s.is_creator_fee_on_input
      ≡ ok s.curve
  pub fee_out_eq : get_transfer_fee ctx.output_mint ctx.epoch s.amount_out ≡ ok s.transfer_fee_out
  pub rate : s.creator_fee_rate ≡ adjust_creator_fee_rate ctx.pool ctx.config.creator_fee_rate
  pub actual_pos : 0 < s.actual_amount_in
  pub sent : amount_in ≡ s.actual_amount_in + s.transfer_fee_in
  pub out_eq : s.amount_out ≡ s.curve.output_amount
  pub split : s.amount_out ≡ s.amount_received + s.transfer_fee_out
  pub received_pos : 0 < s.amount_received
  pub enough : below_minimum minimum s.amount_received ≡ false
  pub before : s.constant_before ≡ s.reserve_in * s.reserve_out
  pub after : s.constant_after ≡ s.curve.new_input_vault_amount * s.curve.new_output_vault_amount
  pub vault_in : s.vault_in_after ≡ ctx.input_vault_amount + s.actual_amount_in
  pub vault_out : s.vault_out_after + s.amount_out ≡ ctx.output_vault_amount
  pub in_fits : s.vault_in_after ≤ u64_max
  pub sent_fits : amount_in ≤ u64_max

pub swap_run :
    (ctx : SwapContext) (amount_in : ℕ) (minimum : Option ℕ) {s : SwapBaseInputOk}
    → simulate_swap_base_input ctx (pos amount_in) minimum ≡ ok s
    → SwapRun ctx amount_in minimum s
unfolding simulate_swap_base_input
swap_run ctx amount_in minimum h = on_pass (ltb u64_max amount_in) _ _ h λ c0 h0.
    on_ok (get_transfer_fee ctx.input_mint ctx.epoch amount_in) _ h0 λ fee_in e1 h1.
      on_pass ((if ltb fee_in amount_in then amount_in - fee_in else 0) == 0) _ _ h1 λ c1 h2.
        on_ok (reserves_for ctx) _ h2 λ rs e2 h3.
          on_pass (ltb u128_max (rs.reserve_in * rs.reserve_out)) _ _ h3 λ c2 h4.
            on_ok
              (on_null (is_creator_fee_on_input ctx.pool.creator_fee_on ctx.direction)
                (fail invalid_fee_model))
              _ h4
              λ side e3 h5.
                on_ok
                  (on_null
                    (curve_swap_base_input (if ltb fee_in amount_in then amount_in - fee_in else 0)
                      rs.reserve_in rs.reserve_out (fee_rates_of ctx.config ctx.pool) side)
                    (fail zero_trading_tokens))
                  _ h5
                  λ c e4 h6.
                    on_pass (ltb u128_max (c.new_input_vault_amount * c.new_output_vault_amount)) _
                      _ h6
                      λ c3 h7. on_pass (ltb u64_max c.output_amount) _ _ h7 λ c4 h8.
                        on_ok (get_transfer_fee ctx.output_mint ctx.epoch c.output_amount) _ h8
                          λ fee_out e5 h9. on_pass (ltb c.output_amount fee_out) _ _ h9 λ c5 h10.
                            on_pass (c.output_amount - fee_out == 0) _ _ h10 λ c6 h11.
                              on_pass (below_minimum minimum (c.output_amount - fee_out)) _ _ h11
                                λ c7 h12. on_pass (ltb u64_max c.protocol_fee) _ _ h12 λ c8 h13.
                                  on_pass (ltb u64_max c.fund_fee) _ _ h13 λ c9 h14.
                                    on_pass (ltb u64_max c.creator_fee) _ _ h14 λ c10 h15.
                                      on_pass
                                        (ltb (c.new_input_vault_amount * c.new_output_vault_amount)
                                          (rs.reserve_in * rs.reserve_out))
                                        _ _ h15
                                        λ c11 h16.
                                          on_pass
                                            (ltb u64_max (
                                              ctx.input_vault_amount
                                              + (if ltb fee_in amount_in
                                                  then amount_in - fee_in
                                                  else 0)))
                                            _ _ h16
                                            λ c12 h17.
                                              on_pass (ltb ctx.output_vault_amount c.output_amount)
                                                _ _ h17
                                                λ c13 h18.
                                                  subst (SwapRun ctx amount_in minimum) (ok_inj h18)
                                                    (record {
                                                      reserves_eq = e2;
                                                      side_eq = on_null-eq-ok _ _ e3;
                                                      fee_in_eq = e1;
                                                      curve_eq = on_null-eq-ok _ _ e4;
                                                      fee_out_eq = e5;
                                                      rate = refl;
                                                      actual_pos = ground arith;
                                                      sent = ground arith;
                                                      out_eq = refl;
                                                      split = ground arith;
                                                      received_pos = ground arith;
                                                      enough = c7;
                                                      before = refl;
                                                      after = refl;
                                                      vault_in = refl;
                                                      vault_out = ground arith;
                                                      in_fits = ground arith;
                                                      sent_fits = ground arith;
                                                    })
