-- ===== src/Common/Outcome.antt =====
-- How a call of the engine ends: with a value, or by one of the exits that the source uses.
use mathlib.Core.Path.{◌≡◌, refl}
use mathlib.Core.Bool.{Bool, true, false}
use mathlib.Core.Option.{Option, none, some}

-- The `code` and `reject` strings of the source's failure objects (their `detail` texts are left out).
pub data Code : Type 0 where
  u64_overflow require_gt_violated require_eq_violated invalid_fee_model : Code
  zero_trading_tokens exceeded_slippage constant_product_decreased : Code
  u64_overflow_vault insufficient_vault math_overflow : Code
  invalid_input transfer_fee_calculate_not_match : Code
  negative_virtual_quote_reserves empty_pool zero_amount buy_exceeds_reserves : Code
  amount_too_small zero_out boost_real_reserve_cap unknown_layout : Code
  non_transferable paused default_frozen transfer_hook transfer_fee_invalid : Code
  freeze_authority_set pausable transfer_hook_no_program permanent_delegate : Code
  transfer_fee_charged pool_account_required wrong_owner accounts_missing vault_parse : Code
  mint_parse epoch_unknown pool_owner config_owner config_address vault_pda_mismatch : Code
  vault_owner auth_bump_differs vault_mint mint_address token_program_mismatch : Code
  vault_frozen swap_disabled now_unknown not_open quote_not_wsol token_2022_extension : Code
  transfer_fee_active transfer_fee_pending freeze_authority zero_reserve : Code
  decimals_mismatch fee_rate_invalid creator_fee_enabled padding_nonzero : Code
  config_padding_nonzero lp_ops_disabled mint_not_in_pool not_approved overflowed : Code
  state_hash_mismatch quote_rejected quote_state_mismatch direction_unknown : Code
  pool_owner_mismatch global_config_owner_mismatch fee_config_owner_mismatch : Code
  pool_pda_mismatch base_mint_mismatch quote_mint_mismatch quote_token_program : Code
  base_vault_address quote_vault_address base_vault_not_ata quote_vault_not_ata : Code
  base_vault_mint quote_vault_mint base_vault_owner quote_vault_owner : Code
  base_vault_program quote_vault_program base_vault_frozen quote_vault_frozen : Code
  reserve_mismatch buy_disabled sell_disabled fee_schedule_unknown boost_pool : Code
  noncanonical_with_coin_creator cashback_coin pool_short_layout lp_mint_pda_mismatch : Code
  same_mint_both_sides quote_pool_mismatch negative_reserve amount_not_u64 : Code
  user_accounts_not_ata zero_min_out pool_account_missing multi_batch_snapshot : Code

-- What is thrown: `OverflowError`, `RangeError`, or a plain `Error`. `out_of_fuel` is of the model alone: a
-- theorem shows that it never occurs.
pub data Thrown : Type 0 where
  overflow range division_by_zero negative_operand bad_fee_update empty_tiers bad_account : Thrown
  out_of_fuel not_this_adapter type_error epoch_warmup unknown_position ledger_invariant
        fractions_out_of_range circuit_mismatch leg_mismatch bad_key_count :
      Thrown

-- `null` returned, a failure object returned, or an exception thrown.
pub data Exit : Type 0 where
  null : Exit
  fail : Code → Exit
  throw : Thrown → Exit

pub data Result {ℓ} (V : Type ℓ) : Type ℓ where
  err : Exit → Result V
  ok : V → Result V

-- The next statement of the body, which sees the value of this one.
infixl 5 ◌>>◌ ◌>>=◌
abbrev pub ◌>>=◌ {ℓ κ} : {V : Type ℓ} {W : Type κ} → Result V → (V → Result W) → Result W
err e >>= rest = err e
ok v >>= rest = rest v

-- The next statement, after one with no value.
abbrev pub ◌>>◌ {ℓ} : {W : Type ℓ} → Result (Unit {0}) → Result W → Result W
first >> rest = first >>= λ _. rest

-- `if (c) return …` or `if (c) throw …`, before the rest of the body.
abbrev pub exit_if : Bool → Exit → Result (Unit {0})
exit_if true e = err e
exit_if false e = ok tt

-- `if (x === null) return null`, and the same with another exit.
abbrev pub or_exit {ℓ} : {A : Type ℓ} → Option A → Exit → Result A
or_exit none e = err e
or_exit (some a) e = ok a

abbrev pub or_null {ℓ} : {A : Type ℓ} → Option A → Result A
or_null o = or_exit o null

-- `const r = …; if (r === null) return fail(…)`: every other exit passes through.
abbrev pub on_null {ℓ} : {A : Type ℓ} → Result A → Exit → Result A
on_null (ok a) e = ok a
on_null (err null) e = err e
on_null (err (fail c)) e = err (fail c)
on_null (err (throw t)) e = err (throw t)

-- A bind that succeeded, taken apart: what follows may use the value and both equations.
pub on_ok {ℓ κ μ} :
    {A : Type ℓ} {B : Type κ} {P : Type μ} (m : Result A) (f : A → Result B) {b : B}
    → (m >>= f) ≡ ok b
    → ((a : A) → m ≡ ok a → f a ≡ ok b → P)
    → P
on_ok (ok a) f h k = k a refl h
on_ok (err e) f h k = cc

-- The same for a guard that was passed.
pub on_pass {κ μ} :
    {B : Type κ} {P : Type μ} (c : Bool) (e : Exit) (m : Result B) {b : B}
    → (exit_if c e >> m) ≡ ok b
    → (c ≡ false → m ≡ ok b → P)
    → P
on_pass true e m h k = cc
on_pass false e m h k = k refl h

pub or_exit-eq-ok {ℓ} :
    {A : Type ℓ} (o : Option A) (e : Exit) {a : A} → or_exit o e ≡ ok a → o ≡ some a
or_exit-eq-ok none e h = cc
or_exit-eq-ok (some a) e h = cc

pub on_null-eq-ok {ℓ} :
    {A : Type ℓ} (r : Result A) (e : Exit) {a : A} → on_null r e ≡ ok a → r ≡ ok a
on_null-eq-ok (ok a) e h = h
on_null-eq-ok (err null) e h = cc
on_null-eq-ok (err (fail c)) e h = cc
on_null-eq-ok (err (throw t)) e h = cc

pub ok_inj {ℓ} : {A : Type ℓ} {a b : A} → ok a ≡ ok b → a ≡ b
ok_inj h = cc

-- A call that returns no failure object: it gives a value, `null`, or an exception.
abbrev pub NeverFails {ℓ} : {A : Type ℓ} → Result A → Type ℓ
NeverFails r = (c : Code) → ¬ (r ≡ err (fail c))

pub >>=-NeverFails {ℓ} :
    {A B : Type ℓ} (m : Result A) (f : A → Result B)
    → NeverFails m
    → ((a : A) → NeverFails (f a))
    → NeverFails (m >>= f)
>>=-NeverFails (ok a) f h k c e = k a c e
>>=-NeverFails (err x) f h k c e = h c (cc)

pub ok-NeverFails {ℓ} : {A : Type ℓ} (a : A) → NeverFails (ok a)
ok-NeverFails a c e = cc

pub null_if-NeverFails {ℓ} :
    {B : Type ℓ} (t : Bool) (m : Result B) → NeverFails m → NeverFails (exit_if t null >> m)
null_if-NeverFails true m h c e = cc
null_if-NeverFails false m h c e = h c e

pub throw_if-NeverFails {ℓ} :
    {B : Type ℓ} (t : Bool) (x : Thrown) (m : Result B)
    → NeverFails m
    → NeverFails (exit_if t (throw x) >> m)
throw_if-NeverFails true x m h c e = cc
throw_if-NeverFails false x m h c e = h c e

-- A bind that failed with `c`, where the first part does not fail with it.
pub on_fail {ℓ κ μ} :
    {A : Type ℓ} {B : Type κ} {P : Type μ} (m : Result A) (f : A → Result B) {c : Code}
    → (m >>= f) ≡ err (fail c)
    → ¬ (m ≡ err (fail c))
    → ((a : A) → m ≡ ok a → f a ≡ err (fail c) → P)
    → P
on_fail (ok a) f h away k = k a refl h
on_fail (err x) f h away k = absurd (away (cc))

-- A guard with another exit.
pub on_other {κ μ} :
    {B : Type κ} {P : Type μ} (t : Bool) (e : Exit) (m : Result B) {c : Code}
    → (exit_if t e >> m) ≡ err (fail c)
    → ¬ (e ≡ fail c)
    → (t ≡ false → m ≡ err (fail c) → P)
    → P
on_other true e m h away k = absurd (away (cc))
on_other false e m h away k = k refl h

-- The handler of `null` fails with the handler's own code, or as the call does.
pub on_null-avoids {ℓ} :
    {A : Type ℓ} (r : Result A) (e : Exit) (c : Code)
    → ¬ (e ≡ fail c)
    → ¬ (r ≡ err (fail c))
    → ¬ (on_null r e ≡ err (fail c))
on_null-avoids (ok a) e c away h k = cc
on_null-avoids (err null) e c away h k = away (cc)
on_null-avoids (err (fail d)) e c away h k = h (cc)
on_null-avoids (err (throw t)) e c away h k = cc

-- A call that throws nothing: it gives a value or a failure object.
abbrev pub OnlyFails {ℓ} : {A : Type ℓ} → Result A → Type 0
OnlyFails (ok a) = Unit {0}
OnlyFails (err null) = ⊥
OnlyFails (err (fail c)) = Unit {0}
OnlyFails (err (throw t)) = ⊥

pub fail_if-OnlyFails {ℓ} :
    {B : Type ℓ} (t : Bool) (c : Code) (m : Result B)
    → OnlyFails m
    → OnlyFails (exit_if t (fail c) >> m)
fail_if-OnlyFails true c m h = tt
fail_if-OnlyFails false c m h = h

pub >>=-OnlyFails {ℓ κ} :
    {A : Type ℓ} {B : Type κ} (m : Result A) (f : A → Result B)
    → OnlyFails m
    → ((a : A) → m ≡ ok a → OnlyFails (f a))
    → OnlyFails (m >>= f)
>>=-OnlyFails (ok a) f h k = k a refl
>>=-OnlyFails (err null) f h k = h
>>=-OnlyFails (err (fail c)) f h k = tt
>>=-OnlyFails (err (throw t)) f h k = h
