-- ===== src/Raydium/Adapter/Tests.antt =====
-- A pool with every kind of fee, a quote on it and the pool after it, and the theorems of the adapter's
-- modules at them. The concrete platform stands for the libraries'.
use atomarb.Common.{
  creator_fee_enabled, transfer_fee_active, ◌+◌, ◌≡◌, refl, true, none, some, [], ◌∷◌, ok, arith,
}
use atomarb.Common.Int.{◌-ℤ◌, pos}
use atomarb.Raydium.Layout.{PoolState}
use atomarb.Raydium.Params.{RaydiumCpmmParams}
use atomarb.Raydium.TransferFee.{spl_token, token_2022}
use atomarb.Raydium.Tests.{raydium, pool, config, tier}
use atomarb.Adapter.{raydium_cpmm, of_raydium, DecodedPool, Quote}
use atomarb.Adapter.Accounts.{MintInfo, TokenAccountInfo}
use atomarb.Raydium.Decode.{is_swap_enabled}
use atomarb.Raydium.Pool.{vault_amount_without_fee, apply_fee_update}
use atomarb.Raydium.Adapter.Validated.{IsTradable, validate_pool-quote_exact_in}
use atomarb.Raydium.Adapter.{transfer_fee_view, view_of, Sides}
use atomarb.Raydium.TransferFee.{epoch_fee_tier}
use atomarb.Raydium.Swap.{simulate_swap_base_input}
use atomarb.Adapter.{ValidationResult}
use atomarb.Raydium.Adapter.Validate.{
  validate_pool, same_program, all_allowed, account_checks, open_checks, gate_checks, mint_checks,
  value_checks, reject_checks, fee_warnings, is_some, mint_warnings, pool_warnings, result_of,
  failing, is_empty,
}
use atomarb.Raydium.Adapter.Decode.{on_throw}
use atomarb.Raydium.Adapter.Quote.{
  gate, gated, quote_of, accepted, rejected, fee_items, creator_item, transfer_item, quote_exact_in,
}
use atomarb.Raydium.Adapter.Apply.{differs, moved, settled, apply_swap}
use atomarb.Raydium.Adapter.Runs.{IsHeld}
use atomarb.Raydium.Adapter.Moves.{IsMoved, apply_swap-IsMoved}
use atomarb.Raydium.Adapter.Conserve.{QuoteRun, IsExact, quote_exact_in-IsExact}
use atomarb.Snapshot.{Platform}
use atomarb.Raydium.Adapter.{
  has_key, distinct_from, distinct, program_id_of, accounts_needed, or_parsed, now_of, sides_of,
  swap_context, params_of, RaydiumCpmmAdapter,
}

abbrev pub platform : Platform
platform = record {
  wsol_mint = 6;
  token_programs = record { token_program_id = 8; token_2022_program_id = 9 };
  associated_token_address = λ owner mint program. owner + mint + program;
  unix_seconds = λ utc. some (pos utc);
  sha256_hex = λ parts. "snapshot";
}

abbrev pub adapter : RaydiumCpmmAdapter
adapter = record {
  platform = platform;
  program_id = 50;
  epoch_schedule = record {
    slots_per_epoch = 432_000;
    first_normal_epoch = 0;
    first_normal_slot = 0;
  };
  authority = 51;
  authority_bump = 254;
  pool_vault_pda = λ pool mint. pool + mint;
  hash_json = λ applied. "applied";
}

abbrev pub mint_0 : MintInfo
mint_0 = record {
  mint = 6;
  program = spl_token;
  decimals = 9;
  supply = 1_000_000;
  freeze_authority = none;
  mint_authority = none;
  extensions = [];
  transfer_fee = none;
  transfer_fee_older = none;
}

abbrev mint_1 : MintInfo
mint_1 = record mint_0 {
  mint = 7;
  program = token_2022;
  decimals = 6;
  extensions = 1 ∷ [];
  transfer_fee = some tier;
  transfer_fee_older = some tier;
}

abbrev vault_0 : TokenAccountInfo
vault_0 = record {
  address = 66;
  program = spl_token;
  mint = 6;
  owner = 51;
  amount = 1_000_135;
  state = 1;
  extensions = [];
}

abbrev vault_1 : TokenAccountInfo
vault_1 = record vault_0 { address = 67; program = token_2022; mint = 7; amount = 2_000_246 }

abbrev params : RaydiumCpmmParams
params = record {
  pool = pool;
  config = config;
  pool_owner = 50;
  config_owner = 50;
  config_address = 1;
  authority = 51;
  authority_bump = 254;
  epoch = 700;
  now_unix = none;
  transfer_fee_0 = none;
  transfer_fee_1 = some (record { older = tier; newer = tier });
}

abbrev pub before : DecodedPool
before = record {
  adapter = raydium_cpmm;
  address = 60;
  program_id = 50;
  mint_a = mint_0;
  mint_b = mint_1;
  vault_a = vault_0;
  vault_b = vault_1;
  reserve_a = 1_000_000;
  reserve_b = 2_000_000;
  params = of_raydium params;
  depends_on = 60 ∷ 1 ∷ 66 ∷ 67 ∷ 6 ∷ 7 ∷ [];
  state_hash = "snapshot";
  snapshot = record {
    min_slot = 302_400_000;
    max_slot = 302_400_001;
    single_batch = true;
    batch_ids = 1 ∷ [];
    received_at_utc = 1_700_000_000;
  };
}

abbrev quoted : Quote
quoted = record {
  adapter = raydium_cpmm;
  pool = 60;
  input_mint = 6;
  output_mint = 7;
  amount_in = pos 10_000;
  amount_out_to_user = pos 19_545;
  vault_in_delta = pos 10_000;
  vault_out_delta = pos 19_743;
  fees =
      record { name = "lp_fee"; amount = pos 21; mint = 6; recipient = "lp" }
      ∷ record { name = "protocol_fee"; amount = pos 3; mint = 6; recipient = "protocol" }
      ∷ record { name = "fund_fee"; amount = pos 1; mint = 6; recipient = "fund" }
      ∷ record { name = "creator_fee"; amount = pos 5; mint = 6; recipient = "creator" }
      ∷ record {
        name = "token2022_transfer_fee_out";
        amount = pos 198;
        mint = 7;
        recipient = "token2022_transfer_fee";
      }
      ∷ [];
  accounts_needed = 51 ∷ 1 ∷ 60 ∷ 66 ∷ 67 ∷ 8 ∷ 9 ∷ 6 ∷ 7 ∷ 10 ∷ [];
  state_hash = "snapshot";
  min_slot = 302_400_000;
  max_slot = 302_400_001;
  reject_reasons = [];
}

-- What the pool owes has grown by the fees of the swap.
abbrev pool_after : PoolState
pool_after = record pool {
  protocol_fees_token_0 = 103;
  fund_fees_token_0 = 31;
  creator_fees_token_0 = 10;
}

abbrev after : DecodedPool
after = record before {
  vault_a = record vault_0 { amount = 1_010_135 };
  vault_b = record vault_1 { amount = 1_980_503 };
  reserve_a = 1_009_991;
  reserve_b = 1_980_257;
  params = of_raydium (record params { pool = pool_after });
  state_hash = "applied";
}

-- What a test computes through.
swapping : Unit {0}
unfolding raydium params_of swap_context sides_of now_of or_parsed is_swap_enabled failing gate
    gated quote_of accepted rejected fee_items creator_item transfer_item accounts_needed
    program_id_of distinct distinct_from has_key quote_exact_in ◌-ℤ◌ is_empty differs on_throw
    apply_fee_update moved settled apply_swap
swapping = tt

quoted_eq : quote_exact_in adapter before 6 (pos 10_000) ≡ ok quoted
unfolding swapping
quoted_eq = refl

after_eq : apply_swap adapter before quoted ≡ ok after
unfolding swapping
after_eq = refl

params_eq : params_of before.params ≡ ok params
unfolding params_of
params_eq = refl

reserves_eq :
    vault_amount_without_fee pool 1_000_135 2_000_246
    ≡ ok (record { reserve_0 = 1_000_000; reserve_1 = 2_000_000; fees_0 = 135; fees_1 = 246 })
unfolding swapping
reserves_eq = refl

abbrev held : IsHeld before
held = record {
  params = params;
  fees = record { reserve_0 = 1_000_000; reserve_1 = 2_000_000; fees_0 = 135; fees_1 = 246 };
  params_eq = params_eq;
  reserves_eq = reserves_eq;
  held_a = refl;
  held_b = refl;
}

apply_swap-IsMoved_example : IsMoved adapter before quoted after
apply_swap-IsMoved_example =
    apply_swap-IsMoved adapter before quoted after held (omega arith) (omega arith) (omega arith)
      after_eq

quote_exact_in-IsExact_example :
    (run : QuoteRun adapter before 6 (pos 10_000) quoted) × IsExact quoted run.swap
quote_exact_in-IsExact_example =
    quote_exact_in-IsExact adapter before 6 (pos 10_000) quoted (omega arith) quoted_eq refl

abbrev validated : ValidationResult
validated = record {
  is_ok = true;
  rejects = [];
  warnings = transfer_fee_active ∷ creator_fee_enabled ∷ [];
}

validated_eq : validate_pool adapter before ≡ ok validated
unfolding swapping validate_pool same_program all_allowed account_checks open_checks gate_checks
    mint_checks value_checks reject_checks fee_warnings is_some mint_warnings pool_warnings
    result_of transfer_fee_view view_of epoch_fee_tier
validated_eq = refl

validate_pool-quote_exact_in_example :
    IsTradable adapter params before
    × ((s : Sides) × (swap_context params before 6 ≡ ok s)
        × (quote_of adapter params before s
              (pos 10_000)
              (simulate_swap_base_input s.ctx (pos 10_000) none)
            ≡ ok quoted))
    × (quoted.reject_reasons ≡ [] → (e : DecodedPool) × (apply_swap adapter before quoted ≡ ok e))
validate_pool-quote_exact_in_example =
    validate_pool-quote_exact_in adapter before 6 (pos 10_000) validated params quoted params_eq
      (omega arith) (omega arith) validated_eq refl quoted_eq
