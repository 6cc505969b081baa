-- ===== src/Accounting/Scenarios.antt =====
-- `failureScenarios` and `breakEvenLandingRate` of src/accounting/pnl.ts.
use atomarb.Common.{
  ℕ, ◌+◌, ◌-◌, ◌*◌, ◌/◌, ◌≤◌, ◌<◌, ◌≡◌, refl, false, ◌||◌, Option, none, some, List, map,
  if◌then◌else◌, arith,
}
use atomarb.Common.Int.{
  ℤ, pos, negsuc, pos_part, ◌+ℤ◌, ◌-ℤ◌, ◌*ℤ◌, ◌≤ℤ◌, ◌<ℤ◌, div_trunc, ltb_ℤ, leb_ℤ, int_laws,
  lt→ltb_ℤ,
}
use atomarb.Common.Div.{ceil_bounds, div_bounds, le_of_mul_lt, lt_of_mul_lt}
use atomarb.Bigint.{IsCeil}

pub record FailureScenario : Type 0 where
  pub landing_rate : ℕ
  pub expected_net_per_attempt : ℤ
  pub attempts_to_break_even : Option ℤ

-- `(pnlIfLanded * BigInt(Math.round(r * 1e6))) / 1_000_000n`
unfoldable pub scaled : ℤ → ℕ → ℤ
scaled pnl rate = div_trunc (pnl *ℤ pos rate) 1_000_000

unfoldable pub attempts : ℤ → ℤ → Option ℤ
attempts cost net =
    if ltb_ℤ (pos 0) net then some (div_trunc (cost +ℤ net -ℤ pos 1) (pos_part net)) else none

unfoldable pub failure_scenario : ℤ → ℤ → ℕ → FailureScenario
unfolding scaled attempts
failure_scenario pnl cost rate = record {
  landing_rate = rate;
  expected_net_per_attempt = scaled pnl rate -ℤ cost;
  attempts_to_break_even = attempts cost (scaled pnl rate -ℤ cost);
}

unfoldable pub failure_scenarios : ℤ → ℤ → List ℕ → List FailureScenario
unfolding failure_scenario
failure_scenarios pnl cost rates = map (failure_scenario pnl cost) rates

-- In millionths.
unfoldable pub break_even_landing_rate : ℤ → ℤ → Option ℤ
break_even_landing_rate pnl cost =
    if leb_ℤ pnl (pos 0) || leb_ℤ pnl cost
    then none
    else some (div_trunc (cost *ℤ pos 1_000_000) (pos_part pnl))

div_pos : (a d : ℕ) → div_trunc (pos a) d ≡ pos (a / d)
unfolding div_trunc
div_pos a d = ground arith

mul_pos : (a b : ℕ) → pos a *ℤ pos b ≡ pos (a * b)
unfolding ◌*ℤ◌
mul_pos a b = ground arith

sum_less_one : (c m : ℕ) → 0 < m → pos c +ℤ pos m -ℤ pos 1 ≡ pos (c + m - 1)
sum_less_one c m h = omega int_laws

not_pos : (m : ℕ) → ¬ (pos 0 <ℤ negsuc m)
not_pos m = omega arith

attempts-IsCeil :
    (c : ℕ) (net : ℤ)
    → pos 0 <ℤ net
    → (n : ℕ) × (attempts (pos c) net ≡ some (pos n)) × IsCeil c (pos_part net) n
unfolding attempts
attempts-IsCeil c (pos m) h =
    let (l, u) = ceil_bounds c m (omega (arith, h)) in
    (
      (c + m - 1) / m,
      rw (lt→ltb_ℤ (pos 0) (pos m) h, sum_less_one c m (omega (arith, h)), div_pos (c + m - 1) m)
          refl,
      record { reaches = l; below = u },
    )
attempts-IsCeil c (negsuc m) h = absurd (not_pos m h)

-- With an expected net that is positive and a cost that is not negative, the number of attempts is the
-- least whose net sum covers the cost of one.
pub failure_scenario-attempts_lem :
    (pnl : ℤ) (c rate : ℕ)
    → let s = failure_scenario pnl (pos c) rate in
      pos 0 <ℤ s.expected_net_per_attempt
      → (n : ℕ) × (s.attempts_to_break_even ≡ some (pos n))
        × IsCeil c (pos_part s.expected_net_per_attempt) n
unfolding failure_scenario
failure_scenario-attempts_lem pnl c rate h = attempts-IsCeil c (scaled pnl rate -ℤ pos c) h

scaled_pos : (p rate : ℕ) → scaled (pos p) rate ≡ pos (p * rate / 1_000_000)
unfolding scaled
scaled_pos p rate = rw (mul_pos p rate) (div_pos (p * rate) 1_000_000)

break_even_value :
    (p c : ℕ) → c < p → break_even_landing_rate (pos p) (pos c) ≡ some (pos (c * 1_000_000 / p))
unfolding break_even_landing_rate
break_even_value p c h =
    let t : (leb_ℤ (pos p) (pos 0) || leb_ℤ (pos p) (pos c)) ≡ false = ground arith in
    rw (t, mul_pos c 1_000_000, div_pos (c * 1_000_000) p) refl

-- At the rate itself the share of the profit is at most the cost, and one millionth above, at least.
at_rate : (p c : ℕ) → c < p → p * (c * 1_000_000 / p) / 1_000_000 ≤ c
at_rate p c h = le_of_mul_lt (p * (c * 1_000_000 / p) / 1_000_000) c 1_000_000 (
    omega (
      arith,
      div_bounds (c * 1_000_000) p (omega arith),
      div_bounds (p * (c * 1_000_000 / p)) 1_000_000 (omega arith),
    ))

above_rate : (p c : ℕ) → c < p → c ≤ p * (c * 1_000_000 / p + 1) / 1_000_000
above_rate p c h = le_of_mul_lt c (p * (c * 1_000_000 / p + 1) / 1_000_000) 1_000_000 (
    omega (
      arith,
      div_bounds (c * 1_000_000) p (omega arith),
      div_bounds (p * (c * 1_000_000 / p + 1)) 1_000_000 (omega arith),
    ))

-- For a profit above the cost there is a break-even rate below 100%, and it is exact to a millionth:
-- at that rate an attempt is expected to gain nothing or less, and at the next one nothing or more.
pub break_even_landing_rate-failure_scenario :
    (p c : ℕ)
    → c < p
    → (b : ℕ) × (break_even_landing_rate (pos p) (pos c) ≡ some (pos b))
      × (b < 1_000_000)
      × ((failure_scenario (pos p) (pos c) b).expected_net_per_attempt ≤ℤ pos 0)
      × (pos 0 ≤ℤ (failure_scenario (pos p) (pos c) (b + 1)).expected_net_per_attempt)
unfolding failure_scenario
break_even_landing_rate-failure_scenario p c h =
    let b = c * 1_000_000 / p in
    (
      b,
      break_even_value p c h,
      below_one p c h,
      rw (scaled_pos p b) (omega (int_laws, at_rate p c h)),
      rw (scaled_pos p (b + 1)) (omega (int_laws, above_rate p c h)),
    )
  where
    below_one : (p c : ℕ) → c < p → c * 1_000_000 / p < 1_000_000
    below_one p c h =
        lt_of_mul_lt (c * 1_000_000 / p) 1_000_000 p
          (omega (arith, div_bounds (c * 1_000_000) p (omega arith)))
