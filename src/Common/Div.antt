-- ===== src/Common/Div.antt =====
-- Division of native numbers by a variable: the two bounds of a quotient, rounded down and up,
-- and the uniqueness and monotonicity that follow.
use atomarb.Common.{ℕ, ◌+◌, ◌-◌, ◌*◌, ◌/◌, ◌≤◌, ◌<◌, ◌≡◌, ap, arith}

-- The quotient rounded down.
pub div_bounds : (a b : ℕ) → 0 < b → ((a / b) * b ≤ a) × (a < (a / b) * b + b)
div_bounds a b h = grind arith

-- The quotient rounded up.
pub ceil_bounds : (a b : ℕ) → 0 < b → (a ≤ ((a + b - 1) / b) * b) × (((a + b - 1) / b) * b < a + b)
ceil_bounds a b h = omega (arith, div_bounds (a + b - 1) b h)

pub mul_mono_l : (a b c : ℕ) → a ≤ b → a * c ≤ b * c
mul_mono_l a b c h = grind arith

pub mul_mono_r : (a b c : ℕ) → a ≤ b → c * a ≤ c * b
mul_mono_r a b c h = grind arith

pub mul_mono : (a b c d : ℕ) → a ≤ b → c ≤ d → a * c ≤ b * d
mul_mono a b c d h k = omega (arith, mul_mono_l a b c h, mul_mono_r c d b k)

-- A number whose product stays below the next multiple is at most the quotient's bound.
pub le_of_mul_lt : (x y b : ℕ) → x * b < y * b + b → x ≤ y
le_of_mul_lt x y b h = grind arith

pub le_of_mul_le : (x y b : ℕ) → 0 < b → x * b ≤ y * b → x ≤ y
le_of_mul_le x y b p h = grind arith

pub lt_of_mul_lt : (x y b : ℕ) → x * b < y * b → x < y
lt_of_mul_lt x y b h = grind arith

sub_add : (r d : ℕ) → r ≤ d → d - r + r ≡ d
sub_add r d h = omega arith

-- Distribution over an exact difference.
pub mul_sub : (a r d : ℕ) → r ≤ d → a * (d - r) + a * r ≡ a * d
mul_sub a r d h = omega (arith, ap (λ (t : ℕ). a * t) (sub_add r d h))
