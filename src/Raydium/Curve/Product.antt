-- ===== src/Raydium/Curve/Product.antt =====
-- The constant-product curve of src/adapters/raydium_cpmm/math.ts, in isolation.
use atomarb.Common.{
  ℕ, ◌+◌, ◌-◌, ◌*◌, ◌/◌, ◌%◌, ◌≤◌, ◌<◌, ◌≡◌, ◌↔◌, ok, arith, ap, ◌==◌, ==_iff, false, inl, inr,
  Bool-cases,
}
use atomarb.Common.Div.{
  div_bounds, le_of_mul_lt, le_of_mul_le, lt_of_mul_lt, mul_mono_l, mul_mono_r, mul_sub,
}
use atomarb.Raydium.Curve.{
  swap_base_input_without_fees, swap_base_output_without_fees, ceil_quotient,
}

-- The output is the exact quotient rounded down, and the pool plus the input is not empty.
pub input_bounds :
    (dx x y out : ℕ)
    → swap_base_input_without_fees dx x y ≡ ok out
    → (out * (x + dx) ≤ dx * y) × (dx * y < out * (x + dx) + (x + dx)) × (0 < x + dx)
unfolding swap_base_input_without_fees
input_bounds dx x y out h = ground (arith, div_bounds (dx * y) (x + dx))

quotient_and_rest : (n d : ℕ) → 0 < d → (n / d * d + n % d ≡ n) × (n % d < d)
quotient_and_rest n d h = grind arith

ne_zero : (n : ℕ) → (n == 0) ≡ false → 0 < n
ne_zero n h = ground arith

pub ceil_quotient_bounds :
    (n d : ℕ) → 0 < d → (n ≤ ceil_quotient n d * d) × (ceil_quotient n d * d < n + d)
unfolding ceil_quotient
ceil_quotient_bounds n d h = elim (Bool-cases (n % d == 0)) [
  | inl exact ↦ rw exact (omega (arith, quotient_and_rest n d h, (==_iff (n % d) 0).0 exact))
  | inr rest ↦ rw rest (omega (arith, quotient_and_rest n d h, ne_zero (n % d) rest))
]

pub output_bounds :
    (dy x y q : ℕ)
    → swap_base_output_without_fees dy x y ≡ ok q
    → (dy < y) × (x * dy ≤ q * (y - dy)) × (q * (y - dy) < x * dy + (y - dy))
unfolding swap_base_output_without_fees
output_bounds dy x y q h = ground (arith, ceil_quotient_bounds (x * dy) (y - dy))

pub out_le : (dx x y out : ℕ) → swap_base_input_without_fees dx x y ≡ ok out → out ≤ y
out_le dx x y out h =
    let (lo, _, p) = input_bounds dx x y out h in
    le_of_mul_le out y (x + dx) p (omega (arith, mul_mono_l dx (x + dx) y (omega arith)))

-- A pool with something on both sides is never emptied.
pub out_lt :
    (dx x y out : ℕ) → 0 < x → 0 < y → swap_base_input_without_fees dx x y ≡ ok out → out < y
out_lt dx x y out px py h =
    let (lo, _, p) = input_bounds dx x y out h in lt_of_mul_lt out y (x + dx) (grind arith)

-- The product of the reserves does not fall.
pub product_grows :
    (dx x y out : ℕ) → swap_base_input_without_fees dx x y ≡ ok out → x * y ≤ (x + dx) * (y - out)
product_grows dx x y out h =
    let (lo, _, _) = input_bounds dx x y out h in
    omega (arith, mul_sub (x + dx) out y (out_le dx x y out h))

-- A larger input gives at least as much.
pub out_mono :
    (dx dx' x y out out' : ℕ)
    → dx ≤ dx'
    → swap_base_input_without_fees dx x y ≡ ok out
    → swap_base_input_without_fees dx' x y ≡ ok out'
    → out ≤ out'
out_mono dx dx' x y out out' le h k =
    let (lo, _, _) = input_bounds dx x y out h in
    let (_, hi, _) = input_bounds dx' x y out' k in
    let bound : out ≤ y = out_le dx x y out h in
    le_of_mul_lt out out' (x + dx') (
      omega
        (arith, mul_mono_r dx dx' (y - out) le, mul_sub dx out y bound, mul_sub dx' out y bound))

-- `swap_base_output_without_fees` is the exact inverse: it names the least input that buys `dy`.
pub output-input_iff :
    (dy dx x y q got : ℕ)
    → swap_base_output_without_fees dy x y ≡ ok q
    → swap_base_input_without_fees dx x y ≡ ok got
    → (dy ≤ got) ↔ (q ≤ dx)
output-input_iff dy dx x y q got h k =
    let (lt, lo, hi) = output_bounds dy x y q h in
    let (lo', hi', _) = input_bounds dx x y got k in
    (
      λ le.
          le_of_mul_lt q dx (y - dy)
            (omega (arith, mul_sub dx dy y (omega arith), mul_mono_l dy got (x + dx) le)),
      λ le.
          le_of_mul_lt dy got (x + dx)
            (omega (arith, mul_sub dx dy y (omega arith), mul_mono_l q dx (y - dy) le)),
    )

-- Selling what was bought, at the reserves that the purchase left, returns at most what was paid.
pub reverse_trade_le :
    (dx x y out back : ℕ)
    → 0 < y
    → swap_base_input_without_fees dx x y ≡ ok out
    → swap_base_input_without_fees out (y - out) (x + dx) ≡ ok back
    → back ≤ dx
reverse_trade_le dx x y out back p h k =
    let (lo, _, _) = input_bounds dx x y out h in
    let (lo', _, _) = input_bounds out (y - out) (x + dx) back k in
    let e : y - out + out ≡ y = omega (arith, out_le dx x y out h) in
    le_of_mul_le back dx y p (omega (arith, ap (λ (t : ℕ). back * t) e))
