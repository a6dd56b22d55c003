-- ===== src/Util/Width.antt =====
-- The functions of the standard header <bit> that the compiler calls: `std::bit_width`,
-- `std::bit_ceil` and `std::popcount`.
use native.Mathlib.Nat.{pow-suc}
use thorin.Prelude.{ℕ, zero, suc, ◌+◌, ◌-◌, ◌*◌, ◌/◌, ◌%◌, ◌^◌, ◌≤◌, ◌<◌, arith}

-- The digits of `n`, with `n` itself as the fuel: a number has at most that many.
width_fuel : ℕ → ℕ → ℕ
width_fuel zero n = 0
width_fuel (suc f) zero = 0
width_fuel (suc f) (suc n) = suc (width_fuel f (suc n / 2))

unfoldable pub bit_width : ℕ → ℕ
unfolding width_fuel
bit_width n = width_fuel n n

unfoldable pub bit_ceil : ℕ → ℕ
bit_ceil n = 2 ^ bit_width (n - 1)

popcount_fuel : ℕ → ℕ → ℕ
popcount_fuel zero n = 0
popcount_fuel (suc f) n = n % 2 + popcount_fuel f (n / 2)

-- Of a 64-bit word.
unfoldable pub popcount : ℕ → ℕ
unfolding popcount_fuel
popcount n = popcount_fuel 64 n

width_fuel-lt : (f n : ℕ) → n ≤ f → n < 2 ^ width_fuel f n
unfolding width_fuel
width_fuel-lt zero zero h = omega arith
width_fuel-lt zero (suc n) h = absurd (omega arith)
width_fuel-lt (suc f) zero h = omega arith
width_fuel-lt (suc f) (suc n) h =
    omega (arith, pow-suc 2 (width_fuel f (suc n / 2)), width_fuel-lt f (suc n / 2) (omega arith))

width_fuel-le : (f n : ℕ) → n ≤ f → 0 < n → 2 ^ width_fuel f n ≤ 2 * n
unfolding width_fuel
width_fuel-le zero n h p = absurd (omega arith)
width_fuel-le (suc f) zero h p = absurd (omega arith)
width_fuel-le (suc f) (suc zero) h p = omega (arith, width_fuel-le_zero f)
  where
    width_fuel-le_zero : (f : ℕ) → 2 ^ suc (width_fuel f (1 / 2)) ≤ 2
    width_fuel-le_zero zero = omega arith
    width_fuel-le_zero (suc f) = omega arith
width_fuel-le (suc f) (suc (suc n)) h p = omega (
  arith,
  pow-suc 2 (width_fuel f (suc (suc n) / 2)),
  width_fuel-le f (suc (suc n) / 2) (omega arith) (omega arith),
)

pub lt-bit_width : (n : ℕ) → n < 2 ^ bit_width n
unfolding bit_width
lt-bit_width n = width_fuel-lt n n (omega arith)

-- The width is the least: a power below it is too small.
pub bit_width-le : (n : ℕ) → 0 < n → 2 ^ bit_width n ≤ 2 * n
unfolding bit_width
bit_width-le n p = width_fuel-le n n (omega arith) p

pub le-bit_ceil : (n : ℕ) → n ≤ bit_ceil n
unfolding bit_ceil
le-bit_ceil n = omega (arith, lt-bit_width (n - 1))
