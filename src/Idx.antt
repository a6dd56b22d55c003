-- ===== src/Idx.antt =====
-- The sizes of `.Idx` and bit widths, in thorin/def.h.
use native.Mathlib.Decide.{dec_lt}
use native.Mathlib.Nat.{pow-le-pow_right, pow-suc}
use thorin.Prelude.{ℕ, suc, ◌-◌, ◌^◌, ◌≤◌, ◌<◌, ◌≡◌, arith, ◌==◌, if◌then◌else◌}
use thorin.Util.Width.{bit_width, lt-bit_width, bit_width-le}

-- The width is not 0, and a shift by it stays within the word.
unfoldable pub bitwidth2size : ℕ → ℕ
bitwidth2size n = if n == 64 then 0 else 2 ^ n

unfoldable pub size2bitwidth : ℕ → ℕ
size2bitwidth n = if n == 0 then 64 else bit_width (n - 1)

pub pow-lt_pow : (a b : ℕ) → 2 ^ a < 2 ^ b → a < b
pow-lt_pow a b h = elim (dec_lt a b) [
  | yes p ↦ p
  | no p ↦
      absurd (omega (arith, pow-le-pow_right {n = 2} (omega arith) {i = b} {j = a} (omega arith)))
]

bit_width-ones : (n : ℕ) → 0 < n → bit_width (2 ^ n - 1) ≡ n
bit_width-ones n pos =
    let big : 2 ^ 1 ≤ 2 ^ n =
      pow-le-pow_right {n = 2} (omega arith) {i = 1} {j = n} (omega arith) in
    let w = bit_width (2 ^ n - 1) in
    let low = lt-bit_width (2 ^ n - 1) in
    let high = bit_width-le (2 ^ n - 1) (omega (arith, big)) in
    let upper : w < suc n = pow-lt_pow w (suc n) (omega (arith, high, pow-suc 2 n, big)) in
    let lower : n < suc w = pow-lt_pow n (suc w) (omega (arith, low, pow-suc 2 w, big)) in
    omega (arith, upper, lower)

-- For every width from 1 to 64 the size of the width has that width again, though the size of the
-- widest is written as 0.
pub size2bitwidth-bitwidth2size : (n : ℕ) → 0 < n → n ≤ 64 → size2bitwidth (bitwidth2size n) ≡ n
unfolding bitwidth2size size2bitwidth
size2bitwidth-bitwidth2size n pos le = ground (
  arith,
  bit_width-ones n pos,
  pow-le-pow_right {n = 2} (omega arith) {i = 1} {j = n} (omega arith),
)
