-- ===== src/Prelude/Bits.antt =====
-- Single bits of a number, and the native bitwise operations bit by bit.
mod Step
use Step.{bit_and_step, bit_or_step, bit_xor_step}
use Prim.Native.Nat.{
  ℕ, zero, suc, ◌+◌, ◌-◌, ◌*◌, ◌/◌, ◌%◌, ◌^◌, ◌≤◌, ◌<◌, min, max, bit_and, bit_or, bit_xor,
  bit_and-bitwise, bit_or-bitwise,
}
use mathlib.Core.Path.{◌≡◌, refl, sym, ap, ap₂, ◌∙◌}
use mathlib.Core.Logic.{◌≢◌, ◌↔◌, ◌⊎◌, inl, inr}
use native.Mathlib.Nat.{
  pow-suc, pow-succ', one-le-pow, div-div-eq-div-mul, mod-lt, mod-add-div, add-mul-mod_self_left,
  mod-eq_of_lt,
}
use native.Mathlib.Omega.{arith}
use thorin.Prelude.Tests.{◌==◌, if◌then◌else◌, ltb}

-- Bit `i` of `a`.
unfoldable pub bit : ℕ → ℕ → ℕ
bit a zero = a % 2
bit a (suc i) = bit (a / 2) i

pub bit-lt : (a i : ℕ) → bit a i < 2
unfolding bit
bit-lt a zero = omega arith
bit-lt a (suc i) = bit-lt (a / 2) i

pub bit-zero : (i : ℕ) → bit 0 i ≡ 0
unfolding bit
bit-zero zero = refl
bit-zero (suc i) = bit-zero i

pub bit-bit_and : (a b i : ℕ) → bit (bit_and a b) i ≡ min (bit a i) (bit b i)
unfolding bit
bit-bit_and a b zero = omega (arith, bit_and_step a b)
bit-bit_and a b (suc i) =
    let e : bit_and a b / 2 ≡ bit_and (a / 2) (b / 2) = omega (arith, bit_and_step a b) in
    rw e (bit-bit_and (a / 2) (b / 2) i)

pub bit-bit_or : (a b i : ℕ) → bit (bit_or a b) i ≡ max (bit a i) (bit b i)
unfolding bit
bit-bit_or a b zero = omega (arith, bit_or_step a b)
bit-bit_or a b (suc i) =
    let e : bit_or a b / 2 ≡ bit_or (a / 2) (b / 2) = omega (arith, bit_or_step a b) in
    rw e (bit-bit_or (a / 2) (b / 2) i)

pub bit-bit_xor : (a b i : ℕ) → bit (bit_xor a b) i ≡ (bit a i + bit b i) % 2
unfolding bit
bit-bit_xor a b zero = omega (arith, bit_xor_step a b)
bit-bit_xor a b (suc i) =
    let e : bit_xor a b / 2 ≡ bit_xor (a / 2) (b / 2) = omega (arith, bit_xor_step a b) in
    rw e (bit-bit_xor (a / 2) (b / 2) i)

zero_of_lt_one : (a : ℕ) → a < 1 → a ≡ 0
zero_of_lt_one a h = omega arith

zero-bit_and : (x : ℕ) → bit_and 0 x ≡ 0
zero-bit_and x = bit_and-bitwise 0 x

bit_zero_fuel : (n a : ℕ) → a ≤ n → (bit_and a 0 ≡ 0) × (bit_or a 0 ≡ a)
bit_zero_fuel n zero h = (zero-bit_and 0, bit_or-bitwise 0 0)
bit_zero_fuel zero (suc a) h = absurd (omega arith)
bit_zero_fuel (suc n) (suc a) h =
    let ih = bit_zero_fuel n (suc a / 2) (omega arith) in
    (omega (arith, bit_and_step (suc a) 0, ih.0), omega (arith, bit_or_step (suc a) 0, ih.1))

pub bit_and-zero : (a : ℕ) → bit_and a 0 ≡ 0
bit_and-zero a = (bit_zero_fuel a a (omega arith)).0

pub bit_or-zero : (a : ℕ) → bit_or a 0 ≡ a
bit_or-zero a = (bit_zero_fuel a a (omega arith)).1

-- A number below `2 ^ n` has no bit from `n` on.
pub bit_beyond : (n a i : ℕ) → a < 2 ^ n → n ≤ i → bit a i ≡ 0
unfolding bit
bit_beyond zero a i h le = rw (zero_of_lt_one a h) (bit-zero i)
bit_beyond (suc n) a zero h le = absurd (omega arith)
bit_beyond (suc n) a (suc i) h le =
    bit_beyond n (a / 2) i (omega (arith, pow-suc 2 n)) (omega arith)

-- Numbers of `n` bits are equal when their bits are.
pub bit_ext : (n a b : ℕ) → a < 2 ^ n → b < 2 ^ n → ((i : ℕ) → i < n → bit a i ≡ bit b i) → a ≡ b
unfolding bit
bit_ext zero a b ha hb h = omega arith
bit_ext (suc n) a b ha hb h = omega (
  arith,
  h 0 (omega arith),
  bit_ext n (a / 2) (b / 2) (omega (arith, pow-suc 2 n)) (omega (arith, pow-suc 2 n))
      (λ i p. h (suc i) (omega arith)),
)

pub bit_and-lt : (n a b : ℕ) → a < 2 ^ n → bit_and a b < 2 ^ n
bit_and-lt zero a b h = rw (zero_of_lt_one a h) (omega (arith, zero-bit_and b))
bit_and-lt (suc n) a b h = omega (
  arith,
  pow-suc 2 n,
  bit_and_step a b,
  bit_and-lt n (a / 2) (b / 2) (omega (arith, pow-suc 2 n)),
)

pub bit_or-lt : (n a b : ℕ) → a < 2 ^ n → b < 2 ^ n → bit_or a b < 2 ^ n
bit_or-lt zero a b h k = rw (zero_of_lt_one a h, zero_of_lt_one b k) (omega arith)
bit_or-lt (suc n) a b h k = omega (
  arith,
  pow-suc 2 n,
  bit_or_step a b,
  bit_or-lt n (a / 2) (b / 2) (omega (arith, pow-suc 2 n)) (omega (arith, pow-suc 2 n)),
)

pub bit_xor-lt : (n a b : ℕ) → a < 2 ^ n → b < 2 ^ n → bit_xor a b < 2 ^ n
bit_xor-lt zero a b h k = rw (zero_of_lt_one a h, zero_of_lt_one b k) (omega arith)
bit_xor-lt (suc n) a b h k = omega (
  arith,
  pow-suc 2 n,
  bit_xor_step a b,
  bit_xor-lt n (a / 2) (b / 2) (omega (arith, pow-suc 2 n)) (omega (arith, pow-suc 2 n)),
)

pub bit-shr : (k a i : ℕ) → bit (a / 2 ^ k) i ≡ bit a (k + i)
unfolding bit
bit-shr zero a i =
    let e : a / 2 ^ 0 ≡ a = omega arith in let f : 0 + i ≡ i = omega arith in rw (e, f)
bit-shr (suc k) a i =
    let e : a / 2 ^ suc k ≡ a / 2 / 2 ^ k =
      ap (λ (t : ℕ). a / t) (pow-succ' 2 k) ∙ sym (div-div-eq-div-mul a 2 (2 ^ k)) in
    let f : suc k + i ≡ suc (k + i) = omega arith in rw (e, f) (bit-shr k (a / 2) i)

pub bit-shl : (k a i : ℕ) → bit (a * 2 ^ k) i ≡ (if ltb i k then 0 else bit a (i - k))
unfolding bit
bit-shl zero a i =
    let e : a * 2 ^ 0 ≡ a = omega arith in
    let f : i - 0 ≡ i = omega arith in rw (e, f) (ground arith)
bit-shl (suc k) a zero = ground (arith, ap (λ (t : ℕ). a * t) (pow-suc 2 k))
bit-shl (suc k) a (suc i) =
    let e : a * 2 ^ suc k / 2 ≡ a * 2 ^ k = omega (arith, ap (λ (t : ℕ). a * t) (pow-suc 2 k)) in
    let f : suc i - suc k ≡ i - k = omega arith in rw (e, f) (ground (arith, bit-shl k a i))

-- A remainder by an even number keeps the lowest digit.
pub mod_twice : (a m : ℕ) → 0 < m → a % (2 * m) ≡ 2 * (a / 2 % m) + a % 2
mod_twice a m pos =
    let r : ℕ = 2 * (a / 2 % m) + a % 2 in
    let lt : r < 2 * m = omega (arith, mod-lt (a / 2) pos) in
    let split : a ≡ r + 2 * m * (a / 2 / m) = omega (arith, mod-add-div (a / 2) m) in
    ap (λ (t : ℕ). t % (2 * m)) split
    ∙ add-mul-mod_self_left r (2 * m) (a / 2 / m)
    ∙ mod-eq_of_lt lt

mod-two_pow-suc : (a k : ℕ) → a % 2 ^ suc k ≡ 2 * (a / 2 % 2 ^ k) + a % 2
mod-two_pow-suc a k = rw (pow-succ' 2 k) (mod_twice a (2 ^ k) (one-le-pow k 2 (omega arith)))

pub bit-mod : (k a i : ℕ) → bit (a % 2 ^ k) i ≡ (if ltb i k then bit a i else 0)
unfolding bit
bit-mod zero a i = let e : a % 2 ^ 0 ≡ 0 = omega arith in rw (e, bit-zero i) (ground arith)
bit-mod (suc k) a zero = ground (arith, mod-two_pow-suc a k)
bit-mod (suc k) a (suc i) =
    let e : a % 2 ^ suc k / 2 ≡ a / 2 % 2 ^ k = omega (arith, mod-two_pow-suc a k) in
    rw e (ground (arith, bit-mod k (a / 2) i))

-- The complement in `n` bits.
pub bit-complement : (n a i : ℕ) → a < 2 ^ n → i < n → bit (2 ^ n - 1 - a) i ≡ 1 - bit a i
unfolding bit
bit-complement zero a i h lt = absurd (omega arith)
bit-complement (suc n) a zero h lt = omega (arith, pow-suc 2 n)
bit-complement (suc n) a (suc i) h lt =
    let e : (2 ^ suc n - 1 - a) / 2 ≡ 2 ^ n - 1 - a / 2 = omega (arith, pow-suc 2 n) in
    rw e (bit-complement n (a / 2) i (omega (arith, pow-suc 2 n)) (omega arith))

pub bit-two_pow : (k i : ℕ) → bit (2 ^ k) i ≡ (if k == i then 1 else 0)
unfolding bit
bit-two_pow zero zero = refl
bit-two_pow zero (suc i) = rw (bit-zero i) (ground arith)
bit-two_pow (suc k) zero = ground (arith, pow-suc 2 k)
bit-two_pow (suc k) (suc i) =
    let e : 2 ^ suc k / 2 ≡ 2 ^ k = omega (arith, pow-suc 2 k) in
    rw e (ground (arith, bit-two_pow k i))

-- A mask of `k` ones is the remainder by `2 ^ k`.
pub bit_and_mask : (k a : ℕ) → bit_and a (2 ^ k - 1) ≡ a % 2 ^ k
bit_and_mask zero a = omega (arith, bit_and-zero a)
bit_and_mask (suc k) a =
    let half : (2 ^ suc k - 1) / 2 ≡ 2 ^ k - 1 = omega (arith, pow-suc 2 k) in
    let odd : (2 ^ suc k - 1) % 2 ≡ 1 = omega (arith, pow-suc 2 k, one-le-pow k 2) in
    let step = bit_and_step a (2 ^ suc k - 1) in
    omega (arith, rw (half, odd) at step, bit_and_mask k (a / 2), mod-two_pow-suc a k)

-- `(q << k) | r` is a sum when `r` has `k` bits.
pub bit_or_sum : (k q r : ℕ) → r < 2 ^ k → bit_or (q * 2 ^ k) r ≡ q * 2 ^ k + r
bit_or_sum zero q r h = rw (zero_of_lt_one r h) (omega (arith, bit_or-zero (q * 2 ^ 0)))
bit_or_sum (suc k) q r h =
    let twice : q * 2 ^ suc k ≡ 2 * (q * 2 ^ k) =
      omega (arith, ap (λ (t : ℕ). q * t) (pow-suc 2 k)) in
    let half : 2 * (q * 2 ^ k) / 2 ≡ q * 2 ^ k = omega arith in
    let step = bit_or_step (2 * (q * 2 ^ k)) r in
    rw twice (omega (arith, rw half at step, bit_or_sum k q (r / 2) (omega (arith, pow-suc 2 k))))

-- A test of one bit.
pub bit_and-two_pow : (k a : ℕ) → bit_and a (2 ^ k) ≡ bit a k * 2 ^ k
unfolding bit
bit_and-two_pow zero a = omega (arith, bit_and_mask 1 a)
bit_and-two_pow (suc k) a =
    let half : 2 ^ suc k / 2 ≡ 2 ^ k = omega (arith, pow-suc 2 k) in
    let even : 2 ^ suc k % 2 ≡ 0 = omega (arith, pow-suc 2 k) in
    let step = bit_and_step a (2 ^ suc k) in
    omega (
      arith,
      rw (half, even) at step,
      bit_and-two_pow k (a / 2),
      ap (λ (t : ℕ). bit (a / 2) k * t) (pow-suc 2 k),
    )

-- A mask whose `k` low digits are zero, seen from digit `k` on.
pub bit_and_high : (k a m : ℕ) → bit_and a (m * 2 ^ k) / 2 ^ k ≡ bit_and (a / 2 ^ k) m
bit_and_high zero a m =
    let e : m * 2 ^ 0 ≡ m = omega arith in
    let f : a / 2 ^ 0 ≡ a = omega arith in rw (e, f) (omega arith)
bit_and_high (suc k) a m =
    let twice : m * 2 ^ suc k ≡ 2 * (m * 2 ^ k) =
      omega (arith, ap (λ (t : ℕ). m * t) (pow-suc 2 k)) in
    let half : 2 * (m * 2 ^ k) / 2 ≡ m * 2 ^ k = omega arith in
    let step = bit_and_step a (2 * (m * 2 ^ k)) in
    let low : bit_and a (2 * (m * 2 ^ k)) / 2 ≡ bit_and (a / 2) (m * 2 ^ k) =
      omega (arith, rw half at step) in
    let split : (x : ℕ) → x / 2 ^ suc k ≡ x / 2 / 2 ^ k =
      λ x. ap (λ (t : ℕ). x / t) (pow-succ' 2 k) ∙ sym (div-div-eq-div-mul x 2 (2 ^ k)) in
    rw (twice, split (bit_and a (2 * (m * 2 ^ k))), split a, low) (bit_and_high k (a / 2) m)

-- Under such a mask the low digits are zero.
pub bit_and_low_zero : (k a m : ℕ) → bit_and a (m * 2 ^ k) % 2 ^ k ≡ 0
bit_and_low_zero zero a m = omega arith
bit_and_low_zero (suc k) a m =
    let twice : m * 2 ^ suc k ≡ 2 * (m * 2 ^ k) =
      omega (arith, ap (λ (t : ℕ). m * t) (pow-suc 2 k)) in
    let half : 2 * (m * 2 ^ k) / 2 ≡ m * 2 ^ k = omega arith in
    let step = bit_and_step a (2 * (m * 2 ^ k)) in
    let x = bit_and a (2 * (m * 2 ^ k)) in
    let low : x / 2 ≡ bit_and (a / 2) (m * 2 ^ k) = omega (arith, rw half at step) in
    rw twice (
      omega
        (arith, mod-two_pow-suc x k, rw (← low) at (bit_and_low_zero k (a / 2) m), rw half at step))
