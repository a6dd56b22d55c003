-- ===== src/Prelude/Bits/Step.antt =====
-- The native operations stand for a recursion on binary digits with fuel; here it is one equation
-- for the lowest digit.
use Prim.Native.Nat.{
  ℕ, zero, suc, ◌+◌, ◌*◌, ◌/◌, ◌%◌, ◌≤◌, ◌<◌, min, max, bit_and, bit_or, bit_xor, digits, differ,
  bit_and-bitwise, bit_or-bitwise, bit_xor-bitwise,
}
use mathlib.Core.Path.{◌≡◌, refl}
use native.Mathlib.Omega.{arith}

module _ (rest : ℕ → ℕ) (combine : ℕ → ℕ → ℕ) where
  -- Two amounts of fuel that both reach the end of the first number give the same digits.
  same_digits :
      (fuel other x y : ℕ)
      → x ≤ fuel
      → x ≤ other
      → digits rest combine fuel x y ≡ digits rest combine other x y
  same_digits zero zero x y le more = refl
  same_digits zero (suc other) zero y le more = refl
  same_digits (suc fuel) zero zero y le more = refl
  same_digits (suc fuel) (suc other) zero y le more = refl
  same_digits zero (suc other) (suc x) y le more = absurd (omega arith)
  same_digits (suc fuel) zero (suc x) y le more = absurd (omega arith)
  same_digits (suc fuel) (suc other) (suc x) y le more =
      omega (arith, same_digits fuel other (suc x / 2) (y / 2) (omega arith) (omega arith))

  -- One round less reads the halves.
  digits-half :
      (x y : ℕ)
      → digits rest combine x (suc x / 2) (y / 2)
        ≡ digits rest combine (suc x / 2) (suc x / 2) (y / 2)
  digits-half x y = same_digits x (suc x / 2) (suc x / 2) (y / 2) (omega arith) (omega arith)

pub bit_and_step : (x y : ℕ) → bit_and x y ≡ bit_and (x / 2) (y / 2) * 2 + min (x % 2) (y % 2)
bit_and_step zero y = omega (arith, bit_and-bitwise 0 (y / 2), bit_and-bitwise 0 y)
bit_and_step (suc x) y = omega (
  arith,
  digits-half (λ _. 0) min x y,
  bit_and-bitwise (suc x / 2) (y / 2),
  bit_and-bitwise (suc x) y,
)

pub bit_or_step : (x y : ℕ) → bit_or x y ≡ bit_or (x / 2) (y / 2) * 2 + max (x % 2) (y % 2)
bit_or_step zero y = omega (arith, bit_or-bitwise 0 (y / 2), bit_or-bitwise 0 y)
bit_or_step (suc x) y = omega (
  arith,
  digits-half (λ k. k) max x y,
  bit_or-bitwise (suc x / 2) (y / 2),
  bit_or-bitwise (suc x) y,
)

differ-eq : (x y : ℕ) → x < 2 → y < 2 → differ x y ≡ (x + y) % 2
differ-eq zero y p q = omega arith
differ-eq (suc zero) zero p q = refl
differ-eq (suc zero) (suc zero) p q = refl
differ-eq (suc zero) (suc (suc y)) p q = absurd (omega arith)
differ-eq (suc (suc x)) y p q = absurd (omega arith)

pub bit_xor_step : (x y : ℕ) → bit_xor x y ≡ bit_xor (x / 2) (y / 2) * 2 + (x % 2 + y % 2) % 2
bit_xor_step zero y = omega (arith, bit_xor-bitwise 0 (y / 2), bit_xor-bitwise 0 y)
bit_xor_step (suc x) y = omega (
  arith,
  digits-half (λ k. k) differ x y,
  differ-eq (suc x % 2) (y % 2) (omega arith) (omega arith),
  bit_xor-bitwise (suc x / 2) (y / 2),
  bit_xor-bitwise (suc x) y,
)
