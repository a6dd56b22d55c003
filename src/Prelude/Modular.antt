-- ===== src/Prelude/Modular.antt =====
-- Products modulo a number.
use Prim.Native.Nat.{ℕ, ◌+◌, ◌*◌, ◌/◌, ◌%◌, ◌<◌}
use mathlib.Core.Path.{◌≡◌, sym, ap, ◌∙◌}
use native.Mathlib.Nat.{
  mul_assoc, mul_comm, add-mul, add-mul-mod_self_left, mod-add-div, mod-eq_of_lt,
}
use native.Mathlib.Omega.{arith}

-- A factor may be reduced first.
pub mod-mul_left : (x y m : ℕ) → x % m * y % m ≡ x * y % m
mod-mul_left x y m =
    let split : x * y ≡ x % m * y + m * (x / m * y) =
      ap (λ (k : ℕ). k * y) (sym (mod-add-div x m))
      ∙ add-mul (x % m) (m * (x / m)) y
      ∙ ap (λ (k : ℕ). x % m * y + k) (mul_assoc m (x / m) y) in
    sym (ap (λ (k : ℕ). k % m) split ∙ add-mul-mod_self_left (x % m * y) m (x / m * y))

-- Multiplying by a number is undone by multiplying by its inverse.
pub mul-inverse : (a b m x : ℕ) → a * b % m ≡ 1 → x < m → x * a % m * b % m ≡ x
mul-inverse a b m x inverse lt =
    let one : 1 * x ≡ x = omega arith in
    mod-mul_left (x * a) b m
    ∙ ap (λ (k : ℕ). k % m) (mul_assoc x a b ∙ mul_comm x (a * b))
    ∙ sym (mod-mul_left (a * b) x m)
    ∙ ap (λ (k : ℕ). k * x % m) inverse
    ∙ ap (λ (k : ℕ). k % m) one
    ∙ mod-eq_of_lt lt
