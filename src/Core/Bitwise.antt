-- ===== src/Core/Bitwise.antt =====
-- The meaning of the binary bit operations on words: each bit by the table that core.thorin documents.
pub mod Laws
use thorin.Prelude.{
  ℕ, zero, suc, ◌+◌, ◌-◌, ◌*◌, ◌%◌, ◌^◌, ◌≤◌, ◌<◌, ◌≡◌, refl, sym, ap, ◌∙◌, arith, Bool, true,
  false, ◌==◌, min, max, bit_and, bit_or, bit_xor, if◌then◌else◌,
}
use native.Mathlib.Nat.{one-le-pow}
use thorin.Prelude.Bits.{
  bit, bit-lt, bit-zero, bit_ext, bit-bit_and, bit-bit_or, bit-bit_xor, bit-complement, bit_and-lt,
  bit_or-lt, bit_xor-lt,
}
use thorin.Core.Ops.{
  is_associative_bit2, Bit2, f, nor, nciff, na, niff, nb, xor_, nand, and_, nxor, b, iff, a, ciff,
  or_, t,
}
use thorin.Core.TruthTable.{documented}

-- `n` ones, and the complement in `n` bits.
abbrev pub ones : ℕ → ℕ
ones n = 2 ^ n - 1

abbrev pub negated : ℕ → ℕ → ℕ
negated n x = 2 ^ n - 1 - x

unfoldable pub bit2_value : Bit2 → ℕ → ℕ → ℕ → ℕ
bit2_value f n x y = 0
bit2_value nor n x y = negated n (bit_or x y)
bit2_value nciff n x y = bit_and (negated n x) y
bit2_value na n x y = negated n x
bit2_value niff n x y = bit_and x (negated n y)
bit2_value nb n x y = negated n y
bit2_value xor_ n x y = bit_xor x y
bit2_value nand n x y = negated n (bit_and x y)
bit2_value and_ n x y = bit_and x y
bit2_value nxor n x y = negated n (bit_xor x y)
bit2_value b n x y = y
bit2_value iff n x y = bit_or (negated n x) y
bit2_value a n x y = x
bit2_value ciff n x y = bit_or x (negated n y)
bit2_value or_ n x y = bit_or x y
bit2_value t n x y = ones n

abbrev pub digit : Bool → ℕ
digit true = 1
digit false = 0

-- The documented table on digits.
unfoldable pub entry : Bit2 → ℕ → ℕ → ℕ
entry id x y = digit (documented id (x == 1) (y == 1))

formula : Bit2 → ℕ → ℕ → ℕ
formula f u v = 0
formula nor u v = 1 - max u v
formula nciff u v = min (1 - u) v
formula na u v = 1 - u
formula niff u v = min u (1 - v)
formula nb u v = 1 - v
formula xor_ u v = (u + v) % 2
formula nand u v = 1 - min u v
formula and_ u v = min u v
formula nxor u v = 1 - (u + v) % 2
formula b u v = v
formula iff u v = max (1 - u) v
formula a u v = u
formula ciff u v = max u (1 - v)
formula or_ u v = max u v
formula t u v = 1

entry-formula : (id : Bit2) (u v : ℕ) → u < 2 → v < 2 → entry id u v ≡ formula id u v
unfolding entry documented formula bit
entry-formula f zero zero p q = refl
entry-formula _ zero zero p q = refl
entry-formula f zero (suc zero) p q = refl
entry-formula _ zero (suc zero) p q = refl
entry-formula f (suc zero) zero p q = refl
entry-formula _ (suc zero) zero p q = refl
entry-formula f (suc zero) (suc zero) p q = refl
entry-formula _ (suc zero) (suc zero) p q = refl
entry-formula id (suc (suc u)) v p q = absurd (omega arith)
entry-formula id zero (suc (suc v)) p q = absurd (omega arith)
entry-formula id (suc zero) (suc (suc v)) p q = absurd (omega arith)

pub bit-ones : (n i : ℕ) → i < n → bit (ones n) i ≡ 1
bit-ones n i lt =
    let e : ones n ≡ negated n 0 = omega arith in
    rw e (omega (arith, bit-complement n 0 i (one-le-pow n 2 (omega arith)) lt, bit-zero i))

module _ (n x y : ℕ) (hx : x < 2 ^ n) (hy : y < 2 ^ n) where
  pub bit2_value-lt : (id : Bit2) → bit2_value id n x y < 2 ^ n
  unfolding bit2_value
  bit2_value-lt f = omega arith
  bit2_value-lt nciff = bit_and-lt n (negated n x) y (omega arith)
  bit2_value-lt niff = bit_and-lt n x (negated n y) hx
  bit2_value-lt xor_ = bit_xor-lt n x y hx hy
  bit2_value-lt and_ = bit_and-lt n x y hx
  bit2_value-lt iff = bit_or-lt n (negated n x) y (omega arith) hy
  bit2_value-lt ciff = bit_or-lt n x (negated n y) hx (omega arith)
  bit2_value-lt or_ = bit_or-lt n x y hx hy
  bit2_value-lt _ = omega arith

  bit-formula :
      (id : Bit2) (i : ℕ) → i < n → bit (bit2_value id n x y) i ≡ formula id (bit x i) (bit y i)
  unfolding bit2_value formula
  bit-formula f i lt = bit-zero i
  bit-formula nor i lt =
      omega (arith, bit-complement n (bit_or x y) i (bit_or-lt n x y hx hy) lt, bit-bit_or x y i)
  bit-formula nciff i lt = omega (arith, bit-complement n x i hx lt, bit-bit_and (negated n x) y i)
  bit-formula na i lt = bit-complement n x i hx lt
  bit-formula niff i lt = omega (arith, bit-complement n y i hy lt, bit-bit_and x (negated n y) i)
  bit-formula nb i lt = bit-complement n y i hy lt
  bit-formula xor_ i lt = bit-bit_xor x y i
  bit-formula nand i lt =
      omega (arith, bit-complement n (bit_and x y) i (bit_and-lt n x y hx) lt, bit-bit_and x y i)
  bit-formula and_ i lt = bit-bit_and x y i
  bit-formula nxor i lt =
      omega (arith, bit-complement n (bit_xor x y) i (bit_xor-lt n x y hx hy) lt, bit-bit_xor x y i)
  bit-formula b i lt = refl
  bit-formula iff i lt = omega (arith, bit-complement n x i hx lt, bit-bit_or (negated n x) y i)
  bit-formula a i lt = refl
  bit-formula ciff i lt = omega (arith, bit-complement n y i hy lt, bit-bit_or x (negated n y) i)
  bit-formula or_ i lt = bit-bit_or x y i
  bit-formula t i lt = bit-ones n i lt

  -- Every bit of the value is the table's entry for the two bits.
  pub bit-bit2_value :
      (id : Bit2) (i : ℕ) → i < n → bit (bit2_value id n x y) i ≡ entry id (bit x i) (bit y i)
  bit-bit2_value id i lt =
      bit-formula id i lt ∙ sym (entry-formula id (bit x i) (bit y i) (bit-lt x i) (bit-lt y i))
