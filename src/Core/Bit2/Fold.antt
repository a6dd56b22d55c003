-- ===== src/Core/Bit2/Fold.antt =====
-- The folding of bit operations on literals against their meaning on words.
use native.Mathlib.Nat.{mod-lt, one-le-pow, pow-le-pow_right}
use thorin.Prelude.{
  ℕ, ◌-◌, ◌^◌, ◌≤◌, ◌<◌, ◌≡◌, refl, ap, ◌∙◌, arith, some, bit_and, bit_or, bit_xor,
}
use thorin.Prelude.Bits.{
  bit, bit-zero, bit_ext, bit-mod, bit-bit_and, bit-bit_or, bit-complement, bit_and-lt, bit_or-lt,
  bit_xor-lt,
}
use thorin.Core.Ops.{Bit2, nor, niff, xor_, nand, and_, nxor, iff, or_}
use thorin.Core.Fold.{Width, w1, w8, w16, w32, w64, bits}
use thorin.Core.Bitwise.{bit2_value, negated, entry, bit-bit2_value, bit-ones}
use thorin.Core.Bit2.{fold_bit2, mod_size, complement, Bit1, off, neg, same, on, fold_bit1}

bits-le : (w : Width) → bits w ≤ 64
bits-le w1 = omega arith
bits-le w8 = omega arith
bits-le w16 = omega arith
bits-le w32 = omega arith
bits-le w64 = omega arith

-- The complement of a word, cut to the type, is the complement in the type.
pub mod_size-complement :
    (w : Width) (x : ℕ) → x < 2 ^ bits w → mod_size w (complement x) ≡ negated (bits w) x
mod_size-complement w1 x h = omega arith
mod_size-complement w8 x h = omega arith
mod_size-complement w16 x h = omega arith
mod_size-complement w32 x h = omega arith
mod_size-complement w64 x h = omega arith

lt-word : (w : Width) (x : ℕ) → x < 2 ^ bits w → x < 2 ^ 64
lt-word w x h =
    omega (arith, pow-le-pow_right {n = 2} (omega arith) {i = bits w} {j = 64} (bits-le w))

module _ (w : Width) (x y : ℕ) (hx : x < 2 ^ bits w) (hy : y < 2 ^ bits w) where
  fold_iff : mod_size w (bit_or (complement x) y) ≡ bit_or (negated (bits w) x) y
  fold_iff =
      bit_ext (bits w) _ _ (mod-lt (bit_or (complement x) y) (one-le-pow (bits w) 2 (omega arith)))
        (bit_or-lt (bits w) (negated (bits w) x) y (omega arith) hy)
        (λ i lt.
          bit-mod (bits w) (bit_or (complement x) y) i
          ∙ ground (
            arith,
            lt,
            bit-bit_or (complement x) y i,
            bit-bit_or (negated (bits w) x) y i,
            bit-complement 64 x i (lt-word w x hx) (omega (arith, bits-le w)),
            bit-complement (bits w) x i hx lt,
          ))

  fold_niff : bit_and x (complement y) ≡ bit_and x (negated (bits w) y)
  fold_niff =
      bit_ext (bits w) _ _ (bit_and-lt (bits w) x (complement y) hx)
        (bit_and-lt (bits w) x (negated (bits w) y) hx)
        (λ i lt.
          bit-bit_and x (complement y) i
          ∙ omega (
            arith,
            bit-bit_and x (negated (bits w) y) i,
            bit-complement 64 y i (lt-word w y hy) (omega (arith, bits-le w)),
            bit-complement (bits w) y i hy lt,
          ))

  -- On literals of the type, folding a bit operation yields its value: each bit by the documented
  -- table, and nothing beyond the type.
  pub fold_bit2_lem :
      (id : Bit2) (r : ℕ) → fold_bit2 id w x y ≡ some r → r ≡ bit2_value id (bits w) x y
  unfolding fold_bit2 bit2_value
  fold_bit2_lem and_ r e = ground arith
  fold_bit2_lem or_ r e = ground arith
  fold_bit2_lem xor_ r e = ground arith
  fold_bit2_lem nand r e =
      ground (arith, mod_size-complement w (bit_and x y) (bit_and-lt (bits w) x y hx))
  fold_bit2_lem nor r e =
      ground (arith, mod_size-complement w (bit_or x y) (bit_or-lt (bits w) x y hx hy))
  fold_bit2_lem nxor r e =
      ground (arith, mod_size-complement w (bit_xor x y) (bit_xor-lt (bits w) x y hx hy))
  fold_bit2_lem iff r e = ground (arith, fold_iff)
  fold_bit2_lem niff r e = ground (arith, fold_niff)
  fold_bit2_lem _ r e = cc

-- On literals of the type, each bit of a folded bit operation is the entry of the documented table for
-- the two bits.
pub bit-fold_bit2 :
    (w : Width) (x y : ℕ) (id : Bit2) (r i : ℕ)
    → x < 2 ^ bits w
    → y < 2 ^ bits w
    → fold_bit2 id w x y ≡ some r
    → i < bits w
    → bit r i ≡ entry id (bit x i) (bit y i)
bit-fold_bit2 w x y id r i hx hy e lt =
    ap (λ (k : ℕ). bit k i) (fold_bit2_lem w x y hx hy id r e)
    ∙ bit-bit2_value (bits w) x y hx hy id i lt

-- The table of the unary operations in core.thorin, on a digit.
abbrev pub unary_entry : Bit1 → ℕ → ℕ
unary_entry off u = 0
unary_entry neg u = 1 - u
unary_entry same u = u
unary_entry on u = 1

-- The four unary operations on a literal of the type: all zeros, the complement, the literal itself,
-- and all ones, bit by bit.
pub bit-fold_bit1 :
    (w : Width) (x : ℕ) (id : Bit1) (i : ℕ)
    → x < 2 ^ bits w
    → i < bits w
    → bit (fold_bit1 id w x) i ≡ unary_entry id (bit x i)
unfolding fold_bit1
bit-fold_bit1 w x off i hx lt = bit-zero i
bit-fold_bit1 w x neg i hx lt =
    ap (λ (k : ℕ). bit k i) (mod_size-complement w x hx) ∙ bit-complement (bits w) x i hx lt
bit-fold_bit1 w x same i hx lt = refl
bit-fold_bit1 w x on i hx lt = bit-ones (bits w) i lt
