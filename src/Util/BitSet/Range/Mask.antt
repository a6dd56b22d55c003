-- ===== src/Util/BitSet/Range/Mask.antt =====
-- The two masks bit by bit, and what a masked word says of the bits.
use thorin.Prelude.{
  ℕ, zero, suc, ◌-◌, ◌*◌, ◌/◌, ◌%◌, ◌^◌, ◌<◌, ◌≡◌, ◌≢◌, ◌↔◌, ap, arith, ltb, if◌then◌else◌, bit_and,
}
use native.Mathlib.Decide.{ℕ_discrete}
use native.Mathlib.Nat.{pow-suc}
use thorin.Prelude.Bits.{
  bit, bit-lt, bit-zero, bit-bit_and, bit-mod, bit-shl, bit-complement, bit_and-lt,
}
use thorin.Util.BitSet.{begin_mask, end_mask}

-- A number that is not zero has a bit.
find_bit : (n w : ℕ) → w < 2 ^ n → w ≢ 0 → (b : ℕ) × (b < n) × (bit w b ≡ 1)
unfolding bit
find_bit zero w h nz = absurd (omega arith)
find_bit (suc n) w h nz = elim (ℕ_discrete (w % 2) 1) [
  | yes odd ↦ (0, omega arith, odd)
  | no even ↦
      let (b, lt, one) = find_bit n (w / 2) (omega (arith, pow-suc 2 n)) (omega arith) in
      (suc b, omega arith, one)
]

-- The word under the mask is not zero exactly when the two share a bit.
pub masked_iff :
    (w mask : ℕ)
    → w < 2 ^ 64
    → (bit_and w mask ≢ 0) ↔ ((b : ℕ) × (b < 64) × (bit w b ≡ 1) × (bit mask b ≡ 1))
masked_iff w mask h = (
  λ nz.
      let (b, lt, one) = find_bit 64 (bit_and w mask) (bit_and-lt 64 w mask h) nz in
      let both = bit-bit_and w mask b in
      (
        b,
        lt,
        omega (arith, both, bit-lt w b, bit-lt mask b),
        omega (arith, both, bit-lt w b, bit-lt mask b),
      ),
  λ (b, lt, one, masked) e.
      omega (arith, bit-bit_and w mask b, bit-zero b, ap (λ (t : ℕ). bit t b) e),
)

pub nonzero_iff : (w : ℕ) → w < 2 ^ 64 → (w ≢ 0) ↔ ((b : ℕ) × (b < 64) × (bit w b ≡ 1))
nonzero_iff w h = (
  λ nz. find_bit 64 w h nz,
  λ (b, lt, one) e. omega (arith, bit-zero b, ap (λ (t : ℕ). bit t b) e),
)

pub bit-begin_mask : (i b : ℕ) → b < 64 → bit (begin_mask i) b ≡ (if ltb b (i % 64) then 0 else 1)
unfolding begin_mask
bit-begin_mask i b h = ground (
  arith,
  bit-mod 64 ((2 ^ 64 - 1) * 2 ^ (i % 64)) b,
  bit-shl (i % 64) (2 ^ 64 - 1) b,
  bit-complement 64 0 (b - i % 64),
  bit-zero (b - i % 64),
)

pub bit-end_mask : (i b : ℕ) → b < 64 → bit (end_mask i) b ≡ (if ltb b (i % 64) then 1 else 0)
unfolding end_mask
bit-end_mask i b h =
    let fits : begin_mask i < 2 ^ 64 = unfold begin_mask in omega arith in
    ground (arith, bit-complement 64 (begin_mask i) b, bit-begin_mask i b h)

-- The mask of the last word is empty exactly when the range ends at a word's border.
pub end_mask-zero : (i : ℕ) → i % 64 ≡ 0 → end_mask i ≡ 0
unfolding end_mask begin_mask
end_mask-zero i h = rw h
