-- ===== src/Axiom/Fields.antt =====
-- The flags of an axiom hold its dialect, its tag and its sub tag side by side.
use thorin.Prelude.{ℕ, ◌+◌, ◌-◌, ◌*◌, ◌/◌, ◌%◌, ◌^◌, ◌<◌, ◌≡◌, arith}
use thorin.Prelude.Bits.{bit_or_sum, bit_and_mask, bit_and_high, bit_and_low_zero}
use thorin.Axiom.{flags, dialect, tag, sub, base}

flags_sum :
    (d t s : ℕ)
    → d < 2 ^ 48
    → t < 2 ^ 8
    → s < 2 ^ 8
    → flags (d * 2 ^ 16) t s ≡ d * 2 ^ 16 + t * 2 ^ 8 + s
unfolding flags
flags_sum d t s hd ht hs =
    let fits : t * 2 ^ 8 % 2 ^ 64 ≡ t * 2 ^ 8 = omega arith in
    let upper : d * 2 ^ 16 + t * 2 ^ 8 ≡ (d * 2 ^ 8 + t) * 2 ^ 8 = omega arith in
    rw (fits, bit_or_sum 16 d (t * 2 ^ 8) (omega arith), upper)
      (omega (arith, bit_or_sum 8 (d * 2 ^ 8 + t) s hs))

-- The low 16 bits cut off.
dialect-eq : (f : ℕ) → f < 2 ^ 64 → dialect f ≡ f / 2 ^ 16 * 2 ^ 16
unfolding dialect
dialect-eq f h = omega (
  arith,
  bit_and_high 16 f (2 ^ 48 - 1),
  bit_and_mask 48 (f / 2 ^ 16),
  bit_and_low_zero 16 f (2 ^ 48 - 1),
)

base-eq : (f : ℕ) → f < 2 ^ 64 → base f ≡ f / 2 ^ 8 * 2 ^ 8
unfolding base
base-eq f h = omega (
  arith,
  bit_and_high 8 f (2 ^ 56 - 1),
  bit_and_mask 56 (f / 2 ^ 8),
  bit_and_low_zero 8 f (2 ^ 56 - 1),
)

tag-eq : (f : ℕ) → tag f ≡ f / 2 ^ 8 % 2 ^ 8
unfolding tag
tag-eq f = omega (arith, bit_and_high 8 f 255, bit_and_mask 8 (f / 2 ^ 8))

-- For a 48-bit dialect in the upper bits and bytes as tags, each field of the flags reads back as
-- it was put in, and the base is the flags without the sub tag.
pub flags_fields :
    (d t s : ℕ)
    → d < 2 ^ 48
    → t < 2 ^ 8
    → s < 2 ^ 8
    → let f = flags (d * 2 ^ 16) t s in
      (dialect f ≡ d * 2 ^ 16) × (tag f ≡ t) × (sub f ≡ s) × (base f ≡ flags (d * 2 ^ 16) t 0)
unfolding sub
flags_fields d t s hd ht hs =
    let f = flags (d * 2 ^ 16) t s in
    let sum = flags_sum d t s hd ht hs in
    let bare = flags_sum d t 0 hd ht (omega arith) in
    let word : f < 2 ^ 64 = omega (arith, sum) in
    (
      omega (arith, sum, dialect-eq f word),
      omega (arith, sum, tag-eq f),
      omega (arith, sum, bit_and_mask 8 f),
      omega (arith, sum, bare, base-eq f word),
    )
