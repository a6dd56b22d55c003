-- ===== src/Core/Trait/Union.antt =====
-- The assertion of `convert`.
use thorin.Prelude.{ℕ, ◌*◌, ◌%◌, ◌^◌, ◌<◌, ◌≡◌, ◌≢◌, refl, arith, false, none, some, ◌==◌, max}
use thorin.Util.Width.{bit_width, bit_ceil}
use thorin.Idx.{size2bitwidth}
use thorin.Core.Trait.{
  literal, Ty, idx, join, arr, nil, cons, both, layout_idx, layout_arr, largest, layout_join,
  layout,
}

i64_layout : layout_idx (literal 0) ≡ both 8 8
unfolding layout_idx size2bitwidth bit_ceil bit_width
i64_layout = refl

i8_layout : layout_idx (literal 256) ≡ both 1 1
unfolding layout_idx size2bitwidth bit_ceil bit_width
i8_layout = refl

-- The join of the 64-bit integers and an array of bytes.
abbrev pub word_or_bytes : ℕ → Ty
word_or_bytes n = join (cons (idx (literal 0)) (cons (arr (some n) (idx (literal 256))) nil))

-- The assertion fails for the join of the 64-bit integers and an array of more than eight bytes, where
-- their number is no multiple of eight: the largest size need not be a multiple of the largest
-- alignment.
pub layout-word_or_bytes :
    (n : ℕ) → 8 < n → n < 2 ^ 64 → n % 8 ≢ 0 → layout (word_or_bytes n) ≡ none
unfolding layout layout_arr layout_join largest
layout-word_or_bytes n big word_ odd =
    let same : n * 1 % 2 ^ 64 ≡ n = omega arith in
    let larger : max 8 n ≡ n = omega arith in
    let test : (n % 8 == 0) ≡ false = ground arith in
    rw (i64_layout, i8_layout) (rw same (rw larger (rw test refl)))
