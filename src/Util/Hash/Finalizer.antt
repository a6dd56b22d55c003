-- ===== src/Util/Hash/Finalizer.antt =====
-- The finalizer of murmur3 loses nothing.
use native.Mathlib.Nat.{mod-lt}
use thorin.Prelude.{◌↔◌, ℕ, ◌+◌, ◌*◌, ◌/◌, ◌%◌, ◌^◌, ◌<◌, ◌≡◌, refl, sym, ap, ◌∙◌, arith, bit_xor}
use thorin.Prelude.Bits.{bit, bit-lt, bit_ext, bit-bit_xor, bit_xor-lt, bit-shr, bit_beyond}
use thorin.Prelude.Modular.{mul-inverse}
use thorin.Util.Hash.{word, murmur3_single}

-- `h ^= h >> 16`
abbrev mix16 : ℕ → ℕ
mix16 h = bit_xor h (h / 2 ^ 16)

abbrev mix13 : ℕ → ℕ
mix13 h = bit_xor h (h / 2 ^ 13)

bit-mix16 : (h i : ℕ) → bit (mix16 h) i ≡ (bit h i + bit h (16 + i)) % 2
bit-mix16 h i = bit-bit_xor h (h / 2 ^ 16) i ∙ ap (λ (k : ℕ). (bit h i + k) % 2) (bit-shr 16 h i)

bit-mix13 : (h i : ℕ) → bit (mix13 h) i ≡ (bit h i + bit h (13 + i)) % 2
bit-mix13 h i = bit-bit_xor h (h / 2 ^ 13) i ∙ ap (λ (k : ℕ). (bit h i + k) % 2) (bit-shr 13 h i)

mix16-lt : (h : ℕ) → h < 2 ^ 32 → mix16 h < 2 ^ 32
mix16-lt h lt = bit_xor-lt 32 h (h / 2 ^ 16) lt (omega arith)

mix13-lt : (h : ℕ) → h < 2 ^ 32 → mix13 h < 2 ^ 32
mix13-lt h lt = bit_xor-lt 32 h (h / 2 ^ 13) lt (omega arith)

mix16-mix16 : (h : ℕ) → h < 2 ^ 32 → mix16 (mix16 h) ≡ h
mix16-mix16 h lt =
    bit_ext 32 (mix16 (mix16 h)) h (mix16-lt (mix16 h) (mix16-lt h lt)) lt (λ i below.
      let e : 16 + (16 + i) ≡ 32 + i = omega arith in
      omega (
        arith,
        bit-mix16 (mix16 h) i,
        bit-mix16 h i,
        bit-mix16 h (16 + i),
        bit-lt h i,
        bit-lt h (16 + i),
        ap (bit h) e,
        bit_beyond 32 h (32 + i) lt (omega arith),
      ))

unmix13 : ℕ → ℕ
unmix13 h = bit_xor (bit_xor h (h / 2 ^ 13)) (h / 2 ^ 26)

unmix13-mix13 : (h : ℕ) → h < 2 ^ 32 → unmix13 (mix13 h) ≡ h
unfolding unmix13
unmix13-mix13 h lt =
    let m = mix13 h in
    let hm = mix13-lt h lt in
    bit_ext 32 (bit_xor (bit_xor m (m / 2 ^ 13)) (m / 2 ^ 26)) h
      (bit_xor-lt 32 (bit_xor m (m / 2 ^ 13)) (m / 2 ^ 26) (mix13-lt m hm) (omega arith)) lt
      (λ i below.
        let e : 13 + (13 + i) ≡ 26 + i = omega arith in
        let f : 13 + (26 + i) ≡ 39 + i = omega arith in
        omega (
          arith,
          bit-bit_xor (mix13 m) (m / 2 ^ 26) i,
          bit-shr 26 m i,
          bit-mix13 m i,
          bit-mix13 h i,
          bit-mix13 h (13 + i),
          bit-mix13 h (26 + i),
          bit-lt h i,
          bit-lt h (13 + i),
          bit-lt h (26 + i),
          ap (bit h) e,
          ap (bit h) f,
          bit_beyond 32 h (39 + i) lt (omega arith),
        ))

-- The finalizer backwards.
undo : ℕ → ℕ
unfolding unmix13
undo h = mix16 (word (unmix13 (word (mix16 h * 2127672349)) * 2781581891))

murmur3_single-undo : (h : ℕ) → h < 2 ^ 32 → undo (murmur3_single h) ≡ h
unfolding undo murmur3_single
murmur3_single-undo h lt =
    let a = mix16 h in
    let b = word (a * 0x85ebca6b) in
    let c = mix13 b in
    let d = word (c * 0xc2b2ae35) in
    let ha = mix16-lt h lt in
    let hb : b < 2 ^ 32 = mod-lt (a * 0x85ebca6b) (omega arith) in
    let hc = mix13-lt b hb in
    let hd : d < 2 ^ 32 = mod-lt (c * 0xc2b2ae35) (omega arith) in
    ap (λ (k : ℕ). mix16 (word (unmix13 (word (k * 2127672349)) * 2781581891))) (mix16-mix16 d hd)
    ∙ ap (λ (k : ℕ). mix16 (word (unmix13 k * 2781581891)))
        (mul-inverse 0xc2b2ae35 2127672349 (2 ^ 32) c refl hc)
    ∙ ap (λ (k : ℕ). mix16 (word (k * 2781581891))) (unmix13-mix13 b hb)
    ∙ ap mix16 (mul-inverse 0x85ebca6b 2781581891 (2 ^ 32) a refl ha)
    ∙ mix16-mix16 h lt

-- On 32-bit words, two words have the same hash if and only if they are the same: the finalizer of
-- murmur3 loses nothing.
pub murmur3_single_iff :
    (x y : ℕ) → x < 2 ^ 32 → y < 2 ^ 32 → murmur3_single x ≡ murmur3_single y ↔ x ≡ y
murmur3_single_iff x y hx hy = (
  (λ e. sym (murmur3_single-undo x hx) ∙ ap undo e ∙ murmur3_single-undo y hy),
  ap murmur3_single,
)
