-- ===== src/Util/BitSet/Valid.antt =====
-- The representation invariant: words of 64 bits, and a power of two of them, as the assertion of
-- `ensure_capacity` demands.
use native.Mathlib.Decide.{dec_lt}
use native.Mathlib.Nat.{pow-le-pow_right, pow-suc}
use thorin.Prelude.{
  ℕ, zero, suc, ◌+◌, ◌-◌, ◌*◌, ◌/◌, ◌%◌, ◌^◌, ◌≤◌, ◌<◌, ◌≡◌, refl, ◌∙◌, arith, ltb, if◌then◌else◌,
  Bool, bit_and, bit_or, length-append, length-replicate, length-set, replicate,
}
use thorin.Prelude.Bits.{bit_and-lt, bit_or-lt, bit_xor-lt}
use thorin.Util.Width.{bit_width, bit_ceil, le-bit_ceil}
use thorin.Util.BitSet.{
  BitSet, num_words, word, mask, complement, ensure_capacity, update_word, set, toggle, clear,
  assign, empty,
}
use thorin.Util.BitSet.Words.{IsBounded, word-ensure_capacity, word-update-ensure, two_pow-lt_word}

pub record IsValid (s : BitSet) : Type 0 where
  pub bounded : IsBounded s
  pub log : ℕ
  pub power : num_words s ≡ 2 ^ log

pow-lt_exponent : (a b : ℕ) → 2 ^ a < 2 ^ b → a < b
pow-lt_exponent a b h = elim (dec_lt a b) [
  | yes p ↦ p
  | no p ↦
      absurd (omega (arith, pow-le-pow_right {n = 2} (omega arith) {i = b} {j = a} (omega arith)))
]

-- The assertion in `ensure_capacity`: whenever the words grow, their number at least doubles.
pub ensure_capacity-doubles :
    (s : BitSet) (i : ℕ)
    → IsValid s
    → num_words s < (i + 64) / 64
    → num_words s * 2 ≤ bit_ceil ((i + 64) / 64)
unfolding bit_ceil
ensure_capacity-doubles s i v more =
    let n = (i + 64) / 64 in
    let w = bit_width (n - 1) in
    let room : n ≤ 2 ^ w = unfold bit_ceil in le-bit_ceil n in
    let grows : v.log < w = pow-lt_exponent v.log w (omega (arith, v.power)) in
    omega (
      arith,
      v.power,
      pow-suc 2 v.log,
      pow-le-pow_right {n = 2} (omega arith) {i = suc v.log} {j = w} grows,
    )

num_words-ensure_capacity :
    (s : BitSet) (i : ℕ)
    → num_words (ensure_capacity s i)
      ≡ (if ltb (num_words s) ((i + 64) / 64) then bit_ceil ((i + 64) / 64) else num_words s)
unfolding ensure_capacity
num_words-ensure_capacity s i =
    let n = (i + 64) / 64 in
    ground (
      arith,
      le-bit_ceil n,
      length-append s.words (replicate (bit_ceil n - num_words s) 0),
      length-replicate {A = ℕ} (bit_ceil n - num_words s) 0,
    )

-- Growing the words keeps the invariant.
pub ensure_capacity-IsValid : (s : BitSet) (i : ℕ) → IsValid s → IsValid (ensure_capacity s i)
ensure_capacity-IsValid s i v = record {
  bounded = λ j. rw (word-ensure_capacity s i j) (v.bounded j);
  log = if ltb (num_words s) ((i + 64) / 64) then bit_width ((i + 64) / 64 - 1) else v.log;
  power = unfold bit_ceil in ground (arith, num_words-ensure_capacity s i, v.power);
}

-- Rewriting the word of a bit keeps the invariant when it keeps words within 64 bits.
update-IsValid :
    (s : BitSet) (i : ℕ) (f : ℕ → ℕ)
    → ((w : ℕ) → w < 2 ^ 64 → f w < 2 ^ 64)
    → IsValid s
    → IsValid (update_word (ensure_capacity s i) i f)
update-IsValid s i f keep v =
    let grown = ensure_capacity-IsValid s i v in
    record {
      bounded = λ j.
          rw (word-update-ensure s i j f)
            (ground (arith, v.bounded j, keep (word s j) (v.bounded j)));
      log = grown.log;
      power =
          length-set (ensure_capacity s i).words (i / 64) (f (word (ensure_capacity s i) (i / 64)))
          ∙ grown.power;
    }

mask-lt : (i : ℕ) → mask i < 2 ^ 64
mask-lt i = two_pow-lt_word (i % 64) (omega arith)

-- The three operations on a bit, and the write through `s[i]`, keep the invariant.
pub bit_operations-IsValid :
    (s : BitSet) (i : ℕ) (b : Bool)
    → IsValid s
    → IsValid (set s i) × IsValid (toggle s i) × IsValid (clear s i) × IsValid (assign s i b)
unfolding set toggle clear assign
bit_operations-IsValid s i b v = (
  update-IsValid s i _ (λ w h. bit_or-lt 64 w (mask i) h (mask-lt i)) v,
  update-IsValid s i _ (λ w h. bit_xor-lt 64 w (mask i) h (mask-lt i)) v,
  update-IsValid s i _ (λ w h. bit_and-lt 64 w (complement (mask i)) h) v,
  update-IsValid s i (λ w. if b then bit_or w (mask i) else bit_and w (complement (mask i)))
      (λ w h.
        ground
          (arith, bit_or-lt 64 w (mask i) h (mask-lt i), bit_and-lt 64 w (complement (mask i)) h))
      v,
)

-- A set that was just made satisfies the invariant.
pub empty-IsValid : IsValid empty
empty-IsValid = record { bounded = small; log = 0; power = refl }
  where
    small : IsBounded empty
    small zero = omega arith
    small (suc j) = omega arith
