-- ===== src/Util/BitSet/Words.antt =====
-- Growing and rewriting the words, seen bit by bit.
use thorin.Prelude.{
  ℕ, zero, suc, ◌+◌, ◌-◌, ◌*◌, ◌/◌, ◌%◌, ◌^◌, ◌≤◌, ◌<◌, ◌≡◌, arith, ◌==◌, not, length-append,
  length-replicate, get_or-append-replicate, replicate, if◌then◌else◌, Bool, get_or_beyond, bit_and,
  bit_or, bit_xor, get_or-set,
}
use native.Mathlib.Nat.{one-le-pow, pow-suc, pow-le-pow_right}
use thorin.Prelude.Bits.{
  bit, bit-lt, bit-zero, bit_and-two_pow, bit-bit_and, bit-bit_or, bit-bit_xor, bit-two_pow,
  bit-complement,
}
use thorin.Util.Width.{bit_ceil, le-bit_ceil}
use thorin.Util.BitSet.{BitSet, num_words, word, ensure_capacity, test, update_word, complement}

-- Every word has 64 bits.
abbrev pub IsBounded : BitSet → Type 0
IsBounded s = (j : ℕ) → word s j < 2 ^ 64

-- The number is in the set: its bit is one. Beyond the words every bit is zero.
unfoldable pub member : BitSet → ℕ → Bool
member s i = bit (word s (i / 64)) (i % 64) == 1

pub word-ensure_capacity : (s : BitSet) (i j : ℕ) → word (ensure_capacity s i) j ≡ word s j
unfolding ensure_capacity
word-ensure_capacity s i j =
    ground (arith, get_or-append-replicate s.words (bit_ceil ((i + 64) / 64) - num_words s) j 0)

pub lt-ensure_capacity : (s : BitSet) (i : ℕ) → i / 64 < num_words (ensure_capacity s i)
unfolding ensure_capacity
lt-ensure_capacity s i = ground (
  arith,
  length-append s.words (replicate (bit_ceil ((i + 64) / 64) - num_words s) 0),
  length-replicate {A = ℕ} (bit_ceil ((i + 64) / 64) - num_words s) 0,
  le-bit_ceil ((i + 64) / 64),
)

pub bit_test : (w k : ℕ) → not (bit_and w (2 ^ k) == 0) ≡ (bit w k == 1)
bit_test w k = go (bit w k) (bit-lt w k) (bit_and-two_pow k w) (one-le-pow k 2 (omega arith))
  where
    go :
        (b : ℕ)
        → b < 2
        → bit_and w (2 ^ k) ≡ b * 2 ^ k
        → 1 ≤ 2 ^ k
        → not (bit_and w (2 ^ k) == 0) ≡ (b == 1)
    go zero h e p = ground arith
    go (suc zero) h e p = ground arith
    go (suc (suc b)) h e p = absurd (omega arith)

-- `test` reads exactly the members.
pub test-eq-member : (s : BitSet) (i : ℕ) → test s i ≡ member s i
unfolding test member
test-eq-member s i = ground (
  arith,
  bit_test (word s (i / 64)) (i % 64),
  get_or_beyond s.words (i / 64) 0,
  bit-zero (i % 64),
)

pub word-update_word :
    (s : BitSet) (i j : ℕ) (f : ℕ → ℕ)
    → i / 64 < num_words s
    → word (update_word s i f) j ≡ (if i / 64 == j then f (word s j) else word s j)
word-update_word s i j f h = ground (arith, get_or-set s.words (i / 64) j (f (word s (i / 64))) 0)

-- The word that holds bit `i` once there is room for it.
pub word-update-ensure :
    (s : BitSet) (i j : ℕ) (f : ℕ → ℕ)
    → word (update_word (ensure_capacity s i) i f) j
      ≡ (if i / 64 == j then f (word s j) else word s j)
word-update-ensure s i j f = rw (
  word-update_word (ensure_capacity s i) i j f (lt-ensure_capacity s i),
  word-ensure_capacity s i j,
)

-- What the three masks do to a bit of a word.
pub bit-set_mask : (w k j : ℕ) → bit (bit_or w (2 ^ k)) j ≡ (if k == j then 1 else bit w j)
bit-set_mask w k j = ground (arith, bit-bit_or w (2 ^ k) j, bit-two_pow k j, bit-lt w j)

pub bit-toggle_mask :
    (w k j : ℕ) → bit (bit_xor w (2 ^ k)) j ≡ (if k == j then 1 - bit w j else bit w j)
bit-toggle_mask w k j = ground (arith, bit-bit_xor w (2 ^ k) j, bit-two_pow k j, bit-lt w j)

pub two_pow-lt_word : (k : ℕ) → k < 64 → 2 ^ k < 2 ^ 64
two_pow-lt_word k h = pow-lt k 64 h
  where
    pow-lt : (a b : ℕ) → a < b → 2 ^ a < 2 ^ b
    pow-lt a b p = omega (
      arith,
      pow-le-pow_right {n = 2} (omega arith) {i = suc a} {j = b} p,
      pow-suc 2 a,
      one-le-pow a 2,
    )

pub bit-clear_mask :
    (w k j : ℕ)
    → k < 64
    → j < 64
    → bit (bit_and w (complement (2 ^ k))) j ≡ (if k == j then 0 else bit w j)
bit-clear_mask w k j hk hj = ground (
  arith,
  bit-bit_and w (complement (2 ^ k)) j,
  bit-complement 64 (2 ^ k) j (two_pow-lt_word k hk) hj,
  bit-two_pow k j,
  bit-lt w j,
)
