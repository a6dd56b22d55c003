-- ===== src/Util/BitSet/Algebra.antt =====
-- The operations on two sets: `|=`, `^=`, `&=`, the copy constructor and `==`.
use thorin.Prelude.{
  ℕ, zero, suc, ◌+◌, ◌-◌, ◌*◌, ◌/◌, ◌%◌, ◌≤◌, ◌<◌, ◌≡◌, ◌↔◌, refl, ap, sym, ◌∙◌, arith, List, [],
  ◌∷◌, ◌++◌, ◌==◌, not, ltb, if◌then◌else◌, true, ◌&&◌, ◌||◌, bit_and, bit_or, bit_xor, length,
  get_or, get_or_beyond, get_or-drop, drop,
}
use native.Mathlib.Decide.{dec_lt}
use thorin.Prelude.Bits.{bit, bit-lt, bit-zero, bit-bit_and, bit-bit_or, bit-bit_xor, bit_ext}
use thorin.Util.BitSet.{
  BitSet, num_words, num_bits, word, ensure_capacity, test, empty, copy, op_words, op_assign,
  and_assign, or_assign, xor_assign, equal, eq_words, all_zero,
}
use thorin.Util.BitSet.Words.{
  member, IsBounded, test-eq-member, word-ensure_capacity, lt-ensure_capacity,
}

module _ (f : ℕ → ℕ → ℕ) where
  word-op_words :
      (xs ys : List ℕ) (j : ℕ)
      → length ys ≤ length xs
      → get_or (op_words f xs ys) j 0
        ≡ (if ltb j (length ys) then f (get_or xs j 0) (get_or ys j 0) else get_or xs j 0)
  unfolding op_words
  word-op_words [] [] j h = ground arith
  word-op_words [] (y ∷ ys) j h = absurd (omega arith)
  word-op_words (x ∷ xs) [] j h = ground arith
  word-op_words (x ∷ xs) (y ∷ ys) zero h = ground arith
  word-op_words (x ∷ xs) (y ∷ ys) (suc j) h = ground (arith, word-op_words xs ys j (omega arith))

  -- The words of the result: the operation where the other set has a word, the old word beyond.
  word-op_assign :
      (s t : BitSet) (j : ℕ)
      → word (op_assign f s t) j
        ≡ (if ltb j (num_words t) then f (word s j) (word t j) else word s j)
  unfolding op_assign
  word-op_assign s t j = elim (dec_lt (num_words s) (num_words t)) [
    | yes p ↦
        let room : length t.words ≤ num_words (ensure_capacity s (num_bits t - 1)) =
          omega (arith, lt-ensure_capacity s (num_bits t - 1)) in
        ground (
          arith,
          word-op_words (ensure_capacity s (num_bits t - 1)).words t.words j room,
          word-ensure_capacity s (num_bits t - 1) j,
        )
    | no p ↦ ground (arith, word-op_words s.words t.words j (omega arith))
  ]

-- `s |= t` is the union, whichever of the two has more words.
pub test-or_assign : (s t : BitSet) (i : ℕ) → test (or_assign s t) i ≡ (test s i || test t i)
unfolding member
test-or_assign s t i =
    rw (test-eq-member (or_assign s t) i, test-eq-member s i, test-eq-member t i)
      (ground (
        arith,
        word-op_assign bit_or s t (i / 64),
        bit-bit_or (word s (i / 64)) (word t (i / 64)) (i % 64),
        get_or_beyond t.words (i / 64) 0,
        bit-zero (i % 64),
        bit-lt (word s (i / 64)) (i % 64),
        bit-lt (word t (i / 64)) (i % 64),
      ))

-- `s ^= t` is the symmetric difference, whichever of the two has more words.
pub test-xor_assign :
    (s t : BitSet) (i : ℕ)
    → test (xor_assign s t) i ≡ (if test t i then not (test s i) else test s i)
unfolding member
test-xor_assign s t i =
    rw (test-eq-member (xor_assign s t) i, test-eq-member s i, test-eq-member t i)
      (ground (
        arith,
        word-op_assign bit_xor s t (i / 64),
        bit-bit_xor (word s (i / 64)) (word t (i / 64)) (i % 64),
        get_or_beyond t.words (i / 64) 0,
        bit-zero (i % 64),
        bit-lt (word s (i / 64)) (i % 64),
        bit-lt (word t (i / 64)) (i % 64),
      ))

-- `s |= t` is the union and `s ^= t` the symmetric difference, whichever of the two has more words.
pub test-or_xor_assign :
    (s t : BitSet) (i : ℕ)
    → (test (or_assign s t) i ≡ (test s i || test t i))
      × (test (xor_assign s t) i ≡ (if test t i then not (test s i) else test s i))
test-or_xor_assign s t i = (test-or_assign s t i, test-xor_assign s t i)

-- `s &= t` is the intersection on the numbers that `t` has words for; a member of `s` beyond them
-- stays a member, though `t` does not hold it.
pub test-and_assign :
    (s t : BitSet) (i : ℕ)
    → test (and_assign s t) i ≡ (if ltb i (num_bits t) then test s i && test t i else test s i)
unfolding member
test-and_assign s t i =
    rw (test-eq-member (and_assign s t) i, test-eq-member s i, test-eq-member t i)
      (ground (
        arith,
        word-op_assign bit_and s t (i / 64),
        bit-bit_and (word s (i / 64)) (word t (i / 64)) (i % 64),
        bit-lt (word s (i / 64)) (i % 64),
        bit-lt (word t (i / 64)) (i % 64),
      ))

-- Reads agree everywhere.
abbrev SameWords : List ℕ → List ℕ → Type 0
SameWords xs ys = (j : ℕ) → get_or xs j 0 ≡ get_or ys j 0

all_zero-reads : (xs : List ℕ) → all_zero xs ≡ true → (j : ℕ) → get_or xs j 0 ≡ 0
unfolding all_zero
all_zero-reads [] h j = refl
all_zero-reads (x ∷ xs) h zero = ground arith
all_zero-reads (x ∷ xs) h (suc j) = all_zero-reads xs (ground arith) j

all_zero_of_reads : (xs : List ℕ) → ((j : ℕ) → get_or xs j 0 ≡ 0) → all_zero xs ≡ true
unfolding all_zero
all_zero_of_reads [] h = refl
all_zero_of_reads (x ∷ xs) h = ground (arith, h 0, all_zero_of_reads xs (λ j. h (suc j)))

eq_words-reads : (xs ys : List ℕ) → eq_words xs ys ≡ true → SameWords xs ys
unfolding eq_words
eq_words-reads [] ys h j = sym (all_zero-reads ys h j)
eq_words-reads (x ∷ xs) [] h j = all_zero-reads (x ∷ xs) h j
eq_words-reads (x ∷ xs) (y ∷ ys) h zero = ground arith
eq_words-reads (x ∷ xs) (y ∷ ys) h (suc j) = eq_words-reads xs ys (ground arith) j

eq_words_of_reads : (xs ys : List ℕ) → SameWords xs ys → eq_words xs ys ≡ true
unfolding eq_words
eq_words_of_reads [] ys h = all_zero_of_reads ys (λ j. sym (h j))
eq_words_of_reads (x ∷ xs) [] h = all_zero_of_reads (x ∷ xs) h
eq_words_of_reads (x ∷ xs) (y ∷ ys) h =
    ground (arith, h 0, eq_words_of_reads xs ys (λ j. h (suc j)))

-- Sets of bounded words with the same members read alike.
SameWords-of_members :
    (s t : BitSet)
    → IsBounded s
    → IsBounded t
    → ((i : ℕ) → member s i ≡ member t i)
    → SameWords s.words t.words
unfolding member
SameWords-of_members s t hs ht h j =
    bit_ext 64 (word s j) (word t j) (hs j) (ht j) (λ b lt. bits b lt)
  where
    bits : (b : ℕ) → b < 64 → bit (word s j) b ≡ bit (word t j) b
    bits b lt =
        let row : (j * 64 + b) / 64 ≡ j = omega arith in
        let col : (j * 64 + b) % 64 ≡ b = omega arith in
        ground (arith, rw (row, col) at (h (j * 64 + b)), bit-lt (word s j) b, bit-lt (word t j) b)

-- `==` decides whether the sets have the same members, whatever numbers of words they keep.
pub equal_iff :
    (s t : BitSet)
    → IsBounded s
    → IsBounded t
    → (equal s t ≡ true) ↔ ((i : ℕ) → test s i ≡ test t i)
unfolding equal member
equal_iff s t hs ht = (
  λ h i.
      test-eq-member s i
      ∙ ap (λ (w : ℕ). bit w (i % 64) == 1) (eq_words-reads s.words t.words h (i / 64))
      ∙ sym (test-eq-member t i),
  λ h.
      eq_words_of_reads s.words t.words
        (SameWords-of_members s t hs ht (λ i. sym (test-eq-member s i) ∙ h i ∙ test-eq-member t i)),
)

get_or-drop-zero :
    (xs : List ℕ) (n : ℕ) → ((i : ℕ) → get_or xs i 0 ≡ 0) → (i : ℕ) → get_or (drop n xs) i 0 ≡ 0
get_or-drop-zero xs n h i = get_or-drop n xs i 0 ∙ h (n + i)

get_or-copied :
    (xs ys : List ℕ) (j : ℕ) → ((i : ℕ) → get_or ys i 0 ≡ 0) → get_or (xs ++ ys) j 0 ≡ get_or xs j 0
get_or-copied [] ys j h = h j
get_or-copied (x ∷ xs) ys zero h = refl
get_or-copied (x ∷ xs) ys (suc j) h = get_or-copied xs ys j h

word-empty : (j : ℕ) → word empty j ≡ 0
word-empty zero = refl
word-empty (suc j) = refl

-- A copy has the members of the set that it was made from, and its padding.
pub test-copy : (s : BitSet) (i : ℕ) → (test (copy s) i ≡ test s i) × ((copy s).padding ≡ s.padding)
unfolding copy member
test-copy s i =
    let fresh = ensure_capacity empty (num_bits s - 1) in
    (
      test-eq-member (copy s) i
          ∙ ap (λ (w : ℕ). bit w (i % 64) == 1)
              (get_or-copied s.words (drop (num_words s) fresh.words) (i / 64) (
                get_or-drop-zero fresh.words (num_words s)
                  (λ j. word-ensure_capacity empty (num_bits s - 1) j ∙ word-empty j)))
          ∙ sym (test-eq-member s i),
      refl,
    )
