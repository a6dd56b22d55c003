-- ===== src/Util/BitSet/Members.antt =====
-- What each operation does to the set of members.
use thorin.Prelude.{
  ℕ, zero, suc, ◌/◌, ◌%◌, ◌≡◌, refl, ap, sym, ◌∙◌, arith, [], ◌∷◌, get_or, ◌==◌, not, if◌then◌else◌,
  Bool, true, false, bit_and, bit_or, bit_xor,
}
use thorin.Prelude.Bits.{bit, bit-lt, bit-zero}
use thorin.Util.BitSet.{
  BitSet, word, mask, ensure_capacity, test, set, toggle, clear, assign, read, clear_all,
  complement,
}
use thorin.Util.BitSet.Words.{
  member, test-eq-member, bit_test, word-ensure_capacity, word-update-ensure, bit-set_mask,
  bit-toggle_mask, bit-clear_mask,
}

-- After `set(i)` the members are the old ones and `i`, wherever the words had to grow.
pub test-set : (s : BitSet) (i j : ℕ) → test (set s i) j ≡ (if i == j then true else test s j)
unfolding set member
test-set s i j =
    rw (test-eq-member (set s i) j, test-eq-member s j)
      (ground (
        arith,
        word-update-ensure s i (j / 64) (λ w. bit_or w (mask i)),
        bit-set_mask (word s (j / 64)) (i % 64) (j % 64),
      ))

-- `toggle(i)` flips the membership of `i` and of nothing else.
pub test-toggle :
    (s : BitSet) (i j : ℕ) → test (toggle s i) j ≡ (if i == j then not (test s j) else test s j)
unfolding toggle member
test-toggle s i j =
    rw (test-eq-member (toggle s i) j, test-eq-member s j)
      (ground (
        arith,
        word-update-ensure s i (j / 64) (λ w. bit_xor w (mask i)),
        bit-toggle_mask (word s (j / 64)) (i % 64) (j % 64),
        bit-lt (word s (j / 64)) (j % 64),
      ))

-- `clear(i)` removes `i` and keeps every other member.
pub test-clear : (s : BitSet) (i j : ℕ) → test (clear s i) j ≡ (if i == j then false else test s j)
unfolding clear member
test-clear s i j =
    rw (test-eq-member (clear s i) j, test-eq-member s j)
      (ground (
        arith,
        word-update-ensure s i (j / 64) (λ w. bit_and w (complement (mask i))),
        bit-clear_mask (word s (j / 64)) (i % 64) (j % 64),
      ))

-- Writing through `s[i]` gives `i` the membership written and changes no other.
pub test-assign :
    (s : BitSet) (i j : ℕ) (b : Bool) → test (assign s i b) j ≡ (if i == j then b else test s j)
unfolding assign member
test-assign s i j true = rw (assign-true s i) (test-set s i j)
  where
    assign-true : (s : BitSet) (i : ℕ) → assign s i true ≡ set s i
    assign-true s i = unfold set in refl
test-assign s i j false = rw (assign-false s i) (test-clear s i j)
  where
    assign-false : (s : BitSet) (i : ℕ) → assign s i false ≡ clear s i
    assign-false s i = unfold clear in refl

-- Behind `set(i)`, `toggle(i)`, `clear(i)` and a write of `b` through `s[i]`, the membership of `i` is
-- true, flipped, false and `b`, and every other number is a member where it was one before, wherever
-- the words had to grow.
pub test-bit_operations :
    (s : BitSet) (i j : ℕ) (b : Bool)
    → (test (set s i) j ≡ (if i == j then true else test s j))
      × (test (toggle s i) j ≡ (if i == j then not (test s j) else test s j))
      × (test (clear s i) j ≡ (if i == j then false else test s j))
      × (test (assign s i b) j ≡ (if i == j then b else test s j))
test-bit_operations s i j b =
    (test-set s i j, test-toggle s i j, test-clear s i j, test-assign s i j b)

-- Reading through `s[i]` yields the membership of `i` and changes none, though the words may grow.
pub test-read :
    (s : BitSet) (i j : ℕ) → ((read s i).1 ≡ test s i) × (test (read s i).0 j ≡ test s j)
unfolding read member
test-read s i j = (
  bit_test (word (ensure_capacity s i) (i / 64)) (i % 64)
      ∙ ap (λ (w : ℕ). bit w (i % 64) == 1) (word-ensure_capacity s i (i / 64))
      ∙ sym (test-eq-member s i),
  test-eq-member (ensure_capacity s i) j
      ∙ ap (λ (w : ℕ). bit w (j % 64) == 1) (word-ensure_capacity s i (j / 64))
      ∙ sym (test-eq-member s j),
)

-- `clear()` leaves no member.
pub test-clear_all : (s : BitSet) (j : ℕ) → test (clear_all s) j ≡ false
unfolding clear_all member
test-clear_all s j = test-eq-member (clear_all s) j ∙ rw (get_or-zeros (j / 64), bit-zero (j % 64))
  where
    get_or-zeros : (j : ℕ) → get_or {A = ℕ} (0 ∷ []) j 0 ≡ 0
    get_or-zeros zero = refl
    get_or-zeros (suc j) = refl
