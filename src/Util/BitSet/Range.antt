-- ===== src/Util/BitSet/Range.antt =====
-- `any_range`: masks for the first and the last word, and a loop over the words between.
mod Mask
use native.Mathlib.Decide.{dec_lt, ℕ_discrete}
use thorin.Prelude.{
  ℕ, zero, suc, ◌+◌, ◌-◌, ◌*◌, ◌/◌, ◌%◌, ◌^◌, ◌≤◌, ◌<◌, ◌≡◌, ◌≢◌, ◌↔◌, ◌⊎◌, inl, inr, refl, ap, sym,
  ◌∙◌, arith, List, ◌==◌, not, ltb, leb, if◌then◌else◌, Bool, true, false, ◌||◌, Option, some, none,
  bit_and, length, get_or, get_elem?, get_elem?-eq-get_or, get_elem?_beyond, min,
}
use thorin.Prelude.Bits.{bit, bit-lt, bit-zero, bit-bit_and, bit_and-lt}
use Mask.{masked_iff, bit-begin_mask, bit-end_mask, end_mask-zero, nonzero_iff}
use thorin.Util.BitSet.{
  BitSet, num_words, num_bits, word, test, begin_mask, end_mask, any_words, any_last, any_range,
}
use thorin.Util.BitSet.Words.{member, IsBounded, test-eq-member}

-- A word between `i` and `e` is not zero.
abbrev SomeWord : List ℕ → ℕ → ℕ → Type 0
SomeWord ws i e = (j : ℕ) × (i ≤ j) × (j < e) × (get_or ws j 0 ≢ 0)

-- The loop stops inside the words and reports whether it started with `true` or met a word.
any_words_lem :
    (f : ℕ) (ws : List ℕ) (i e : ℕ) (r : Bool)
    → i ≤ e
    → e ≤ length ws
    → e < i + f
    → (r' : Bool) × (any_words f ws i e r ≡ some r')
      × ((r' ≡ true) ↔ ((r ≡ true) ⊎ SomeWord ws i e))
unfolding any_words
any_words_lem zero ws i e r le fits fuel = absurd (omega arith)
any_words_lem (suc f) ws i e true le fits fuel = (true, refl, (λ _. inl refl, λ _. refl))
any_words_lem (suc f) ws i e false le fits fuel = elim (ℕ_discrete i e) [
  | yes same ↦ (
    false,
    ground arith,
    (λ h. inl h, λ h. elim h [ inl t ↦ t | inr (j, lo, hi, _) ↦ absurd (omega arith) ]),
  )
  | no other ↦
      let read = get_elem?-eq-get_or ws i 0 (omega arith) in
      let (r', run, iff) =
        any_words_lem f ws (i + 1) e (not (get_or ws i 0 == 0)) (omega arith) fits (omega arith) in
      (
        r',
        ground (arith, read, run),
        (
          λ h. elim (iff.0 h) [
            | inl t ↦ inr (i, omega arith, omega arith, ground arith)
            | inr (j, lo, hi, nz) ↦ inr (j, omega arith, hi, nz)
          ],
          λ h. elim h [
            | inl t ↦ cc
            | inr (j, lo, hi, nz) ↦ elim (ℕ_discrete i j) [
              | yes here ↦ iff.1 (inl (ground arith))
              | no later ↦ iff.1 (inr (j, omega arith, hi, nz))
            ]
          ],
        ),
      )
]

-- A member of the set between `lo` and `hi`.
abbrev pub HasMember : BitSet → ℕ → ℕ → Type 0
HasMember s lo hi = (k : ℕ) × (lo ≤ k) × (k < hi) × (test s k ≡ true)

-- The member at bit `b` of word `j`.
test_at : (s : BitSet) (j b : ℕ) → b < 64 → bit (word s j) b ≡ 1 → test s (j * 64 + b) ≡ true
unfolding member
test_at s j b lt one =
    let row : (j * 64 + b) / 64 ≡ j = omega arith in
    let col : (j * 64 + b) % 64 ≡ b = omega arith in
    test-eq-member s (j * 64 + b) ∙ rw (row, col, one) refl

bit_of_test : (s : BitSet) (k : ℕ) → test s k ≡ true → bit (word s (k / 64)) (k % 64) ≡ 1
unfolding member
bit_of_test s k h = let m = sym (test-eq-member s k) ∙ h in ground arith

not_zero_iff : (n : ℕ) → (not (n == 0) ≡ true) ↔ (n ≢ 0)
not_zero_iff n = ground arith

module _ (s : BitSet) (bounded : IsBounded s) (begin e : ℕ) (inside : begin < num_bits s) where
  -- The range within one word.
  one_word :
      begin < e
      → begin / 64 ≡ e / 64
      → (not (bit_and (bit_and (word s (begin / 64)) (begin_mask begin)) (end_mask e) == 0) ≡ true)
        ↔ HasMember s begin e
  one_word order same = (to, from)
    where
      w : ℕ
      w = word s (begin / 64)

      to :
          not (bit_and (bit_and w (begin_mask begin)) (end_mask e) == 0) ≡ true
          → HasMember s begin e
      to h =
          let small = bit_and-lt 64 w (begin_mask begin) (bounded (begin / 64)) in
          let (b, lt, one, hi) = (masked_iff _ (end_mask e) small).0 ((not_zero_iff _).0 h) in
          let both = bit-bit_and w (begin_mask begin) b in
          let one_w : bit w b ≡ 1 = omega (arith, both, bit-lt w b, bit-lt (begin_mask begin) b) in
          (
            begin / 64 * 64 + b,
            ground (arith, both, bit-begin_mask begin b, bit-lt w b),
            ground (arith, bit-end_mask e b),
            test_at s (begin / 64) b lt one_w,
          )

      from :
          HasMember s begin e
          → not (bit_and (bit_and w (begin_mask begin)) (end_mask e) == 0) ≡ true
      from (k, lo, hi, m) =
          let row : k / 64 ≡ begin / 64 = omega arith in
          let small = bit_and-lt 64 w (begin_mask begin) (bounded (begin / 64)) in
          let one = rw row at (bit_of_test s k m) in
          (not_zero_iff _).1 (
            (masked_iff _ (end_mask e) small).1 (
              k % 64,
              omega arith,
              ground (
                arith,
                one,
                bit-bit_and w (begin_mask begin) (k % 64),
                bit-begin_mask begin (k % 64),
              ),
              ground (arith, bit-end_mask e (k % 64)),
            ))

  -- A bit of the first word, and one of the last word, that lie in the range.
  FirstBit : Type 0
  FirstBit = (b : ℕ) × (b < 64) × (begin % 64 ≤ b) × (bit (word s (begin / 64)) b ≡ 1)

  LastBit : Type 0
  LastBit = (b : ℕ) × (b < e % 64) × (bit (word s (e / 64)) b ≡ 1)

  first_iff : (not (bit_and (word s (begin / 64)) (begin_mask begin) == 0) ≡ true) ↔ FirstBit
  unfolding FirstBit
  first_iff =
      let w = word s (begin / 64) in
      let iff = masked_iff w (begin_mask begin) (bounded (begin / 64)) in
      (
        λ h.
            let (b, lt, one, m) = iff.0 ((not_zero_iff _).0 h) in
            (b, lt, ground (arith, bit-begin_mask begin b lt), one),
        λ (b, lt, le, one).
            (not_zero_iff _).1 (iff.1 (b, lt, one, ground (arith, bit-begin_mask begin b lt))),
      )

  last_iff : (not (bit_and (word s (e / 64)) (end_mask e) == 0) ≡ true) ↔ LastBit
  unfolding LastBit
  last_iff =
      let w = word s (e / 64) in
      let iff = masked_iff w (end_mask e) (bounded (e / 64)) in
      (
        λ h.
            let (b, lt, one, m) = iff.0 ((not_zero_iff _).0 h) in
            (b, ground (arith, bit-end_mask e b lt), one),
        λ (b, lt, one).
            (not_zero_iff _).1
              (iff.1 (b, omega arith, one, ground (arith, bit-end_mask e b (omega arith)))),
      )

  -- The last step reads a word only where the mask is not empty, and there is one.
  any_last_lem :
      (result : Bool)
      → e ≤ num_bits s
      → (r : Bool) × (any_last s.words (e / 64) (end_mask e) result ≡ some r)
        × ((r ≡ true) ↔ ((result ≡ true) ⊎ LastBit))
  unfolding any_last
  any_last_lem true fits = (true, refl, (λ _. inl refl, λ _. refl))
  any_last_lem false fits = elim (ℕ_discrete (e % 64) 0) [
    | yes border ↦ (
      false,
      rw (end_mask-zero e border) refl,
      (λ h. inl h, λ h. elim h [ inl t ↦ t | inr l ↦ absurd (no_last border l) ]),
    )
    | no partial ↦
        let read = get_elem?-eq-get_or s.words (e / 64) 0 (omega arith) in
        let some_bit = bit-end_mask e 0 (omega arith) in
        let used : end_mask e ≢ 0 =
          λ z. ground (arith, some_bit, bit-zero 0, ap (λ (t : ℕ). bit t 0) z) in
        (
          not (bit_and (word s (e / 64)) (end_mask e) == 0),
          ground (arith, read, used),
          (λ h. inr (last_iff.0 h), λ h. elim h [ inl t ↦ cc | inr l ↦ last_iff.1 l ]),
        )
  ]
    where
      no_last : e % 64 ≡ 0 → LastBit → ⊥
      no_last border l = unfold LastBit in omega (arith, l.1)

  -- The members of a range over several words lie in the first, in the last, or in a word between.
  several_iff :
      begin / 64 < e / 64
      → HasMember s begin e ↔ (((FirstBit ⊎ SomeWord s.words (begin / 64 + 1) (e / 64))) ⊎ LastBit)
  unfolding FirstBit LastBit
  several_iff apart = (to, from)
    where
      to : HasMember s begin e → (FirstBit ⊎ SomeWord s.words (begin / 64 + 1) (e / 64)) ⊎ LastBit
      to (k, lo, hi, m) =
          let one = bit_of_test s k m in
          elim (ℕ_discrete (k / 64) (begin / 64)) [
            | yes low ↦ inl (inl (k % 64, omega arith, omega arith, rw low at one))
            | no over ↦ elim (ℕ_discrete (k / 64) (e / 64)) [
              | yes high ↦ inr (k % 64, omega arith, rw high at one)
              | no under ↦ inl (
                  inr (
                    k / 64,
                    omega arith,
                    omega arith,
                    (nonzero_iff _ (bounded (k / 64))).1 (k % 64, omega arith, one),
                  ))
            ]
          ]

      from : (FirstBit ⊎ SomeWord s.words (begin / 64 + 1) (e / 64)) ⊎ LastBit → HasMember s begin e
      from (inl (inl (b, lt, le, one))) =
          (begin / 64 * 64 + b, omega arith, omega arith, test_at s (begin / 64) b lt one)
      from (inl (inr (j, lo, hi, nz))) =
          let (b, lt, one) = (nonzero_iff (word s j) (bounded j)).0 nz in
          (j * 64 + b, omega arith, omega arith, test_at s j b lt one)
      from (inr (b, lt, one)) =
          (e / 64 * 64 + b, omega arith, omega arith, test_at s (e / 64) b (omega arith) one)

  several_words :
      e ≤ num_bits s
      → begin / 64 < e / 64
      → (r : Bool) × (elim (any_words
            (num_words s + 1)
            s.words
            (begin / 64 + 1)
            (e / 64)
            (not (bit_and (word s (begin / 64)) (begin_mask begin) == 0))) [
              | none ↦ none
              | some result ↦ any_last s.words (e / 64) (end_mask e) result
            ]
          ≡ some r)
        × ((r ≡ true) ↔ HasMember s begin e)
  several_words fits apart =
      let (mid, run, mid_iff) =
        any_words_lem (num_words s + 1) s.words (begin / 64 + 1) (e / 64)
          (not (bit_and (word s (begin / 64)) (begin_mask begin) == 0)) (omega arith) (omega arith)
          (omega arith) in
      let (r, last, r_iff) = any_last_lem mid fits in
      let parts = several_iff apart in
      (
        r,
        rw run last,
        (
          λ h. parts.1 (elim (r_iff.0 h) [
            | inl m ↦ inl (elim (mid_iff.0 m) [ inl f ↦ inl (first_iff.0 f) | inr w ↦ inr w ])
            | inr l ↦ inr l
          ]),
          λ h. r_iff.1 (elim (parts.0 h) [
            | inl (inl f) ↦ inl (mid_iff.1 (inl (first_iff.1 f)))
            | inl (inr w) ↦ inl (mid_iff.1 (inr w))
            | inr l ↦ inr l
          ]),
        ),
      )

-- Beyond the words there is no member, so the range may be cut at the last bit.
HasMember-cut : (s : BitSet) (lo hi : ℕ) → HasMember s lo hi ↔ HasMember s lo (min hi (num_bits s))
HasMember-cut s lo hi =
    (λ (k, p, q, m). (k, p, omega (arith, inside k m), m), λ (k, p, q, m). (k, p, omega arith, m))
  where
    inside : (k : ℕ) → test s k ≡ true → k < num_bits s
    inside k m = unfold test in ground arith

-- On words of 64 bits, and for a range that is empty or begins inside the words, `any_range`
-- reads no word outside the set and decides whether the set has a member in `[begin, end[`.
pub any_range_iff :
    (s : BitSet) (begin end : ℕ)
    → IsBounded s
    → (end ≤ begin) ⊎ (begin < num_bits s)
    → (r : Bool) × (any_range s begin end ≡ some r) × ((r ≡ true) ↔ HasMember s begin end)
unfolding any_range
any_range_iff s begin end bounded ok = elim (dec_lt begin end) [
  | no empty ↦ (false, ground arith, (λ h. cc, λ (k, lo, hi, m). absurd (omega arith)))
  | yes order ↦ go order (omega arith)
]
  where
    go :
        begin < end
        → begin < num_bits s
        → (r : Bool) × (any_range s begin end ≡ some r) × ((r ≡ true) ↔ HasMember s begin end)
    go order inside =
        let e = min end (num_bits s) in
        let read = get_elem?-eq-get_or s.words (begin / 64) 0 (omega arith) in
        let cut = HasMember-cut s begin end in
        elim (ℕ_discrete (begin / 64) (e / 64)) [
          | yes same ↦
              let iff = one_word s bounded begin e inside (omega arith) same in
              (
                not (bit_and (bit_and (word s (begin / 64)) (begin_mask begin)) (end_mask e) == 0),
                ground (arith, read),
                (λ h. cut.1 (iff.0 h), λ h. iff.1 (cut.0 h)),
              )
          | no apart ↦
              let (r, run, iff) =
                several_words s bounded begin e inside (omega arith) (omega arith) in
              (r, ground (arith, read, run), (λ h. cut.1 (iff.0 h), λ h. iff.1 (cut.0 h)))
        ]

-- A range that begins beyond the words and is not empty makes `any_range` read outside them.
pub any_range-eq-none :
    (s : BitSet) (begin end : ℕ) → num_bits s ≤ begin → begin < end → any_range s begin end ≡ none
unfolding any_range
any_range-eq-none s begin end outside order = ground (arith, get_elem?_beyond s.words (begin / 64))
