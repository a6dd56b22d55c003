-- ===== src/Util/BitSet/Shift.antt =====
-- `operator>>=`: the three loops, word by word and then bit by bit.
use native.Mathlib.Decide.{dec_lt}
use thorin.Prelude.{
  ℕ, zero, suc, ◌+◌, ◌-◌, ◌*◌, ◌/◌, ◌%◌, ◌^◌, ◌≤◌, ◌<◌, ◌≡◌, ◌≢◌, ◌⊎◌, refl, ap, sym, ◌∙◌, arith,
  List, ◌==◌, ltb, if◌then◌else◌, some, none, false, bit_or, length, get_or, get_or-set,
  get_or_beyond, length-set, set,
}
use thorin.Prelude.Bits.{bit, bit-lt, bit-zero, bit-bit_or, bit-mod, bit-shl, bit-shr, bit_beyond}
use thorin.Util.BitSet.{
  BitSet, num_words, word, test, clear_all, move_down, fill_zero, carry_of, carry_down, shift_right,
}
use thorin.Util.BitSet.Words.{member, IsBounded, test-eq-member}
use thorin.Util.BitSet.Members.{test-clear_all}

length-move_down : (n div i : ℕ) (ws : List ℕ) → length (move_down n div i ws) ≡ length ws
unfolding move_down
length-move_down zero div i ws = refl
length-move_down (suc n) div i ws =
    length-move_down n div (i + 1) (set ws i (get_or ws (i + div) 0)) ∙ length-set ws i _

get_or-move_down :
    (n div i j : ℕ) (ws : List ℕ)
    → i + n ≤ length ws
    → get_or (move_down n div i ws) j 0 ≡ (
        if ltb j i
        then get_or ws j 0
        else if ltb j (i + n)
        then get_or ws (j + div) 0
        else get_or ws j 0)
unfolding move_down
get_or-move_down zero div i j ws h = ground arith
get_or-move_down (suc n) div i j ws h =
    let v = get_or ws (i + div) 0 in
    ground (
      arith,
      get_or-move_down n div (i + 1) j (set ws i v) (omega (arith, length-set ws i v)),
      get_or-set ws i j v 0,
      get_or-set ws i (j + div) v 0,
    )

get_or-fill_zero :
    (n i j : ℕ) (ws : List ℕ)
    → i + n ≤ length ws
    → get_or (fill_zero n i ws) j 0
      ≡ (if ltb j i then get_or ws j 0 else if ltb j (i + n) then 0 else get_or ws j 0)
unfolding fill_zero
get_or-fill_zero zero i j ws h = ground arith
get_or-fill_zero (suc n) i j ws h = ground (
  arith,
  get_or-fill_zero n (i + 1) j (set ws i 0) (omega (arith, length-set ws i 0)),
  get_or-set ws i j 0 0,
)

length-fill_zero : (n i : ℕ) (ws : List ℕ) → length (fill_zero n i ws) ≡ length ws
unfolding fill_zero
length-fill_zero zero i ws = refl
length-fill_zero (suc n) i ws = length-fill_zero n (i + 1) (set ws i 0) ∙ length-set ws i 0

-- The word above `j`, where `v` is the one that the loop has just left.
abbrev above : ℕ → List ℕ → ℕ → ℕ → ℕ
above n ws v j = if j + 1 == n then v else get_or ws (j + 1) 0

get_or-carry_down :
    (rem n v j : ℕ) (ws : List ℕ)
    → n ≤ length ws
    → get_or (carry_down rem n ws (carry_of rem v)) j 0 ≡ (
        if ltb j n
        then bit_or (get_or ws j 0 / 2 ^ rem) (carry_of rem (above n ws v j))
        else get_or ws j 0)
unfolding carry_down
get_or-carry_down rem zero v j ws h = ground arith
get_or-carry_down rem (suc n) v j ws h =
    let w = get_or ws n 0 in
    let x = bit_or (w / 2 ^ rem) (carry_of rem v) in
    ground (
      arith,
      get_or-carry_down rem n w j (set ws n x) (omega (arith, length-set ws n x)),
      get_or-set ws n j x 0,
      get_or-set ws n (j + 1) x 0,
    )

-- The two halves of a shifted word are the bits `rem` places up.
bit_of_halves :
    (rem a b c : ℕ)
    → 0 < rem
    → rem < 64
    → c < 64
    → a < 2 ^ 64
    → bit (bit_or (a / 2 ^ rem) (carry_of rem b)) c
      ≡ (if ltb (rem + c) 64 then bit a (rem + c) else bit b (rem + c - 64))
bit_of_halves rem a b c pos lt hc ha =
    let gap : c - (64 - rem) ≡ rem + c - 64 = omega arith in
    ground (
      arith,
      bit-bit_or (a / 2 ^ rem) (carry_of rem b) c,
      bit-shr rem a c,
      bit-mod 64 (b * 2 ^ (64 - rem)) c,
      bit-shl (64 - rem) b c,
      bit_beyond 64 a (rem + c) ha,
      ap (λ (t : ℕ). bit b t) gap,
      bit-lt a (rem + c),
      bit-lt b (rem + c - 64),
    )

module _ (s : BitSet) (shift : ℕ) (bounded : IsBounded s) where
  moved : List ℕ
  moved =
      fill_zero (shift / 64) (num_words s - shift / 64)
        (move_down (num_words s - shift / 64) (shift / 64) 0 s.words)

  -- After the copy and the fill every word is the one `div` places up, and zero beyond.
  get_or-moved : (j : ℕ) → shift / 64 < num_words s → get_or moved j 0 ≡ word s (j + shift / 64)
  unfolding moved
  get_or-moved j inside =
      let n = num_words s - shift / 64 in
      let down = move_down n (shift / 64) 0 s.words in
      let long = length-move_down n (shift / 64) 0 s.words in
      ground (
        arith,
        get_or-fill_zero (shift / 64) n j down (omega arith),
        get_or-move_down n (shift / 64) 0 j s.words (omega arith),
        get_or_beyond s.words (j + shift / 64) 0,
        get_or_beyond down j 0,
      )

  shifted : List ℕ
  shifted = carry_down (shift % 64) (num_words s - shift / 64) moved 0

  get_or-shifted :
      (j : ℕ)
      → shift / 64 < num_words s
      → j < num_words s - shift / 64
      → get_or shifted j 0
        ≡ bit_or
            (word s (j + shift / 64) / 2 ^ (shift % 64))
            (carry_of (shift % 64) (word s (j + 1 + shift / 64)))
  unfolding shifted
  get_or-shifted j inside lt =
      let start : carry_of (shift % 64) 0 ≡ 0 = omega arith in
      let n = num_words s - shift / 64 in
      let long : length moved ≡ num_words s =
        unfold moved in
        length-fill_zero (shift / 64) n (move_down n (shift / 64) 0 s.words)
        ∙ length-move_down n (shift / 64) 0 s.words in
      let run = get_or-carry_down (shift % 64) n 0 j moved (omega (arith, long)) in
      let top : above n moved 0 j ≡ word s (j + 1 + shift / 64) =
        ground (arith, get_or-moved (j + 1) inside, get_or_beyond s.words (j + 1 + shift / 64) 0) in
      ground (arith, rw (start, top) at run, get_or-moved j inside)

  get_or-shifted_beyond :
      (j : ℕ) → shift / 64 < num_words s → num_words s - shift / 64 ≤ j → get_or shifted j 0 ≡ 0
  unfolding shifted
  get_or-shifted_beyond j inside le =
      let start : carry_of (shift % 64) 0 ≡ 0 = omega arith in
      let n = num_words s - shift / 64 in
      let long : length moved ≡ num_words s =
        unfold moved in
        length-fill_zero (shift / 64) n (move_down n (shift / 64) 0 s.words)
        ∙ length-move_down n (shift / 64) 0 s.words in
      let run = get_or-carry_down (shift % 64) n 0 j moved (omega (arith, long)) in
      ground
        (arith, rw start at run, get_or-moved j inside, get_or_beyond s.words (j + shift / 64) 0)

  member-shifted :
      (i : ℕ)
      → shift / 64 < num_words s
      → shift % 64 ≢ 0
      → bit (get_or shifted (i / 64) 0) (i % 64)
        ≡ bit (word s ((i + shift) / 64)) ((i + shift) % 64)
  member-shifted i inside odd = elim (dec_lt (i / 64) (num_words s - shift / 64)) [
    | yes low ↦
        let halves =
          bit_of_halves (shift % 64) (word s (i / 64 + shift / 64))
            (word s (i / 64 + 1 + shift / 64)) (i % 64) (omega arith) (omega arith) (omega arith)
            (bounded (i / 64 + shift / 64)) in
        rw (get_or-shifted (i / 64) inside low, halves)
          (elim (dec_lt (shift % 64 + i % 64) 64) [
            | yes same ↦
                let row : (i + shift) / 64 ≡ i / 64 + shift / 64 = omega arith in
                let col : (i + shift) % 64 ≡ shift % 64 + i % 64 = omega arith in
                rw (row, col) (ground arith)
            | no next ↦
                let row : (i + shift) / 64 ≡ i / 64 + 1 + shift / 64 = omega arith in
                let col : (i + shift) % 64 ≡ shift % 64 + i % 64 - 64 = omega arith in
                rw (row, col) (ground arith)
          ])
    | no high ↦ rw (
      get_or-shifted_beyond (i / 64) inside (omega arith),
      get_or_beyond s.words ((i + shift) / 64) 0 (omega arith),
      bit-zero (i % 64),
      bit-zero ((i + shift) % 64),
    )
  ]

-- A shift that is no multiple of 64, or that leaves no word, moves every member down by the shift
-- and drops the members below it.
pub test-shift_right :
    (s : BitSet) (shift : ℕ)
    → IsBounded s
    → (shift % 64 ≢ 0) ⊎ (num_words s ≤ shift / 64)
    → (t : BitSet) × (shift_right s shift ≡ some t) × ((i : ℕ) → test t i ≡ test s (i + shift))
unfolding shift_right member shifted moved
test-shift_right s shift bounded ok = elim (dec_lt (shift / 64) (num_words s)) [
  | yes inside ↦
      let t : BitSet = record s { words = shifted s shift bounded } in
      (
        t,
        ground arith,
        λ i.
            test-eq-member t i
            ∙ ap (λ (n : ℕ). n == 1) (member-shifted s shift bounded i inside (omega arith))
            ∙ sym (test-eq-member s (i + shift)),
      )
  | no outside ↦ (
    clear_all s,
    ground arith,
    λ i. test-clear_all s i ∙ sym (test_outside (i + shift) (omega arith)),
  )
]
  where
    test_outside : (k : ℕ) → num_words s ≤ k / 64 → test s k ≡ false
    test_outside k le = unfold test in ground arith

-- A shift by a multiple of 64 that leaves a word is undefined behaviour: the loop shifts a word by
-- 64 bits.
pub shift_right-eq-none :
    (s : BitSet) (words : ℕ) → words < num_words s → shift_right s (words * 64) ≡ none
unfolding shift_right
shift_right-eq-none s words h = ground arith
