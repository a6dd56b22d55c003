-- ===== src/Util/BitSet.antt =====
-- thorin/util/bitset.h and bitset.cpp: a growing set of numbers, kept in 64-bit words.
-- The class keeps one word inline and more words behind a pointer; both are the list `words` here,
-- and its length is `num_words_`.
pub mod Words
pub mod Members
pub mod Algebra
pub mod Range
pub mod Shift
pub mod Valid
use mathlib.Core.Option
use thorin.Prelude.{
  ℕ, zero, suc, ◌+◌, ◌-◌, ◌*◌, ◌/◌, ◌%◌, ◌^◌, min, bit_and, bit_or, bit_xor, Bool, true, false, not,
  ◌&&◌, ◌||◌, Option, none, some, List, [], ◌∷◌, ◌++◌, ◌==◌, ltb, leb, if◌then◌else◌, length,
  get_elem?, get_or, set as set_word, replicate, drop,
}
use thorin.Util.Width.{bit_ceil, popcount}

pub record BitSet : Type 0 where
  pub words : List ℕ
  pub padding : ℕ

abbrev pub num_words : BitSet → ℕ
num_words s = length s.words

abbrev pub num_bits : BitSet → ℕ
num_bits s = num_words s * 64

-- The word at an index that the class knows to be in range.
abbrev pub word : BitSet → ℕ → ℕ
word s j = get_or s.words j 0

abbrev pub empty : BitSet
empty = record { words = 0 ∷ []; padding = 0 }

-- `~w` on a word.
abbrev pub complement : ℕ → ℕ
complement w = 2 ^ 64 - 1 - w

-- `1_u64 << i % 64_u64`
abbrev pub mask : ℕ → ℕ
mask i = 2 ^ (i % 64)

unfoldable pub ensure_capacity : BitSet → ℕ → BitSet
ensure_capacity s i =
    let num_new_words = (i + 64) / 64 in
    if ltb (num_words s) num_new_words
    then record s { words = s.words ++ replicate (bit_ceil num_new_words - num_words s) 0 }
    else s

unfoldable pub test : BitSet → ℕ → Bool
test s i =
    if leb (num_words s) (i / 64) then false else not (bit_and (word s (i / 64)) (mask i) == 0)

-- `*(words() + i/64_s) = f(...)` on the word that holds bit `i`.
abbrev pub update_word : BitSet → ℕ → (ℕ → ℕ) → BitSet
update_word s i f = record s { words = set_word s.words (i / 64) (f (word s (i / 64))) }

unfoldable pub set : BitSet → ℕ → BitSet
set s i = update_word (ensure_capacity s i) i (λ w. bit_or w (mask i))

unfoldable pub toggle : BitSet → ℕ → BitSet
toggle s i = update_word (ensure_capacity s i) i (λ w. bit_xor w (mask i))

unfoldable pub clear : BitSet → ℕ → BitSet
clear s i = update_word (ensure_capacity s i) i (λ w. bit_and w (complement (mask i)))

-- `clear()`: the words are given back and the inline word is zeroed; the padding stays.
unfoldable pub clear_all : BitSet → BitSet
clear_all s = record s { words = 0 ∷ [] }

-- `s[i] = b` through `BitSet::reference`.
unfoldable pub assign : BitSet → ℕ → Bool → BitSet
assign s i b =
    update_word (ensure_capacity s i) i
      (λ w. if b then bit_or w (mask i) else bit_and w (complement (mask i)))

-- `bool(s[i])`: even the constant operator may grow the words.
unfoldable pub read : BitSet → ℕ → BitSet × Bool
read s i = let s' = ensure_capacity s i in (s', not (bit_and (word s' (i / 64)) (mask i) == 0))

-- The copy constructor.
unfoldable pub copy : BitSet → BitSet
copy other =
    let s = ensure_capacity empty (num_bits other - 1) in
    record { words = other.words ++ drop (num_words other) s.words; padding = other.padding }

-- The loop of `op_assign`, which runs over the words of the other set.
unfoldable pub op_words : (ℕ → ℕ → ℕ) → List ℕ → List ℕ → List ℕ
op_words f [] ys = []
op_words f (x ∷ xs) [] = x ∷ xs
op_words f (x ∷ xs) (y ∷ ys) = f x y ∷ op_words f xs ys

unfoldable pub op_assign : (ℕ → ℕ → ℕ) → BitSet → BitSet → BitSet
unfolding op_words
op_assign f s other =
    let s' =
      if ltb (num_words s) (num_words other) then ensure_capacity s (num_bits other - 1) else s in
    record s' { words = op_words f s'.words other.words }

abbrev pub and_assign : BitSet → BitSet → BitSet
and_assign = op_assign bit_and

abbrev pub or_assign : BitSet → BitSet → BitSet
or_assign = op_assign bit_or

abbrev pub xor_assign : BitSet → BitSet → BitSet
xor_assign = op_assign bit_xor

-- `&`, `|` and `^` work on a copy.
abbrev pub and_sets : BitSet → BitSet → BitSet
and_sets s b = and_assign (copy s) b

abbrev pub or_sets : BitSet → BitSet → BitSet
or_sets s b = or_assign (copy s) b

abbrev pub xor_sets : BitSet → BitSet → BitSet
xor_sets s b = xor_assign (copy s) b

count_words : List ℕ → ℕ
count_words [] = 0
count_words (w ∷ ws) = popcount w + count_words ws

unfoldable pub count : BitSet → ℕ
unfolding count_words
count s = count_words s.words

-- `operator==`: the common words agree, and what either set has beyond them is zero.
unfoldable pub all_zero : List ℕ → Bool
all_zero [] = true
all_zero (w ∷ ws) = w == 0 && all_zero ws

unfoldable pub eq_words : List ℕ → List ℕ → Bool
unfolding all_zero
eq_words [] ys = all_zero ys
eq_words (x ∷ xs) [] = all_zero (x ∷ xs)
eq_words (x ∷ xs) (y ∷ ys) = x == y && eq_words xs ys

unfoldable pub equal : BitSet → BitSet → Bool
unfolding eq_words
equal s t = eq_words s.words t.words

-- `begin_mask` and `end_mask`: the bits from `i % 64` on, and the bits below.
unfoldable pub begin_mask : ℕ → ℕ
begin_mask i = (2 ^ 64 - 1) * 2 ^ (i % 64) % 2 ^ 64

unfoldable pub end_mask : ℕ → ℕ
unfolding begin_mask
end_mask i = complement (begin_mask i)

-- The loop over the words between the first and the last one. `none` is a read outside the words;
-- with `n` the words from `i` to the end of the words the loop can only stop at `e` or by a read
-- outside, so `length words + 1` rounds are enough fuel.
unfoldable pub any_words : ℕ → List ℕ → ℕ → ℕ → Bool → Option Bool
any_words zero ws i e result = none
any_words (suc f) ws i e result =
    if result || i == e
    then some result
    else elim (get_elem? ws i) [ none ↦ none | some w ↦ any_words f ws (i + 1) e (not (w == 0)) ]

-- `result || (emask && (words_[i] & emask))`
unfoldable pub any_last : List ℕ → ℕ → ℕ → Bool → Option Bool
any_last ws i emask result =
    if result
    then some true
    else if emask == 0
    then some false
    else Option.map (λ w. not (bit_and w emask == 0)) (get_elem? ws i)

unfoldable pub any_range : BitSet → ℕ → ℕ → Option Bool
unfolding any_words any_last begin_mask end_mask
any_range s begin end =
    if leb end begin
    then some false
    else let end' = min end (num_bits s) in
      let i = begin / 64 in
      let e = end' / 64 in
      elim (get_elem? s.words i) [
        | none ↦ none
        | some w ↦
            if i == e
            then some (not (bit_and (bit_and w (begin_mask begin)) (end_mask end') == 0))
            else elim (any_words (num_words s + 1) s.words (i + 1) e
                (not (bit_and w (begin_mask begin) == 0))) [
                  | none ↦ none
                  | some result ↦ any_last s.words e (end_mask end') result
                ]
      ]

abbrev pub any_end : BitSet → ℕ → Option Bool
any_end s end = any_range s 0 end

abbrev pub any_begin : BitSet → ℕ → Option Bool
any_begin s begin = any_range s begin (num_bits s)

abbrev pub any : BitSet → Option Bool
any s = any_range s 0 (num_bits s)

-- `operator>>=`. First `w[i] = w[i + div]`, from `i` on for `n` rounds.
unfoldable pub move_down : ℕ → ℕ → ℕ → List ℕ → List ℕ
move_down zero div i ws = ws
move_down (suc n) div i ws = move_down n div (i + 1) (set_word ws i (get_or ws (i + div) 0))

-- `std::fill` with zeros, from `i` on for `n` words.
unfoldable pub fill_zero : ℕ → ℕ → List ℕ → List ℕ
fill_zero zero i ws = ws
fill_zero (suc n) i ws = fill_zero n (i + 1) (set_word ws i 0)

-- The bits that leave a word for the one below it: `w << (64 - rem)`.
abbrev pub carry_of : ℕ → ℕ → ℕ
carry_of rem w = w * 2 ^ (64 - rem) % 2 ^ 64

-- The loop from the last word down to the first.
unfoldable pub carry_down : ℕ → ℕ → List ℕ → ℕ → List ℕ
carry_down rem zero ws carry = ws
carry_down rem (suc i) ws carry =
    let w = get_or ws i 0 in
    carry_down rem i (set_word ws i (bit_or (w / 2 ^ rem) carry)) (carry_of rem w)

-- `none` stands for undefined behaviour: with `rem == 0` the loop shifts a word by 64 bits.
unfoldable pub shift_right : BitSet → ℕ → Option BitSet
unfolding move_down fill_zero carry_down
shift_right s shift =
    let div = shift / 64 in
    let rem = shift % 64 in
    if leb (num_words s) div
    then some (clear_all s)
    else if rem == 0
    then none
    else let n = num_words s - div in
      some (record s { words = carry_down rem n (fill_zero div n (move_down n div 0 s.words)) 0 })
