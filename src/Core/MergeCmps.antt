-- ===== src/Core/MergeCmps.antt =====
-- `merge_cmps` of dialects/core/normalizers.cpp: a bit operation on two comparisons of the same
-- operands becomes one comparison, whose sub tag is computed bit by bit through the truth table.
use thorin.Prelude.{
  ℕ, zero, suc, ◌+◌, ◌-◌, ◌*◌, ◌/◌, ◌%◌, ◌^◌, ◌≤◌, ◌<◌, ◌≡◌, refl, ap, ◌∙◌, arith, Bool, true,
  false, ◌==◌, if◌then◌else◌, bit_or, bit_and, holds_below, holds_below_sound, ==_iff,
}
use thorin.Prelude.Bits.{bit, bit_and_mask}
use thorin.Core.Fold.{Width, flag, fold_icmp, low}
use thorin.Core.Fold.Compare.{
  fold_icmp-relation, relation, Relation, relation_bit, plus_minus, minus_plus, greater, less,
  equal,
}

-- `tab[a_sub & 1][b_sub & 1] << 7`, cut to the eight bits of `res`.
abbrev entry : (Bool → Bool → Bool) → ℕ → ℕ → ℕ
entry tab x y = if tab (bit_and x 1 == 1) (bit_and y 1 == 1) then 0x80 else 0

-- The loop over `n` bits of the sub tags; `res`, `a_sub` and `b_sub` are shifted after each.
unfoldable pub merge_bits : (Bool → Bool → Bool) → ℕ → ℕ → ℕ → ℕ → ℕ
merge_bits tab zero res x y = res
merge_bits tab (suc n) res x y = merge_bits tab n (bit_or res (entry tab x y) / 2) (x / 2) (y / 2)

-- The sub tag of the merged comparison, where the comparisons have `num_bits` flags.
unfoldable pub merge_sub : (Bool → Bool → Bool) → ℕ → ℕ → ℕ → ℕ
unfolding merge_bits
merge_sub tab num_bits x y = merge_bits tab num_bits 0 x y / 2 ^ (7 - num_bits)

or_table : holds_below 128 (λ x. bit_or x 0x80 == x + 0x80) ≡ true
unfolding holds_below
or_table = refl

push_one : (r : ℕ) → r < 128 → bit_or r 0x80 ≡ r + 0x80
push_one r h = (==_iff _ _).0 (holds_below_sound 128 _ r or_table h)

keep_table : holds_below 128 (λ x. bit_or x 0 == x) ≡ true
unfolding holds_below
keep_table = refl

push_zero : (r : ℕ) → r < 128 → bit_or r 0 ≡ r
push_zero r h = (==_iff _ _).0 (holds_below_sound 128 _ r keep_table h)

abbrev digit : Bool → ℕ
digit true = 1
digit false = 0

-- The entry for bit `i` of the two sub tags, as a digit.
abbrev merged : (Bool → Bool → Bool) → ℕ → ℕ → ℕ → ℕ
merged tab x y i = digit (tab (flag x i) (flag y i))

push :
    (tab : Bool → Bool → Bool) (r x y : ℕ)
    → r < 128
    → bit_or r (entry tab x y) / 2 ≡ r / 2 + 64 * merged tab x y 0
unfolding bit
push tab r x y h =
    rw (bit_and_mask 1 x, bit_and_mask 1 y) (by_entry (tab (x % 2 == 1) (y % 2 == 1)))
  where
    by_entry : (b : Bool) → bit_or r (if b then 0x80 else 0) / 2 ≡ r / 2 + 64 * digit b
    by_entry true = omega (arith, push_one r h)
    by_entry false = omega (arith, push_zero r h)

digit-le : (b : Bool) → digit b ≤ 1
digit-le true = omega arith
digit-le false = omega arith

-- One round of the loop, with the digit as a number.
round :
    (tab : Bool → Bool → Bool) (n r x y : ℕ)
    → r < 128
    → merge_bits tab (suc n) r x y
      ≡ merge_bits tab n (r / 2 + 64 * merged tab x y 0) (x / 2) (y / 2)
unfolding merge_bits
round tab n r x y h = ap (λ (k : ℕ). merge_bits tab n k (x / 2) (y / 2)) (push tab r x y h)

-- The value of the digits `i`, `i + 1` and so on, `n` of them.
abbrev value : (ℕ → ℕ) → ℕ → ℕ
value d zero = 0
value d (suc n) = value d n + d n * 2 ^ n

merge_bits-zero : (tab : Bool → Bool → Bool) (r x y : ℕ) → merge_bits tab 0 r x y ≡ r
unfolding merge_bits
merge_bits-zero tab r x y = refl

merged-le : (tab : Bool → Bool → Bool) (x y i : ℕ) → merged tab x y i ≤ 1
merged-le tab x y i = digit-le (tab (flag x i) (flag y i))

module _ (tab : Bool → Bool → Bool) (x y : ℕ) where
  -- The register after so many rounds.
  register : ℕ → ℕ
  register zero = 0
  register (suc n) = register n / 2 + 64 * merged tab x y n

  register-lt : (n : ℕ) → register n < 128
  unfolding register
  register-lt zero = omega arith
  register-lt (suc n) = omega (arith, register-lt n, merged-le tab x y n)

  rounds_four : merge_bits tab 4 0 x y ≡ register 4
  unfolding register bit
  rounds_four =
      round tab 3 (register 0) x y (register-lt 0)
      ∙ round tab 2 (register 1) (x / 2) (y / 2) (register-lt 1)
      ∙ round tab 1 (register 2) (x / 2 / 2) (y / 2 / 2) (register-lt 2)
      ∙ round tab 0 (register 3) (x / 2 / 2 / 2) (y / 2 / 2 / 2) (register-lt 3)
      ∙ merge_bits-zero tab (register 4) (x / 2 / 2 / 2 / 2) (y / 2 / 2 / 2 / 2)

  rounds_five : merge_bits tab 5 0 x y ≡ register 5
  unfolding register bit
  rounds_five =
      round tab 4 (register 0) x y (register-lt 0)
      ∙ round tab 3 (register 1) (x / 2) (y / 2) (register-lt 1)
      ∙ round tab 2 (register 2) (x / 2 / 2) (y / 2 / 2) (register-lt 2)
      ∙ round tab 1 (register 3) (x / 2 / 2 / 2) (y / 2 / 2 / 2) (register-lt 3)
      ∙ round tab 0 (register 4) (x / 2 / 2 / 2 / 2) (y / 2 / 2 / 2 / 2) (register-lt 4)
      ∙ merge_bits-zero tab (register 5) (x / 2 / 2 / 2 / 2 / 2) (y / 2 / 2 / 2 / 2 / 2)

  merge_sub-value_four : merge_sub tab 4 x y ≡ value (merged tab x y) 4
  unfolding merge_sub register
  merge_sub-value_four =
      let le = merged-le tab x y in rw rounds_four (omega (arith, le 0, le 1, le 2, le 3))

  merge_sub-value_five : merge_sub tab 5 x y ≡ value (merged tab x y) 5
  unfolding merge_sub register
  merge_sub-value_five =
      let le = merged-le tab x y in rw rounds_five (omega (arith, le 0, le 1, le 2, le 3, le 4))

-- A digit of a number that is given by its digits.
bit-value_five :
    (d : ℕ → ℕ)
    → ((i : ℕ) → d i ≤ 1)
    → (bit (value d 5) 0 ≡ d 0)
      × (bit (value d 5) 1 ≡ d 1)
      × (bit (value d 5) 2 ≡ d 2)
      × (bit (value d 5) 3 ≡ d 3)
      × (bit (value d 5) 4 ≡ d 4)
unfolding bit
bit-value_five d h = omega (arith, h 0, h 1, h 2, h 3, h 4)

flag_of_digit : (n i : ℕ) (b : Bool) → bit n i ≡ digit b → flag n i ≡ b
flag_of_digit n i true h = ground arith
flag_of_digit n i false h = ground arith

-- Each flag of the merged sub tag is the table's entry for the flags of the two.
merge_sub-flag :
    (tab : Bool → Bool → Bool) (x y : ℕ) (r : Relation)
    → flag (merge_sub tab 5 x y) (relation_bit r)
      ≡ tab (flag x (relation_bit r)) (flag y (relation_bit r))
merge_sub-flag tab x y r = rw (merge_sub-value_five tab x y) (
    flag_of_digit _ (relation_bit r) _ (at r (bit-value_five (merged tab x y) (merged-le tab x y))))
  where
    at :
        (r : Relation)
        → (bit (value (merged tab x y) 5) 0 ≡ merged tab x y 0)
          × (bit (value (merged tab x y) 5) 1 ≡ merged tab x y 1)
          × (bit (value (merged tab x y) 5) 2 ≡ merged tab x y 2)
          × (bit (value (merged tab x y) 5) 3 ≡ merged tab x y 3)
          × (bit (value (merged tab x y) 5) 4 ≡ merged tab x y 4)
        → bit (value (merged tab x y) 5) (relation_bit r) ≡ merged tab x y (relation_bit r)
    at equal h = h.0
    at less h = h.1
    at greater h = h.2
    at minus_plus h = h.3
    at plus_minus h = h.4

-- Merging two comparisons of the same operands through a table gives the comparison that holds
-- exactly when the table's entry for the two results is true.
pub fold_icmp-merge_sub :
    (tab : Bool → Bool → Bool) (x y : ℕ) (w : Width) (a b : ℕ)
    → fold_icmp (merge_sub tab 5 x y) w a b ≡ tab (fold_icmp x w a b) (fold_icmp y w a b)
fold_icmp-merge_sub tab x y w a b =
    rw
      (
        fold_icmp-relation (merge_sub tab 5 x y) w a b,
        fold_icmp-relation x w a b,
        fold_icmp-relation y w a b,
      )
      (merge_sub-flag tab x y (relation w (low w a) (low w b)))
