-- ===== src/Core/Ops.antt =====
-- dialects/core/core.thorin and core.h: the sub tags of the axioms, in the order of their numbers,
-- and what core.h computes from a sub tag.
use thorin.Prelude.{ℕ, Bool, true, false, not, ◌==◌, bit_and}

pub data Wrap : Type 0 where
  add sub mul shl : Wrap

pub data Shr : Type 0 where
  arithmetic logical : Shr

pub data Div : Type 0 where
  sdiv udiv srem urem : Div

pub data Bit2 : Type 0 where
  f nor nciff na niff nb xor_ nand and_ nxor b iff a ciff or_ t : Bit2

-- `sub_t(id)`
abbrev pub bit2_sub : Bit2 → ℕ
bit2_sub f = 0
bit2_sub nor = 1
bit2_sub nciff = 2
bit2_sub na = 3
bit2_sub niff = 4
bit2_sub nb = 5
bit2_sub xor_ = 6
bit2_sub nand = 7
bit2_sub and_ = 8
bit2_sub nxor = 9
bit2_sub b = 10
bit2_sub iff = 11
bit2_sub a = 12
bit2_sub ciff = 13
bit2_sub or_ = 14
bit2_sub t = 15

-- An entry of the table is all ones or zero; the Boolean says which.
abbrev has_bit : ℕ → ℕ → Bool
has_bit number mask = not (bit_and number mask == 0)

-- `tab[x][y]`
unfoldable pub make_truth_table : Bit2 → Bool → Bool → Bool
make_truth_table id false false = has_bit (bit2_sub id) 0b0001
make_truth_table id false true = has_bit (bit2_sub id) 0b0100
make_truth_table id true false = has_bit (bit2_sub id) 0b0010
make_truth_table id true true = has_bit (bit2_sub id) 0b1000

abbrev same : Bool → Bool → Bool
same true y = y
same false y = not y

unfoldable pub is_commutative_bit2 : Bit2 → Bool
unfolding make_truth_table
is_commutative_bit2 id = same (make_truth_table id false true) (make_truth_table id true false)

unfoldable pub is_associative_bit2 : Bit2 → Bool
is_associative_bit2 t = true
is_associative_bit2 xor_ = true
is_associative_bit2 and_ = true
is_associative_bit2 nxor = true
is_associative_bit2 a = true
is_associative_bit2 b = true
is_associative_bit2 or_ = true
is_associative_bit2 f = true
is_associative_bit2 _ = false

unfoldable pub is_commutative_wrap : Wrap → Bool
is_commutative_wrap add = true
is_commutative_wrap mul = true
is_commutative_wrap _ = false
