-- ===== src/Core/Bit2/Swapped.antt =====
-- The rules of `normalize_bit2` for one literal operand, where the order of the operands counts: the
-- code reads its table, whose entries stand for the operands swapped.
use thorin.Prelude.{ℕ, ◌^◌, ◌<◌, ◌≡◌, refl}
use thorin.Core.Ops.{Bit2, niff, make_truth_table, is_commutative_bit2}
use thorin.Core.Fold.{Width, bits}
use thorin.Core.TruthTable.{documented}
use thorin.Prelude.Bits.{bit}
use thorin.Core.Bitwise.{bit2_value}
use thorin.Core.Bitwise.Laws.{value_zero_left, value_zero_right, unary_value}
use thorin.Core.Bit2.{
  Term, lit, other, normalize_bit2, unary, lit_left, lit_right, same_operands, merge_icmps,
  bit2_rules, bit2_literals, bit2_folded, bit2_switch, bit2_commuted,
}

-- The operation `niff`, documented as `x` and not `y`: with 0 on the left the code yields the other
-- operand, where the value is 0; with 0 on the right it yields 0, where the value is the other
-- operand's.
pub normalize_bit2-niff :
    (make : Bit2 → Term → Term → Term) (gid : Term → ℕ) (w : Width) (i v : ℕ)
    → v < 2 ^ bits w
    → ((normalize_bit2 make gid w niff (lit 0) (other i) ≡ other i)
        × (bit2_value niff (bits w) 0 v ≡ 0))
      × ((normalize_bit2 make gid w niff (other i) (lit 0) ≡ lit 0)
          × (bit2_value niff (bits w) v 0 ≡ v))
unfolding normalize_bit2 is_commutative_bit2 make_truth_table unary lit_left lit_right same_operands
    merge_icmps bit2_rules bit2_literals bit2_folded bit2_switch bit2_commuted unary_value
    documented bit
normalize_bit2-niff make gid w i v h =
    ((refl, value_zero_left niff (bits w) v h), (refl, value_zero_right niff (bits w) v h))
