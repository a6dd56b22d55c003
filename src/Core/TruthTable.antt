-- ===== src/Core/TruthTable.antt =====
-- The tables of the binary bit operations, against the meaning that core.thorin documents.
use thorin.Prelude.{ℕ, ◌+◌, ◌*◌, ◌≡◌, ◌↔◌, refl, sym, ◌∙◌, arith, Bool, true, false, ◌==◌}
use thorin.Prelude.Bits.{bit}
use thorin.Core.Ops.{Bit2, bit2_sub, make_truth_table, is_commutative_bit2}

abbrev digit : Bool → ℕ
digit true = 1
digit false = 0

-- The table in core.thorin: the sub tag's bits are, from the highest, the results for `AB`, `Ab`,
-- `aB` and `ab`, where a capital is a one.
unfoldable pub documented : Bit2 → Bool → Bool → Bool
documented id x y = bit (bit2_sub id) (2 * digit x + digit y) == 1

-- The table that the code makes of an operation is the documented one with the operands swapped.
pub make_truth_table-swapped :
    (id : Bit2) (x y : Bool) → make_truth_table id x y ≡ documented id y x
unfolding make_truth_table documented bit
make_truth_table-swapped Bit2.f true true = refl
make_truth_table-swapped _ true true = refl
make_truth_table-swapped Bit2.f true false = refl
make_truth_table-swapped _ true false = refl
make_truth_table-swapped Bit2.f false true = refl
make_truth_table-swapped _ false true = refl
make_truth_table-swapped Bit2.f false false = refl
make_truth_table-swapped _ false false = refl

-- So the table means what is documented exactly for the operations that commute.
pub make_truth_table-documented_iff :
    (id : Bit2)
    → ((x y : Bool) → make_truth_table id x y ≡ documented id x y) ↔ (is_commutative_bit2 id ≡ true)
unfolding is_commutative_bit2
make_truth_table-documented_iff id = (
  λ h. let e = h false true ∙ sym (make_truth_table-swapped id true false) in ground (arith, e),
  λ h x y. make_truth_table-swapped id x y ∙ symmetric h x y,
)
  where
    symmetric : is_commutative_bit2 id ≡ true → (x y : Bool) → documented id y x ≡ documented id x y
    symmetric h true true = refl
    symmetric h false false = refl
    symmetric h true false =
        ground
          (arith, make_truth_table-swapped id true false, make_truth_table-swapped id false true)
    symmetric h false true =
        ground
          (arith, make_truth_table-swapped id true false, make_truth_table-swapped id false true)
