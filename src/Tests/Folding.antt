-- ===== src/Tests/Folding.antt =====
-- Instances for def.h, core.h and the folding of literals in normalizers.cpp.
use thorin.Prelude.{
  ℕ, ◌-◌, ◌/◌, ◌%◌, ◌^◌, ◌≡◌, ◌↔◌, refl, arith, Bool, true, false, not, ◌&&◌, ◌==◌, if◌then◌else◌,
}
use thorin.Core.Ops.{add, sub, shl, sdiv, srem, Bit2, make_truth_table, is_commutative_bit2}
use thorin.Core.Fold.{
  w8, w32, word, empty, low, flag, fold_wrap, fold_div, fold_icmp, magnitude, is_negative, differ,
}
use thorin.Core.Fold.Compare.{relation_bit, relation, fold_icmp-relation}
use thorin.Core.Fold.Range.{fold_wrap_narrow, fold_div_signed}
use thorin.Core.TruthTable.{documented, make_truth_table-documented_iff}
use thorin.Core.MergeCmps.{merge_sub, fold_icmp-merge_sub}

fold_icmp-relation_example :
    fold_icmp 2 w32 3 7 ≡ flag 2 (relation_bit (relation w32 (low w32 3) (low w32 7)))
fold_icmp-relation_example = fold_icmp-relation 2 w32 3 7

-- 200 + 100 and 100 - 200 at 8 bits.
fold_wrap_narrow_example :
    (fold_wrap add w8 100 200 false true ≡ word 300)
    × (fold_wrap sub w8 100 200 false true ≡ word (2 ^ 32 - 100))
fold_wrap_narrow_example =
    fold_wrap_narrow w8 100 200 false true (omega arith) (omega arith) (omega arith)

-- -7 by 2 at 32 bits.
fold_div_signed_example :
    (q r : ℕ) × (fold_div sdiv w32 4294967289 2 ≡ word q)
    × (fold_div srem w32 4294967289 2 ≡ word r)
    × (magnitude w32 q ≡ magnitude w32 4294967289 / magnitude w32 2)
    × (magnitude w32 r ≡ magnitude w32 4294967289 % magnitude w32 2)
    × (is_negative w32 q
        ≡ (differ (is_negative w32 4294967289) (is_negative w32 2) && not (magnitude w32 q == 0)))
    × (is_negative w32 r ≡ (is_negative w32 4294967289 && not (magnitude w32 r == 0)))
fold_div_signed_example =
    fold_div_signed w32 4294967289 2 tt (omega arith) (omega arith) (λ e. omega arith) refl

shl_refused : fold_wrap shl w8 192 1 false true ≡ empty
unfolding fold_wrap
shl_refused = refl

make_truth_table-documented_iff_example :
    ((x y : Bool) → make_truth_table Bit2.xor_ x y ≡ documented Bit2.xor_ x y)
    ↔ (is_commutative_bit2 Bit2.xor_ ≡ true)
make_truth_table-documented_iff_example = make_truth_table-documented_iff Bit2.xor_

-- `a < b || a == b` with the sub tags 2 and 1.
fold_icmp-merge_sub_example :
    fold_icmp (merge_sub (λ p q. if p then true else q) 5 2 1) w32 3 7
    ≡ (if fold_icmp 2 w32 3 7 then true else fold_icmp 1 w32 3 7)
fold_icmp-merge_sub_example = fold_icmp-merge_sub (λ p q. if p then true else q) 2 1 w32 3 7
