-- ===== src/Tests/Bits.antt =====
-- Instances for the folding and the normalizing of bit operations, and of sums and differences.
use thorin.Prelude.{◌^◌, false, ◌≡◌, refl, arith, true, some}
use thorin.Prelude.Bits.{bit}
use thorin.Core.Ops.{niff, nand, make_truth_table, is_commutative_bit2}
use thorin.Core.Fold.{bits, w8, w32}
use thorin.Core.Bitwise.{bit2_value, entry}
use thorin.Core.Fold.{empty, fold_wrap}
use thorin.Core.Ops.{add, sub}
use thorin.Core.Wrap
use thorin.Core.Wrap.{Mode, normalize_wrap, negated_literal, no_flags, build_wrap, app}
use thorin.Core.Wrap.Unsigned.{no_unsigned_wrap, normalize_wrap-sub_nuw}
use thorin.Core.Wrap.Meaning.{wrap_value}
use thorin.Core.Wrap.Rules.{HasWord}
use thorin.Core.Wrap.Sound.{build_wrap-HasWord}
use thorin.Prelude.{◌↔◌, ◌≤◌}
use thorin.Core.Normalize.{normalize_icmp}
use thorin.Core.Bit2.{Term, lit, bit2, icmp, other, op_icmp, fold_bit2, normalize_bit2, build}
use thorin.Core.Bit2.Fold.{bit-fold_bit2}
use thorin.Core.Bit2.Meaning.{Env, eval}
use thorin.Core.Bit2.Operands.{HasValue}
use thorin.Core.Bit2.Sound.{build-HasValue}
use thorin.Core.Bit2.Swapped.{normalize_bit2-niff}

nand_folded : fold_bit2 nand w8 12 10 ≡ some 247
unfolding fold_bit2
nand_folded = refl

bit-fold_bit2_example : bit 247 3 ≡ entry nand (bit 12 3) (bit 10 3)
bit-fold_bit2_example =
    bit-fold_bit2 w8 12 10 nand 247 3 (omega arith) (omega arith) nand_folded (omega arith)

-- Every unknown is 9.
abbrev nines : Env
nines = record { of = λ i. 9; width = w32 }

-- `3 nand (3 nand x)`.
abbrev nested : Term
nested = bit2 nand (lit 3) (other 1)

nand_commutes : is_commutative_bit2 nand ≡ true
unfolding is_commutative_bit2 make_truth_table
nand_commutes = refl

build-HasValue_example :
    HasValue 8 nines
      (bit2_value nand 8 3 (eval 8 nines nested))
      (build 5 (λ x. 0) w8 nand (lit 3) nested)
build-HasValue_example =
    build-HasValue 5 (λ x. 0) w8 nines nand (lit 3) nested nand_commutes (omega arith)
      (omega arith, omega arith)

-- A merged comparison is normalized in turn.
merged_always : op_icmp w8 31 3 4 ≡ lit 1
unfolding op_icmp normalize_icmp
merged_always = refl

merged_same : op_icmp w8 30 3 3 ≡ lit 0
unfolding op_icmp normalize_icmp
merged_same = refl

merged_swapped : op_icmp w8 1 4 3 ≡ icmp 1 3 4
unfolding op_icmp normalize_icmp
merged_swapped = refl

normalize_bit2-niff_example :
    ((normalize_bit2 bit2 (λ x. 0) w8 niff (lit 0) (other 1) ≡ other 1)
      × (bit2_value niff 8 0 9 ≡ 0))
    × ((normalize_bit2 bit2 (λ x. 0) w8 niff (other 1) (lit 0) ≡ lit 0)
        × (bit2_value niff 8 9 0 ≡ 9))
normalize_bit2-niff_example = normalize_bit2-niff bit2 (λ x. 0) w8 1 9 (omega arith)

-- `x - 3`, where `x` is 10.
normalize_wrap-sub_nuw_example :
    (normalize_wrap app (λ x. 0) w32 sub no_unsigned_wrap (Wrap.other 1) (Wrap.lit 3)
      ≡ app add no_unsigned_wrap (Wrap.other 1) (Wrap.lit (negated_literal w32 3)))
    × ((fold_wrap add w32 10 (negated_literal w32 3) false true ≡ empty) ↔ (3 ≤ 10))
normalize_wrap-sub_nuw_example =
    normalize_wrap-sub_nuw app (λ x. 0) w32 1 3 10 tt (omega arith) (omega arith) (omega arith)

-- `(5 + x) - 5`, where `x` is 9.
abbrev shifted : Wrap.Term
shifted = app add no_flags (Wrap.lit 5) (Wrap.other 1)

build_wrap-HasWord_example :
    HasWord
      (2 ^ bits w32)
      (λ i. 9)
      (wrap_value sub (2 ^ bits w32) (wrap_value add (2 ^ bits w32) 5 9) 5)
      (build_wrap 6 (λ x. 0) w32 sub no_flags shifted (Wrap.lit 5))
build_wrap-HasWord_example =
    build_wrap-HasWord 6 (λ x. 0) w32 (λ i. 9) sub shifted (Wrap.lit 5) tt refl
      (refl, (omega arith, omega arith)) (omega arith)
