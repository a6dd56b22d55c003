-- ===== src/Core/Wrap/Unsigned.antt =====
-- A difference from a literal, under the flag that excludes unsigned wrap-around.
use thorin.Prelude.{ℕ, ◌-◌, ◌^◌, ◌≤◌, ◌<◌, ◌≡◌, ◌↔◌, arith, true, false, ◌==◌}
use thorin.Core.Ops.{Wrap, add, sub, is_commutative_wrap}
use thorin.Core.Fold.{Width, w1, w8, w16, w32, w64, bits, empty, fold_wrap}
use thorin.Core.Fold.Range.{IsWide, fold_wrap_modular}
use thorin.Core.Wrap.{
  Mode, Term, lit, other, negated_literal, left_literal, right_literal, right_other, wrap_rules,
  normalize_wrap,
}

-- The mode of operations that do not wrap around as unsigned numbers.
abbrev pub no_unsigned_wrap : Mode
no_unsigned_wrap = record { nsw = false; nuw = true }

pub negated_literal_lem :
    (w : Width) (n : ℕ) → IsWide w → 0 < n → n < 2 ^ bits w → negated_literal w n ≡ 2 ^ bits w - n
unfolding negated_literal
negated_literal_lem w1 n h pos lt = absurd h
negated_literal_lem w8 n h pos lt = absurd h
negated_literal_lem w16 n h pos lt = absurd h
negated_literal_lem w32 n h pos lt = omega arith
negated_literal_lem w64 n h pos lt = omega arith

-- At 32 and 64 bits, a difference from a literal other than 0 that must not wrap around becomes a sum
-- with the negated literal that must not wrap around; for a value of the type in the operand's place,
-- folding that sum gives bottom exactly where the difference does not wrap around.
pub normalize_wrap-sub_nuw :
    (make : Wrap → Mode → Term → Term → Term) (gid : Term → ℕ) (w : Width) (i n a : ℕ)
    → IsWide w
    → 0 < n
    → n < 2 ^ bits w
    → a < 2 ^ bits w
    → (normalize_wrap make gid w sub no_unsigned_wrap (other i) (lit n)
        ≡ make add no_unsigned_wrap (other i) (lit (negated_literal w n)))
      × ((fold_wrap add w a (negated_literal w n) false true ≡ empty) ↔ (n ≤ a))
unfolding normalize_wrap wrap_rules left_literal right_literal right_other is_commutative_wrap
normalize_wrap-sub_nuw make gid w i n a h pos lt la =
    let e = negated_literal_lem w n h pos lt in
    let k = fold_wrap_modular w a (negated_literal w n) false h la (omega (arith, e)) in
    let test : (n == 0) ≡ false = ground arith in
    (ground (arith, test), (λ z. omega (arith, e, k.1.0 z), λ z. k.1.1 (omega (arith, e))))
