-- ===== src/Tests/Sets.antt =====
-- Instances for bitset.h and bitset.cpp.
use thorin.Prelude.{ℕ, zero, suc, ◌+◌, ◌≡◌, ◌↔◌, inl, inr, refl, arith, some, Bool, true, [], ◌∷◌}
use thorin.Util.BitSet.{BitSet, test, and_assign, any_range, shift_right}
use thorin.Util.BitSet.Words.{IsBounded}
use thorin.Util.BitSet.Algebra.{test-and_assign}
use thorin.Util.BitSet.Range.{HasMember, any_range_iff}
use thorin.Util.BitSet.Shift.{test-shift_right}
use thorin.Util.BitSet.Valid.{IsValid}

-- The members are 0 and 2, in one word.
abbrev few : BitSet
few = record { words = 5 ∷ []; padding = 0 }

-- The members are 2 and 64, in two words.
abbrev more : BitSet
more = record { words = 4 ∷ 1 ∷ []; padding = 0 }

few-IsBounded : IsBounded few
few-IsBounded zero = omega arith
few-IsBounded (suc j) = omega arith

more-IsBounded : IsBounded more
more-IsBounded zero = omega arith
more-IsBounded (suc zero) = omega arith
more-IsBounded (suc (suc j)) = omega arith

few-IsValid : IsValid few
few-IsValid = record { bounded = few-IsBounded; log = 0; power = refl }

-- The member 64 stays, though the other set does not hold it.
test-and_assign_example : test (and_assign more few) 64 ≡ test more 64
test-and_assign_example = test-and_assign more few 64

any_range_iff_example :
    (r : Bool) × (any_range more 3 70 ≡ some r) × ((r ≡ true) ↔ HasMember more 3 70)
any_range_iff_example = any_range_iff more 3 70 more-IsBounded (inr (omega arith))

test-shift_right_example :
    (t : BitSet) × (shift_right more 2 ≡ some t) × ((i : ℕ) → test t i ≡ test more (i + 2))
test-shift_right_example = test-shift_right more 2 more-IsBounded (inl (λ e. omega arith))
