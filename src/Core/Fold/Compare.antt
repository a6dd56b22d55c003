-- ===== src/Core/Fold/Compare.antt =====
-- What a folded comparison says of the two numbers.
use thorin.Prelude.{ℕ, ◌≡◌, arith, ◌==◌, ltb, if◌then◌else◌}
use thorin.Core.Fold.{Width, w1, w8, w16, w32, w64, low, get_sign, flag, fold_icmp}

-- The five relations that core.thorin lists: plus and minus, minus and plus, and greater, less and
-- equal with one sign. Exactly one holds between two numbers.
pub data Relation : Type 0 where
  plus_minus minus_plus greater less equal : Relation

-- Its bit in the sub tag.
abbrev pub relation_bit : Relation → ℕ
relation_bit plus_minus = 4
relation_bit minus_plus = 3
relation_bit greater = 2
relation_bit less = 1
relation_bit equal = 0

unfoldable pub relation : Width → ℕ → ℕ → Relation
relation w u v =
    if u == v
    then equal
    else if get_sign w u
    then if get_sign w v then (if ltb u v then less else greater) else minus_plus
    else if get_sign w v
    then plus_minus
    else if ltb u v
    then less
    else greater

-- A comparison holds exactly when the one relation between the numbers is among those that its sub
-- tag names.
pub fold_icmp-relation :
    (id : ℕ) (w : Width) (a b : ℕ)
    → fold_icmp id w a b ≡ flag id (relation_bit (relation w (low w a) (low w b)))
unfolding fold_icmp relation
fold_icmp-relation id w1 a b = ground arith
fold_icmp-relation id w8 a b = ground arith
fold_icmp-relation id w16 a b = ground arith
fold_icmp-relation id w32 a b = ground arith
fold_icmp-relation id w64 a b = ground arith
