-- ===== src/Tests/Graph.antt =====
-- Instances for hash.h, def.cpp and world.h.
use mathlib.Core.List.Memᴰ
use thorin.Prelude.{ℕ, ◌≡◌, ◌↔◌, refl, true, false, some, [], ◌∷◌, arith}
use thorin.Util.Hash.{hash_string, murmur3_single}
use thorin.Util.Hash.Finalizer.{murmur3_single_iff}
use thorin.World.Sea.{Node, Sea, start, unify, insert_nominal}
use thorin.World.Sea.Find.{find_def, find_def-IsLookup}
use thorin.World.Sea.Unify.{IsHashConsed, start-IsHashConsed, unify-IsHashConsed}
use thorin.World.Sea.Pointers.{Stands, unify-pointers_iff}
use thorin.World.Sea.Frozen.{unify-frozen, insert_nominal-IsHashConsed}

hash_empty : hash_string [] ≡ 2615243109
unfolding hash_string thorin.Util.Hash.hash_chars thorin.Util.Hash.hash_combine
    thorin.Util.Hash.combine_octets thorin.Util.Hash.combine_octet
hash_empty = refl

murmur3_single_iff_example : murmur3_single 7 ≡ murmur3_single 8 ↔ ◌≡◌ {A = ℕ} 7 8
murmur3_single_iff_example = murmur3_single_iff 7 8 (omega arith) (omega arith)

-- A literal of a type, and a nominal of two operands.
abbrev lit : Node
lit = record { node = 9; flags = 42; nominal = false; type_ = some 3; ops = [] }

abbrev sigma : Node
sigma = record { node = 5; flags = 0; nominal = true; type_ = some 3; ops = 1 ∷ 1 ∷ [] }

-- The world after the literal.
abbrev one : Sea
one = (unify find_def lit start).1

unify-IsHashConsed_example : IsHashConsed one
unify-IsHashConsed_example =
    unify-IsHashConsed find_def find_def-IsLookup lit start (omega arith) start-IsHashConsed

one-IsHashConsed : IsHashConsed one
one-IsHashConsed =
    unify-IsHashConsed find_def find_def-IsLookup lit start (omega arith) start-IsHashConsed

unify-pointers_iff_example : (unify find_def lit start).0 ≡ (unify find_def lit one).0 ↔ lit ≡ lit
unify-pointers_iff_example =
    unify-pointers_iff find_def find_def-IsLookup lit lit start start-IsHashConsed refl
      (omega arith) refl

abbrev cold : Sea
cold = record { curr_gid = 5; frozen = true; defs = [] }

cold-IsHashConsed : IsHashConsed cold
cold-IsHashConsed = record {
  numbered = λ d m. absurd (Memᴰ.not-nil m);
  hashed = λ d m. absurd (Memᴰ.not-nil m);
  one_gid = λ d e m k same. absurd (Memᴰ.not-nil m);
  one_body = λ d e m k u same. absurd (Memᴰ.not-nil m);
}

unify-frozen_example :
    ((unify find_def lit cold).1 ≡ cold)
    × ((unify find_def lit cold).0 ≡ some 1 ↔ Stands (some 1) lit cold)
unify-frozen_example =
    unify-frozen find_def find_def-IsLookup lit cold 1 cold-IsHashConsed refl (omega arith) refl

insert_nominal-IsHashConsed_example :
    (t : Sea) × ((insert_nominal find_def sigma start ≡ some (1, t))
      × (IsHashConsed t × Stands (some 1) sigma t))
insert_nominal-IsHashConsed_example =
    insert_nominal-IsHashConsed find_def find_def-IsLookup sigma start start-IsHashConsed
      (omega arith) refl
