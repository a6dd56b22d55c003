-- ===== src/Core/Bit2.antt =====
-- `normalize_bit2`, `normalize_bit1`, `reassociate` and `op_negate` of dialects/core, for operands of a
-- type `.Idx s` whose size is the literal of a width.
pub mod Fold
pub mod Meaning
pub mod Operands
pub mod Reassociate
pub mod Sound
pub mod Swapped
use thorin.Prelude.{
  ℕ, zero, suc, ◌+◌, ◌-◌, ◌%◌, ◌^◌, Bool, true, false, not, ◌&&◌, ◌||◌, Option, none, some, ◌==◌,
  ltb, if◌then◌else◌, bit_and, bit_or, bit_xor,
}
use thorin.Core.Ops.{
  Bit2, f, nor, nciff, na, niff, nb, xor_, nand, and_, nxor, b, iff, a, ciff, or_, t, bit2_sub,
  make_truth_table, is_commutative_bit2, is_associative_bit2,
}
use thorin.Core.Fold.{Width, bits}
use thorin.Core.MergeCmps.{merge_sub}
use thorin.Core.Normalize
use thorin.Core.Normalize.{Result, def, raw_app, normalize_icmp}

-- The definitions that these functions take apart: literals, bit operations, comparisons of two
-- definitions known by their `gid`, and any other, known by its `gid`.
pub data Term : Type 0 where
  lit : ℕ → Term
  bit2 : Bit2 → Term → Term → Term
  icmp : ℕ → ℕ → ℕ → Term
  other : ℕ → Term

abbrev pub same_bit2 : Bit2 → Bit2 → Bool
same_bit2 x y = bit2_sub x == bit2_sub y

-- `a == b`: definitions are hash-consed.
unfoldable pub same_term : Term → Term → Bool
same_term (lit m) (lit n) = m == n
same_term (bit2 i x y) (bit2 j v w) = same_bit2 i j && (same_term x v && same_term y w)
same_term (icmp i x y) (icmp j v w) = i == j && (x == v && y == w)
same_term (other m) (other n) = m == n
same_term _ _ = false

abbrev pub is_lit : Term → Bool
is_lit (lit n) = true
is_lit _ = false

-- `lit_idx_mod(s, ~x)` with the size `s` of a width.
abbrev pub mod_size : Width → ℕ → ℕ
mod_size w x = x % 2 ^ bits w

abbrev pub complement : ℕ → ℕ
complement x = 2 ^ 64 - 1 - x

-- `*ls - 1_u64`, where the size 0 stands for 2 ^ 64.
abbrev pub all_ones : Width → ℕ
all_ones w = 2 ^ bits w - 1

-- The operations on two literals; for the others the code is unreachable.
unfoldable pub fold_bit2 : Bit2 → Width → ℕ → ℕ → Option ℕ
fold_bit2 and_ w x y = some (bit_and x y)
fold_bit2 or_ w x y = some (bit_or x y)
fold_bit2 xor_ w x y = some (bit_xor x y)
fold_bit2 nand w x y = some (mod_size w (complement (bit_and x y)))
fold_bit2 nor w x y = some (mod_size w (complement (bit_or x y)))
fold_bit2 nxor w x y = some (mod_size w (complement (bit_xor x y)))
fold_bit2 iff w x y = some (mod_size w (bit_or (complement x) y))
fold_bit2 niff w x y = some (bit_and x (complement y))
fold_bit2 _ w x y = none

-- The sub tags of `bit1`: `f`, `neg`, `id` and `t`.
pub data Bit1 : Type 0 where
  off neg same on : Bit1

-- `normalize_bit1`: what becomes of a literal operand, by the sub tag. `neg` and no other comes to the
-- last line.
unfoldable pub fold_bit1 : Bit1 → Width → ℕ → ℕ
fold_bit1 off w x = 0
fold_bit1 on w x = all_ones w
fold_bit1 same w x = x
fold_bit1 neg w x = mod_size w (complement x)

-- The definition that `normalize_icmp` returns for two definitions that are neither literals nor `⊥`:
-- a literal, or the application to these definitions in one order or the other. The last line is
-- for results that it does not have there.
abbrev pub term_of : ℕ → ℕ → ℕ → Result → Term
term_of sub x y (def (Normalize.lit m)) = lit m
term_of sub x y (raw_app (Normalize.other i) (Normalize.other j)) = icmp sub i j
term_of sub x y _ = icmp sub x y

-- `op(icmp(...), a, b)`, which is by `normalize_icmp`. The operands of a comparison that is left are
-- no literals here, so that its width plays no part.
unfoldable pub op_icmp : Width → ℕ → ℕ → ℕ → Term
op_icmp w sub x y = term_of sub x y (normalize_icmp sub w (Normalize.other x) (Normalize.other y))

-- How the world builds an operation on two definitions, which is by this normalizer again, and the
-- numbers of definitions.
module _ (make : Bit2 → Term → Term → Term) (gid : Term → ℕ) (w : Width) where
  abbrev commute2 : Bit2 → Term → Term → Term × Term
  commute2 id x y =
      if is_commutative_bit2 id && (is_lit y || (ltb (gid y) (gid x) && not (is_lit x)))
      then (y, x)
      else (x, y)

  pub op_negate : Term → Term
  op_negate x = make xor_ (lit (all_ones w)) x

  -- `merge_cmps<icmp>`
  merge_icmps : Bit2 → Term → Term → Option Term
  unfolding op_icmp
  merge_icmps id (icmp i x y) (icmp j v u) =
      if x == v && y == u
      then some (op_icmp w (merge_sub (make_truth_table id) 5 i j) x y)
      else none
  merge_icmps id _ _ = none

  -- The lambda `unary`.
  pub unary : Bit2 → Bool → Bool → Term → Option Term
  unfolding op_negate
  unary id false false x = some (lit 0)
  unary id true true x = some (lit (all_ones w))
  unary id false true x = some x
  unary id true false x = if same_bit2 id xor_ then none else some (op_negate x)

  abbrev or_else : Option Term → Option Term → Option Term
  or_else (some x) y = some x
  or_else none y = y

  pub same_operands : Bit2 → Term → Term → Option Term
  unfolding unary
  same_operands id x y =
      if is_commutative_bit2 id && same_term x y
      then unary id (make_truth_table id false false) (make_truth_table id true true) x
      else none

  pub lit_left : Bit2 → Term → Term → Option Term
  unfolding unary
  lit_left id (lit m) y =
      if m == 0
      then unary id (make_truth_table id false false) (make_truth_table id false true) y
      else if m == all_ones w
      then unary id (make_truth_table id true false) (make_truth_table id true true) y
      else none
  lit_left id _ y = none

  pub lit_right : Bit2 → Term → Term → Option Term
  unfolding unary
  lit_right id x (lit m) =
      if m == 0
      then unary id (make_truth_table id false false) (make_truth_table id true false) x
      else if m == all_ones w
      then unary id (make_truth_table id false true) (make_truth_table id true true) x
      else none
  lit_right id x _ = none

  -- The operands of an application of the same operation whose first operand is a literal.
  abbrev lit_app : Bit2 → Term → Option (ℕ × Term)
  lit_app id (bit2 j (lit m) y) = if same_bit2 id j then some (m, y) else none
  lit_app id _ = none

  -- The rules (1) to (4), by the literals in the operands.
  pub reassociate_rules : Bit2 → Term → Term → Option (ℕ × Term) → Option (ℕ × Term) → Option Term
  reassociate_rules id (lit l) y lx (some (lz, u)) = some (make id (make id (lit l) (lit lz)) u)
  reassociate_rules id x y (some (lx, v)) (some (lz, u)) =
      some (make id (make id (lit lx) (lit lz)) (make id v u))
  reassociate_rules id x y none (some (lz, u)) = some (make id (lit lz) (make id x u))
  reassociate_rules id x y (some (lx, v)) none = some (make id (lit lx) (make id v y))
  reassociate_rules id x y none none = none

  pub reassociate : Bit2 → Term → Term → Option Term
  unfolding reassociate_rules
  reassociate id x y =
      if is_associative_bit2 id
      then reassociate_rules id x y (lit_app id x) (lit_app id y)
      else none

  -- Behind the literals.
  bit2_rules : Bit2 → Term → Term → Term
  unfolding same_operands lit_left lit_right reassociate
  bit2_rules id x y =
      elim (or_else (same_operands id x y)
        (or_else (lit_left id x y) (or_else (lit_right id x y) (reassociate id x y)))) [
          | some r ↦ r
          | none ↦ bit2 id x y
        ]

  bit2_literals : Bit2 → Term → Term → Option Term
  bit2_literals id (lit m) (lit n) = elim (fold_bit2 id w m n) [
    | some r ↦ some (lit r)
    | none ↦ none
  ]
  bit2_literals id _ _ = none

  bit2_folded : Bit2 → Term → Term → Term
  unfolding bit2_rules bit2_literals
  bit2_folded id x y = elim (bit2_literals id x y) [ some r ↦ r | none ↦ bit2_rules id x y ]

  -- The switch on the sub tag.
  bit2_switch : Bit2 → Term → Term → Term
  unfolding bit2_folded op_negate
  bit2_switch f x y = lit 0
  bit2_switch t x y = lit (all_ones w)
  bit2_switch a x y = x
  bit2_switch b x y = y
  bit2_switch na x y = op_negate x
  bit2_switch nb x y = op_negate y
  bit2_switch ciff x y = make iff y x
  bit2_switch nciff x y = make niff y x
  bit2_switch id x y = bit2_folded id x y

  bit2_commuted : Bit2 → Term → Term → Term
  unfolding merge_icmps bit2_switch
  bit2_commuted id x y = elim (merge_icmps id x y) [ some r ↦ r | none ↦ bit2_switch id x y ]

  unfoldable pub normalize_bit2 : Bit2 → Term → Term → Term
  unfolding bit2_commuted
  normalize_bit2 id x y = let (x', y') = commute2 id x y in bit2_commuted id x' y'

-- The world, with `depth` normalizers that call one another: the innermost builds the application.
pub build : ℕ → (Term → ℕ) → Width → Bit2 → Term → Term → Term
build zero gid w id x y = bit2 id x y
build (suc depth) gid w id x y = normalize_bit2 (build depth gid w) gid w id x y
