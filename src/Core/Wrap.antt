-- ===== src/Core/Wrap.antt =====
-- `normalize_wrap` and `reassociate` of dialects/core/normalizers.cpp, for operands of a type `.Idx s`
-- whose size is the literal of a width.
pub mod Unsigned
pub mod Meaning
pub mod Rules
pub mod Regroup
pub mod Sound
use thorin.Prelude.{
  ℕ, zero, suc, ◌+◌, ◌-◌, ◌%◌, ◌^◌, Bool, true, false, not, ◌&&◌, ◌||◌, Option, none, some, ◌==◌,
  ltb, if◌then◌else◌,
}
use thorin.Core.Ops.{Wrap, add, sub, mul, shl, is_commutative_wrap}
use thorin.Core.Fold.{Width, w64, bits, Res, empty, word, undefined, fold_wrap}

-- The size of the type, `2 ^ 64` written as 0.
abbrev pub size_of : Width → ℕ
size_of w64 = 0
size_of w = 2 ^ bits w

-- The flags that an operation is called with; reassociation forgets both.
pub record Mode : Type 0 where
  pub nsw : Bool
  pub nuw : Bool

abbrev pub no_flags : Mode
no_flags = record { nsw = false; nuw = false }

-- The definitions that the normalizer takes apart. `unknown` stands for what the code makes of operands
-- for which C++ leaves the folding undefined, or that it takes to be unreachable.
pub data Term : Type 0 where
  lit : ℕ → Term
  bot unknown : Term
  app : Wrap → Mode → Term → Term → Term
  other : ℕ → Term

abbrev pub wrap_sub : Wrap → ℕ
wrap_sub add = 0
wrap_sub sub = 1
wrap_sub mul = 2
wrap_sub shl = 3

abbrev pub same_wrap : Wrap → Wrap → Bool
same_wrap i j = wrap_sub i == wrap_sub j

abbrev pub same_flag : Bool → Bool → Bool
same_flag true p = p
same_flag false p = not p

-- `a == b`: definitions are hash-consed, and the mode is one of an application's parts.
unfoldable pub same_term : Term → Term → Bool
same_term (lit m) (lit n) = m == n
same_term bot bot = true
same_term (app i m x y) (app j k u v) =
    same_wrap i j
    && (same_flag m.nsw k.nsw && (same_flag m.nuw k.nuw && (same_term x u && same_term y v)))
same_term (other i) (other j) = i == j
same_term _ _ = false

abbrev pub is_lit : Term → Bool
is_lit (lit n) = true
is_lit _ = false

abbrev pub lit_or_bot : Res → Term
lit_or_bot (word n) = lit n
lit_or_bot empty = bot
lit_or_bot undefined = unknown

-- `fold<wrap, id>`, but for the commuting.
abbrev pub fold_operands : Wrap → Width → Mode → Term → Term → Option Term
fold_operands id w mode bot y = some bot
fold_operands id w mode x bot = some bot
fold_operands id w mode (lit m) (lit n) = some (lit_or_bot (fold_wrap id w m n mode.nsw mode.nuw))
fold_operands id w mode x y = none

-- `lit_idx_mod(*ls, ~n + 1)`
unfoldable pub negated_literal : Width → ℕ → ℕ
negated_literal w n = (2 ^ 64 - n) % 2 ^ 64 % 2 ^ bits w

-- How the world builds an operation, which is by this normalizer again, and the numbers of definitions.
module _ (make : Wrap → Mode → Term → Term → Term) (gid : Term → ℕ) (w : Width) where
  abbrev commute_wrap : Wrap → Term → Term → Term × Term
  commute_wrap id x y =
      if is_commutative_wrap id && (is_lit y || (ltb (gid y) (gid x) && not (is_lit x)))
      then (y, x)
      else (x, y)

  -- The rules for a literal on the left.
  pub left_zero : Wrap → Term → Option Term
  left_zero add y = some y
  left_zero sub y = none
  left_zero mul y = some (lit 0)
  left_zero shl y = some (lit 0)

  pub left_one : Wrap → Term → Option Term
  left_one mul y = some y
  left_one _ y = none

  pub left_literal : Wrap → Term → Term → Option Term
  unfolding left_zero left_one
  left_literal id (lit m) y =
      if m == 0 then left_zero id y else if m == 1 then left_one id y else none
  left_literal id x y = none

  -- The rules for a literal on the right. That of an operation which commutes has gone to the left.
  pub right_zero : Wrap → Term → Term
  right_zero sub x = x
  right_zero shl x = x
  right_zero _ x = unknown

  pub right_other : Wrap → Mode → Term → ℕ → Option Term
  unfolding negated_literal
  right_other sub mode x n = some (make add mode x (lit (negated_literal w n)))
  right_other shl mode x n = if ltb (size_of w) n then some bot else none
  right_other _ mode x n = none

  pub right_literal : Wrap → Mode → Term → Term → Option Term
  unfolding right_zero right_other
  right_literal id mode x (lit n) =
      if n == 0 then some (right_zero id x) else right_other id mode x n
  right_literal id mode x y = none

  pub same_rules : Wrap → Mode → Term → Option Term
  same_rules add mode x = some (make mul mode (lit 2) x)
  same_rules sub mode x = some (lit 0)
  same_rules _ mode x = none

  pub same_operands_wrap : Wrap → Mode → Term → Term → Option Term
  unfolding same_rules
  same_operands_wrap id mode x y = if same_term x y then same_rules id mode x else none

  abbrev is_associative_wrap : Wrap → Bool
  is_associative_wrap id = is_commutative_wrap id

  -- The operands of an application of the same operation whose first operand is a literal.
  abbrev literal_app : Wrap → Term → Option (ℕ × Term)
  literal_app id (app j mode (lit m) y) = if same_wrap id j then some (m, y) else none
  literal_app id _ = none

  abbrev plain : Wrap → Term → Term → Term
  plain id x y = make id no_flags x y

  -- The rules (1) to (4), by the literals in the operands.
  pub regroup_rules : Wrap → Term → Term → Option (ℕ × Term) → Option (ℕ × Term) → Option Term
  regroup_rules id (lit l) y lx (some (lz, u)) = some (plain id (plain id (lit l) (lit lz)) u)
  regroup_rules id x y (some (lx, v)) (some (lz, u)) =
      some (plain id (plain id (lit lx) (lit lz)) (plain id v u))
  regroup_rules id x y none (some (lz, u)) = some (plain id (lit lz) (plain id x u))
  regroup_rules id x y (some (lx, v)) none = some (plain id (lit lx) (plain id v y))
  regroup_rules id x y none none = none

  pub reassociate_wrap : Wrap → Term → Term → Option Term
  unfolding regroup_rules
  reassociate_wrap id x y =
      if is_associative_wrap id
      then regroup_rules id x y (literal_app id x) (literal_app id y)
      else none

  abbrev else_try : Option Term → Option Term → Option Term
  else_try (some x) y = some x
  else_try none y = y

  -- Behind the folding.
  pub wrap_rules : Wrap → Mode → Term → Term → Term
  unfolding left_literal right_literal same_operands_wrap reassociate_wrap
  wrap_rules id mode x y =
      elim (else_try (left_literal id x y) (
        else_try (right_literal id mode x y)
          (else_try (same_operands_wrap id mode x y) (reassociate_wrap id x y)))) [
            | some r ↦ r
            | none ↦ app id mode x y
          ]

  unfoldable pub normalize_wrap : Wrap → Mode → Term → Term → Term
  unfolding wrap_rules
  normalize_wrap id mode x y = elim (fold_operands id w mode x y) [
    | some r ↦ r
    | none ↦ (let (x', y') = commute_wrap id x y in wrap_rules id mode x' y')
  ]

-- The world, with `depth` normalizers that call one another: the innermost builds the application.
pub build_wrap : ℕ → (Term → ℕ) → Width → Wrap → Mode → Term → Term → Term
build_wrap zero gid w id mode x y = app id mode x y
build_wrap (suc depth) gid w id mode x y = normalize_wrap (build_wrap depth gid w) gid w id mode x y
