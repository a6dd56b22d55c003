-- ===== src/Core/Normalize.antt =====
-- The normalizers of `shr`, `div` and `icmp` in dialects/core/normalizers.cpp, and the part of
-- `fold` that looks at the operands. The operands' type is `.Idx s` with `s` the size of a width.
-- What these functions ask of an operand is whether it is a literal or `⊥`, and its identity.
pub mod Sound
pub mod Compare
use thorin.Prelude.{
  ℕ, ◌+◌, ◌-◌, ◌^◌, Bool, true, false, not, ◌&&◌, ◌||◌, Option, none, some, ◌==◌, ltb,
  if◌then◌else◌,
}
use thorin.Core.Ops.{Shr, Div, sdiv, udiv, srem, urem}
use thorin.Core.Fold.{
  Width, w1, w8, w16, w32, w64, bits, Res, empty, word, undefined, fold_shr, fold_div, fold_icmp,
}

-- Any other definition is known by its `gid`; two are the same where their numbers are.
pub data Def : Type 0 where
  lit : ℕ → Def
  bot : Def
  other : ℕ → Def

-- What a normalizer returns: a definition, or the application built anew from its operands.
-- `unknown` is where C++ leaves the folding undefined.
pub data Result : Type 0 where
  def : Def → Result
  raw_app : Def → Def → Result
  unknown : Result

-- `a == b` for definitions.
abbrev pub same_def : Def → Def → Bool
same_def (lit m) (lit n) = m == n
same_def bot bot = true
same_def (other i) (other j) = i == j
same_def _ _ = false

-- `res ? world.lit(type, *res) : world.bot(type)`
abbrev pub lit_or_bot : Res → Result
lit_or_bot (word n) = def (lit n)
lit_or_bot empty = def bot
lit_or_bot undefined = unknown

-- `fold` on two operands: `none` where neither is `⊥` and not both are literals.
abbrev pub fold : (ℕ → ℕ → Res) → Def → Def → Option Result
fold op bot y = some (def bot)
fold op x bot = some (def bot)
fold op (lit m) (lit n) = some (lit_or_bot (op m n))
fold op x y = none

-- `commute` for an operation that is commutative.
abbrev pub commute : Def → Def → Def × Def
commute x (lit n) = (lit n, x)
commute (other i) (other j) = if ltb j i then (other j, other i) else (other i, other j)
commute x y = (x, y)

-- `ls` of `normalize_shr`. `Idx::size` is asked of `arg->type()`, which is the type of the pair of
-- operands and no `.Idx`, so that there is no literal.
abbrev pub shift_size : Option ℕ
shift_size = none

-- `ls && lb->get() > *ls`
abbrev pub beyond : Option ℕ → ℕ → Bool
beyond none n = false
beyond (some size) n = ltb size n

-- The rules of `normalize_shr` behind the folding, with `a` and `b` not both literals.
shr_rules : Def → Def → Result
shr_rules (lit m) y = if m == 0 then def (lit m) else raw_app (lit m) y
shr_rules x (lit n) =
    if n == 0 then def x else if beyond shift_size n then def bot else raw_app x (lit n)
shr_rules x y = raw_app x y

unfoldable pub normalize_shr : Shr → Width → Def → Def → Result
unfolding shr_rules
normalize_shr id w x y = elim (fold (fold_shr id w) x y) [
  | some result ↦ result
  | none ↦ shr_rules x y
]

-- `a / 1` and `a / a`, and the remainders.
abbrev pub is_quotient : Div → Bool
is_quotient sdiv = true
is_quotient udiv = true
is_quotient _ = false

div_same : Div → Def → Def → Result
div_same id x y =
    if same_def x y then (if is_quotient id then def (lit 1) else def (lit 0)) else raw_app x y

div_rules : Div → Def → Def → Result
unfolding div_same
div_rules id (lit m) y = if m == 0 then def (lit m) else div_same id (lit m) y
div_rules id x (lit n) =
    if n == 0
    then def bot
    else if n == 1
    then (if is_quotient id then def x else def (lit 0))
    else div_same id x (lit n)
div_rules id x y = div_same id x y

-- The memory operand is passed through and left out here.
unfoldable pub normalize_div : Div → Width → Def → Def → Result
unfolding div_rules
normalize_div id w x y = elim (fold (fold_div id w) x y) [
  | some result ↦ result
  | none ↦ div_rules id x y
]

-- The sub tags of `icmp` that have a meaning of their own.
abbrev pub icmp_f : ℕ
icmp_f = 0

abbrev pub icmp_e : ℕ
icmp_e = 1

abbrev pub icmp_ne : ℕ
icmp_ne = 30

abbrev pub icmp_t : ℕ
icmp_t = 31

abbrev pub truth : Bool → ℕ
truth true = 1
truth false = 0

-- `fold` of a comparison, a truth value as a word.
abbrev pub icmp_word : ℕ → Width → ℕ → ℕ → Res
icmp_word id w m n = word (truth (fold_icmp id w m n))

-- The rules behind the folding, with the operands as `fold` leaves them.
icmp_rules : ℕ → Def × Def → Result
icmp_rules id (x, y) =
    if id == icmp_f
    then def (lit 0)
    else if id == icmp_t
    then def (lit 1)
    else if same_def x y && id == icmp_e
    then def (lit 1)
    else if same_def x y && id == icmp_ne
    then def (lit 0)
    else raw_app x y

unfoldable pub normalize_icmp : ℕ → Width → Def → Def → Result
unfolding icmp_rules
normalize_icmp id w x y = elim (fold (icmp_word id w) x y) [
  | some result ↦ result
  | none ↦ icmp_rules id (if id == icmp_e || id == icmp_ne then commute x y else (x, y))
]
