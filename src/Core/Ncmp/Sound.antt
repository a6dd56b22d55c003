-- ===== src/Core/Ncmp/Sound.antt =====
-- The normalizers of the operations on natural numbers against what core.thorin documents.
use native.Mathlib.Nat.{mul_comm}
use thorin.Prelude.{
  Option, none, some, sym, ap, ◌∙◌, ℕ, ◌+◌, ◌*◌, ◌≡◌, refl, arith, Bool, true, false, not, ◌&&◌,
  ◌||◌, ◌==◌, ltb, if◌then◌else◌, Bool-cases, inl, inr,
}
use thorin.Prelude.Bits.{bit}
use thorin.Core.Ncmp.{
  Nop, add, mul, Ncmp, f, e, l, le, g, ge, ne, t, Def, lit, other, Result, lit_nat, lit_bool,
  raw_app, is_lit, commute, word, nop_folded, normalize_nop, is_commutative_ncmp, number,
  ncmp_folded, normalize_ncmp,
}

-- The three relations of the table in core.thorin: the bits of the sub tag stand, from the lowest, for
-- equal, less and greater.
abbrev pub relation : ℕ → ℕ → ℕ
relation m n = if m == n then 0 else if ltb m n then 1 else 2

abbrev sub_of : Ncmp → ℕ
sub_of f = 0
sub_of e = 1
sub_of l = 2
sub_of le = 3
sub_of g = 4
sub_of ge = 5
sub_of ne = 6
sub_of t = 7

abbrev pub holds : Ncmp → ℕ → ℕ → ℕ
holds id m n = bit (sub_of id) (relation m n)

-- The value of a definition where the unknown ones have values.
abbrev pub value : (ℕ → ℕ) → Def → ℕ
value env (lit n) = n
value env (other i) = env i

-- The number that a result stands for, a Boolean as 0 or 1.
abbrev pub meaning : (ℕ → ℕ → ℕ) → (ℕ → ℕ) → Result → ℕ
meaning op env (lit_nat n) = n
meaning op env (lit_bool b) = number b
meaning op env (raw_app x y) = op (value env x) (value env y)

-- The operations on words.
abbrev pub nop_value : Nop → ℕ → ℕ → ℕ
nop_value add m n = word (m + n)
nop_value mul m n = word (m * n)

-- What is folded, or else an application whose value is known.
abbrev or_app : Option Result → Result → Result
or_app o r = elim o [ some folded ↦ folded | none ↦ r ]

nop_folded_lem :
    (id : Nop) (env : ℕ → ℕ) (x y : Def) (r : Result)
    → meaning (nop_value id) env r ≡ nop_value id (value env x) (value env y)
    → meaning (nop_value id) env (or_app (nop_folded id x y) r)
      ≡ nop_value id (value env x) (value env y)
unfolding nop_folded
nop_folded_lem add env (lit m) (lit n) r h = refl
nop_folded_lem add env (lit m) (other j) r h = h
nop_folded_lem add env (other i) y r h = h
nop_folded_lem mul env (lit m) (lit n) r h = refl
nop_folded_lem mul env (lit m) (other j) r h = h
nop_folded_lem mul env (other i) y r h = h

nop_comm : (id : Nop) (m n : ℕ) → nop_value id m n ≡ nop_value id n m
nop_comm add m n = ap word (omega arith)
nop_comm mul m n = ap word (mul_comm m n)

-- The test of `commute`.
abbrev swaps : (Def → ℕ) → Def → Def → Bool
swaps gid x y = is_lit y || (ltb (gid y) (gid x) && not (is_lit x))

nop_commuted_lem :
    (id : Nop) (gid : Def → ℕ) (env : ℕ → ℕ) (x y : Def) (c : Bool)
    → meaning
        (nop_value id)
        env
        (let (x', y') = commute c gid x y in or_app (nop_folded id x' y') (raw_app x y))
      ≡ nop_value id (value env x) (value env y)
nop_commuted_lem id gid env x y false = nop_folded_lem id env x y (raw_app x y) refl
nop_commuted_lem id gid env x y true = elim (Bool-cases (swaps gid x y)) [
  | inl k ↦
      let swapped = nop_comm id (value env x) (value env y) in
      rw k (nop_folded_lem id env y x (raw_app x y) swapped ∙ sym swapped)
  | inr k ↦ rw k (nop_folded_lem id env x y (raw_app x y) refl)
]

-- Normalizing a sum or a product keeps its value as a 64-bit word, whatever the unknown definitions
-- stand for and however they are numbered.
pub normalize_nop_lem :
    (id : Nop) (gid : Def → ℕ) (env : ℕ → ℕ) (x y : Def)
    → meaning (nop_value id) env (normalize_nop id gid x y)
      ≡ nop_value id (value env x) (value env y)
unfolding normalize_nop
normalize_nop_lem id gid env x y = nop_commuted_lem id gid env x y true

ncmp_folded_lem :
    (id : Ncmp) (env : ℕ → ℕ) (x y : Def) (r : Result)
    → meaning (holds id) env r ≡ holds id (value env x) (value env y)
    → meaning (holds id) env (or_app (ncmp_folded id x y) r) ≡ holds id (value env x) (value env y)
unfolding ncmp_folded bit
ncmp_folded_lem f env (lit m) (lit n) r h = h
ncmp_folded_lem f env (lit m) (other j) r h = h
ncmp_folded_lem f env (other i) y r h = h
ncmp_folded_lem e env (lit m) (lit n) r h = ground arith
ncmp_folded_lem e env (lit m) (other j) r h = h
ncmp_folded_lem e env (other i) y r h = h
ncmp_folded_lem l env (lit m) (lit n) r h = ground arith
ncmp_folded_lem l env (lit m) (other j) r h = h
ncmp_folded_lem l env (other i) y r h = h
ncmp_folded_lem le env (lit m) (lit n) r h = ground arith
ncmp_folded_lem le env (lit m) (other j) r h = h
ncmp_folded_lem le env (other i) y r h = h
ncmp_folded_lem g env (lit m) (lit n) r h = ground arith
ncmp_folded_lem g env (lit m) (other j) r h = h
ncmp_folded_lem g env (other i) y r h = h
ncmp_folded_lem ge env (lit m) (lit n) r h = ground arith
ncmp_folded_lem ge env (lit m) (other j) r h = h
ncmp_folded_lem ge env (other i) y r h = h
ncmp_folded_lem ne env (lit m) (lit n) r h = ground arith
ncmp_folded_lem ne env (lit m) (other j) r h = h
ncmp_folded_lem ne env (other i) y r h = h
ncmp_folded_lem t env (lit m) (lit n) r h = h
ncmp_folded_lem t env (lit m) (other j) r h = h
ncmp_folded_lem t env (other i) y r h = h

holds_comm : (id : Ncmp) → is_commutative_ncmp id ≡ true → (m n : ℕ) → holds id m n ≡ holds id n m
unfolding bit
holds_comm e h m n = ground arith
holds_comm ne h m n = ground arith
holds_comm _ h m n = cc

commuted_lem :
    (id : Ncmp) (gid : Def → ℕ) (env : ℕ → ℕ) (x y : Def) (c : Bool)
    → is_commutative_ncmp id ≡ c
    → meaning
        (holds id)
        env
        (let (x', y') = commute c gid x y in or_app (ncmp_folded id x' y') (raw_app x y))
      ≡ holds id (value env x) (value env y)
commuted_lem id gid env x y false h = ncmp_folded_lem id env x y (raw_app x y) refl
commuted_lem id gid env x y true h = elim (Bool-cases (swaps gid x y)) [
  | inl k ↦
      let swapped = holds_comm id h (value env x) (value env y) in
      rw k (ncmp_folded_lem id env y x (raw_app x y) swapped ∙ sym swapped)
  | inr k ↦ rw k (ncmp_folded_lem id env x y (raw_app x y) refl)
]

always : (m n : ℕ) → 1 ≡ holds t m n
unfolding bit
always m n = ground arith

never : (m n : ℕ) → 0 ≡ holds f m n
unfolding bit
never m n = ground arith

-- Normalizing a comparison of natural numbers keeps its truth as the table of its sub tag has it,
-- whatever the unknown definitions stand for and however they are numbered.
pub normalize_ncmp_lem :
    (id : Ncmp) (gid : Def → ℕ) (env : ℕ → ℕ) (x y : Def)
    → meaning (holds id) env (normalize_ncmp id gid x y) ≡ holds id (value env x) (value env y)
unfolding normalize_ncmp
normalize_ncmp_lem t gid env x y = always (value env x) (value env y)
normalize_ncmp_lem f gid env x y = never (value env x) (value env y)
normalize_ncmp_lem e gid env x y = commuted_lem e gid env x y true refl
normalize_ncmp_lem ne gid env x y = commuted_lem ne gid env x y true refl
normalize_ncmp_lem id gid env x y = ncmp_folded_lem id env x y (raw_app x y) refl

abbrev pub is_constant : Ncmp → Bool
is_constant t = true
is_constant f = true
is_constant _ = false

-- Comparing two literals yields a literal of `.Nat`, where the type of the comparison is `.Bool`, for
-- every sub tag but the two constant ones.
pub normalize_ncmp-lit :
    (id : Ncmp) (gid : Def → ℕ) (m n : ℕ)
    → is_constant id ≡ false
    → normalize_ncmp id gid (lit m) (lit n) ≡ lit_nat (holds id m n)
unfolding normalize_ncmp ncmp_folded bit
normalize_ncmp-lit t gid m n h = cc
normalize_ncmp-lit f gid m n h = cc
normalize_ncmp-lit id gid m n h = ground arith
