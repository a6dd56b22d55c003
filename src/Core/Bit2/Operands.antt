-- ===== src/Core/Bit2/Operands.antt =====
-- The rules of `normalize_bit2` for equal operands and for one literal operand keep the value, for the
-- operations that commute.
use native.Mathlib.Nat.{one-le-pow}
use thorin.Prelude.{
  ℕ, ◌^◌, ◌<◌, ◌≡◌, refl, sym, ap, ap₂, ◌∙◌, arith, Bool, true, false, Option, none, some, ◌==◌,
  ==_iff, Bool-cases, inl, inr,
}
use thorin.Prelude.Bits.{bit}
use thorin.Core.Ops.{Bit2, f, xor_, make_truth_table, is_commutative_bit2}
use thorin.Core.Fold.{Width, bits}
use thorin.Core.TruthTable.{documented, make_truth_table-swapped, make_truth_table-documented_iff}
use thorin.Core.Bitwise.{bit2_value, bit2_value-lt, digit}
use thorin.Core.Bitwise.Laws.{
  unary_value, value_same, value_zero_left, value_ones_left, value_zero_right, value_ones_right,
  value_comm,
}
use thorin.Core.Bit2.{
  Term, lit, bit2, icmp, other, same_bit2, same_term, all_ones, op_negate, unary, same_operands,
  lit_left, lit_right, lit_app,
}
use thorin.Core.Bit2.Meaning.{Env, eval, Typed, eval-lt, same_term-eval, same_bit2_eq}

-- The table that the code makes is the documented one where it is symmetric.
pub table :
    (id : Bit2)
    → is_commutative_bit2 id ≡ true
    → (x y : Bool) → make_truth_table id x y ≡ documented id x y
table id c = (make_truth_table-documented_iff id).1 c

xor-commutes : is_commutative_bit2 xor_ ≡ true
unfolding is_commutative_bit2 make_truth_table
xor-commutes = refl

pub digit_value :
    (id : Bit2) (p q : Bool) → digit (documented id p q) ≡ bit2_value id 1 (digit p) (digit q)
unfolding documented bit bit2_value
digit_value f true true = refl
digit_value _ true true = refl
digit_value f true false = refl
digit_value _ true false = refl
digit_value f false true = refl
digit_value _ false true = refl
digit_value f false false = refl
digit_value _ false false = refl

-- A term of the type with a value.
abbrev pub HasValue : ℕ → Env → ℕ → Term → Type 0
HasValue n env v x = Typed n env x × (eval n env x ≡ v)

abbrev pub IfSome : ℕ → Env → ℕ → Option Term → Type 0
IfSome n env v none = Unit
IfSome n env v (some x) = HasValue n env v x

IfSome-cast :
    (n : ℕ) (env : Env) (u v : ℕ) (o : Option Term) → u ≡ v → IfSome n env u o → IfSome n env v o
IfSome-cast n env u v none e h = tt
IfSome-cast n env u v (some x) e h = (h.0, h.1 ∙ e)

-- What building an operation that commutes has to keep.
abbrev pub Keeps : Width → Env → (Bit2 → Term → Term → Term) → Type 0
Keeps w env make =
    (id : Bit2) (x y : Term)
    → is_commutative_bit2 id ≡ true
    → Typed (bits w) env x
    → Typed (bits w) env y
    → HasValue (bits w) env (bit2_value id (bits w) (eval (bits w) env x) (eval (bits w) env y))
        (make id x y)

-- An operand that is an application of the operation with a literal in front.
abbrev pub AppOf : Bit2 → ℕ → Env → ℕ → Option (ℕ × Term) → Type 0
AppOf id n env v none = Unit
AppOf id n env v (some p) =
    (p.0 < 2 ^ n × Typed n env p.1) × (v ≡ bit2_value id n p.0 (eval n env p.1))

pub lit_app-AppOf :
    (make : Bit2 → Term → Term → Term) (gid : Term → ℕ) (w : Width) (id : Bit2) (n : ℕ) (env : Env)
    (x : Term)
    → Typed n env x
    → AppOf id n env (eval n env x) (lit_app make gid w id x)
lit_app-AppOf make gid w id n env (bit2 j (lit m) y) h = elim (Bool-cases (same_bit2 id j)) [
  | inl e ↦ rw e (h, ap (λ (k : Bit2). bit2_value k n m (eval n env y)) (sym (same_bit2_eq id j e)))
  | inr e ↦ rw e tt
]
lit_app-AppOf make gid w id n env (bit2 j (bit2 i x z) y) h = tt
lit_app-AppOf make gid w id n env (bit2 j (icmp i x z) y) h = tt
lit_app-AppOf make gid w id n env (bit2 j (other m) y) h = tt
lit_app-AppOf make gid w id n env (lit m) h = tt
lit_app-AppOf make gid w id n env (icmp i x y) h = tt
lit_app-AppOf make gid w id n env (other m) h = tt

module _ (make : Bit2 → Term → Term → Term) (gid : Term → ℕ) (w : Width) (env : Env)
    (keeps : Keeps w env make) where
  abbrev n : ℕ
  n = bits w

  abbrev val : Term → ℕ
  val x = eval n env x

  op_negate-HasValue :
      (x : Term)
      → Typed n env x
      → HasValue n env (unary_value n true false (val x)) (op_negate make gid w x)
  unfolding op_negate unary_value documented bit
  op_negate-HasValue x hx =
      let one = one-le-pow n 2 (omega arith) in
      let k = keeps xor_ (lit (all_ones w)) x xor-commutes (omega arith) hx in
      (k.0, k.1 ∙ value_ones_left xor_ n (val x) (eval-lt n env x hx))

  unary-IfSome :
      (id : Bit2) (p q : Bool) (x : Term)
      → Typed n env x
      → IfSome n env (unary_value n p q (val x)) (unary make gid w id p q x)
  unfolding unary unary_value
  unary-IfSome id false false x hx = (one-le-pow n 2 (omega arith), refl)
  unary-IfSome id true true x hx = let one = one-le-pow n 2 (omega arith) in (omega arith, refl)
  unary-IfSome id false true x hx = (hx, refl)
  unary-IfSome id true false x hx = elim (Bool-cases (same_bit2 id xor_)) [
    | inl e ↦ rw e tt
    | inr e ↦ rw e (op_negate-HasValue x hx)
  ]

  by_unary :
      (id : Bit2) (p p' q q' : Bool) (x : Term) (v : ℕ)
      → Typed n env x
      → p ≡ p'
      → q ≡ q'
      → v ≡ unary_value n p' q' (val x)
      → IfSome n env v (unary make gid w id p q x)
  by_unary id p p' q q' x v hx ep eq e =
      IfSome-cast n env (unary_value n p q (val x)) v (unary make gid w id p q x)
        (ap₂ (λ (i j : Bool). unary_value n i j (val x)) ep eq ∙ sym e) (unary-IfSome id p q x hx)

  module _ (id : Bit2) (c : is_commutative_bit2 id ≡ true) where
    abbrev value : ℕ → ℕ → ℕ
    value u v = bit2_value id n u v

    pub same_operands-IfSome :
        (x y : Term)
        → Typed n env x
        → IfSome n env (value (val x) (val y)) (same_operands make gid w id x y)
    unfolding same_operands
    same_operands-IfSome x y hx = elim (Bool-cases (same_term x y)) [
      | inl e ↦
          rw (c, e)
            (by_unary id _ _ _ _ x (value (val x) (val y)) hx (table id c false false)
              (table id c true true)
              (ap (value (val x)) (sym (same_term-eval n env x y e))
                ∙ value_same id n (val x) (eval-lt n env x hx)))
      | inr e ↦ rw (c, e) tt
    ]

    pub lit_left-IfSome :
        (x y : Term)
        → Typed n env y
        → IfSome n env (value (val x) (val y)) (lit_left make gid w id x y)
    unfolding lit_left
    lit_left-IfSome (lit m) y hy = elim (Bool-cases (m == 0)) [
      | inl e ↦ rw e (
          by_unary id _ _ _ _ y (value m (val y)) hy (table id c false false)
            (table id c false true)
            (ap (λ (k : ℕ). value k (val y)) ((==_iff m 0).0 e)
              ∙ value_zero_left id n (val y) (eval-lt n env y hy)))
      | inr e ↦ elim (Bool-cases (m == all_ones w)) [
        | inl e' ↦
            rw (e, e')
              (by_unary id _ _ _ _ y (value m (val y)) hy (table id c true false)
                (table id c true true)
                (ap (λ (k : ℕ). value k (val y)) ((==_iff m (all_ones w)).0 e')
                  ∙ value_ones_left id n (val y) (eval-lt n env y hy)))
        | inr e' ↦ rw (e, e') tt
      ]
    ]
    lit_left-IfSome (bit2 j x z) y hy = tt
    lit_left-IfSome (icmp i x z) y hy = tt
    lit_left-IfSome (other m) y hy = tt

    pub lit_right-IfSome :
        (x y : Term)
        → Typed n env x
        → IfSome n env (value (val x) (val y)) (lit_right make gid w id x y)
    unfolding lit_right
    lit_right-IfSome x (lit m) hx = elim (Bool-cases (m == 0)) [
      | inl e ↦ rw e (
          by_unary id _ _ _ _ x (value (val x) m) hx (table id c false false)
            (table id c true false)
            (ap (value (val x)) ((==_iff m 0).0 e)
              ∙ value_zero_right id n (val x) (eval-lt n env x hx)))
      | inr e ↦ elim (Bool-cases (m == all_ones w)) [
        | inl e' ↦
            rw (e, e')
              (by_unary id _ _ _ _ x (value (val x) m) hx (table id c false true)
                (table id c true true)
                (ap (value (val x)) ((==_iff m (all_ones w)).0 e')
                  ∙ value_ones_right id n (val x) (eval-lt n env x hx)))
        | inr e' ↦ rw (e, e') tt
      ]
    ]
    lit_right-IfSome x (bit2 j y z) hx = tt
    lit_right-IfSome x (icmp i y z) hx = tt
    lit_right-IfSome x (other m) hx = tt

    pub commutes : (u v : ℕ) → u < 2 ^ n → v < 2 ^ n → value u v ≡ value v u
    commutes u v hu hv =
        value_comm id n u v hu hv
          (sym (table id c true false) ∙ make_truth_table-swapped id true false)

    pub make-HasValue :
        (x y : Term) (u v : ℕ)
        → HasValue n env u x
        → HasValue n env v y
        → HasValue n env (value u v) (make id x y)
    make-HasValue x y u v hx hy =
        let k = keeps id x y c hx.0 hy.0 in (k.0, k.1 ∙ ap₂ value hx.1 hy.1)

    pub V-lt : (u v : ℕ) → u < 2 ^ n → v < 2 ^ n → value u v < 2 ^ n
    V-lt u v hu hv = bit2_value-lt n u v hu hv id
