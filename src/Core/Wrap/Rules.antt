-- ===== src/Core/Wrap/Rules.antt =====
-- The rules of `normalize_wrap` keep the value modulo the size of the type.
use native.Mathlib.Nat.{mod-eq_of_lt, mod_self, add-mod_right}
use thorin.Prelude.{
  ℕ, ◌+◌, ◌-◌, ◌*◌, ◌%◌, ◌^◌, ◌<◌, ◌≡◌, refl, sym, ap, ap₂, ◌∙◌, arith, true, false, ◌&&◌, Option,
  none, some, ◌==◌, ==_iff, Bool-cases, inl, inr,
}
use thorin.Core.Ops.{Wrap, add, sub, mul, shl, is_commutative_wrap}
use thorin.Core.Fold.{Width, w1, w8, w16, w32, w64, bits, word, fold_wrap}
use thorin.Core.Fold.Range.{IsWide}
use thorin.Core.Wrap.{
  Mode, no_flags, Term, lit, bot, unknown, app, other, same_term, is_lit, negated_literal,
  left_zero, left_one, left_literal, right_zero, right_other, right_literal, same_rules,
  same_operands_wrap,
}
use thorin.Core.Wrap.Unsigned.{negated_literal_lem}
use thorin.Core.Wrap.Meaning.{
  wrap_value, is_arithmetic, eval, IsTyped, eval-lt_wrap, same_term-eval_wrap,
}

-- A term of the type with a value.
abbrev pub HasWord : ℕ → (ℕ → ℕ) → ℕ → Term → Type 0
HasWord m env v x = IsTyped m env x × (eval m env x ≡ v)

abbrev pub IfSomeWord : ℕ → (ℕ → ℕ) → ℕ → Option Term → Type 0
IfSomeWord m env v none = Unit
IfSomeWord m env v (some x) = HasWord m env v x

-- What building an operation without flags has to keep.
abbrev pub KeepsWord : Width → (ℕ → ℕ) → (Wrap → Mode → Term → Term → Term) → Type 0
KeepsWord w env make =
    (id : Wrap) (x y : Term)
    → is_arithmetic id ≡ true
    → IsTyped (2 ^ bits w) env x
    → IsTyped (2 ^ bits w) env y
    → HasWord (2 ^ bits w) env
        (wrap_value id (2 ^ bits w) (eval (2 ^ bits w) env x) (eval (2 ^ bits w) env y))
        (make id no_flags x y)

pub fold_wrap-value :
    (w : Width) (id : Wrap) (x y : ℕ)
    → IsWide w
    → is_arithmetic id ≡ true
    → x < 2 ^ bits w
    → y < 2 ^ bits w
    → fold_wrap id w x y false false ≡ word (wrap_value id (2 ^ bits w) x y)
unfolding fold_wrap wrap_value
fold_wrap-value w1 id x y h a hx hy = absurd h
fold_wrap-value w8 id x y h a hx hy = absurd h
fold_wrap-value w16 id x y h a hx hy = absurd h
fold_wrap-value w32 add x y h a hx hy = ground arith
fold_wrap-value w32 sub x y h a hx hy = ap word (omega arith)
fold_wrap-value w32 mul x y h a hx hy =
    ap₂ (λ (i j : ℕ). word (i * j % 2 ^ 32)) (mod-eq_of_lt hx) (mod-eq_of_lt hy)
fold_wrap-value w32 shl x y h a hx hy = cc
fold_wrap-value w64 add x y h a hx hy = ground arith
fold_wrap-value w64 sub x y h a hx hy = ap word (omega arith)
fold_wrap-value w64 mul x y h a hx hy =
    ap₂ (λ (i j : ℕ). word (i * j % 2 ^ 64)) (mod-eq_of_lt hx) (mod-eq_of_lt hy)
fold_wrap-value w64 shl x y h a hx hy = cc

module _ (make : Wrap → Mode → Term → Term → Term) (gid : Term → ℕ) (w : Width) (env : ℕ → ℕ)
    (wide : IsWide w) (keeps : KeepsWord w env make) where
  abbrev m : ℕ
  m = 2 ^ bits w

  abbrev val : Term → ℕ
  val x = eval m env x

  wide_size : 2 < m
  wide_size = two w wide
    where
      two : (w : Width) → IsWide w → 2 < 2 ^ bits w
      two w1 h = absurd h
      two w8 h = absurd h
      two w16 h = absurd h
      two w32 h = omega arith
      two w64 h = omega arith

  pub val-lt : (x : Term) → IsTyped m env x → val x < m
  val-lt x h = eval-lt_wrap m env x (omega (arith, wide_size)) h

  left_zero-IfSome :
      (id : Wrap) (y : Term)
      → is_arithmetic id ≡ true
      → IsTyped m env y
      → IfSomeWord m env (wrap_value id m 0 (val y)) (left_zero make gid w id y)
  unfolding left_zero wrap_value
  left_zero-IfSome add y a h =
      let e : 0 + val y ≡ val y = omega arith in
      (h, sym (ap (λ (k : ℕ). k % m) e ∙ mod-eq_of_lt (val-lt y h)))
  left_zero-IfSome sub y a h = tt
  left_zero-IfSome mul y a h =
      let e : 0 * val y ≡ 0 = omega arith in
      let pos : 0 < m = omega (arith, wide_size) in
      (pos, sym (ap (λ (k : ℕ). k % m) e ∙ mod-eq_of_lt pos))
  left_zero-IfSome shl y a h = cc

  left_one-IfSome :
      (id : Wrap) (y : Term)
      → is_arithmetic id ≡ true
      → IsTyped m env y
      → IfSomeWord m env (wrap_value id m 1 (val y)) (left_one make gid w id y)
  unfolding left_one wrap_value
  left_one-IfSome add y a h = tt
  left_one-IfSome sub y a h = tt
  left_one-IfSome mul y a h =
      (h, sym (ap (λ (k : ℕ). k % m) (omega arith) ∙ mod-eq_of_lt (val-lt y h)))
  left_one-IfSome shl y a h = cc

  pub left_literal-IfSome :
      (id : Wrap) (x y : Term)
      → is_arithmetic id ≡ true
      → IsTyped m env y
      → IfSomeWord m env (wrap_value id m (val x) (val y)) (left_literal make gid w id x y)
  unfolding left_literal
  left_literal-IfSome id (lit n) y a h = elim (Bool-cases (n == 0)) [
    | inl e ↦ let z : n ≡ 0 = (==_iff n 0).0 e in rw z (left_zero-IfSome id y a h)
    | inr e ↦ elim (Bool-cases (n == 1)) [
      | inl g ↦ let z : n ≡ 1 = (==_iff n 1).0 g in rw z (left_one-IfSome id y a h)
      | inr g ↦ rw (e, g) tt
    ]
  ]
  left_literal-IfSome id bot y a h = tt
  left_literal-IfSome id unknown y a h = tt
  left_literal-IfSome id (app i p u v) y a h = tt
  left_literal-IfSome id (other i) y a h = tt

  -- A difference from a literal is the sum with the negated one.
  right_other-IfSome :
      (id : Wrap) (x : Term) (n : ℕ)
      → is_arithmetic id ≡ true
      → IsTyped m env x
      → 0 < n
      → n < m
      → IfSomeWord m env (wrap_value id m (val x) n) (right_other make gid w id no_flags x n)
  unfolding right_other wrap_value
  right_other-IfSome add x n a h pos lt = tt
  right_other-IfSome sub x n a h pos lt =
      let e = negated_literal_lem w n wide pos lt in
      let k = keeps add x (lit (negated_literal w n)) refl h (omega (arith, e)) in
      (k.0, k.1 ∙ ap (λ (i : ℕ). (val x + i) % m) e)
  right_other-IfSome mul x n a h pos lt = tt
  right_other-IfSome shl x n a h pos lt = cc

  right_zero-HasWord :
      (id : Wrap) (x : Term)
      → is_arithmetic id ≡ true
      → IsTyped m env x
      → (is_commutative_wrap id && true) ≡ false
      → HasWord m env (wrap_value id m (val x) 0) (right_zero make gid w id x)
  unfolding right_zero wrap_value is_commutative_wrap
  right_zero-HasWord add x a h free = absurd (ground arith)
  right_zero-HasWord sub x a h free =
      let e : m - 0 ≡ m = omega arith in
      (
        h,
        sym (
            ap (λ (k : ℕ). (val x + k) % m) e
            ∙ add-mod_right (val x) m
            ∙ mod-eq_of_lt (val-lt x h)),
      )
  right_zero-HasWord mul x a h free = absurd (ground arith)
  right_zero-HasWord shl x a h free = cc

  pub right_literal-IfSome :
      (id : Wrap) (x y : Term)
      → is_arithmetic id ≡ true
      → IsTyped m env x
      → IsTyped m env y
      → (is_commutative_wrap id && is_lit y) ≡ false
      → IfSomeWord m env
          (wrap_value id m (val x) (val y))
          (right_literal make gid w id no_flags x y)
  unfolding right_literal
  right_literal-IfSome id x (lit n) a h k free = elim (Bool-cases (n == 0)) [
    | inl e ↦ let z : n ≡ 0 = (==_iff n 0).0 e in rw z (right_zero-HasWord id x a h free)
    | inr e ↦ rw e (right_other-IfSome id x n a h (ground arith) k)
  ]
  right_literal-IfSome id x bot a h k free = tt
  right_literal-IfSome id x unknown a h k free = tt
  right_literal-IfSome id x (app i p u v) a h k free = tt
  right_literal-IfSome id x (other i) a h k free = tt

  same_rules-IfSome :
      (id : Wrap) (x : Term)
      → is_arithmetic id ≡ true
      → IsTyped m env x
      → IfSomeWord m env (wrap_value id m (val x) (val x)) (same_rules make gid w id no_flags x)
  unfolding same_rules wrap_value
  same_rules-IfSome add x a h =
      let k = keeps mul (lit 2) x refl wide_size h in
      let e : 2 * val x ≡ val x + val x = omega arith in (k.0, k.1 ∙ ap (λ (i : ℕ). i % m) e)
  same_rules-IfSome sub x a h =
      let e : val x + (m - val x) ≡ m = omega (arith, val-lt x h) in
      (omega (arith, wide_size), sym (ap (λ (i : ℕ). i % m) e ∙ mod_self m))
  same_rules-IfSome mul x a h = tt
  same_rules-IfSome shl x a h = cc

  pub same_operands-IfSomeWord :
      (id : Wrap) (x y : Term)
      → is_arithmetic id ≡ true
      → IsTyped m env x
      → IfSomeWord m env
          (wrap_value id m (val x) (val y))
          (same_operands_wrap make gid w id no_flags x y)
  unfolding same_operands_wrap
  same_operands-IfSomeWord id x y a h = elim (Bool-cases (same_term x y)) [
    | inl e ↦ rw e (rw (sym (same_term-eval_wrap m env x y e)) (same_rules-IfSome id x a h))
    | inr e ↦ rw e tt
  ]
