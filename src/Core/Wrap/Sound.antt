-- ===== src/Core/Wrap/Sound.antt =====
-- `normalize_wrap` keeps the value modulo the size of the type, for operations without flags.
use native.Mathlib.Nat.{one-le-pow}
use thorin.Prelude.{
  ℕ, zero, suc, ◌^◌, ◌≡◌, refl, ◌∙◌, arith, Bool, true, false, not, ◌&&◌, ◌||◌, Option, none, some,
  ltb, Bool-cases, inl, inr,
}
use thorin.Core.Ops.{Wrap, is_commutative_wrap}
use thorin.Core.Fold.{Width, bits}
use thorin.Core.Fold.Range.{IsWide}
use thorin.Core.Wrap.{
  Mode, no_flags, Term, lit, bot, unknown, app, other, is_lit, fold_operands, commute_wrap,
  else_try, wrap_rules, normalize_wrap, build_wrap,
}
use thorin.Core.Wrap.Meaning.{
  wrap_value, is_arithmetic, wrap_value-lt, wrap_value_comm, eval, IsTyped,
}
use thorin.Core.Wrap.Rules.{
  HasWord, IfSomeWord, KeepsWord, fold_wrap-value, left_literal-IfSome, right_literal-IfSome,
  same_operands-IfSomeWord,
}
use thorin.Core.Wrap.Regroup.{reassociate_wrap-IfSome}

-- `commute` leaves no literal on the right of an operation that commutes.
kept_free : (c l t : Bool) → (c && (l || t)) ≡ false → (c && l) ≡ false
kept_free true true t h = h
kept_free true false t h = refl
kept_free false l t h = refl

swapped_free :
    (id : Wrap) (w : Width) (mode : Mode) (x y : Term) (c before : Bool)
    → fold_operands id w mode x y ≡ none
    → (c && (is_lit y || (before && not (is_lit x)))) ≡ true
    → (c && is_lit x) ≡ false
swapped_free id w mode (lit a) (lit b) c before e h = cc
swapped_free id w mode (lit a) bot c before e h = cc
swapped_free id w mode (lit a) unknown c before e h = ground arith
swapped_free id w mode (lit a) (app i p u v) c before e h = ground arith
swapped_free id w mode (lit a) (other i) c before e h = ground arith
swapped_free id w mode bot y c before e h = ground arith
swapped_free id w mode unknown y c before e h = ground arith
swapped_free id w mode (app i p u v) y c before e h = ground arith
swapped_free id w mode (other i) y c before e h = ground arith

module _ (make : Wrap → Mode → Term → Term → Term) (gid : Term → ℕ) (w : Width) (env : ℕ → ℕ)
    (wide : IsWide w) (keeps : KeepsWord w env make) where
  abbrev m : ℕ
  m = 2 ^ bits w

  abbrev val : Term → ℕ
  val x = eval m env x

  else_try-IfSome :
      (v : ℕ) (o p : Option Term)
      → IfSomeWord m env v o
      → IfSomeWord m env v p
      → IfSomeWord m env v (else_try make gid w o p)
  else_try-IfSome v (some x) p ho hp = ho
  else_try-IfSome v none p ho hp = hp

  else_keep :
      (v : ℕ) (o : Option Term) (d : Term)
      → IfSomeWord m env v o
      → HasWord m env v d
      → HasWord m env v (elim o [ some r ↦ r | none ↦ d ])
  else_keep v (some x) d ho hd = ho
  else_keep v none d ho hd = hd

  wrap_rules-HasWord :
      (id : Wrap) (x y : Term)
      → is_arithmetic id ≡ true
      → IsTyped m env x
      → IsTyped m env y
      → (is_commutative_wrap id && is_lit y) ≡ false
      → HasWord m env (wrap_value id m (val x) (val y)) (wrap_rules make gid w id no_flags x y)
  unfolding wrap_rules
  wrap_rules-HasWord id x y a hx hy free =
      let v = wrap_value id m (val x) (val y) in
      else_keep v _ (app id no_flags x y)
        (else_try-IfSome v _ _ (left_literal-IfSome make gid w env wide keeps id x y a hy) (
          else_try-IfSome v _ _ (right_literal-IfSome make gid w env wide keeps id x y a hx hy free)
            (else_try-IfSome v _ _ (same_operands-IfSomeWord make gid w env wide keeps id x y a hx)
              (reassociate_wrap-IfSome make gid w env wide keeps id x y hx hy))))
        ((a, (hx, hy)), refl)

  fold_operands-IfSome :
      (id : Wrap) (x y : Term)
      → is_arithmetic id ≡ true
      → IsTyped m env x
      → IsTyped m env y
      → IfSomeWord m env (wrap_value id m (val x) (val y)) (fold_operands id w no_flags x y)
  fold_operands-IfSome id (lit k) (lit n) a hx hy =
      let pos = one-le-pow (bits w) 2 (omega arith) in
      rw (fold_wrap-value w id k n wide a hx hy) (wrap_value-lt id m k n pos, refl)
  fold_operands-IfSome id bot y a hx hy = absurd hx
  fold_operands-IfSome id unknown y a hx hy = absurd hx
  fold_operands-IfSome id (lit k) bot a hx hy = absurd hy
  fold_operands-IfSome id (lit k) unknown a hx hy = absurd hy
  fold_operands-IfSome id (lit k) (app i p u v) a hx hy = tt
  fold_operands-IfSome id (lit k) (other i) a hx hy = tt
  fold_operands-IfSome id (app j q r s) bot a hx hy = absurd hy
  fold_operands-IfSome id (app j q r s) y a hx hy = ground arith
  fold_operands-IfSome id (other j) bot a hx hy = absurd hy
  fold_operands-IfSome id (other j) y a hx hy = ground arith

  -- The normalizer behind the folding, where that has yielded nothing.
  unfolded-HasWord :
      (id : Wrap) (x y : Term)
      → is_arithmetic id ≡ true
      → IsTyped m env x
      → IsTyped m env y
      → fold_operands id w no_flags x y ≡ none
      → HasWord m env
          (wrap_value id m (val x) (val y))
          (let (x', y') = commute_wrap make gid w id x y in wrap_rules make gid w id no_flags x' y')
  unfolded-HasWord id x y a hx hy e =
      let before = ltb (gid y) (gid x) in
      elim (Bool-cases (is_commutative_wrap id && (is_lit y || (before && not (is_lit x))))) [
        | inl h ↦
            let free = swapped_free id w no_flags x y (is_commutative_wrap id) before e h in
            let k = wrap_rules-HasWord id y x a hy hx free in
            let c = commutes (is_commutative_wrap id) (is_lit y || (before && not (is_lit x))) h in
            rw h (k.0, k.1 ∙ wrap_value_comm id m (val y) (val x) c)
        | inr h ↦ rw h (
            wrap_rules-HasWord id x y a hx hy
              (kept_free (is_commutative_wrap id) (is_lit y) (before && not (is_lit x)) h))
      ]
    where
      commutes : (p q : Bool) → (p && q) ≡ true → p ≡ true
      commutes true q h = refl
      commutes false q h = h

  fold_or :
      (v : ℕ) (o : Option Term) (d : Term)
      → IfSomeWord m env v o
      → (o ≡ none → HasWord m env v d)
      → HasWord m env v (elim o [ some r ↦ r | none ↦ d ])
  fold_or v (some x) d ho hd = ho
  fold_or v none d ho hd = hd refl

  -- If the world keeps the values of operations without flags, so does the normalizer.
  pub normalize_wrap-Keeps : KeepsWord w env (λ id. λ mode. normalize_wrap make gid w id mode)
  unfolding normalize_wrap
  normalize_wrap-Keeps id x y a hx hy =
      fold_or (wrap_value id m (val x) (val y)) (fold_operands id w no_flags x y) _
        (fold_operands-IfSome id x y a hx hy) (λ e. unfolded-HasWord id x y a hx hy e)

build_wrap-Keeps :
    (depth : ℕ) (gid : Term → ℕ) (w : Width) (env : ℕ → ℕ)
    → IsWide w
    → KeepsWord w env (build_wrap depth gid w)
unfolding build_wrap
build_wrap-Keeps zero gid w env wide = λ id x y a hx hy. ((a, (hx, hy)), refl)
build_wrap-Keeps (suc depth) gid w env wide =
    normalize_wrap-Keeps (build_wrap depth gid w) gid w env wide
      (build_wrap-Keeps depth gid w env wide)

-- At 32 and 64 bits, however deep the normalizers call one another, what is built for a sum, a
-- difference or a product without flags, from two operands of the type that are themselves made of
-- those, is of the type and has the operation's value modulo the size of the type, whatever the values
-- of the unknown definitions.
pub build_wrap-HasWord :
    (depth : ℕ) (gid : Term → ℕ) (w : Width) (env : ℕ → ℕ) (id : Wrap) (x y : Term)
    → IsWide w
    → is_arithmetic id ≡ true
    → IsTyped (2 ^ bits w) env x
    → IsTyped (2 ^ bits w) env y
    → HasWord
        (2 ^ bits w)
        env
        (wrap_value id (2 ^ bits w) (eval (2 ^ bits w) env x) (eval (2 ^ bits w) env y))
        (build_wrap depth gid w id no_flags x y)
build_wrap-HasWord depth gid w env id x y wide a hx hy =
    build_wrap-Keeps depth gid w env wide id x y a hx hy
