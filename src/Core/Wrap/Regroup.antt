-- ===== src/Core/Wrap/Regroup.antt =====
-- `reassociate` keeps the value modulo the size of the type.
use thorin.Prelude.{
  ℕ, ◌^◌, ◌<◌, ◌≡◌, refl, sym, ap, ap₂, ◌∙◌, true, Option, none, some, Bool-cases, inl, inr,
}
use thorin.Core.Ops.{Wrap, add, sub, mul, shl, is_commutative_wrap}
use thorin.Core.Fold.{Width, bits}
use thorin.Core.Fold.Range.{IsWide}
use thorin.Core.Wrap.{
  Mode, no_flags, Term, lit, bot, unknown, app, other, same_wrap, literal_app, regroup_rules,
  reassociate_wrap,
}
use thorin.Core.Wrap.Meaning.{
  wrap_value, is_arithmetic, wrap_value_comm, wrap_value_assoc, eval, IsTyped, same_wrap_eq,
}
use thorin.Core.Wrap.Rules.{HasWord, IfSomeWord, KeepsWord}

-- An operand that is an application of the operation with a literal in front.
abbrev FrontIs : Wrap → ℕ → (ℕ → ℕ) → ℕ → Option (ℕ × Term) → Type 0
FrontIs id m env v none = Unit
FrontIs id m env v (some p) =
    (p.0 < m × IsTyped m env p.1) × (v ≡ wrap_value id m p.0 (eval m env p.1))

literal_app-FrontIs :
    (make : Wrap → Mode → Term → Term → Term) (gid : Term → ℕ) (w : Width) (id : Wrap) (m : ℕ)
    (env : ℕ → ℕ) (x : Term)
    → IsTyped m env x
    → FrontIs id m env (eval m env x) (literal_app make gid w id x)
literal_app-FrontIs make gid w id m env (app j p (lit n) y) h = elim (Bool-cases (same_wrap id j)) [
  | inl e ↦
      rw e (h.1, ap (λ (k : Wrap). wrap_value k m n (eval m env y)) (sym (same_wrap_eq id j e)))
  | inr e ↦ rw e tt
]
literal_app-FrontIs make gid w id m env (app j p bot y) h = tt
literal_app-FrontIs make gid w id m env (app j p unknown y) h = tt
literal_app-FrontIs make gid w id m env (app j p (app i q u v) y) h = tt
literal_app-FrontIs make gid w id m env (app j p (other i) y) h = tt
literal_app-FrontIs make gid w id m env (lit n) h = tt
literal_app-FrontIs make gid w id m env bot h = tt
literal_app-FrontIs make gid w id m env unknown h = tt
literal_app-FrontIs make gid w id m env (other i) h = tt

commutative-arithmetic : (id : Wrap) → is_commutative_wrap id ≡ true → is_arithmetic id ≡ true
unfolding is_commutative_wrap
commutative-arithmetic add c = refl
commutative-arithmetic sub c = refl
commutative-arithmetic mul c = refl
commutative-arithmetic shl c = cc

module _ (make : Wrap → Mode → Term → Term → Term) (gid : Term → ℕ) (w : Width) (env : ℕ → ℕ)
    (wide : IsWide w) (keeps : KeepsWord w env make) where
  abbrev m : ℕ
  m = 2 ^ bits w

  abbrev val : Term → ℕ
  val x = eval m env x

  module _ (id : Wrap) (c : is_commutative_wrap id ≡ true) where
    abbrev value : ℕ → ℕ → ℕ
    value u v = wrap_value id m u v

    built :
        (x y : Term) (u v : ℕ)
        → HasWord m env u x
        → HasWord m env v y
        → HasWord m env (value u v) (make id no_flags x y)
    built x y u v hx hy =
        let k = keeps id x y (commutative-arithmetic id c) hx.0 hy.0 in
        (k.0, k.1 ∙ ap₂ value hx.1 hy.1)

    regroup : (x y z : ℕ) → value (value x y) z ≡ value x (value y z)
    regroup x y z = wrap_value_assoc id m x y z c

    move_front : (x y z : ℕ) → value x (value y z) ≡ value y (value x z)
    move_front x y z =
        sym (regroup x y z) ∙ ap (λ (k : ℕ). value k z) (wrap_value_comm id m x y c) ∙ regroup y x z

    regroup_rules-IfSome :
        (x y : Term) (ox oy : Option (ℕ × Term))
        → IsTyped m env x
        → IsTyped m env y
        → FrontIs id m env (val x) ox
        → FrontIs id m env (val y) oy
        → IfSomeWord m env (value (val x) (val y)) (regroup_rules make gid w id x y ox oy)
    unfolding regroup_rules
    regroup_rules-IfSome (lit l) y ox (some (lz, u)) hx hy hox hoy =
        let inner = built (lit l) (lit lz) l lz (hx, refl) (hoy.0.0, refl) in
        let outer =
          built (make id no_flags (lit l) (lit lz)) u (value l lz) (val u) inner (hoy.0.1, refl) in
        (outer.0, outer.1 ∙ regroup l lz (val u) ∙ ap (value l) (sym hoy.1))
    regroup_rules-IfSome x y (some (lx, v)) (some (lz, u)) hx hy hox hoy =
        let lits = built (lit lx) (lit lz) lx lz (hox.0.0, refl) (hoy.0.0, refl) in
        let rest = built v u (val v) (val u) (hox.0.1, refl) (hoy.0.1, refl) in
        let all =
          built (make id no_flags (lit lx) (lit lz)) (make id no_flags v u) (value lx lz)
            (value (val v) (val u)) lits rest in
        (
          all.0,
          all.1
              ∙ regroup lx lz (value (val v) (val u))
              ∙ ap (value lx) (move_front lz (val v) (val u))
              ∙ sym (regroup lx (val v) (value lz (val u)))
              ∙ ap₂ value (sym hox.1) (sym hoy.1),
        )
    regroup_rules-IfSome x y none (some (lz, u)) hx hy hox hoy =
        let rest = built x u (val x) (val u) (hx, refl) (hoy.0.1, refl) in
        let all =
          built (lit lz) (make id no_flags x u) lz (value (val x) (val u)) (hoy.0.0, refl) rest in
        (all.0, all.1 ∙ move_front lz (val x) (val u) ∙ ap (value (val x)) (sym hoy.1))
    regroup_rules-IfSome x y (some (lx, v)) none hx hy hox hoy =
        let rest = built v y (val v) (val y) (hox.0.1, refl) (hy, refl) in
        let all =
          built (lit lx) (make id no_flags v y) lx (value (val v) (val y)) (hox.0.0, refl) rest in
        (
          all.0,
          all.1 ∙ sym (regroup lx (val v) (val y)) ∙ ap (λ (k : ℕ). value k (val y)) (sym hox.1),
        )
    regroup_rules-IfSome x y none none hx hy hox hoy = tt

  pub reassociate_wrap-IfSome :
      (id : Wrap) (x y : Term)
      → IsTyped m env x
      → IsTyped m env y
      → IfSomeWord m env (wrap_value id m (val x) (val y)) (reassociate_wrap make gid w id x y)
  unfolding reassociate_wrap
  reassociate_wrap-IfSome id x y hx hy = elim (Bool-cases (is_commutative_wrap id)) [
    | inl e ↦ rw e (
        regroup_rules-IfSome id e x y (literal_app make gid w id x) (literal_app make gid w id y) hx
          hy (literal_app-FrontIs make gid w id m env x hx)
          (literal_app-FrontIs make gid w id m env y hy))
    | inr e ↦ rw e tt
  ]
