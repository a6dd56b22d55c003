-- ===== src/Core/Bit2/Reassociate.antt =====
-- `reassociate` keeps the value, for the operations that commute and associate.
use thorin.Prelude.{
  ℕ, ◌^◌, ◌<◌, ◌≡◌, refl, sym, ap, ap₂, ◌∙◌, true, Option, none, some, Bool-cases, inl, inr,
}
use thorin.Core.Ops.{Bit2, is_commutative_bit2, is_associative_bit2}
use thorin.Core.Fold.{Width, bits}
use thorin.Core.Bitwise.{bit2_value}
use thorin.Core.Bitwise.Laws.{value_assoc}
use thorin.Core.Bit2.{Term, lit, lit_app, reassociate_rules, reassociate}
use thorin.Core.Bit2.Meaning.{Env, eval, Typed, eval-lt}
use thorin.Core.Bit2.Operands.{IfSome, Keeps, AppOf, lit_app-AppOf, make-HasValue, commutes, V-lt}

module _ (make : Bit2 → Term → Term → Term) (gid : Term → ℕ) (w : Width) (env : Env)
    (keeps : Keeps w env make) where
  abbrev n : ℕ
  n = bits w

  abbrev val : Term → ℕ
  val x = eval n env x

  module _ (id : Bit2) (c : is_commutative_bit2 id ≡ true) where
    abbrev value : ℕ → ℕ → ℕ
    value u v = bit2_value id n u v

    module _ (assoc : is_associative_bit2 id ≡ true) where
      regroup :
          (x y z : ℕ)
          → x < 2 ^ n
          → y < 2 ^ n
          → z < 2 ^ n
          → value (value x y) z ≡ value x (value y z)
      regroup x y z hx hy hz = value_assoc id n x y z hx hy hz assoc

      swap_front :
          (x y z : ℕ)
          → x < 2 ^ n
          → y < 2 ^ n
          → z < 2 ^ n
          → value x (value y z) ≡ value y (value x z)
      swap_front x y z hx hy hz =
          sym (regroup x y z hx hy hz)
          ∙ ap (λ (k : ℕ). value k z) (commutes make gid w env keeps id c x y hx hy)
          ∙ regroup y x z hy hx hz

      reassociate_rules-IfSome :
          (x y : Term) (ox oy : Option (ℕ × Term))
          → Typed n env x
          → Typed n env y
          → AppOf id n env (val x) ox
          → AppOf id n env (val y) oy
          → IfSome n env (value (val x) (val y)) (reassociate_rules make gid w id x y ox oy)
      unfolding reassociate_rules
      reassociate_rules-IfSome (lit l) y ox (some (lz, u)) hx hy hox hoy =
          let in_u = eval-lt n env u hoy.0.1 in
          let inner =
            make-HasValue make gid w env keeps id c (lit l) (lit lz) l lz (hx, refl)
              (hoy.0.0, refl) in
          let outer =
            make-HasValue make gid w env keeps id c (make id (lit l) (lit lz)) u (value l lz)
              (val u) inner (hoy.0.1, refl) in
          (outer.0, outer.1 ∙ regroup l lz (val u) hx hoy.0.0 in_u ∙ ap (value l) (sym hoy.1))
      reassociate_rules-IfSome x y (some (lx, v)) (some (lz, u)) hx hy hox hoy =
          let in_u = eval-lt n env u hoy.0.1 in
          let in_v = eval-lt n env v hox.0.1 in
          let lits =
            make-HasValue make gid w env keeps id c (lit lx) (lit lz) lx lz (hox.0.0, refl)
              (hoy.0.0, refl) in
          let rest =
            make-HasValue make gid w env keeps id c v u (val v) (val u) (hox.0.1, refl)
              (hoy.0.1, refl) in
          let all =
            make-HasValue make gid w env keeps id c (make id (lit lx) (lit lz)) (make id v u)
              (value lx lz) (value (val v) (val u)) lits rest in
          (
            all.0,
            all.1
                ∙ regroup lx lz (value (val v) (val u)) hox.0.0 hoy.0.0
                    (V-lt make gid w env keeps id c (val v) (val u) in_v in_u)
                ∙ ap (value lx) (swap_front lz (val v) (val u) hoy.0.0 in_v in_u)
                ∙ sym (
                    regroup lx (val v) (value lz (val u)) hox.0.0 in_v
                      (V-lt make gid w env keeps id c lz (val u) hoy.0.0 in_u))
                ∙ ap₂ value (sym hox.1) (sym hoy.1),
          )
      reassociate_rules-IfSome x y none (some (lz, u)) hx hy hox hoy =
          let in_u = eval-lt n env u hoy.0.1 in
          let rest =
            make-HasValue make gid w env keeps id c x u (val x) (val u) (hx, refl)
              (hoy.0.1, refl) in
          let all =
            make-HasValue make gid w env keeps id c (lit lz) (make id x u) lz
              (value (val x) (val u)) (hoy.0.0, refl) rest in
          (
            all.0,
            all.1
                ∙ swap_front lz (val x) (val u) hoy.0.0 (eval-lt n env x hx) in_u
                ∙ ap (value (val x)) (sym hoy.1),
          )
      reassociate_rules-IfSome x y (some (lx, v)) none hx hy hox hoy =
          let in_v = eval-lt n env v hox.0.1 in
          let in_y = eval-lt n env y hy in
          let rest =
            make-HasValue make gid w env keeps id c v y (val v) (val y) (hox.0.1, refl)
              (hy, refl) in
          let all =
            make-HasValue make gid w env keeps id c (lit lx) (make id v y) lx
              (value (val v) (val y)) (hox.0.0, refl) rest in
          (
            all.0,
            all.1
                ∙ sym (regroup lx (val v) (val y) hox.0.0 in_v in_y)
                ∙ ap (λ (k : ℕ). value k (val y)) (sym hox.1),
          )
      reassociate_rules-IfSome x y none none hx hy hox hoy = tt

    pub reassociate-IfSome :
        (x y : Term)
        → Typed n env x
        → Typed n env y
        → IfSome n env (value (val x) (val y)) (reassociate make gid w id x y)
    unfolding reassociate
    reassociate-IfSome x y hx hy = elim (Bool-cases (is_associative_bit2 id)) [
      | inl e ↦ rw e (
          reassociate_rules-IfSome e x y (lit_app make gid w id x) (lit_app make gid w id y) hx hy
            (lit_app-AppOf make gid w id n env x hx) (lit_app-AppOf make gid w id n env y hy))
      | inr e ↦ rw e tt
    ]
