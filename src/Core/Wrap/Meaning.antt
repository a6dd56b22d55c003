-- ===== src/Core/Wrap/Meaning.antt =====
-- Sums, differences and products modulo the size of a type, and the values of terms.
use native.Mathlib.Nat.{mod-lt, mod-add-mod, add-mod-mod, mul_comm, mul_assoc, add_comm}
use thorin.Prelude.{
  ℕ, ◌+◌, ◌-◌, ◌*◌, ◌%◌, ◌<◌, ◌≡◌, refl, sym, ap, ◌∙◌, arith, Bool, true, false, ◌&&◌, ==_iff,
}
use thorin.Prelude.Modular.{mod-mul_left}
use thorin.Core.Ops.{Wrap, add, sub, mul, shl, is_commutative_wrap}
use thorin.Core.Wrap.{Term, lit, bot, unknown, app, other, same_wrap, same_flag, same_term}

-- The operations modulo `m`; a shift has no part in this.
unfoldable pub wrap_value : Wrap → ℕ → ℕ → ℕ → ℕ
wrap_value add m x y = (x + y) % m
wrap_value sub m x y = (x + (m - y)) % m
wrap_value mul m x y = x * y % m
wrap_value shl m x y = 0

abbrev pub is_arithmetic : Wrap → Bool
is_arithmetic shl = false
is_arithmetic _ = true

pub wrap_value-lt : (id : Wrap) (m x y : ℕ) → 0 < m → wrap_value id m x y < m
unfolding wrap_value
wrap_value-lt add m x y h = mod-lt (x + y) h
wrap_value-lt sub m x y h = mod-lt (x + (m - y)) h
wrap_value-lt mul m x y h = mod-lt (x * y) h
wrap_value-lt shl m x y h = h

pub wrap_value_comm :
    (id : Wrap) (m x y : ℕ)
    → is_commutative_wrap id ≡ true
    → wrap_value id m x y ≡ wrap_value id m y x
unfolding wrap_value is_commutative_wrap
wrap_value_comm add m x y h = ap (λ (k : ℕ). k % m) (add_comm x y)
wrap_value_comm mul m x y h = ap (λ (k : ℕ). k % m) (mul_comm x y)
wrap_value_comm sub m x y h = cc
wrap_value_comm shl m x y h = cc

pub wrap_value_assoc :
    (id : Wrap) (m x y z : ℕ)
    → is_commutative_wrap id ≡ true
    → wrap_value id m (wrap_value id m x y) z ≡ wrap_value id m x (wrap_value id m y z)
unfolding wrap_value is_commutative_wrap
wrap_value_assoc add m x y z h =
    mod-add-mod (x + y) m z ∙ ap (λ (k : ℕ). k % m) (omega arith) ∙ sym (add-mod-mod x (y + z) m)
wrap_value_assoc mul m x y z h =
    mod-mul_left (x * y) z m
    ∙ ap (λ (k : ℕ). k % m) (mul_assoc x y z ∙ mul_comm x (y * z))
    ∙ sym (mod-mul_left (y * z) x m)
    ∙ ap (λ (k : ℕ). k % m) (mul_comm (y * z % m) x)
wrap_value_assoc sub m x y z h = cc
wrap_value_assoc shl m x y z h = cc

abbrev pub eval : ℕ → (ℕ → ℕ) → Term → ℕ
eval m env (lit n) = n
eval m env bot = 0
eval m env unknown = 0
eval m env (app id mode x y) = wrap_value id m (eval m env x) (eval m env y)
eval m env (other i) = env i

-- Terms of the type with `m` values that are built from sums, differences and products.
abbrev pub IsTyped : ℕ → (ℕ → ℕ) → Term → Type 0
IsTyped m env (lit n) = n < m
IsTyped m env bot = ⊥
IsTyped m env unknown = ⊥
IsTyped m env (app id mode x y) = (is_arithmetic id ≡ true) × (IsTyped m env x × IsTyped m env y)
IsTyped m env (other i) = env i < m

pub eval-lt_wrap : (m : ℕ) (env : ℕ → ℕ) (x : Term) → 0 < m → IsTyped m env x → eval m env x < m
eval-lt_wrap m env (lit n) pos h = h
eval-lt_wrap m env bot pos h = pos
eval-lt_wrap m env unknown pos h = pos
eval-lt_wrap m env (app id mode x y) pos h = wrap_value-lt id m (eval m env x) (eval m env y) pos
eval-lt_wrap m env (other i) pos h = h

and_parts : (p q : Bool) → (p && q) ≡ true → (p ≡ true) × (q ≡ true)
and_parts true q h = (refl, h)
and_parts false q h = cc

pub same_wrap_eq : (i j : Wrap) → same_wrap i j ≡ true → i ≡ j
same_wrap_eq add add h = refl
same_wrap_eq sub sub h = refl
same_wrap_eq mul mul h = refl
same_wrap_eq shl shl h = refl
same_wrap_eq add _ h = cc
same_wrap_eq sub _ h = cc
same_wrap_eq mul _ h = cc
same_wrap_eq shl _ h = cc

pub same_term-eval_wrap :
    (m : ℕ) (env : ℕ → ℕ) (x y : Term) → same_term x y ≡ true → eval m env x ≡ eval m env y
unfolding same_term
same_term-eval_wrap m env (lit a) (lit b) h = (==_iff a b).0 h
same_term-eval_wrap m env bot bot h = refl
same_term-eval_wrap m env (app i p x y) (app j q u v) h =
    let flags_nsw = same_flag p.nsw q.nsw in
    let flags_nuw = same_flag p.nuw q.nuw in
    let operands = same_term x u && same_term y v in
    let a = and_parts (same_wrap i j) (flags_nsw && (flags_nuw && operands)) h in
    let b = and_parts flags_nsw (flags_nuw && operands) a.1 in
    let c = and_parts flags_nuw operands b.1 in
    let d = and_parts (same_term x u) (same_term y v) c.1 in
    cc (same_wrap_eq i j a.0, same_term-eval_wrap m env x u d.0, same_term-eval_wrap m env y v d.1)
same_term-eval_wrap m env (other i) (other j) h = ap env ((==_iff i j).0 h)
same_term-eval_wrap m env (lit a) _ h = cc
same_term-eval_wrap m env bot _ h = cc
same_term-eval_wrap m env unknown _ h = cc
same_term-eval_wrap m env (app i p x y) _ h = cc
same_term-eval_wrap m env (other i) _ h = cc
