-- ===== src/Core/Normalize/Compare.antt =====
-- Normalizing a comparison keeps the value that folding gives.
use thorin.Prelude.{ℕ, ◌≡◌, refl, arith, true, false, ◌==◌, ◌||◌, some}
use thorin.Core.Fold.{w1, w8, w16, w32, w64, Width, fold_icmp, word}
use thorin.Core.Normalize.{
  Def, lit, bot, other, normalize_icmp, icmp_f, icmp_e, icmp_ne, icmp_t, icmp_word, icmp_rules,
  same_def,
}
use thorin.Prelude.Bits.{bit}
use thorin.Core.Normalize.Sound.{Env, value, apply, result, Refines, Refines-intro}

fold_icmp-never : (w : Width) (a b : ℕ) → fold_icmp icmp_f w a b ≡ false
unfolding fold_icmp bit
fold_icmp-never w a b = refl

fold_icmp-always : (w : Width) (a b : ℕ) → fold_icmp icmp_t w a b ≡ true
unfolding fold_icmp bit
fold_icmp-always w1 a b = ground arith
fold_icmp-always w8 a b = ground arith
fold_icmp-always w16 a b = ground arith
fold_icmp-always w32 a b = ground arith
fold_icmp-always w64 a b = ground arith

fold_icmp-same_e : (w : Width) (a : ℕ) → fold_icmp icmp_e w a a ≡ true
unfolding fold_icmp bit
fold_icmp-same_e w a = ground arith

fold_icmp-same_ne : (w : Width) (a : ℕ) → fold_icmp icmp_ne w a a ≡ false
unfolding fold_icmp bit
fold_icmp-same_ne w1 a = ground arith
fold_icmp-same_ne w8 a = ground arith
fold_icmp-same_ne w16 a = ground arith
fold_icmp-same_ne w32 a = ground arith
fold_icmp-same_ne w64 a = ground arith

-- Equality and its negation do not depend on the order of the operands.
fold_icmp-swap_e : (w : Width) (a b : ℕ) → fold_icmp icmp_e w a b ≡ fold_icmp icmp_e w b a
unfolding fold_icmp bit
fold_icmp-swap_e w a b = ground arith

fold_icmp-swap_ne : (w : Width) (a b : ℕ) → fold_icmp icmp_ne w a b ≡ fold_icmp icmp_ne w b a
unfolding fold_icmp bit
fold_icmp-swap_ne w1 a b = ground arith
fold_icmp-swap_ne w8 a b = ground arith
fold_icmp-swap_ne w16 a b = ground arith
fold_icmp-swap_ne w32 a b = ground arith
fold_icmp-swap_ne w64 a b = ground arith

-- The two operands that `commute` may swap are compared by equality alone.
icmp_word-swap :
    (id : ℕ) (w : Width) (a b : ℕ)
    → (id == icmp_e || id == icmp_ne) ≡ true
    → icmp_word id w a b ≡ icmp_word id w b a
icmp_word-swap id w a b h = ground (arith, fold_icmp-swap_e w a b, fold_icmp-swap_ne w a b)

icmp_rules-Refines :
    (id : ℕ) (w : Width) (env : Env) (x y : Def) (a b : ℕ)
    → value env x ≡ some a
    → value env y ≡ some b
    → (same_def x y ≡ true → a ≡ b)
    → result (icmp_word id w) env (icmp_rules id (x, y)) ≡ icmp_word id w a b
unfolding icmp_rules
icmp_rules-Refines id w env x y a b hx hy same = ground (
  arith,
  fold_icmp-never w a b,
  fold_icmp-always w a b,
  fold_icmp-same_e w a,
  fold_icmp-same_ne w a,
)

pub normalize_icmp-value :
    (id : ℕ) (w : Width) (env : Env) (x y : Def)
    → (n : ℕ) → apply (icmp_word id w) (value env x) (value env y) ≡ word n
    → result (icmp_word id w) env (normalize_icmp id w x y) ≡ word n
unfolding normalize_icmp
normalize_icmp-value id w env (lit m) (lit k) n h = ground arith
normalize_icmp-value id w env (lit m) (other j) n h =
    ground
      (arith, icmp_rules-Refines id w env (lit m) (other j) m (env j) refl refl (λ e. ground arith))
normalize_icmp-value id w env (other i) (lit k) n h = ground (
  arith,
  icmp_rules-Refines id w env (other i) (lit k) (env i) k refl refl (λ e. ground arith),
  icmp_rules-Refines id w env (lit k) (other i) k (env i) refl refl (λ e. ground arith),
  icmp_word-swap id w (env i) k,
)
normalize_icmp-value id w env (other i) (other j) n h = ground (
  arith,
  icmp_rules-Refines id w env (other i) (other j) (env i) (env j) refl refl (λ e. ground arith),
  icmp_rules-Refines id w env (other j) (other i) (env j) (env i) refl refl (λ e. ground arith),
  icmp_word-swap id w (env i) (env j),
)
normalize_icmp-value id w env (lit m) bot n h = cc
normalize_icmp-value id w env (other i) bot n h = cc
normalize_icmp-value id w env bot y n h = cc

-- Normalizing a comparison of any width keeps the value that folding gives, whichever way its
-- operands were commuted.
pub normalize_icmp-Refines :
    (id : ℕ) (w : Width) (env : Env) (x y : Def)
    → Refines
        (apply (icmp_word id w) (value env x) (value env y))
        (result (icmp_word id w) env (normalize_icmp id w x y))
normalize_icmp-Refines id w env x y =
    Refines-intro (apply (icmp_word id w) (value env x) (value env y))
      (result (icmp_word id w) env (normalize_icmp id w x y)) (normalize_icmp-value id w env x y)
