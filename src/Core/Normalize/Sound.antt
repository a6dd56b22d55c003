-- ===== src/Core/Normalize/Sound.antt =====
-- Normalizing and then replacing the unknown operands by literals yields what folding the
-- literals yields, wherever that is a value.
use native.Mathlib.Nat.{zero-div, zero-mod, div_self, mod_self}
use thorin.Prelude.{ℕ, ◌^◌, ◌<◌, ◌≡◌, refl, arith, if◌then◌else◌, Option, none, some}
use thorin.Core.Ops.{Shr, arithmetic, logical, Div, sdiv, udiv, srem, urem}
use thorin.Core.Fold.{
  Width, w1, w8, w16, w32, w64, bits, Res, empty, word, undefined, fold_shr, fold_div, low,
  fold_div_by, magnitude,
}
use thorin.Core.Fold.Range.{IsWide}
use thorin.Core.Normalize.{
  Def, lit, bot, other, Result, def, raw_app, unknown, normalize_shr, normalize_div, is_quotient,
}

-- Values for the unknown operands.
abbrev pub Env : Type 0
Env = ℕ → ℕ

-- The value of a definition, where `⊥` has none.
abbrev pub value : Env → Def → Option ℕ
value env (lit n) = some n
value env bot = none
value env (other i) = some (env i)

abbrev pub Op : Type 0
Op = ℕ → ℕ → Res

-- The operation on the values of two operands.
abbrev pub apply : Op → Option ℕ → Option ℕ → Res
apply op (some m) (some n) = op m n
apply op _ _ = empty

abbrev to_res : Option ℕ → Res
to_res (some n) = word n
to_res none = empty

abbrev pub result : Op → Env → Result → Res
result op env (def d) = to_res (value env d)
result op env (raw_app x y) = apply op (value env x) (value env y)
result op env unknown = undefined

-- The second result is the value of the first, if that is one.
abbrev pub Refines : Res → Res → Type 0
Refines (word n) s = s ≡ word n
Refines empty s = Unit
Refines undefined s = Unit

pub Refines-intro : (r s : Res) → ((n : ℕ) → r ≡ word n → s ≡ word n) → Refines r s
Refines-intro (word n) s keep = keep n refl
Refines-intro empty s keep = tt
Refines-intro undefined s keep = tt

-- A literal of the operands' type.
abbrev pub Fits : Width → Env → Def → Type 0
Fits w env (lit n) = n < 2 ^ bits w
Fits w env bot = Unit
Fits w env (other i) = env i < 2 ^ bits w

normalize_shr-value :
    (id : Shr) (w : Width) (env : Env) (x y : Def)
    → IsWide w
    → Fits w env x
    → Fits w env y
    → (n : ℕ) → apply (fold_shr id w) (value env x) (value env y) ≡ word n
    → result (fold_shr id w) env (normalize_shr id w x y) ≡ word n
unfolding normalize_shr fold_shr
normalize_shr-value id w1 env x y wide hx hy n h = absurd wide
normalize_shr-value id w8 env x y wide hx hy n h = absurd wide
normalize_shr-value id w16 env x y wide hx hy n h = absurd wide
normalize_shr-value logical w32 env x y wide hx hy n h = ground arith
normalize_shr-value logical w64 env x y wide hx hy n h = ground arith
normalize_shr-value arithmetic w32 env x y wide hx hy n h = ground arith
normalize_shr-value arithmetic w64 env x y wide hx hy n h = ground arith

-- Normalizing a right shift of literals or unknowns of a type of 32 or 64 bits keeps the value that
-- folding gives.
pub normalize_shr-Refines :
    (id : Shr) (w : Width) (env : Env) (x y : Def)
    → IsWide w
    → Fits w env x
    → Fits w env y
    → Refines
        (apply (fold_shr id w) (value env x) (value env y))
        (result (fold_shr id w) env (normalize_shr id w x y))
normalize_shr-Refines id w env x y wide hx hy =
    Refines-intro (apply (fold_shr id w) (value env x) (value env y))
      (result (fold_shr id w) env (normalize_shr id w x y))
      (normalize_shr-value id w env x y wide hx hy)

-- What the rules of division rest on: the cases of a dividend 0, a divisor 1, and equal operands.
abbrev same_value : Div → ℕ
same_value id = if is_quotient id then 1 else 0

fold_div-zero : (id : Div) (w : Width) (b n : ℕ) → IsWide w → fold_div id w 0 b ≡ word n → n ≡ 0
unfolding fold_div fold_div_by
fold_div-zero sdiv w32 b n wide h = ground (arith, zero-div (magnitude w32 (low w32 b)))
fold_div-zero sdiv w64 b n wide h = ground (arith, zero-div (magnitude w64 (low w64 b)))
fold_div-zero srem w32 b n wide h = ground (arith, zero-mod (magnitude w32 (low w32 b)))
fold_div-zero srem w64 b n wide h = ground (arith, zero-mod (magnitude w64 (low w64 b)))
fold_div-zero udiv w32 b n wide h = ground (arith, zero-div (low w32 b))
fold_div-zero udiv w64 b n wide h = ground (arith, zero-div (low w64 b))
fold_div-zero urem w32 b n wide h = ground (arith, zero-mod (low w32 b))
fold_div-zero urem w64 b n wide h = ground (arith, zero-mod (low w64 b))
fold_div-zero _ w1 b n wide h = absurd wide
fold_div-zero _ w8 b n wide h = absurd wide
fold_div-zero _ w16 b n wide h = absurd wide

fold_div_by_zero : (id : Div) (w : Width) (a : ℕ) → fold_div id w a 0 ≡ empty
unfolding fold_div
fold_div_by_zero id w a = refl

fold_div-one :
    (id : Div) (w : Width) (a n : ℕ)
    → IsWide w
    → a < 2 ^ bits w
    → fold_div id w a 1 ≡ word n
    → n ≡ (if is_quotient id then a else 0)
unfolding fold_div fold_div_by
fold_div-one sdiv w32 a n wide ha h = ground arith
fold_div-one sdiv w64 a n wide ha h = ground arith
fold_div-one srem w32 a n wide ha h = ground arith
fold_div-one srem w64 a n wide ha h = ground arith
fold_div-one udiv w32 a n wide ha h = ground arith
fold_div-one udiv w64 a n wide ha h = ground arith
fold_div-one urem w32 a n wide ha h = ground arith
fold_div-one urem w64 a n wide ha h = ground arith
fold_div-one _ w1 a n wide ha h = absurd wide
fold_div-one _ w8 a n wide ha h = absurd wide
fold_div-one _ w16 a n wide ha h = absurd wide

fold_div_self :
    (id : Div) (w : Width) (a n : ℕ)
    → IsWide w
    → a < 2 ^ bits w
    → fold_div id w a a ≡ word n
    → n ≡ same_value id
unfolding fold_div fold_div_by
fold_div_self sdiv w32 a n wide ha h =
    ground (arith, div_self {n = magnitude w32 a}, mod_self (magnitude w32 a))
fold_div_self sdiv w64 a n wide ha h =
    ground (arith, div_self {n = magnitude w64 a}, mod_self (magnitude w64 a))
fold_div_self srem w32 a n wide ha h = ground (arith, mod_self (magnitude w32 a))
fold_div_self srem w64 a n wide ha h = ground (arith, mod_self (magnitude w64 a))
fold_div_self udiv w32 a n wide ha h = ground (arith, div_self {n = a})
fold_div_self udiv w64 a n wide ha h = ground (arith, div_self {n = a})
fold_div_self urem w32 a n wide ha h = ground (arith, mod_self a)
fold_div_self urem w64 a n wide ha h = ground (arith, mod_self a)
fold_div_self _ w1 a n wide ha h = absurd wide
fold_div_self _ w8 a n wide ha h = absurd wide
fold_div_self _ w16 a n wide ha h = absurd wide

normalize_div-value :
    (id : Div) (w : Width) (env : Env) (x y : Def)
    → IsWide w
    → Fits w env x
    → Fits w env y
    → (n : ℕ) → apply (fold_div id w) (value env x) (value env y) ≡ word n
    → result (fold_div id w) env (normalize_div id w x y) ≡ word n
unfolding normalize_div
normalize_div-value id w env (lit m) (lit k) wide hx hy n h = ground arith
normalize_div-value id w env (lit m) (other j) wide hx hy n h =
    ground (arith, fold_div-zero id w (env j) n wide)
normalize_div-value id w env (other i) (lit k) wide hx hy n h =
    ground (arith, fold_div-one id w (env i) n wide, fold_div_by_zero id w (env i))
normalize_div-value id w env (other i) (other j) wide hx hy n h =
    ground (arith, fold_div_self id w (env i) n wide)
normalize_div-value id w env (lit m) bot wide hx hy n h = cc
normalize_div-value id w env (other i) bot wide hx hy n h = cc
normalize_div-value id w env bot y wide hx hy n h = cc

-- Normalizing a division of literals or unknowns of a type of 32 or 64 bits keeps the value that
-- folding gives.
pub normalize_div-Refines :
    (id : Div) (w : Width) (env : Env) (x y : Def)
    → IsWide w
    → Fits w env x
    → Fits w env y
    → Refines
        (apply (fold_div id w) (value env x) (value env y))
        (result (fold_div id w) env (normalize_div id w x y))
normalize_div-Refines id w env x y wide hx hy =
    Refines-intro (apply (fold_div id w) (value env x) (value env y))
      (result (fold_div id w) env (normalize_div id w x y))
      (normalize_div-value id w env x y wide hx hy)
