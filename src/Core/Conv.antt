-- ===== src/Core/Conv.antt =====
-- `normalize_conv` of dialects/core/normalizers.cpp, and the check in `World::lit` of thorin/world.cpp.
pub mod Truncate
pub mod Extend
use thorin.Prelude.{
  ℕ, ◌+◌, ◌-◌, ◌*◌, ◌/◌, ◌%◌, ◌^◌, Bool, true, false, not, ◌&&◌, ◌||◌, Option, none, some, ◌==◌,
  ltb, leb, if◌then◌else◌,
}
use thorin.Idx.{size2bitwidth}

pub data Conv : Type 0 where
  s2s u2u : Conv

-- The argument of `.Idx`: a literal, or a definition known by its `gid`.
pub data Size : Type 0 where
  literal : ℕ → Size
  unknown : ℕ → Size

abbrev pub same_size : Size → Size → Bool
same_size (literal m) (literal n) = m == n
same_size (unknown i) (unknown j) = i == j
same_size _ _ = false

pub data Def : Type 0 where
  lit : ℕ → Def
  bot : Def
  other : ℕ → Def

-- The operand itself, `⊥`, a literal of the type, the conversion built anew under its sub tag, or a
-- failed assertion.
pub data Result : Type 0 where
  same : Def → Result
  bottom : Result
  value : ℕ → Result
  raw_app : Conv → Def → Result
  failed : Result

-- Whether `World::lit` takes the value for the type; it reports an error otherwise.
abbrev pub accepts : Size → ℕ → Bool
accepts (literal s) val = s == 0 || not (leb s val)
accepts (unknown i) val = val == 0

-- `w2s<D>(thorin::bitcast<w2s<S>>(l))` as the 64-bit word that `World::lit` takes: sign extension, but
-- for `w2s<1>`, which is `bool`.
unfoldable pub sign_extend : ℕ → ℕ → ℕ
sign_extend sw l = if sw == 1 then l else if leb (2 ^ (sw - 1)) l then l + (2 ^ 64 - 2 ^ sw) else l

-- The pairs of widths that have a case.
abbrev pub has_case : ℕ → ℕ → Bool
has_case sw dw =
    (sw == 1 && (dw == 8 || dw == 16 || dw == 32 || dw == 64))
    || (sw == 8 && (dw == 16 || dw == 32 || dw == 64))
    || (sw == 16 && (dw == 32 || dw == 64))
    || (sw == 32 && dw == 64)

unfoldable pub u2u_lit : ℕ → ℕ → ℕ
u2u_lit d l = if d == 0 then l else l % d

s2s_lit : ℕ → ℕ → ℕ → Result
unfolding sign_extend
s2s_lit s d l =
    if has_case (size2bitwidth s) (size2bitwidth d)
    then value (sign_extend (size2bitwidth s) l)
    else failed

-- Behind the test on bottom, for the conversion `u2u`.
rest_u2u : Size → Size → Def → Result
unfolding u2u_lit
rest_u2u (literal s) (literal d) (lit l) = value (u2u_lit d l)
rest_u2u s d x = raw_app u2u x

rest_s2s : Size → Size → Def → Result
unfolding s2s_lit rest_u2u
rest_s2s (literal s) (literal d) (lit l) =
    if ltb d s then rest_u2u (literal s) (literal d) (lit l) else s2s_lit s d l
rest_s2s (literal s) (literal d) x = if ltb d s then raw_app u2u x else raw_app s2s x
rest_s2s s d x = raw_app s2s x

unfoldable pub normalize_conv : Conv → Size → Size → Def → Result
unfolding rest_u2u rest_s2s
normalize_conv id s d x = if same_size s d then same x else go id x
  where
    go : Conv → Def → Result
    go id bot = bottom
    go u2u x = rest_u2u s d x
    go s2s x = rest_s2s s d x
