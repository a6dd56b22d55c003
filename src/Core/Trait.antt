-- ===== src/Core/Trait.antt =====
-- The traits `align` and `size` of a type: `pad` and `normalize_trait` of dialects/core/normalizers.cpp,
-- and `convert` of dialects/core/core.cpp.
pub mod Aligns
pub mod Place
pub mod Union
use thorin.Prelude.{
  ℕ, ◌+◌, ◌-◌, ◌*◌, ◌/◌, ◌%◌, ◌^◌, Bool, true, false, Option, none, some, List, [], ◌∷◌, ◌==◌,
  if◌then◌else◌, max, length,
}
use thorin.Util.Width.{bit_ceil}
use thorin.Idx.{bitwidth2size, size2bitwidth}

-- The argument of `.Idx`.
pub data Size : Type 0 where
  literal : ℕ → Size
  top unknown : Size

-- What `math::isa_f` answers.
pub data Real : Type 0 where
  f16 f32 f64 : Real

-- The types that `normalize_trait` takes apart. `sigma` is a product or a meet, the shape of an array
-- may be a literal, and `opaque` is any other type.
mutual
  pub data Ty : Type 0 where
    ptr pi opaque : Ty
    idx : Size → Ty
    real : Real → Ty
    sigma join : Tys → Ty
    arr : Option ℕ → Ty → Ty

  pub data Tys : Type 0 where
    nil : Tys
    cons : Ty → Tys → Tys

-- What the two traits of a type are normalized to: a literal or not.
pub record Layout : Type 0 where
  pub align : Option ℕ
  pub size : Option ℕ

abbrev pub raw : Layout
raw = record { align = none; size = none }

abbrev pub both : ℕ → ℕ → Layout
both a s = record { align = some a; size = some s }

-- `!a || !s`
abbrev pub two : Option ℕ → Option ℕ → Option (ℕ × ℕ)
two (some a) (some s) = some (a, s)
two _ _ = none

-- The sums are of 64-bit words.
abbrev pub word : ℕ → ℕ
word n = n % 2 ^ 64

unfoldable pub pad : ℕ → ℕ → ℕ
pad offset align =
    let rest = offset % align in if rest == 0 then offset else word (offset + (align - rest))

-- `Idx::size2bitwidth` on a definition.
abbrev pub width_of : Size → Option ℕ
width_of (literal s) = some (size2bitwidth s)
width_of top = some 64
width_of unknown = none

abbrev pub idx_bytes : ℕ → ℕ
idx_bytes w = max 1 (bit_ceil w / 8)

unfoldable pub layout_idx : Size → Layout
layout_idx s = elim (width_of s) [ some w ↦ both (idx_bytes w) (idx_bytes w) | none ↦ raw ]

abbrev pub layout_real : Real → Layout
layout_real f16 = both 2 2
layout_real f32 = both 4 4
layout_real f64 = both 8 8

-- The loop over the fields, from `offset` and `align` on. `none` is the jump to `out`.
unfoldable pub place : List Layout → ℕ → ℕ → Option (ℕ × ℕ)
place [] offset align = some (offset, align)
place (l ∷ fields) offset align = elim (two l.align l.size) [
  | some (a, s) ↦ place fields (word (pad offset a + s)) (max align a)
  | none ↦ none
]

abbrev pub sigma_end : ℕ → ℕ → Layout
sigma_end offset align = both align (max 1 (pad offset align))

unfoldable pub layout_sigma : List Layout → Layout
unfolding place
layout_sigma fields = elim (place fields 0 1) [
  | some (offset, align) ↦ sigma_end offset align
  | none ↦ raw
]

-- `core::op(nop::mul, shape, b)` is a literal where the shape is one.
abbrev pub times : Option ℕ → Option ℕ → Option ℕ
times (some n) (some s) = some (word (n * s))
times _ _ = none

unfoldable pub layout_arr : Option ℕ → Layout → Layout
layout_arr shape body = record { align = body.align; size = times shape body.size }

-- The loop of `convert<true>`: the largest alignment and the largest size.
unfoldable pub largest : List Layout → ℕ → ℕ → Option (ℕ × ℕ)
largest [] align size = some (align, size)
largest (l ∷ ops) align size = elim (two l.align l.size) [
  | some (a, s) ↦ largest ops (max align a) (max size s)
  | none ↦ none
]

-- The layout of the pair that `convert` builds for a join: a number for the alternative, and integers
-- of the alignment's width. `none` is where the assertion fails.
abbrev pub union_of : ℕ → ℕ → ℕ → Layout
union_of num_ops align size = layout_sigma (
    layout_idx (literal (word num_ops))
    ∷ layout_arr (some (size / align)) (layout_idx (literal (bitwidth2size (word (align * 8)))))
    ∷ [])

unfoldable pub layout_join : List Layout → Option Layout
unfolding largest
layout_join ops = elim (largest ops 0 0) [
  | some (align, size) ↦
      if align == 0
      then none
      else if size % align == 0
      then some (union_of (length ops) align size)
      else none
  | none ↦ some raw
]

abbrev pub and_then {ℓ ℓ'} : {A : Type ℓ} {B : Type ℓ'} → Option A → (A → Option B) → Option B
and_then (some x) k = k x
and_then none k = none

-- `normalize_trait`; `none` is where an assertion fails.
unfoldable mutual
  pub layout : Ty → Option Layout
  layout ptr = some (both 8 8)
  layout pi = some (both 8 8)
  layout opaque = some raw
  layout (idx s) = some (layout_idx s)
  layout (real r) = some (layout_real r)
  layout (sigma fields) = and_then (layouts fields) (λ ls. some (layout_sigma ls))
  layout (join ops) = and_then (layouts ops) layout_join
  layout (arr shape body) = and_then (layout body) (λ l. some (layout_arr shape l))

  pub layouts : Tys → Option (List Layout)
  layouts nil = some []
  layouts (cons t rest) = and_then (layout t) (λ l. and_then (layouts rest) (λ ls. some (l ∷ ls)))
