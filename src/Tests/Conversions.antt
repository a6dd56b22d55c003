-- ===== src/Tests/Conversions.antt =====
-- Instances for conversions, layouts and the operations on natural numbers.
use thorin.Prelude.{ℕ, ◌≡◌, ◌≢◌, refl, arith, inl, inr, some, none, [], ◌∷◌, List}
use thorin.Idx.{bitwidth2size}
use thorin.Core.Conv.{s2s, literal, lit, value, normalize_conv, sign_extend}
use thorin.Core.Conv.Extend.{normalize_conv-s2s_w64}
use thorin.Core.Trait.{Ty, ptr, arr, layout, both, layout_arr}
use thorin.Core.Trait.Place.{IsAlign, Product, layout_sigma-Product}
use thorin.Core.Trait.Aligns.{layout-IsAlign}
use thorin.Core.Trait.Union.{word_or_bytes, layout-word_or_bytes}
use thorin.Core.Ncmp
use thorin.Core.Ncmp.{normalize_ncmp, lit_nat}
use thorin.Core.Ncmp.Sound.{meaning, holds, normalize_ncmp_lem}

-- Minus one, of 32 bits.
normalize_conv-s2s_w64_example :
    (normalize_conv s2s (literal (bitwidth2size 32)) (literal (bitwidth2size 64)) (lit 4294967295)
      ≡ value 4294967295)
    × (sign_extend 32 4294967295 ≢ 4294967295)
normalize_conv-s2s_w64_example =
    normalize_conv-s2s_w64 32 4294967295 (omega arith) (omega arith) (omega arith) (omega arith)

-- A byte, a pointer and two bytes.
abbrev fields : List (ℕ × ℕ)
fields = (1, 1) ∷ (8, 8) ∷ (1, 2) ∷ []

layout_sigma-Product_example : Product fields
layout_sigma-Product_example =
    layout_sigma-Product fields (inl refl, (inr (inr (inr refl)), (inl refl, tt))) (omega arith)

abbrev pointers : Ty
pointers = arr (some 3) ptr

pointers-layout : layout pointers ≡ some (both 8 24)
unfolding layout layout_arr
pointers-layout = refl

layout-IsAlign_example : IsAlign 8
layout-IsAlign_example = layout-IsAlign pointers (both 8 24) 8 tt pointers-layout refl

layout-word_or_bytes_example : layout (word_or_bytes 9) ≡ none
layout-word_or_bytes_example = layout-word_or_bytes 9 (omega arith) (omega arith) (λ e. omega arith)

-- Every unknown is 7, and the numbers are those of the definitions.
abbrev sevens : ℕ → ℕ
sevens i = 7

abbrev gid : Ncmp.Def → ℕ
gid (Ncmp.lit n) = 0
gid (Ncmp.other i) = i

normalize_ncmp_lem_example :
    meaning (holds Ncmp.ne) sevens (normalize_ncmp Ncmp.ne gid (Ncmp.other 5) (Ncmp.lit 7))
    ≡ holds Ncmp.ne 7 7
normalize_ncmp_lem_example = normalize_ncmp_lem Ncmp.ne gid sevens (Ncmp.other 5) (Ncmp.lit 7)
