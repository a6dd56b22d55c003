-- ===== src/Core/Trait/Aligns.antt =====
-- The alignments that `normalize_trait` yields.
use mathlib.Core.Path.{subst}
use thorin.Prelude.{
  ℕ, zero, suc, ◌+◌, ◌-◌, ◌*◌, ◌/◌, ◌%◌, ◌^◌, ◌≤◌, ◌<◌, ◌≡◌, ◌⊎◌, inl, inr, refl, arith, Bool, true,
  false, Option, none, some, List, [], ◌∷◌, ◌==◌, if◌then◌else◌, max, length,
}
use thorin.Util.Width.{bit_width, bit_ceil, bit_width-le}
use thorin.Idx.{bitwidth2size, size2bitwidth, pow-lt_pow}
use thorin.Core.Trait.{
  Size, literal, top, unknown, Real, f16, f32, f64, Ty, ptr, pi, opaque, idx, real, sigma, join,
  arr, Tys, nil, cons, Layout, raw, two, word, pad, idx_bytes, layout_idx, layout_real, place,
  sigma_end, layout_sigma, layout_arr, largest, union_of, layout_join, and_then, layout, layouts,
}
use thorin.Core.Trait.Place.{IsAlign, IsAlign-max}

-- The literal sizes are 64-bit words.
abbrev IsWord : Size → Type 0
IsWord (literal s) = s < 2 ^ 64
IsWord top = Unit
IsWord unknown = Unit

abbrev mutual
  pub AreWords : Ty → Type 0
  AreWords ptr = Unit
  AreWords pi = Unit
  AreWords opaque = Unit
  AreWords (idx s) = IsWord s
  AreWords (real r) = Unit
  AreWords (sigma fields) = AllWords fields
  AreWords (join ops) = AllWords ops
  AreWords (arr shape body) = AreWords body

  AllWords : Tys → Type 0
  AllWords nil = Unit
  AllWords (cons t rest) = AreWords t × AllWords rest

abbrev IsAlignIfSome : Option ℕ → Type 0
IsAlignIfSome none = Unit
IsAlignIfSome (some a) = IsAlign a

abbrev pub Aligned : Layout → Type 0
Aligned l = IsAlignIfSome l.align

abbrev IfSome : Option Layout → Type 0
IfSome none = Unit
IfSome (some l) = Aligned l

abbrev AllAligned : List Layout → Type 0
AllAligned [] = Unit
AllAligned (l ∷ ls) = Aligned l × AllAligned ls

few_bits : (k : ℕ) → k ≤ 6 → IsAlign (max 1 (2 ^ k / 8))
few_bits zero h = inl refl
few_bits (suc zero) h = inl refl
few_bits (suc (suc zero)) h = inl refl
few_bits (suc (suc (suc zero))) h = inl refl
few_bits (suc (suc (suc (suc zero)))) h = inr (inl refl)
few_bits (suc (suc (suc (suc (suc zero))))) h = inr (inr (inl refl))
few_bits (suc (suc (suc (suc (suc (suc zero)))))) h = inr (inr (inr refl))
few_bits (suc (suc (suc (suc (suc (suc (suc k))))))) h = absurd (omega arith)

bit_width_zero : (b : ℕ) → bit_width 0 ≤ b
unfolding bit_width
bit_width_zero b = omega arith

bit_width-bound : (n b : ℕ) → n < 2 ^ b → bit_width n ≤ b
bit_width-bound zero b h = bit_width_zero b
bit_width-bound (suc n) b h =
    let e =
      pow-lt_pow (bit_width (suc n)) (suc b) (omega (arith, bit_width-le (suc n) (omega arith))) in
    omega (arith, e)

idx_bytes-IsAlign : (w : ℕ) → w ≤ 64 → IsAlign (idx_bytes w)
unfolding bit_ceil
idx_bytes-IsAlign w h = few_bits (bit_width (w - 1)) (bit_width-bound (w - 1) 6 (omega arith))

layout_idx-Aligned : (s : Size) → IsWord s → Aligned (layout_idx s)
unfolding layout_idx size2bitwidth
layout_idx-Aligned (literal s) h =
    idx_bytes-IsAlign (size2bitwidth s) (ground (arith, bit_width-bound (s - 1) 64 (omega arith)))
layout_idx-Aligned top h = idx_bytes-IsAlign 64 (omega arith)
layout_idx-Aligned unknown h = tt

layout_real-Aligned : (r : Real) → Aligned (layout_real r)
layout_real-Aligned f16 = inr (inl refl)
layout_real-Aligned f32 = inr (inr (inl refl))
layout_real-Aligned f64 = inr (inr (inr refl))

abbrev SecondIsAlign : Option (ℕ × ℕ) → Type 0
SecondIsAlign none = Unit
SecondIsAlign (some p) = IsAlign p.1

-- One round of the loop, with what the later rounds yield.
place_round :
    (fields : List Layout) (offset align : ℕ) (a s : Option ℕ)
    → IsAlign align
    → IsAlignIfSome a
    → ((o b : ℕ) → IsAlign b → SecondIsAlign (place fields o b))
    → SecondIsAlign (elim (two a s) [
      | some (a, s) ↦ place fields (word (pad offset a + s)) (max align a)
      | none ↦ none
    ])
place_round fields offset align (some a) (some s) h k later =
    later (word (pad offset a + s)) (max align a) (IsAlign-max align a h k)
place_round fields offset align (some a) none h k later = tt
place_round fields offset align none s h k later = tt

place-Aligned :
    (fields : List Layout) (offset align : ℕ)
    → AllAligned fields
    → IsAlign align
    → SecondIsAlign (place fields offset align)
unfolding place
place-Aligned [] offset align hs h = h
place-Aligned (l ∷ fields) offset align hs h =
    place_round fields offset align l.align l.size h hs.0 (λ o b k. place-Aligned fields o b hs.1 k)

layout_sigma-Aligned : (fields : List Layout) → AllAligned fields → Aligned (layout_sigma fields)
unfolding layout_sigma
layout_sigma-Aligned fields hs = go (place fields 0 1) (place-Aligned fields 0 1 hs (inl refl))
  where
    go :
        (o : Option (ℕ × ℕ))
        → SecondIsAlign o
        → Aligned (elim o [ some (offset, align) ↦ sigma_end offset align | none ↦ raw ])
    go (some p) h = h
    go none h = tt

-- The loop of `convert` begins with an alignment of 0.
abbrev FirstIsAlign : Option (ℕ × ℕ) → Type 0
FirstIsAlign none = Unit
FirstIsAlign (some p) = (p.0 ≡ 0) ⊎ IsAlign p.0

raise : (b a : ℕ) → (b ≡ 0) ⊎ IsAlign b → IsAlign a → IsAlign (max b a)
raise b a (inl e) k = let same : max b a ≡ a = omega arith in rw same k
raise b a (inr h) k = IsAlign-max b a h k

largest_round :
    (ops : List Layout) (align size : ℕ) (a s : Option ℕ)
    → (align ≡ 0) ⊎ IsAlign align
    → IsAlignIfSome a
    → ((b m : ℕ) → (b ≡ 0) ⊎ IsAlign b → FirstIsAlign (largest ops b m))
    → FirstIsAlign
        (elim (two a s) [ some (a, s) ↦ largest ops (max align a) (max size s) | none ↦ none ])
largest_round ops align size (some a) (some s) h k later =
    later (max align a) (max size s) (inr (raise align a h k))
largest_round ops align size (some a) none h k later = tt
largest_round ops align size none s h k later = tt

largest-Aligned :
    (ops : List Layout) (align size : ℕ)
    → AllAligned ops
    → (align ≡ 0) ⊎ IsAlign align
    → FirstIsAlign (largest ops align size)
unfolding largest
largest-Aligned [] align size hs h = h
largest-Aligned (l ∷ ops) align size hs h =
    largest_round ops align size l.align l.size h hs.0 (λ b m k. largest-Aligned ops b m hs.1 k)

integer_size : (a : ℕ) → IsAlign a → bitwidth2size (word (a * 8)) < 2 ^ 64
unfolding bitwidth2size
integer_size a (inl e) = rw e (omega arith)
integer_size a (inr (inl e)) = rw e (omega arith)
integer_size a (inr (inr (inl e))) = rw e (omega arith)
integer_size a (inr (inr (inr e))) = rw e (omega arith)

union_of-Aligned : (n a s : ℕ) → IsAlign a → Aligned (union_of n a s)
unfolding layout_arr
union_of-Aligned n a s h = layout_sigma-Aligned _ (
  layout_idx-Aligned (literal (word n)) (omega arith),
  (layout_idx-Aligned (literal (bitwidth2size (word (a * 8)))) (integer_size a h), tt),
)

union_chosen :
    (n a s : ℕ) (empty_ fits : Bool)
    → (a == 0) ≡ empty_
    → (a ≡ 0) ⊎ IsAlign a
    → IfSome (if empty_ then none else if fits then some (union_of n a s) else none)
union_chosen n a s true fits e h = tt
union_chosen n a s false false e h = tt
union_chosen n a s false true e (inl z) = absurd (ground arith)
union_chosen n a s false true e (inr h) = union_of-Aligned n a s h

layout_join-Aligned : (ops : List Layout) → AllAligned ops → IfSome (layout_join ops)
unfolding layout_join
layout_join-Aligned ops hs = go (largest ops 0 0) (largest-Aligned ops 0 0 hs (inl refl))
  where
    go :
        (o : Option (ℕ × ℕ))
        → FirstIsAlign o
        → IfSome (elim o [
          | some (align, size) ↦
              if align == 0
              then none
              else if size % align == 0
              then some (union_of (length ops) align size)
              else none
          | none ↦ some raw
        ])
    go (some (a, s)) h = union_chosen (length ops) a s (a == 0) (s % a == 0) refl h
    go none h = tt

abbrev IfAll : Option (List Layout) → Type 0
IfAll none = Unit
IfAll (some ls) = AllAligned ls

and_then-IfSome :
    (o : Option (List Layout)) (k : List Layout → Option Layout)
    → IfAll o
    → ((ls : List Layout) → AllAligned ls → IfSome (k ls))
    → IfSome (and_then o k)
and_then-IfSome (some ls) k h next = next ls h
and_then-IfSome none k h next = tt

arr_IfSome :
    (o : Option Layout) (shape : Option ℕ)
    → IfSome o
    → IfSome (and_then o (λ l. some (layout_arr shape l)))
unfolding layout_arr
arr_IfSome (some l) shape h = h
arr_IfSome none shape h = tt

cons_IfAll :
    (o : Option Layout) (os : Option (List Layout))
    → IfSome o
    → IfAll os
    → IfAll (and_then o (λ l. and_then os (λ ls. some (l ∷ ls))))
cons_IfAll (some l) (some ls) h hs = (h, hs)
cons_IfAll (some l) none h hs = tt
cons_IfAll none os h hs = tt

mutual
  unfolding layout

  layout-Aligned : (t : Ty) → AreWords t → IfSome (layout t)
  layout-Aligned ptr h = inr (inr (inr refl))
  layout-Aligned pi h = inr (inr (inr refl))
  layout-Aligned opaque h = tt
  layout-Aligned (idx s) h = layout_idx-Aligned s h
  layout-Aligned (real r) h = layout_real-Aligned r
  layout-Aligned (sigma fields) h =
      and_then-IfSome (layouts fields) (λ ls. some (layout_sigma ls)) (layouts-Aligned fields h)
        layout_sigma-Aligned
  layout-Aligned (join ops) h =
      and_then-IfSome (layouts ops) layout_join (layouts-Aligned ops h) layout_join-Aligned
  layout-Aligned (arr shape body) h = arr_IfSome (layout body) shape (layout-Aligned body h)

  layouts-Aligned : (ts : Tys) → AllWords ts → IfAll (layouts ts)
  layouts-Aligned nil h = tt
  layouts-Aligned (cons t rest) h =
      cons_IfAll (layout t) (layouts rest) (layout-Aligned t h.0) (layouts-Aligned rest h.1)

-- Where the literal sizes of the integer types are 64-bit words, the alignment that a type is
-- normalized to, if it is a literal, is 1, 2, 4 or 8.
pub layout-IsAlign :
    (t : Ty) (l : Layout) (a : ℕ) → AreWords t → layout t ≡ some l → l.align ≡ some a → IsAlign a
layout-IsAlign t l a h e g = subst IsAlignIfSome g (subst IfSome e (layout-Aligned t h))
