-- ===== src/Core/Trait/Place.antt =====
-- Where the loop of `normalize_trait` puts the fields of a product.
use native.Mathlib.Decide.{dec_lt}
use thorin.Prelude.{
  ℕ, ◌+◌, ◌%◌, ◌^◌, ◌≤◌, ◌<◌, ◌≡◌, ◌⊎◌, inl, inr, refl, ap, ◌∙◌, arith, Option, none, some, List,
  [], ◌∷◌, max, map,
}
use thorin.Core.Trait.{Layout, both, word, pad, place, sigma_end, layout_sigma, raw}

abbrev pub IsAlign : ℕ → Type 0
IsAlign a = (a ≡ 1) ⊎ (a ≡ 2) ⊎ (a ≡ 4) ⊎ (a ≡ 8)

-- `pad` yields the first multiple of the alignment that is not below the offset.
pub pad_lem :
    (offset a : ℕ)
    → IsAlign a
    → offset + a < 2 ^ 64
    → (offset ≤ pad offset a) × (pad offset a < offset + a) × (pad offset a % a ≡ 0)
unfolding pad
pad_lem offset a (inl e) h = rw e (ground arith, ground arith, ground arith)
pad_lem offset a (inr (inl e)) h = rw e (ground arith, ground arith, ground arith)
pad_lem offset a (inr (inr (inl e))) h = rw e (ground arith, ground arith, ground arith)
pad_lem offset a (inr (inr (inr e))) h = rw e (ground arith, ground arith, ground arith)

pad_zero : (a : ℕ) → IsAlign a → pad 0 a ≡ 0
unfolding pad
pad_zero a (inl e) = rw e refl
pad_zero a (inr (inl e)) = rw e refl
pad_zero a (inr (inr (inl e))) = rw e refl
pad_zero a (inr (inr (inr e))) = rw e refl

pub IsAlign-max : (a b : ℕ) → IsAlign a → IsAlign b → IsAlign (max a b)
IsAlign-max a b h k = elim (dec_lt a b) [
  | yes lt ↦ let e : max a b ≡ b = omega arith in rw e k
  | no nlt ↦ let e : max a b ≡ a = omega arith in rw e h
]

IsAlign-multiple : (a b : ℕ) → IsAlign a → IsAlign b → a ≤ b → b % a ≡ 0
IsAlign-multiple a b (inl e) k le = rw e (omega arith)
IsAlign-multiple a b (inr h) (inl e) le = absurd (ground arith)
IsAlign-multiple a b (inr (inl g)) (inr k) le = ground arith
IsAlign-multiple a b (inr (inr (inl g))) (inr k) le = ground arith
IsAlign-multiple a b (inr (inr (inr g))) (inr k) le = ground arith

-- Fields with literals for both traits, the alignment first.
abbrev pub known : List (ℕ × ℕ) → List Layout
known fields = map (λ f. both f.0 f.1) fields

abbrev pub AreAligns : List (ℕ × ℕ) → Type 0
AreAligns [] = Unit
AreAligns ((a, s) ∷ fields) = IsAlign a × AreAligns fields

-- The alignment is a multiple of each field's.
abbrev pub AllDivide : ℕ → List (ℕ × ℕ) → Type 0
AllDivide align [] = Unit
AllDivide align ((a, s) ∷ fields) = (align % a ≡ 0) × AllDivide align fields

-- Each field stands at the first multiple of its alignment behind the one before, and `end` is
-- behind the last.
abbrev pub Placed : ℕ → List (ℕ × ℕ) → ℕ → Type 0
Placed start [] end = start ≡ end
Placed start ((a, s) ∷ fields) end =
    (o : ℕ) × (start ≤ o) × (o < start + a) × (o % a ≡ 0) × Placed (o + s) fields end

-- More than the fields take with what is between them.
abbrev pub room : List (ℕ × ℕ) → ℕ
room [] = 0
room ((a, s) ∷ fields) = a + s + room fields

record Placement (fields : List (ℕ × ℕ)) (offset align : ℕ) : Type 0 where
  end : ℕ
  largest : ℕ
  result : place (known fields) offset align ≡ some (end, largest)
  placed : Placed offset fields end
  aligned : IsAlign largest
  grown : align ≤ largest
  divides : AllDivide largest fields
  bounded : end ≤ offset + room fields

place-Placement :
    (fields : List (ℕ × ℕ)) (offset align : ℕ)
    → AreAligns fields
    → IsAlign align
    → offset + room fields < 2 ^ 64
    → Placement fields offset align
unfolding place
place-Placement [] offset align hs h lt = record {
  end = offset;
  largest = align;
  result = refl;
  placed = refl;
  aligned = h;
  grown = omega arith;
  divides = tt;
  bounded = omega arith;
}
place-Placement ((a, s) ∷ fields) offset align hs h lt =
    let at = pad_lem offset a hs.0 (omega arith) in
    let next = pad offset a + s in
    let same : word next ≡ next = omega (arith, at.1) in
    let rest =
      place-Placement fields next (max align a) hs.1 (IsAlign-max align a h hs.0)
        (omega (arith, at.1)) in
    record {
      end = rest.end;
      largest = rest.largest;
      result = ap (λ (k : ℕ). place (known fields) k (max align a)) same ∙ rest.result;
      placed = (pad offset a, at.0, at.1, at.2, rest.placed);
      aligned = rest.aligned;
      grown = omega (arith, rest.grown);
      divides = (
        IsAlign-multiple a rest.largest hs.0 rest.aligned (omega (arith, rest.grown)),
        rest.divides,
      );
      bounded = omega (arith, at.1, rest.bounded);
    }

-- What a product's traits are normalized to.
pub record Product (fields : List (ℕ × ℕ)) : Type 0 where
  pub end : ℕ
  pub align : ℕ
  pub size : ℕ
  pub result : layout_sigma (known fields) ≡ both align size
  pub placed : Placed 0 fields end
  pub aligned : IsAlign align
  pub divides : AllDivide align fields
  pub closed : ((end ≡ 0) × (size ≡ 1)) ⊎ ((end ≤ size) × (size < end + align) × (size % align ≡ 0))

layout_sigma-place :
    (fields : List Layout) (offset align : ℕ)
    → place fields 0 1 ≡ some (offset, align)
    → layout_sigma fields ≡ sigma_end offset align
unfolding layout_sigma
layout_sigma-place fields offset align e =
    ap (λ (o : Option (ℕ × ℕ)). elim o [ some (x, y) ↦ sigma_end x y | none ↦ raw ]) e

-- The fields of a product stand one behind the other, each at a multiple of its alignment and with no
-- more between them than that takes; the product's alignment is a multiple of each field's, and its
-- size is the first multiple of the alignment that holds all fields, or 1 where they take no room.
-- The alignments are 1, 2, 4 or 8, and the fields do not fill the 64-bit address space.
pub layout_sigma-Product :
    (fields : List (ℕ × ℕ)) → AreAligns fields → room fields + 8 < 2 ^ 64 → Product fields
unfolding layout_sigma
layout_sigma-Product fields hs lt =
    let p = place-Placement fields 0 1 hs (inl refl) (omega arith) in
    let small : p.largest ≤ 8 = ground (arith, p.aligned) in
    let first = pad_zero p.largest p.aligned in
    let last = pad_lem p.end p.largest p.aligned (omega (arith, p.bounded)) in
    record {
      end = p.end;
      align = p.largest;
      size = max 1 (pad p.end p.largest);
      result = layout_sigma-place (known fields) p.end p.largest p.result;
      placed = p.placed;
      aligned = p.aligned;
      divides = p.divides;
      closed = elim (dec_lt 0 p.end) [
        | yes pos ↦
            let e : max 1 (pad p.end p.largest) ≡ pad p.end p.largest = omega (arith, last.0) in
            rw e (inr last)
        | no zero_ ↦ let e : p.end ≡ 0 = omega arith in inl (e, rw (e, first) refl)
      ];
    }
