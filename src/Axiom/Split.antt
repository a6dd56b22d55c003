-- ===== src/Axiom/Split.antt =====
-- `split` against the names that it takes apart.
use mathlib.Core.Option
use thorin.Prelude.{
  ℕ, zero, suc, ◌≡◌, ◌≢◌, refl, ap, ◌∙◌, arith, Option, none, some, List, [], ◌∷◌, ◌++◌, ◌==◌, true,
  if◌then◌else◌, Bool-cases, ==_iff, length, take, drop, Option-cases, inl, inr,
}
use thorin.Axiom.{mangle, find, split, split_name, split_tag}
use thorin.Axiom.Mangle.{mangle_iff, is_name}

find-none-append : (x : ℕ) (s t : List ℕ) → find x s ≡ none → find x (s ++ x ∷ t) ≡ some (length s)
unfolding find
find-none-append x [] t h = ground arith
find-none-append x (c ∷ s) t h = ground (arith, find-none-append x s t)

take-length : (s t : List ℕ) → take (length s) (s ++ t) ≡ s
take-length [] t = refl
take-length (c ∷ s) t = ap (◌∷◌ c) (take-length s t)

drop-length : (s t : List ℕ) (c : ℕ) → drop (suc (length s)) (s ++ c ∷ t) ≡ t
drop-length [] t c = refl
drop-length (x ∷ s) t c = drop-length s t c

-- A dialect's name holds no dot.
find-is_name : (s : List ℕ) → is_name s ≡ true → find b'.' s ≡ none
unfolding find is_name
find-is_name [] h = refl
find-is_name (c ∷ s) h = ground (arith, find-is_name s)

module _ (d : List ℕ) (u : ℕ) (named : mangle d ≡ some u) (t : List ℕ)
    (plain : find b'.' t ≡ none) where
  split-parts : (rest : List ℕ) → split (b'%' ∷ (d ++ b'.' ∷ rest)) ≡ split_tag d rest
  unfolding split split_name
  split-parts rest =
      let dot = find-none-append b'.' d rest (find-is_name d ((mangle_iff d).0 (u, named)).1) in
      ground (arith, dot, take-length d (b'.' ∷ rest), drop-length d rest b'.', named)

  split_tag-plain : t ≢ [] → split_tag d t ≡ some (d, t, [])
  unfolding split_tag
  split_tag-plain full = ground (arith, plain, full)

  split_tag-sub : (s : List ℕ) → split_tag d (t ++ b'.' ∷ s) ≡ some (d, t, s)
  unfolding split_tag
  split_tag-sub s =
      ground
        (arith, find-none-append b'.' t s plain, take-length t (b'.' ∷ s), drop-length t s b'.')

-- A dialect that `mangle` accepts, a tag with no dot in it and a sub tag, which may hold dots, make a
-- name that `split` takes apart again.
pub split-sub_name :
    (d t s : List ℕ) (u : ℕ)
    → mangle d ≡ some u
    → find b'.' t ≡ none
    → split (b'%' ∷ (d ++ b'.' ∷ (t ++ b'.' ∷ s))) ≡ some (d, t, s)
split-sub_name d t s u named plain =
    split-parts d u named t plain (t ++ b'.' ∷ s) ∙ split_tag-sub d u named t plain s

-- Without a sub tag `split` takes the name apart if the tag is not empty.
pub split-name :
    (d t : List ℕ) (u : ℕ)
    → mangle d ≡ some u
    → find b'.' t ≡ none
    → t ≢ []
    → split (b'%' ∷ (d ++ b'.' ∷ t)) ≡ some (d, t, [])
split-name d t u named plain full =
    split-parts d u named t plain t ∙ split_tag-plain d u named t plain full

-- Where the character is found the text is what stands before it, the character, and the rest.
find-cut : (x : ℕ) (s : List ℕ) (i : ℕ) → find x s ≡ some i → s ≡ take i s ++ x ∷ drop (suc i) s
unfolding find
find-cut x [] i h = cc
find-cut x (c ∷ s) zero h = ap (λ (k : ℕ). k ∷ s) (found (find x s) h)
  where
    found : (r : Option ℕ) → (if c == x then some 0 else Option.map suc r) ≡ some 0 → c ≡ x
    found none k = ground arith
    found (some j) k = ground arith
find-cut x (c ∷ s) (suc i) h = ap (◌∷◌ c) (find-cut x s i (later (find x s) h))
  where
    later :
        (r : Option ℕ) → (if c == x then some 0 else Option.map suc r) ≡ some (suc i) → r ≡ some i
    later none k = ground arith
    later (some j) k = ground arith

-- The forms of a name, with its parts.
pub data IsName (d t u s : List ℕ) : Type 0 where
  without_sub : t ≢ [] → u ≡ [] → s ≡ b'%' ∷ (d ++ b'.' ∷ t) → IsName d t u s
  with_sub : s ≡ b'%' ∷ (d ++ b'.' ∷ (t ++ b'.' ∷ u)) → IsName d t u s

split_tag_sound :
    (e tag d t u : List ℕ)
    → split_tag e tag ≡ some (d, t, u)
    → IsName d t u (b'%' ∷ (e ++ b'.' ∷ tag)) × (d ≡ e)
unfolding split_tag
split_tag_sound e [] d t u h = absurd (unfold find in ground arith)
split_tag_sound e (c ∷ s) d t u h = elim (Option-cases (find b'.' (c ∷ s))) [
  | inl plain ↦
      let de : d ≡ e = ground (arith, plain) in
      let te : t ≡ c ∷ s = ground (arith, plain) in
      let ue : u ≡ [] = ground (arith, plain) in (without_sub (λ z. cc) ue (rw (de, te)), de)
  | inr (i, dot) ↦
      let de : d ≡ e = ground (arith, dot) in
      let te : t ≡ take i (c ∷ s) = ground (arith, dot) in
      let ue : u ≡ drop i s = ground (arith, dot) in
      let cut = ap (λ (r : List ℕ). b'%' ∷ (e ++ b'.' ∷ r)) (find-cut b'.' (c ∷ s) i dot) in
      (with_sub (rw (de, te, ue) cut), de)
]

split_name_sound :
    (s d t u : List ℕ)
    → split_name s ≡ some (d, t, u)
    → IsName d t u (b'%' ∷ s) × (v : ℕ) × (mangle d ≡ some v)
unfolding split_name
split_name_sound s d t u h = elim (Option-cases (find b'.' s)) [
  | inl no_dot ↦ absurd (ground (arith, no_dot))
  | inr (i, dot) ↦ elim (Option-cases (mangle (take i s))) [
    | inl bad ↦ absurd (ground (arith, dot, bad))
    | inr (v, named) ↦
        let tagged : split_tag (take i s) (drop (suc i) s) ≡ some (d, t, u) =
          ground (arith, dot, named) in
        let (form, de) = split_tag_sound (take i s) (drop (suc i) s) d t u tagged in
        (rw (← find-cut b'.' s i dot) at form, v, rw de named)
  ]
]

-- Whatever `split` yields are the parts of the text: a percent sign, a dialect that `mangle`
-- accepts, a dot and the tag, and either a dot and the sub tag or, where the sub tag is empty, a tag
-- that is not.
pub split_sound :
    (s d t u : List ℕ) → split s ≡ some (d, t, u) → IsName d t u s × (v : ℕ) × (mangle d ≡ some v)
unfolding split
split_sound [] d t u h = cc
split_sound (c ∷ s) d t u h = elim (Bool-cases (c == b'%')) [
  | inl percent ↦
      let same : c ≡ b'%' = (==_iff c b'%').0 percent in
      rw same (split_name_sound s d t u (rw percent at h))
  | inr other ↦ absurd (ground (arith, other))
]
