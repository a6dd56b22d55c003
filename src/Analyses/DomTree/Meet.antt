-- ===== src/Analyses/DomTree/Meet.antt =====
-- The least common ancestor of all predecessors.
use mathlib.Core.List.{Memᴰ}
use mathlib.Core.List.Memᴰ
use thorin.Prelude.{ℕ, ◌≡◌, inl, inr, refl, some, none, List, [], ◌∷◌}
use thorin.Analyses.DomTree.{Tree, least_common_ancestor, meet}
use thorin.Analyses.DomTree.Ancestors.{Anc, self, Down, Anc-trans}
use thorin.Analyses.DomTree.Lca.{IsLca, least_common_ancestor-IsLca}

pub record IsMeet (t : Tree) (ps : List ℕ) (d : ℕ) : Type 0 where
  pub below : (p : ℕ) → Memᴰ p ps → Anc t d p
  pub all : (a : ℕ) → ((p : ℕ) → Memᴰ p ps → Anc t a p) → Anc t a d

meet-some :
    (t : Tree)
    → Down t
    → (c : ℕ) (ps : List ℕ) → (d : ℕ) × ((meet t (some c) ps ≡ some d) × IsMeet t (c ∷ ps) d)
unfolding meet
meet-some t down c [] = (
  c,
  (
    refl,
    record { below = λ p m. rw (Memᴰ.eq_of_singleton m) self; all = λ a h. h c (Memᴰ.head refl) },
  ),
)
meet-some t down c (p ∷ ps) =
    let e = least_common_ancestor t c p in
    let lca : IsLca t c p e = least_common_ancestor-IsLca t c p down in
    let (d, (eq, rest)) = meet-some t down e ps in
    let de : Anc t d e = rest.below e (Memᴰ.head refl) in
    let below : (q : ℕ) → Memᴰ q (c ∷ p ∷ ps) → Anc t d q = λ q m. elim (Memᴰ.cases_cons m) [
      | inl first ↦ rw first (Anc-trans t d e c de lca.left)
      | inr m' ↦ elim (Memᴰ.cases_cons m') [
        | inl second ↦ rw second (Anc-trans t d e p de lca.right)
        | inr m'' ↦ rest.below q (Memᴰ.tail m'')
      ]
    ] in
    let all : (a : ℕ) → ((q : ℕ) → Memᴰ q (c ∷ p ∷ ps) → Anc t a q) → Anc t a d = λ a h.
      rest.all a (λ q m. elim (Memᴰ.cases_cons m) [
        | inl first ↦ rw first (lca.all a (h c (Memᴰ.head refl)) (h p (Memᴰ.tail (Memᴰ.head refl))))
        | inr m' ↦ h q (Memᴰ.tail (Memᴰ.tail m'))
      ]) in
    (d, (eq, record { below = below; all = all }))

pub meet-IsMeet :
    (t : Tree)
    → Down t
    → (q : ℕ) (ps : List ℕ) → Memᴰ q ps
    → (d : ℕ) × ((meet t none ps ≡ some d) × IsMeet t ps d)
unfolding meet
meet-IsMeet t down q [] m = absurd (Memᴰ.not-nil m)
meet-IsMeet t down q (p ∷ ps) m = meet-some t down p ps
