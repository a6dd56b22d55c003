-- ===== src/Analyses/PostOrder/Cycles.antt =====
-- Edges to a smaller index lie on cycles: the numbering is a reverse post order.
use mathlib.Core.List.{Memᴰ}
use mathlib.Core.Path.{subst}
use thorin.Prelude.{eq_cases, ℕ, ◌<◌, ◌≡◌, ◌≢◌, ◌⊎◌, inl, inr, refl, sym, ap, ◌∙◌, arith}
use thorin.Analyses.PostOrder.{Graph, Mark, unseen, active, at, Marks, put}

pub put_here : (m : Marks) (n : ℕ) (a : Mark) (x : ℕ) → x ≡ n → put m n a x ≡ a
unfolding put
put_here m n a x e = ground arith

pub put_other : (m : Marks) (n : ℕ) (a : Mark) (x : ℕ) → x ≢ n → put m n a x ≡ m x
unfolding put
put_other m n a x e = ground arith

pub at-inj : (j k : ℕ) → at j ≡ at k → j ≡ k
at-inj j k e = cc

-- A walk leads from the first node to the second.
pub data Walk (g : Graph) (from : ℕ) : ℕ → Type 0 where
  stay : Walk g from from
  step : (x s : ℕ) → Walk g from x → Memᴰ s (g.succs x) → Walk g from s

-- A successor of a node with the index `k` has a greater index, or a walk leads back from it.
abbrev pub Forward : Graph → Marks → ℕ → ℕ → ℕ → Type 0
Forward g m x y k = ((l : ℕ) × ((m y ≡ at l) × (k < l))) ⊎ Walk g y x

abbrev pub IsForward : Graph → Marks → Type 0
IsForward g m = (x y k : ℕ) → m x ≡ at k → Memᴰ y (g.succs x) → Forward g m x y k

-- Every active node leads to the node.
abbrev pub Above : Graph → Marks → ℕ → Type 0
Above g m n = (a : ℕ) → m a ≡ active → Walk g a n

-- A node that has no index is marked as active.
pub enter-IsForward :
    (g : Graph) (m : Marks) (n : ℕ) → m n ≡ unseen → IsForward g m → IsForward g (put m n active)
enter-IsForward g m n fresh h x y k e mem = elim (eq_cases x n) [
  | inl same ↦ (let here = put_here m n active x same in cc)
  | inr other ↦ elim (h x y k (sym (put_other m n active x other) ∙ e) mem) [
    | inl (l, (f, less)) ↦
        inl (l, (put_other m n active y (λ z. (let eq = ap m z in cc)) ∙ f, less))
    | inr w ↦ inr w
  ]
]

pub enter-Above : (g : Graph) (m : Marks) (n : ℕ) → Above g m n → Above g (put m n active) n
enter-Above g m n h a act = elim (eq_cases a n) [
  | inl same ↦ rw same stay
  | inr other ↦ h a (sym (put_other m n active a other) ∙ act)
]

mark_cases : (a : Mark) → a ≢ unseen → (a ≡ active) ⊎ ((k : ℕ) × (a ≡ at k))
mark_cases unseen h = absurd (h refl)
mark_cases active h = inl refl
mark_cases (at k) h = inr (k, refl)

-- The active node gets its index, which is smaller than all there are.
pub leave-IsForward :
    (g : Graph) (m : Marks) (n i : ℕ)
    → m n ≡ active
    → Above g m n
    → ((s : ℕ) → Memᴰ s (g.succs n) → m s ≢ unseen)
    → ((y l : ℕ) → m y ≡ at l → i < l)
    → IsForward g m
    → IsForward g (put m n (at i))
leave-IsForward g m n i act above seen low h x y k e mem = elim (eq_cases x n) [
  | inl same ↦
      let mem' = subst (λ q. Memᴰ y (g.succs q)) same mem in
      let ik : i ≡ k = at-inj i k (sym (put_here m n (at i) x same) ∙ e) in
      elim (mark_cases (m y) (seen y mem')) [
        | inl a ↦ inr (rw same (above y a))
        | inr (l, f) ↦
            let less = low y l f in
            inl (l, (put_other m n (at i) y (λ z. (let eq = ap m z in cc)) ∙ f, omega arith))
      ]
  | inr other ↦ elim (h x y k (sym (put_other m n (at i) x other) ∙ e) mem) [
    | inl (l, (f, less)) ↦
        inl (l, (put_other m n (at i) y (λ z. (let eq = ap m z in cc)) ∙ f, less))
    | inr w ↦ inr w
  ]
]
