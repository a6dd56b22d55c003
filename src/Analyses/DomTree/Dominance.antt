-- ===== src/Analyses/DomTree/Dominance.antt =====
-- Dominance in the graph, and what the tree keeps of it.
use mathlib.Core.List.{Memᴰ}
use thorin.Prelude.{eq_cases, ℕ, zero, suc, ◌<◌, ◌≤◌, ◌≡◌, ◌≢◌, inl, inr, sym, ◌∙◌, arith}
use thorin.Analyses.DomTree.{Cfg, Tree, set}
use thorin.Analyses.DomTree.Ancestors.{Anc, self, up, Down, Anc-le, set_here, set_other}
use thorin.Analyses.DomTree.Meet.{IsMeet}

-- There is a walk from the entry to the node that does not pass `d`.
pub data Avoid (cfg : Cfg) (d : ℕ) : ℕ → Type 0 where
  start : d ≢ 0 → Avoid cfg d 0
  step : (p n : ℕ) → Avoid cfg d p → Memᴰ p (cfg.preds n) → n < cfg.size → d ≢ n → Avoid cfg d n

-- Every node but the entry has a predecessor of a smaller index, and predecessors are nodes.
pub record IsOrdered (cfg : Cfg) : Type 0 where
  pub lower : (n : ℕ) → 0 < n → n < cfg.size → (p : ℕ) × (Memᴰ p (cfg.preds n) × (p < n))
  pub inside : (n p : ℕ) → n < cfg.size → Memᴰ p (cfg.preds n) → p < cfg.size

pub Avoid-other : (cfg : Cfg) (d n : ℕ) → Avoid cfg d n → d ≢ n
Avoid-other cfg d _ (start e) = e
Avoid-other cfg d _ (step p n w m lt e) = e

-- From an immediate dominator a walk goes on to the node through greater indices.
abbrev pub Follows : Cfg → Tree → Type 0
Follows cfg t = (d m : ℕ) → 0 < m → m < cfg.size → d ≤ t m → Avoid cfg d (t m) → Avoid cfg d m

-- An immediate dominator is not before a node that dominates.
abbrev pub Bounded : Cfg → Tree → Type 0
Bounded cfg t = (d m : ℕ) → 0 < m → m < cfg.size → d ≢ m → ¬ Avoid cfg d m → d ≤ t m

-- A walk that avoids `d` goes on from an ancestor that is not before `d`.
pub Avoid-Anc :
    (cfg : Cfg) (t : Tree)
    → Down t
    → Follows cfg t
    → (d a b : ℕ) → b < cfg.size
    → Anc t a b
    → d ≤ a
    → Avoid cfg d a
    → Avoid cfg d b
Avoid-Anc cfg t down follows d a _ lt self le w = w
Avoid-Anc cfg t down follows d a _ lt (up b pos h) le w =
    let lower = down b pos in
    let above = Anc-le t down a (t b) h in
    let before = Avoid-Anc cfg t down follows d a (t b) (omega arith) h le w in
    follows d b pos lt (omega arith) before

-- The nodes that every walk passes are ancestors.
pub Anc_of_not-Avoid :
    (fuel : ℕ) (cfg : Cfg) (t : Tree)
    → Down t
    → Follows cfg t
    → Bounded cfg t
    → (d m : ℕ) → m < fuel
    → m < cfg.size
    → ¬ Avoid cfg d m
    → Anc t d m
Anc_of_not-Avoid zero cfg t down follows bounded d m enough lt h = absurd (omega arith)
Anc_of_not-Avoid (suc fuel) cfg t down follows bounded d m enough lt h = elim (eq_cases d m) [
  | inl e ↦ rw e self
  | inr e ↦ elim (eq_cases m 0) [
    | inl first ↦ absurd (h (rw first (start (λ e'. e (e' ∙ sym first)))))
    | inr other ↦
        let pos : 0 < m = omega arith in
        let lower = down m pos in
        let le = bounded d m pos lt e h in
        let before : ¬ Avoid cfg d (t m) = λ w. h (follows d m pos lt le w) in
        up m pos (
          Anc_of_not-Avoid fuel cfg t down follows bounded d (t m) (omega arith) (omega arith)
            before)
  ]
]

-- A node that dominates another strictly dominates its predecessors.
not-Avoid-pred :
    (cfg : Cfg) (d n p : ℕ)
    → n < cfg.size
    → d ≢ n
    → ¬ Avoid cfg d n
    → Memᴰ p (cfg.preds n)
    → ¬ Avoid cfg d p
not-Avoid-pred cfg d n p lt e h m w = h (step p n w m lt e)

pub set-Down : (t : Tree) (n d : ℕ) → Down t → d < n → Down (set t n d)
set-Down t n d down lt m pos = elim (eq_cases m n) [
  | inl e ↦ rw (set_here t n d m e) (omega arith)
  | inr e ↦ rw (set_other t n d m e) (down m pos)
]

pub set-Follows :
    (cfg : Cfg) (t : Tree)
    → IsOrdered cfg
    → Down t
    → Follows cfg t
    → (n d p : ℕ) → n < cfg.size
    → Memᴰ p (cfg.preds n)
    → Anc t d p
    → d < n
    → Follows cfg (set t n d)
set-Follows cfg t ordered down follows n d p ltn mem anc dn c m pos lt = elim (eq_cases m n) [
  | inl e ↦ rw (set_here t n d m e) (λ le w.
      let before = Avoid-Anc cfg t down follows c d p (ordered.inside n p ltn mem) anc le w in
      rw e (step p n before mem ltn (λ (eq : c ≡ n). omega arith)))
  | inr e ↦ rw (set_other t n d m e) (follows c m pos lt)
]

pub set-Bounded :
    (cfg : Cfg) (t : Tree)
    → IsOrdered cfg
    → Down t
    → Follows cfg t
    → Bounded cfg t
    → (n d : ℕ) → n < cfg.size
    → IsMeet t (cfg.preds n) d
    → Bounded cfg (set t n d)
set-Bounded cfg t ordered down follows bounded n d ltn met c m pos lt other h =
    elim (eq_cases m n) [
      | inl e ↦
          let common : (p : ℕ) → Memᴰ p (cfg.preds n) → Anc t c p = λ p mem.
            let ltp = ordered.inside n p ltn mem in
            Anc_of_not-Avoid (suc p) cfg t down follows bounded c p (omega arith) ltp
              (not-Avoid-pred cfg c n p ltn (λ eq. other (eq ∙ sym e)) (rw (← e) h) mem) in
          rw (set_here t n d m e) (Anc-le t down c d (met.all c common))
      | inr e ↦ rw (set_other t n d m e) (bounded c m pos lt other h)
    ]
