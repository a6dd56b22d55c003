-- ===== src/Analyses/DomTree/Correct.antt =====
-- `create` computes the dominators.
use mathlib.Core.List.{Memᴰ}
use mathlib.Core.List.Memᴰ
use thorin.Prelude.{
  eq_cases, ℕ, zero, suc, ◌+◌, ◌-◌, ◌*◌, ◌<◌, ◌≤◌, ◌≡◌, ◌↔◌, inl, inr, refl, arith, some, List, [],
  ◌∷◌, Bool-cases, ltb,
}
use thorin.Analyses.DomTree.{Cfg, Tree, set, first_lower, init_from, create}
use thorin.Analyses.DomTree.Ancestors.{
  Anc, self, Down, Anc-cases, Anc-entry, Anc-trans, set_here, set_other,
}
use thorin.Analyses.DomTree.Dominance.{IsOrdered, Avoid, start, step, Anc_of_not-Avoid, set-Down}
use thorin.Analyses.DomTree.Valid.{IsValid, total-bound}
use thorin.Analyses.DomTree.Pass.{Settled, settle-Settled}

-- The tree of the first loop: immediate dominators are predecessors before the node.
abbrev Early : Cfg → Tree → ℕ → Type 0
Early cfg t n = (m : ℕ) → 0 < m → m < n → Memᴰ (t m) (cfg.preds m) × (t m < m)

first_lower-some :
    (n p : ℕ) (ps : List ℕ)
    → Memᴰ p ps
    → p < n
    → (q : ℕ) × ((first_lower n ps ≡ some q) × (Memᴰ q ps × (q < n)))
unfolding first_lower
first_lower-some n p [] m lt = absurd (Memᴰ.not-nil m)
first_lower-some n p (q ∷ ps) m lt = elim (Bool-cases (ltb q n)) [
  | inl e ↦ (q, (rw e refl, (Memᴰ.head refl, ground arith)))
  | inr e ↦ elim (Memᴰ.cases_cons m) [
    | inl here ↦ absurd (ground arith)
    | inr there ↦
        let (r, (found, (mem, less))) = first_lower-some n p ps there lt in
        (r, (rw e found, (Memᴰ.tail mem, less)))
  ]
]

init_from-Early :
    (cfg : Cfg) (left n : ℕ) (t : Tree)
    → IsOrdered cfg
    → 0 < n
    → left ≤ cfg.size - n
    → Down t
    → Early cfg t n
    → (t' : Tree) × ((init_from cfg left n t ≡ some t') × (Down t' × Early cfg t' (n + left)))
unfolding init_from
init_from-Early cfg zero n t ordered pos le down early =
    (t, (refl, (down, λ m posm lt. early m posm (omega arith))))
init_from-Early cfg (suc left) n t ordered pos le down early =
    let (p, (mem, lt)) = ordered.lower n pos (omega arith) in
    let (q, (found, (memq, ltq))) = first_lower-some n p (cfg.preds n) mem lt in
    let next : Early cfg (set t n q) (n + 1) = λ m posm ltm. elim (eq_cases m n) [
      | inl e ↦ rw (set_here t n q m e) (rw e (memq, ltq))
      | inr e ↦ rw (set_other t n q m e) (early m posm (omega arith))
    ] in
    let (t', (ran, (down', others))) =
      init_from-Early cfg left (n + 1) (set t n q) ordered (omega arith) (omega arith)
        (set-Down t n q down ltq) next in
    (t', (rw (init_from, found) ran, (down', λ m posm ltm. others m posm (omega arith))))

-- There is a walk through nodes before `d` to every node before `d`.
Avoid-before :
    (fuel : ℕ) (cfg : Cfg)
    → IsOrdered cfg
    → (d k : ℕ) → k < fuel
    → k < cfg.size
    → k < d
    → Avoid cfg d k
Avoid-before zero cfg ordered d k enough lt less = absurd (omega arith)
Avoid-before (suc fuel) cfg ordered d k enough lt less = elim (eq_cases k 0) [
  | inl e ↦ rw e (start (λ (z : d ≡ 0). omega arith))
  | inr e ↦
      let (p, (mem, ltp)) = ordered.lower k (omega arith) lt in
      step p k (Avoid-before fuel cfg ordered d p (omega arith) (omega arith) (omega arith)) mem lt
        (λ (z : d ≡ k). omega arith)
]

Early-IsValid :
    (cfg : Cfg) (t : Tree) → IsOrdered cfg → Down t → Early cfg t cfg.size → IsValid cfg 1 t
Early-IsValid cfg t ordered down early = record {
  down = down;
  follows = λ d m pos lt le w.
      let (mem, lower) = early m pos lt in step (t m) m w mem lt (λ (z : d ≡ m). omega arith);
  bounded = λ d m pos lt other h. elim (Bool-cases (ltb (t m) d)) [
    | inl less ↦
        let (mem, lower) = early m pos lt in
        let w =
          Avoid-before (suc (t m)) cfg ordered d (t m) (omega arith) (omega arith) (ground arith) in
        absurd (h (step (t m) m w mem lt other))
    | inr more ↦ ground arith
  ];
  shrinks = λ m a pos lt common. common (t m) ((early m pos lt).0);
  linked = λ m pos lt side. (t m, ((early m pos lt).0, ((early m pos lt).1, self)));
}

-- In a settled tree no walk avoids an ancestor.
not-Avoid_of_Anc :
    (cfg : Cfg) (t : Tree)
    → ((m : ℕ) → 0 < m → m < cfg.size → Settled cfg t m)
    → (d n : ℕ) → Avoid cfg d n
    → Anc t d n
    → ⊥
not-Avoid_of_Anc cfg t settled d _ (start e) h = e (Anc-entry t d h)
not-Avoid_of_Anc cfg t settled d _ (step p n w mem lt e) h = elim (Anc-cases t d n h) [
  | inl same ↦ e same
  | inr (pos, above) ↦
      not-Avoid_of_Anc cfg t settled d p w
        (Anc-trans t d (t n) p above ((settled n pos lt).below p mem))
]

square-pred : (n : ℕ) → (n - 1) * (n - 1) ≤ n * n
square-pred zero = omega arith
square-pred (suc n) =
    let pred : suc n - 1 ≡ n = omega arith in
    let less : n * n ≤ suc n * suc n = omega arith in rw pred less

-- `create` ends, with a tree that is settled.
pub create-Settled :
    (cfg : Cfg)
    → IsOrdered cfg
    → (t : Tree) × ((create cfg ≡ some t)
        × (IsValid cfg 1 t × ((m : ℕ) → 0 < m → m < cfg.size → Settled cfg t m)))
unfolding create
create-Settled cfg ordered =
    let first : Early cfg (λ m. 0) 1 = λ m pos less. absurd (omega arith) in
    let (s, (ran, (down, early))) =
      init_from-Early cfg (cfg.size - 1) 1 (λ m. 0) ordered (omega arith) (omega arith)
        (λ m pos. pos) first in
    let valid = Early-IsValid cfg s ordered down (λ m pos less. early m pos (omega arith)) in
    let bound = total-bound s down (cfg.size - 1) in
    let (t, (done, rest)) =
      settle-Settled (suc (cfg.size * cfg.size)) cfg s ordered valid
        (let sq = square-pred cfg.size in omega arith) in
    (t, (rw (create, ran) done, rest))

-- In a settled tree the ancestors of a node are the nodes that no walk avoids.
pub Anc-dominates_iff :
    (cfg : Cfg) (t : Tree)
    → IsValid cfg 1 t
    → ((m : ℕ) → 0 < m → m < cfg.size → Settled cfg t m)
    → (d n : ℕ) → n < cfg.size
    → Anc t d n ↔ ¬ Avoid cfg d n
Anc-dominates_iff cfg t v settled d n lt = (
  (λ h w. not-Avoid_of_Anc cfg t settled d n w h),
  Anc_of_not-Avoid (suc n) cfg t v.down v.follows v.bounded d n (omega arith) lt,
)

-- The dominator tree ends and is right: on a graph in which every node but the entry has a predecessor
-- of a smaller index, a node stands above another one in the tree, or is the same, if and only if no
-- walk from the entry to the other avoids it.
pub create-dominates_iff :
    (cfg : Cfg) (d n : ℕ)
    → IsOrdered cfg
    → n < cfg.size
    → (t : Tree) × ((create cfg ≡ some t) × (Anc t d n ↔ ¬ Avoid cfg d n))
create-dominates_iff cfg d n ordered lt =
    let (t, (ran, (v, settled))) = create-Settled cfg ordered in
    (t, (ran, Anc-dominates_iff cfg t v settled d n lt))
