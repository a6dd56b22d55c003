-- ===== src/Analyses/DomTree/Update.antt =====
-- What a new immediate dominator leaves as it is, so that the loop of `create` ends.
use mathlib.Core.List.{Memᴰ}
use mathlib.Core.Path.{subst}
use thorin.Prelude.{eq_cases, ℕ, ◌+◌, ◌<◌, ◌≤◌, ◌≡◌, ◌≢◌, ◌⊎◌, inl, inr, arith, ltb, Bool-cases}
use thorin.Analyses.DomTree.{Cfg, Tree, set}
use thorin.Analyses.DomTree.Ancestors.{
  Anc, Down, Anc-le, Anc-trans, Anc-chain, Anc_of_set, Anc-set_above, Anc-set, set_here, set_other,
}
use thorin.Analyses.DomTree.Meet.{IsMeet}
use thorin.Analyses.DomTree.Dominance.{IsOrdered, set-Down}

-- A common ancestor of the predecessors is one of the immediate dominator.
abbrev pub Shrinks : Cfg → Tree → Type 0
Shrinks cfg t =
    (m a : ℕ) → 0 < m → m < cfg.size → ((p : ℕ) → Memᴰ p (cfg.preds m) → Anc t a p) → Anc t a (t m)

-- The immediate dominator is an ancestor of a predecessor before the node.
abbrev pub Hangs : Cfg → Tree → ℕ → Type 0
Hangs cfg t m = (p : ℕ) × (Memᴰ p (cfg.preds m) × ((p < m) × Anc t (t m) p))

-- In a round that has come to `n`, this holds of the nodes before, and of those whose immediate dominator
-- is not before `n`.
abbrev pub Linked : Cfg → ℕ → Tree → Type 0
Linked cfg n t = (m : ℕ) → 0 < m → m < cfg.size → (m < n) ⊎ (n ≤ t m) → Hangs cfg t m

-- Below `n` nothing changes.
Anc-set_below : (t : Tree) → Down t → (n d a b : ℕ) → b < n → Anc t a b → Anc (set t n d) a b
Anc-set_below t down n d a b lt h = elim (Anc-set t n d a b h) [
  | inl k ↦ k
  | inr k ↦ (let le = Anc-le t down n b k in absurd (omega arith))
]

-- The case of a node below `n` that hangs below `n`.
set-between :
    (cfg : Cfg) (t : Tree)
    → Down t
    → (n d m a : ℕ) → d < n
    → Hangs cfg t m
    → ((p : ℕ) → Memᴰ p (cfg.preds m) → Anc (set t n d) a p)
    → Anc t a (t m)
    → Anc t n (t m)
    → Anc (set t n d) a (t m)
set-between cfg t down n d m a dn (p, (mem, (lt, h))) common now below =
    elim (Bool-cases (ltb a n)) [
      | inl less ↦
          let t' = set t n d in
          let down' = set-Down t n d down dn in
          let to_p : Anc t' n p =
            Anc-set_above t down n d n p (omega arith) (Anc-trans t n (t m) p below h) in
          let to_n : Anc t' a n = Anc-chain t' down' a n p (common p mem) to_p (ground arith) in
          Anc-trans t' a n (t m) to_n (Anc-set_above t down n d n (t m) (omega arith) below)
      | inr more ↦ Anc-set_above t down n d a (t m) (ground arith) now
    ]

pub set-Shrinks :
    (cfg : Cfg) (t : Tree)
    → Down t
    → Shrinks cfg t
    → (n d : ℕ) → 0 < n
    → n < cfg.size
    → Linked cfg n t
    → IsMeet t (cfg.preds n) d
    → d < n
    → Shrinks cfg (set t n d)
set-Shrinks cfg t down shrinks n d posn ltn linked met dn m a pos lt common =
    let dt : Anc t d (t n) = shrinks n d posn ltn met.below in
    let old : (p : ℕ) → Memᴰ p (cfg.preds m) → Anc t a p =
      λ p mem. Anc_of_set t n d a p dt (common p mem) in
    let now = shrinks m a pos lt old in
    elim (eq_cases m n) [
      | inl e ↦
          let ad : Anc t a d =
            met.all a (subst (λ k. (p : ℕ) → Memᴰ p (cfg.preds k) → Anc t a p) e old) in
          rw (set_here t n d m e) (Anc-set_below t down n d a d dn ad)
      | inr e ↦ rw (set_other t n d m e) (elim (Anc-set t n d a (t m) now) [
        | inl h ↦ h
        | inr h ↦
            set-between cfg t down n d m a dn (linked m pos lt (inr (Anc-le t down n (t m) h)))
              common now h
      ])
    ]

set-Hangs :
    (cfg : Cfg) (t : Tree)
    → Down t
    → (n d m : ℕ) → m ≢ n
    → (m < n) ⊎ (n ≤ t m)
    → Hangs cfg t m
    → Hangs cfg (set t n d) m
set-Hangs cfg t down n d m e side (p, (mem, (lt, h))) = (
  p,
  (
    mem,
    (
      lt,
      rw (set_other t n d m e) (elim side [
        | inl before ↦ Anc-set_below t down n d (t m) p (omega arith) h
        | inr after ↦ Anc-set_above t down n d (t m) p after h
      ]),
    ),
  ),
)

pub set-Linked :
    (cfg : Cfg) (t : Tree)
    → IsOrdered cfg
    → Down t
    → (n d : ℕ) → Linked cfg n t
    → IsMeet t (cfg.preds n) d
    → Linked cfg (n + 1) (set t n d)
set-Linked cfg t ordered down n d linked met m pos lt side = elim (eq_cases m n) [
  | inl e ↦
      let (p, (mem, ltp)) = ordered.lower m pos lt in
      (
        p,
        (
          mem,
          (
            ltp,
            rw (set_here t n d m e)
                (Anc-set_below t down n d d p (omega arith) (met.below p (rw (← e) mem))),
          ),
        ),
      )
  | inr e ↦
      let keeps : set t n d m ≡ t m = set_other t n d m e in
      let side' : (m < n) ⊎ (n ≤ t m) = elim side [
        | inl before ↦ inl (omega arith)
        | inr after ↦ inr (omega arith)
      ] in
      set-Hangs cfg t down n d m e side' (linked m pos lt side')
]
