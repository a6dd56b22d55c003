-- ===== src/Analyses/Frontier/Correct.antt =====
-- The links are the dominance frontiers.
use mathlib.Core.List.{Memᴰ}
use mathlib.Core.List.Memᴰ
use mathlib.Core.Path.{subst}
use thorin.Prelude.{
  eq_cases, ℕ, zero, suc, ◌+◌, ◌-◌, ◌<◌, ◌≤◌, ◌≡◌, ◌↔◌, inl, inr, refl, sym, ◌∙◌, arith, some, List,
  [], ◌∷◌, ◌++◌, Bool-cases, ltb, length,
}
use thorin.Analyses.DomTree.{Cfg, Tree, create}
use thorin.Analyses.DomTree.Ancestors.{Anc, up, Down, Anc-le, Anc-cases}
use thorin.Analyses.DomTree.Dominance.{IsOrdered, Avoid}
use thorin.Analyses.DomTree.Pass.{Settled}
use thorin.Analyses.DomTree.Correct.{create-Settled, Anc-dominates_iff}
use thorin.Analyses.Frontier.{Links, node_links, links_from, create_frontier}
use thorin.Analyses.Frontier.Climb.{Between, Lists, FromPreds, preds_links-FromPreds}

pred_unique : (ps : List ℕ) (p q : ℕ) → length ps ≤ 1 → Memᴰ p ps → Memᴰ q ps → p ≡ q
pred_unique [] p q le m k = absurd (Memᴰ.not-nil m)
pred_unique (x ∷ []) p q le m k = Memᴰ.eq_of_singleton m ∙ sym (Memᴰ.eq_of_singleton k)
pred_unique (x ∷ y ∷ ps) p q le m k = absurd (omega arith)

node_links-FromPreds :
    (cfg : Cfg) (t : Tree) (n : ℕ)
    → Down t
    → Settled cfg t n
    → (ls : Links) × ((node_links cfg t n ≡ some ls) × Lists ls (FromPreds t n (cfg.preds n)))
unfolding node_links
node_links-FromPreds cfg t n down met = elim (Bool-cases (ltb 1 (length (cfg.preds n)))) [
  | inl e ↦ rw e (preds_links-FromPreds t n (cfg.preds n) down met.below)
  | inr e ↦
      let nowhere : (a m : ℕ) → FromPreds t n (cfg.preds n) a m → ⊥ =
        λ a m (mn, (p, (mp, (above, below)))). below (
          met.all a
            (λ q mq. subst (Anc t a) (pred_unique (cfg.preds n) p q (ground arith) mp mq) above)) in
      rw e ([], (refl, λ a m. ((λ mem. absurd (Memᴰ.not-nil mem)), (λ b. absurd (nowhere a m b)))))
]

-- `a` stands above a predecessor of `m`, but not strictly above `m`.
abbrev InFrontier : Cfg → Tree → ℕ → ℕ → Type 0
InFrontier cfg t a m = (p : ℕ) × (Memᴰ p (cfg.preds m) × Between t a p (t m))

-- The frontiers of the nodes of a range.
abbrev Within : Cfg → Tree → ℕ → ℕ → ℕ → ℕ → Type 0
Within cfg t low high a m = (low ≤ m) × ((m < high) × InFrontier cfg t a m)

links_from-Within :
    (cfg : Cfg) (t : Tree) (left n : ℕ)
    → Down t
    → ((m : ℕ) → 0 < m → m < cfg.size → Settled cfg t m)
    → 0 < n
    → left ≤ cfg.size - n
    → (ls : Links) × ((links_from cfg t left n ≡ some ls) × Lists ls (Within cfg t n (n + left)))
unfolding links_from
links_from-Within cfg t zero n down settled pos le = (
  [],
  (refl, λ a m. ((λ mem. absurd (Memᴰ.not-nil mem)), (λ (more, (less, _)). absurd (omega arith)))),
)
links_from-Within cfg t (suc left) n down settled pos le =
    let (ls, (ran, first)) = node_links-FromPreds cfg t n down (settled n pos (omega arith)) in
    let (ms, (ran', others)) =
      links_from-Within cfg t left (n + 1) down settled (omega arith) (omega arith) in
    let forth : (a m : ℕ) → Memᴰ (a, m) (ls ++ ms) → Within cfg t n (n + suc left) a m = λ a m mem.
      elim (Memᴰ.append_cases ls mem) [
        | inl l ↦
            let (mn, b) = (first a m).0 l in
            (omega arith, (omega arith, subst (InFrontier cfg t a) (sym mn) b))
        | inr r ↦ let (more, (less, b)) = (others a m).0 r in (omega arith, (omega arith, b))
      ] in
    let back : (a m : ℕ) → Within cfg t n (n + suc left) a m → Memᴰ (a, m) (ls ++ ms) =
      λ a m (more, (less, b)). elim (eq_cases m n) [
        | inl e ↦ Memᴰ.append_left ms ((first a m).1 (e, subst (InFrontier cfg t a) e b))
        | inr e ↦ Memᴰ.append_right ls ((others a m).1 (omega arith, (omega arith, b)))
      ] in
    (ls ++ ms, (rw (links_from, ran) (rw ran' refl), λ a m. (forth a m, back a m)))

-- The dominance frontiers are right: on a graph in which every node but the entry has a predecessor of
-- a smaller index, a node is linked to another one that is not the entry if and only if it dominates a
-- predecessor of the other and does not dominate the other strictly.
pub create_frontier_iff :
    (cfg : Cfg) (a m : ℕ)
    → IsOrdered cfg
    → 0 < m
    → m < cfg.size
    → (t : Tree) × ((create cfg ≡ some t)
        × ((ls : Links) × ((create_frontier cfg t ≡ some ls)
              × (Memᴰ (a, m) ls ↔ (
                  (p : ℕ) × (Memᴰ p (cfg.preds m)
                    × (¬ Avoid cfg a p × (¬ Avoid cfg a m → a ≡ m))))))))
unfolding create_frontier
create_frontier_iff cfg a m ordered pos lt =
    let (t, (ran, (v, settled))) = create-Settled cfg ordered in
    let (ls, (done, lists)) =
      links_from-Within cfg t (cfg.size - 1) 1 v.down settled (omega arith) (omega arith) in
    let dom : (n : ℕ) → n < cfg.size → Anc t a n ↔ ¬ Avoid cfg a n =
      Anc-dominates_iff cfg t v settled a in
    let forth : Memᴰ (a, m) ls
        → (p : ℕ) × (Memᴰ p (cfg.preds m) × (¬ Avoid cfg a p × (¬ Avoid cfg a m → a ≡ m))) =
      λ mem.
        let (_, (_, (p, (mp, (above, below))))) = (lists a m).0 mem in
        let only : ¬ Avoid cfg a m → a ≡ m = λ d. elim (Anc-cases t a m ((dom m lt).1 d)) [
          | inl e ↦ e
          | inr (_, k) ↦ absurd (below k)
        ] in
        (p, (mp, ((dom p (ordered.inside m p lt mp)).0 above, only))) in
    let back : (p : ℕ) × (Memᴰ p (cfg.preds m) × (¬ Avoid cfg a p × (¬ Avoid cfg a m → a ≡ m)))
        → Memᴰ (a, m) ls =
      λ (p, (mp, (d, only))).
        let above = (dom p (ordered.inside m p lt mp)).1 d in
        let below : Anc t a (t m) → ⊥ = λ k.
          let e = only ((dom m lt).0 (up m pos k)) in
          let le = Anc-le t v.down a (t m) k in let lower = v.down m pos in omega arith in
        (lists a m).1 (pos, (omega arith, (p, (mp, (above, below))))) in
    (t, (ran, (ls, (done, (forth, back)))))
