-- ===== src/Tests/Analysis.antt =====
-- Instances for domtree.cpp and domfrontier.cpp.
use mathlib.Core.List.{Memᴰ}
use mathlib.Core.List.Memᴰ
use thorin.Prelude.{ℕ, ◌-◌, ◌/◌, ◌<◌, ◌≡◌, ◌↔◌, refl, some, [], ◌∷◌, inl, inr, arith, Option, none}
use thorin.Analyses.DomTree.{Cfg, Tree, create, least_common_ancestor}
use thorin.Analyses.DomTree.Ancestors.{Anc, Down}
use thorin.Analyses.DomTree.Lca.{IsLca, least_common_ancestor-IsLca}
use thorin.Analyses.DomTree.Dominance.{IsOrdered, Avoid}
use thorin.Analyses.DomTree.Correct.{create-dominates_iff}
use thorin.Analyses.Frontier.{Links, create_frontier}
use thorin.Analyses.Depth.{Depths, depths}
use thorin.Analyses.Depth.Levels.{Below, depths-Below}
use thorin.Analyses.Frontier.Correct.{create_frontier_iff}

-- Every node is a successor of the one before and of the entry.
abbrev ladder : Cfg
ladder = record { size = 4; preds = λ n. (n - 1) ∷ 0 ∷ [] }

inside : (n p : ℕ) → n < 4 → Memᴰ p ((n - 1) ∷ 0 ∷ []) → p < 4
inside n p lt m = elim (Memᴰ.cases_cons m) [
  | inl before ↦ omega arith
  | inr m' ↦ (let entry = Memᴰ.eq_of_singleton m' in omega arith)
]

ladder-IsOrdered : IsOrdered ladder
ladder-IsOrdered = record {
  lower = λ n pos lt. (n - 1, (Memᴰ.head refl, omega arith));
  inside = inside;
}

-- The immediate dominator in what `create` yields.
parent : Option Tree → ℕ → Option ℕ
parent none n = none
parent (some t) n = some (t n)

ladder_three : parent (create ladder) 3 ≡ some 0
unfolding create parent thorin.Analyses.DomTree.init_from thorin.Analyses.DomTree.first_lower
    thorin.Analyses.DomTree.settle thorin.Analyses.DomTree.pass_from thorin.Analyses.DomTree.visit
    thorin.Analyses.DomTree.meet thorin.Analyses.DomTree.set least_common_ancestor
    thorin.Analyses.DomTree.lca_loop thorin.Analyses.DomTree.climb
ladder_three = refl

create-dominates_iff_example :
    (t : Tree) × ((create ladder ≡ some t) × (Anc t 2 3 ↔ ¬ Avoid ladder 2 3))
create-dominates_iff_example = create-dominates_iff ladder 2 3 ladder-IsOrdered (omega arith)

abbrev half : Tree
half n = n / 2

half-Down : Down half
half-Down n pos = omega arith

half_five_six : least_common_ancestor half 5 6 ≡ 1
unfolding least_common_ancestor thorin.Analyses.DomTree.lca_loop thorin.Analyses.DomTree.climb
half_five_six = refl

least_common_ancestor-IsLca_example : IsLca half 5 6 (least_common_ancestor half 5 6)
least_common_ancestor-IsLca_example = least_common_ancestor-IsLca half 5 6 half-Down

create_frontier_iff_example :
    (t : Tree) × ((create ladder ≡ some t)
      × ((ls : Links) × ((create_frontier ladder t ≡ some ls)
            × (Memᴰ (1, 2) ls ↔ (
                (p : ℕ) × (Memᴰ p (1 ∷ 0 ∷ [])
                  × (¬ Avoid ladder 1 p × (¬ Avoid ladder 1 2 → ◌≡◌ {A = ℕ} 1 2))))))))
create_frontier_iff_example =
    create_frontier_iff ladder 1 2 ladder-IsOrdered (omega arith) (omega arith)

depths-Below_example :
    (t : Tree) × ((create ladder ≡ some t)
      × ((d : Depths) × ((depths ladder t ≡ some d) × Below t (d 3) 3)))
depths-Below_example = depths-Below ladder 3 ladder-IsOrdered (omega arith)
