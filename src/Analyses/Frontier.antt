-- ===== src/Analyses/Frontier.antt =====
-- thorin/analyses/domfrontier.cpp and domfrontier.h: the dominance frontiers. What is kept is the list of
-- the calls of `link`, of which `succs_` and `preds_` are the two projections.
pub mod Climb
pub mod Correct
use thorin.Prelude.{
  ℕ, zero, suc, ◌+◌, ◌-◌, Option, none, some, List, [], ◌∷◌, ◌++◌, ◌==◌, ltb, length, if◌then◌else◌,
}
use thorin.Analyses.DomTree.{Cfg, Tree}

abbrev pub Links : Type 0
Links = List (ℕ × ℕ)

-- `for (auto i = pred; i != idom; i = domtree.idom(i)) link(i, n)`. The first argument bounds the rounds.
unfoldable pub climb_links : ℕ → Tree → ℕ → ℕ → ℕ → Option Links
climb_links zero t idom n i = if i == idom then some [] else none
climb_links (suc fuel) t idom n i =
    let rest : Option Links = elim (climb_links fuel t idom n (t i)) [
      | none ↦ none
      | some ls ↦ some ((i, n) ∷ ls)
    ] in
    if i == idom then some [] else rest

-- The loop over the predecessors.
unfoldable pub preds_links : Tree → ℕ → List ℕ → Option Links
preds_links t n [] = some []
preds_links t n (p ∷ ps) = elim (climb_links p t (t n) n p) [
  | none ↦ none
  | some ls ↦ elim (preds_links t n ps) [ none ↦ none | some ms ↦ some (ls ++ ms) ]
]

unfoldable pub node_links : Cfg → Tree → ℕ → Option Links
node_links cfg t n =
    let preds = cfg.preds n in
    let links = preds_links t n preds in if ltb 1 (length preds) then links else some []

-- The loop over some nodes from `n` on.
unfoldable pub links_from : Cfg → Tree → ℕ → ℕ → Option Links
links_from cfg t zero n = some []
links_from cfg t (suc left) n = elim (node_links cfg t n) [
  | none ↦ none
  | some ls ↦ elim (links_from cfg t left (n + 1)) [ none ↦ none | some ms ↦ some (ls ++ ms) ]
]

-- `DomFrontierBase::create`, with the dominator tree.
unfoldable pub create_frontier : Cfg → Tree → Option Links
create_frontier cfg t = links_from cfg t (cfg.size - 1) 1
