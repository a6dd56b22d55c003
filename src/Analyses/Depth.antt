-- ===== src/Analyses/Depth.antt =====
-- thorin/analyses/domtree.cpp: the children in the dominator tree and the depth of a node. The depth is an
-- `int`; it is below the number of nodes.
pub mod Children
pub mod Levels
use thorin.Prelude.{
  ℕ, zero, suc, ◌+◌, ◌-◌, Option, none, some, List, [], ◌∷◌, ◌++◌, ◌==◌, if◌then◌else◌,
}
use thorin.Analyses.DomTree.{Cfg, Tree, set}

-- `children_`
abbrev pub Children : Type 0
Children = ℕ → List ℕ

unfoldable pub push_back : Children → ℕ → ℕ → Children
push_back ch p n q = if q == p then ch q ++ (n ∷ []) else ch q

-- The last loop of `create`, over some nodes from `n` on.
unfoldable pub children_from : Tree → ℕ → ℕ → Children → Children
children_from t zero n ch = ch
children_from t (suc left) n ch = children_from t left (n + 1) (push_back ch (t n) n)

unfoldable pub children_of : Cfg → Tree → Children
children_of cfg t = children_from t (cfg.size - 1) 1 (λ n. [])

-- `depth_`
abbrev pub Depths : Type 0
Depths = ℕ → ℕ

unfoldable pub depth_children :
    (ℕ → ℕ → Depths → Option Depths) → List ℕ → ℕ → Depths → Option Depths
depth_children visit [] i d = some d
depth_children visit (c ∷ cs) i d = elim (visit c i d) [
  | none ↦ none
  | some d' ↦ depth_children visit cs i d'
]

-- `depth`. The first argument bounds the depth of the calls.
unfoldable pub depth : ℕ → Children → ℕ → ℕ → Depths → Option Depths
depth zero ch n i d = none
depth (suc fuel) ch n i d = depth_children (depth fuel ch) (ch n) (i + 1) (set d n i)

-- The depths that the constructor of `DomTreeBase` computes from the tree.
unfoldable pub depths : Cfg → Tree → Option Depths
depths cfg t = depth cfg.size (children_of cfg t) 0 0 (λ n. 0)
