-- ===== src/Analyses/DomTree.antt =====
-- thorin/analyses/domtree.cpp: the immediate dominators by the algorithm of Cooper, Harvey and Kennedy,
-- and the least common ancestor. A node is its index in the numbering, in which the entry is 0.
pub mod Ancestors
pub mod Lca
pub mod Meet
pub mod Update
pub mod Valid
pub mod Dominance
pub mod Pass
pub mod Correct
use thorin.Prelude.{
  ℕ, zero, suc, ◌+◌, ◌-◌, ◌*◌, ◌<◌, Bool, true, false, Option, none, some, List, [], ◌∷◌, ◌==◌, ltb,
  if◌then◌else◌,
}

-- The part of `CFG` that the tree reads: the number of nodes, and the predecessors in any order.
pub record Cfg : Type 0 where
  pub size : ℕ
  pub preds : ℕ → List ℕ

-- `idoms_`
abbrev pub Tree : Type 0
Tree = ℕ → ℕ

unfoldable pub set : Tree → ℕ → ℕ → Tree
set t n d m = if m == n then d else t m

-- An inner loop of `least_common_ancestor`: `while (i < j) j = idom(j)`. The first argument bounds the
-- rounds.
unfoldable pub climb : ℕ → Tree → ℕ → ℕ → ℕ
climb zero t i j = j
climb (suc fuel) t i j = let above = climb fuel t i (t j) in if ltb i j then above else j

-- The outer loop.
unfoldable pub lca_loop : ℕ → Tree → ℕ → ℕ → ℕ
lca_loop zero t i j = i
lca_loop (suc fuel) t i j =
    let k = climb j t i j in
    let rest = lca_loop fuel t (climb i t k i) k in if i == j then i else rest

unfoldable pub least_common_ancestor : Tree → ℕ → ℕ → ℕ
least_common_ancestor t i j = lca_loop (suc (i + j)) t i j

-- The first predecessor of a smaller index.
unfoldable pub first_lower : ℕ → List ℕ → Option ℕ
first_lower n [] = none
first_lower n (p ∷ ps) = if ltb p n then some p else first_lower n ps

-- The first loop, over some nodes from `n` on. `none` is `unreachable()`.
unfoldable pub init_from : Cfg → ℕ → ℕ → Tree → Option Tree
init_from cfg zero n t = some t
init_from cfg (suc left) n t = elim (first_lower n (cfg.preds n)) [
  | none ↦ none
  | some p ↦ init_from cfg left (n + 1) (set t n p)
]

-- `new_idom`, from what it is so far, which is null at first.
unfoldable pub meet : Tree → Option ℕ → List ℕ → Option ℕ
meet t idom [] = idom
meet t none (p ∷ ps) = meet t (some p) ps
meet t (some d) (p ∷ ps) = meet t (some (least_common_ancestor t d p)) ps

pub record Round : Type 0 where
  pub todo : Bool
  pub idoms : Tree

-- The body of the loop over the nodes. `none` is the failed assertion.
unfoldable pub visit : Cfg → ℕ → Round → Option Round
visit cfg n r = elim (meet r.idoms none (cfg.preds n)) [
  | none ↦ none
  | some d ↦ some (if r.idoms n == d then r else record { todo = true; idoms = set r.idoms n d })
]

-- The loop over some nodes from `n` on.
unfoldable pub pass_from : Cfg → ℕ → ℕ → Round → Option Round
pass_from cfg zero n r = some r
pass_from cfg (suc left) n r = elim (visit cfg n r) [
  | none ↦ none
  | some r' ↦ pass_from cfg left (n + 1) r'
]

-- The loop until nothing changes. The first argument bounds the rounds.
unfoldable pub settle : ℕ → Cfg → Tree → Option Tree
settle zero cfg t = none
settle (suc fuel) cfg t =
    elim (pass_from cfg (cfg.size - 1) 1 (record { todo = false; idoms = t })) [
      | none ↦ none
      | some r ↦ let again = settle fuel cfg r.idoms in if r.todo then again else some r.idoms
    ]

-- `DomTreeBase::create` up to the children. Nodes other than the entry have no immediate dominator
-- before the first loop; 0 stands for it, and nothing reads it.
unfoldable pub create : Cfg → Option Tree
create cfg = elim (init_from cfg (cfg.size - 1) 1 (λ n. 0)) [
  | none ↦ none
  | some t ↦ settle (suc (cfg.size * cfg.size)) cfg t
]
