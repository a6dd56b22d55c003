-- ===== src/Analyses/PostOrder.antt =====
-- thorin/analyses/cfg.cpp: `CFG::post_order_visit`, which numbers the nodes as it leaves them, from the
-- greatest index down.
pub mod Count
pub mod Numbered
pub mod Leave
pub mod Visit
pub mod Cycles
pub mod Correct
use thorin.Prelude.{
  ℕ, zero, suc, ◌+◌, ◌-◌, ◌%◌, ◌^◌, Bool, true, false, Option, none, some, List, [], ◌∷◌, ◌==◌,
  if◌then◌else◌,
}

-- What `succs` yields, in any order.
pub record Graph : Type 0 where
  pub size : ℕ
  pub entry : ℕ
  pub succs : ℕ → List ℕ

-- `f_index_` or `b_index_`: `size_t(-1)`, `size_t(-2)`, or an index.
pub data Mark : Type 0 where
  unseen active : Mark
  at : ℕ → Mark

abbrev pub Marks : Type 0
Marks = ℕ → Mark

unfoldable pub put : Marks → ℕ → Mark → Marks
put m n a x = if x == n then a else m x

abbrev pub is_unseen : Mark → Bool
is_unseen unseen = true
is_unseen active = false
is_unseen (at k) = false

-- `i - 1` on a `size_t`.
abbrev pub before : ℕ → ℕ
before i = (i + (2 ^ 64 - 1)) % 2 ^ 64

abbrev pub Visitor : Type 0
Visitor = ℕ → ℕ → Marks → Option (ℕ × Marks)

-- The loop over the successors.
unfoldable pub visit_succs : Visitor → List ℕ → ℕ → Marks → Option (ℕ × Marks)
visit_succs visit [] i m = some (i, m)
visit_succs visit (s ∷ ss) i m = elim (is_unseen (m s)) [
  | false ↦ visit_succs visit ss i m
  | true ↦ elim (visit s i m) [ none ↦ none | some (j, m') ↦ visit_succs visit ss j m' ]
]

-- The first argument bounds the depth of the calls.
unfoldable pub post_order_visit : ℕ → Graph → Visitor
post_order_visit zero g n i m = none
post_order_visit (suc fuel) g n i m =
    elim (visit_succs (post_order_visit fuel g) (g.succs n) i (put m n active)) [
      | none ↦ none
      | some (j, m') ↦ some (before j, put m' n (at (before j)))
    ]

-- The constructor of `CFG`, with the value that its assertion compares with 0.
unfoldable pub number : Graph → Option (ℕ × Marks)
number g = post_order_visit g.size g g.entry g.size (λ n. unseen)
