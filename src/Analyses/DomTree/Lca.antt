-- ===== src/Analyses/DomTree/Lca.antt =====
-- `least_common_ancestor` ends, and what it returns.
use thorin.Prelude.{
  ℕ, zero, suc, ◌+◌, ◌<◌, ◌≤◌, inl, inr, arith, ==_iff, eqb-false_iff, ◌==◌, ltb, Bool-cases,
}
use thorin.Analyses.DomTree.{Tree, climb, lca_loop, least_common_ancestor}
use thorin.Analyses.DomTree.Ancestors.{Anc, self, up, Down, Anc-le, Anc-trans, Anc-cases}

-- `k` is the highest ancestor of `j` that is not beyond `i`.
record IsBelow (t : Tree) (i j k : ℕ) : Type 0 where
  pub within : k ≤ i
  pub above : Anc t k j
  pub all : (a : ℕ) → a ≤ i → Anc t a j → Anc t a k

climb-IsBelow :
    (fuel : ℕ) (t : Tree) → Down t → (i j : ℕ) → j ≤ fuel → IsBelow t i j (climb fuel t i j)
unfolding climb
climb-IsBelow zero t down i j enough = record {
  within = omega arith;
  above = self;
  all = λ a le h. h;
}
climb-IsBelow (suc fuel) t down i j enough = elim (Bool-cases (ltb i j)) [
  | inl lt ↦
      let lower = down j (ground arith) in
      let rest = climb-IsBelow fuel t down i (t j) (ground arith) in
      rw lt (record {
        within = rest.within;
        above = up j (ground arith) rest.above;
        all = λ a le h. elim (Anc-cases t a j h) [
          | inl same ↦ absurd (ground arith)
          | inr (_, h') ↦ rest.all a le h'
        ];
      })
  | inr ge ↦ rw ge (record { within = ground arith; above = self; all = λ a le h. h })
]

-- `d` is a common ancestor of `i` and `j`, and every other one is an ancestor of it.
pub record IsLca (t : Tree) (i j d : ℕ) : Type 0 where
  pub left : Anc t d i
  pub right : Anc t d j
  pub all : (a : ℕ) → Anc t a i → Anc t a j → Anc t a d

lca_loop-IsLca :
    (fuel : ℕ) (t : Tree) → Down t → (i j : ℕ) → i + j < fuel → IsLca t i j (lca_loop fuel t i j)
unfolding lca_loop
lca_loop-IsLca zero t down i j enough = absurd (omega arith)
lca_loop-IsLca (suc fuel) t down i j enough = elim (Bool-cases (i == j)) [
  | inl e ↦ rw e (record { left = self; right = rw (← (==_iff i j).0 e) self; all = λ a h k. h })
  | inr e ↦
      let k = climb j t i j in
      let l = climb i t k i in
      let low : IsBelow t i j k = climb-IsBelow j t down i j (omega arith) in
      let lower : IsBelow t k i l = climb-IsBelow i t down k i (omega arith) in
      let kj = Anc-le t down k j low.above in
      let li = Anc-le t down l i lower.above in
      let ki = low.within in
      let lk = lower.within in
      let apart = (eqb-false_iff i j).0 e in
      let less : l + k < fuel = omega arith in
      let rest = lca_loop-IsLca fuel t down l k less in
      rw e (record {
        left = Anc-trans t (lca_loop fuel t l k) l i rest.left lower.above;
        right = Anc-trans t (lca_loop fuel t l k) k j rest.right low.above;
        all = λ a h h'.
            let ai = Anc-le t down a i h in
            let ak = low.all a ai h' in rest.all a (lower.all a (Anc-le t down a k ak) h) ak;
      })
]

-- The least common ancestor is found: the loops end, whatever the two nodes are, with an ancestor of
-- both of which every ancestor of both is an ancestor.
pub least_common_ancestor-IsLca :
    (t : Tree) (i j : ℕ) → Down t → IsLca t i j (least_common_ancestor t i j)
unfolding least_common_ancestor
least_common_ancestor-IsLca t i j down = lca_loop-IsLca (suc (i + j)) t down i j (omega arith)
