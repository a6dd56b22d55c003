-- ===== src/Analyses/PostOrder/Correct.antt =====
-- What the numbering promises, on which the dominator tree rests.
use mathlib.Core.List.{Memᴰ}
use mathlib.Core.Path.{subst}
use thorin.Prelude.{ℕ, ◌<◌, ◌≡◌, ◌⊎◌, ◌↔◌, inl, inr, refl, sym, ap, ◌∙◌, arith, true, some}
use thorin.Analyses.DomTree.{Cfg}
use thorin.Analyses.DomTree.Dominance.{IsOrdered}
use thorin.Analyses.PostOrder.{Graph, unseen, at, Marks, number}
use thorin.Analyses.PostOrder.Count.{count-all, count-none, count-le}
use thorin.Analyses.PostOrder.Numbered.{is_open, Rooted, Preceded, IsNumbered}
use thorin.Analyses.PostOrder.Cycles.{Walk, at-inj}
use thorin.Analyses.PostOrder.Visit.{IsClosed, Keeps, Visited, post_order_visit-Visits}

-- A walk leads from the entry to the node.
pub data Reach (g : Graph) : ℕ → Type 0 where
  begin : Reach g g.entry
  next : (x s : ℕ) → Reach g x → Memᴰ s (g.succs x) → Reach g s

blank : Marks
blank n = unseen

blank-IsNumbered : (g : Graph) → IsNumbered g g.size blank
unfolding blank
blank-IsNumbered g = record {
  counter = sym (count-all (λ x. true) g.size (λ x. refl));
  within = λ x k e. cc;
  distinct = λ x y k e f. cc;
  preceded = λ x k e. cc;
  followed = λ x s k e mem. cc;
  forward = λ x y k e mem. cc;
  taken = λ k low high. absurd (omega arith);
}

number-Visited : (g : Graph) → IsClosed g → g.entry < g.size → Visited g (number g) blank g.entry
unfolding number blank
number-Visited g closed lt =
    let le = count-le (λ x. true) g.size in
    post_order_visit-Visits g.size g closed g.entry g.size blank (blank-IsNumbered g) refl lt le
      (inl refl) (λ a e. cc)

-- A node that can be reached has an index.
at_of_Reach :
    (g : Graph) (j : ℕ) (m : Marks)
    → IsNumbered g j m
    → Keeps blank m
    → m g.entry ≡ at j
    → (x : ℕ) → Reach g x
    → (k : ℕ) × (m x ≡ at k)
unfolding blank
at_of_Reach g j m v keeps first _ begin = (j, first)
at_of_Reach g j m v keeps first _ (next x s r mem) =
    let (k, e) = at_of_Reach g j m v keeps first x r in
    elim (keeps s) [ inl same ↦ absurd (v.followed x s k e mem same) | inr (_, found) ↦ found ]

-- No node is active at the end.
Rooted-entry : (g : Graph) (m : Marks) (x : ℕ) → Keeps blank m → Rooted g m x → x ≡ g.entry
unfolding blank
Rooted-entry g m x keeps (inl entry) = entry
Rooted-entry g m x keeps (inr (p, (mem, act))) = elim (keeps p) [
  | inl u ↦ cc
  | inr (_, (kp, at_p)) ↦ cc
]

counter_zero :
    (g : Graph) (j : ℕ) (m : Marks)
    → IsNumbered g j m
    → Keeps blank m
    → m g.entry ≡ at j
    → ((z : ℕ) → z < g.size → Reach g z)
    → j ≡ 0
counter_zero g j m v keeps first reach =
    v.counter
    ∙ count-none (λ z. is_open (m z)) g.size
        (λ z lt. let (k, e) = at_of_Reach g j m v keeps first z (reach z lt) in rw e refl)

-- The nodes of a graph that can all be reached are numbered: the visit ends, the assertion holds, the
-- entry has the index 0, the indices are those below the number of nodes, two nodes have the same index
-- only if they are the same, and every other node follows a node of a smaller index.
pub number-Preceded :
    (g : Graph) (x y : ℕ)
    → IsClosed g
    → g.entry < g.size
    → ((z : ℕ) → z < g.size → Reach g z)
    → x < g.size
    → y < g.size
    → (m : Marks) × ((number g ≡ some (0, m))
        × ((m g.entry ≡ at 0)
            × ((k : ℕ) × ((m x ≡ at k)
                  × ((k < g.size) × ((m x ≡ m y ↔ x ≡ y) × ((x ≡ g.entry) ⊎ Preceded g m x k)))))))
number-Preceded g x y closed lt reach ltx lty =
    let (j, (m, (ran, (v, (keeps, first))))) = number-Visited g closed lt in
    let indexed : (z : ℕ) → z < g.size → (k : ℕ) × (m z ≡ at k) =
      λ z ltz. at_of_Reach g j m v keeps first z (reach z ltz) in
    let last = counter_zero g j m v keeps first reach in
    let (k, e) = indexed x ltx in
    let (l, f) = indexed y lty in
    let same : m x ≡ m y → x ≡ y = λ h. v.distinct x y k e (sym h ∙ e) in
    let root : (x ≡ g.entry) ⊎ Preceded g m x k = elim (v.preceded x k e) [
      | inl r ↦ inl (Rooted-entry g m x keeps r)
      | inr before ↦ inr before
    ] in
    (
      m,
      (
        ran ∙ ap (λ i. some (i, m)) last,
        (first ∙ ap at last, (k, (e, ((v.within x k e).1, ((same, ap m), root))))),
      ),
    )

-- The numbering is a reverse post order: in a graph whose nodes can all be reached, the visit ends with
-- an index for both ends of every edge, and the edge goes to a greater index unless a walk leads back
-- from its end to its beginning.
pub number-IsForward :
    (g : Graph) (x y : ℕ)
    → IsClosed g
    → g.entry < g.size
    → ((z : ℕ) → z < g.size → Reach g z)
    → x < g.size
    → Memᴰ y (g.succs x)
    → (m : Marks) × ((number g ≡ some (0, m))
        × ((k : ℕ) × ((m x ≡ at k) × ((l : ℕ) × ((m y ≡ at l) × ((k < l) ⊎ Walk g y x))))))
number-IsForward g x y closed lt reach ltx mem =
    let (j, (m, (ran, (v, (keeps, first))))) = number-Visited g closed lt in
    let last = counter_zero g j m v keeps first reach in
    let (k, e) = at_of_Reach g j m v keeps first x (reach x ltx) in
    let (l, f) = at_of_Reach g j m v keeps first y (reach y (closed.inside x y ltx mem)) in
    let later : (k < l) ⊎ Walk g y x = elim (v.forward x y k e mem) [
      | inl (l', (f', less)) ↦ let same : l ≡ l' = at-inj l l' (sym f ∙ f') in inl (omega arith)
      | inr w ↦ inr w
    ] in
    (m, (ran ∙ ap (λ i. some (i, m)) last, (k, (e, (l, (f, later))))))

-- The graph in which nodes are their indices.
pub record IsIndexed (g : Graph) (m : Marks) (cfg : Cfg) : Type 0 where
  pub size : cfg.size ≡ g.size
  pub edges :
      (kp ks : ℕ)
      → Memᴰ kp (cfg.preds ks)
        ↔ ((p : ℕ) × ((s : ℕ) × (Memᴰ s (g.succs p) × ((m p ≡ at kp) × (m s ≡ at ks)))))

number_facts :
    (g : Graph) (j : ℕ) (m : Marks)
    → IsClosed g
    → g.entry < g.size
    → number g ≡ some (j, m)
    → IsNumbered g j m × (Keeps blank m × (m g.entry ≡ at j))
number_facts g j m closed lt ran =
    let (i, (m', (ran', facts))) = number-Visited g closed lt in
    let pair : some (i, m') ≡ some (j, m) = sym ran' ∙ ran in
    subst (λ (q : ℕ × Marks). IsNumbered g q.0 q.1 × (Keeps blank q.1 × (q.1 g.entry ≡ at q.0)))
      (some_inj pair) facts
  where
    some_inj : {A : Type 0} {a b : A} → some a ≡ some b → a ≡ b
    some_inj e = cc

-- In the graph that the dominator tree is computed on, whose nodes are the indices, every node but the
-- entry has a predecessor of a smaller index, and predecessors are nodes.
pub number-IsOrdered :
    (g : Graph) (j : ℕ) (m : Marks) (cfg : Cfg)
    → IsClosed g
    → g.entry < g.size
    → ((z : ℕ) → z < g.size → Reach g z)
    → number g ≡ some (j, m)
    → IsIndexed g m cfg
    → IsOrdered cfg
number-IsOrdered g j m cfg closed lt reach ran indexed =
    let (v, (keeps, first)) = number_facts g j m closed lt ran in
    let last = counter_zero g j m v keeps first reach in
    let size = indexed.size in
    record {
      lower = λ n pos ltn.
          let (x, e) = v.taken n (omega arith) (omega arith) in
          elim (v.preceded x n e) [
            | inl r ↦
                let entry = Rooted-entry g m x keeps r in
                let zero_n = at-inj j n (sym first ∙ sym (ap m entry) ∙ e) in absurd (omega arith)
            | inr (p, (kp, (mem, (ip, less)))) ↦
                (kp, ((indexed.edges kp n).1 (p, (x, (mem, (ip, e)))), less))
          ];
      inside = λ n p ltn mem.
          let (q, (s, (_, (iq, _)))) = (indexed.edges p n).0 mem in
          let (_, high) = v.within q p iq in omega arith;
    }
