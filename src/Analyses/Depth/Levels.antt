-- ===== src/Analyses/Depth/Levels.antt =====
-- The depth of a node is the number of its immediate dominators up to the entry.
use mathlib.Core.List.{Memᴰ}
use mathlib.Core.List.Memᴰ
use mathlib.Core.Path.{subst}
use thorin.Prelude.{
  eq_cases, ℕ, zero, suc, ◌+◌, ◌<◌, ◌≤◌, ◌≡◌, ◌⊎◌, inl, inr, refl, sym, ◌∙◌, arith, Option, some,
  List, [], ◌∷◌,
}
use thorin.Analyses.DomTree.{Cfg, Tree, set, create}
use thorin.Analyses.DomTree.Ancestors.{Anc, self, up, Down, Anc-le, set_here, set_other}
use thorin.Analyses.DomTree.Dominance.{IsOrdered}
use thorin.Analyses.DomTree.Correct.{create-Settled}
use thorin.Analyses.Depth.{Depths, children_of, depth_children, depth, depths}
use thorin.Analyses.Depth.Children.{children_of_iff}

-- The node is some steps below the entry.
pub data Below (t : Tree) : ℕ → ℕ → Type 0 where
  top : Below t 0 0
  down : (k n : ℕ) → 0 < n → Below t k (t n) → Below t (suc k) n

-- A depth changes only to the right one.
abbrev Settles : Tree → Depths → Depths → Type 0
Settles t d d' = (x : ℕ) → (d' x ≡ d x) ⊎ Below t (d' x) x

Settles-trans : (t : Tree) (a b c : Depths) → Settles t a b → Settles t b c → Settles t a c
Settles-trans t a b c h k x = elim (k x) [
  | inl e ↦ elim (h x) [ inl e' ↦ inl (e ∙ e') | inr r ↦ inr (rw e r) ]
  | inr r ↦ inr r
]

stays_right :
    (t : Tree) (d d' : Depths) (x : ℕ) → Settles t d d' → Below t (d x) x → Below t (d' x) x
stays_right t d d' x h r = elim (h x) [ inl e ↦ rw e r | inr r' ↦ r' ]

-- An ancestor of a node is the node, or a child of the ancestor is one.
child_between :
    (t : Tree) (n x : ℕ) → Anc t n x → (n ≡ x) ⊎ ((c : ℕ) × ((0 < c) × ((t c ≡ n) × Anc t c x)))
child_between t n _ self = inl refl
child_between t n _ (up b pos h) = elim (child_between t n (t b) h) [
  | inl e ↦ inr (b, (pos, (sym e, self)))
  | inr (c, (posc, (parent, k))) ↦ inr (c, (posc, (parent, up b pos k)))
]

-- The depths of all that is below a node are right after the visit.
abbrev Deepens : Cfg → Tree → ℕ → Option Depths → Depths → Type 0
Deepens cfg t n result d =
    (d' : Depths) × ((result ≡ some d')
      × (Settles t d d' × ((x : ℕ) → x < cfg.size → Anc t n x → Below t (d' x) x)))

depth_children-Deepens :
    (cfg : Cfg) (t : Tree) (visit : ℕ → ℕ → Depths → Option Depths) (i n : ℕ)
    → ((c : ℕ) (d : Depths) → 0 < c → c < cfg.size → t c ≡ n → Deepens cfg t c (visit c i d) d)
    → (cs : List ℕ) (d : Depths) → ((c : ℕ) → Memᴰ c cs → (0 < c) × ((c < cfg.size) × (t c ≡ n)))
    → (d' : Depths) × ((depth_children visit cs i d ≡ some d')
        × (Settles t d d' × ((c x : ℕ) → Memᴰ c cs → x < cfg.size → Anc t c x → Below t (d' x) x)))
unfolding depth_children
depth_children-Deepens cfg t visit i n ok [] d all =
    (d, (refl, ((λ x. inl refl), (λ c x mem. absurd (Memᴰ.not-nil mem)))))
depth_children-Deepens cfg t visit i n ok (c ∷ cs) d all =
    let (pos, (lt, parent)) = all c (Memᴰ.head refl) in
    let (e, (ran, (settles, right))) = ok c d pos lt parent in
    let (e', (ran', (settles', right'))) =
      depth_children-Deepens cfg t visit i n ok cs e (λ q mem. all q (Memᴰ.tail mem)) in
    let both : (q x : ℕ) → Memᴰ q (c ∷ cs) → x < cfg.size → Anc t q x → Below t (e' x) x =
      λ q x mem ltx anc. elim (Memᴰ.cases_cons mem) [
        | inl here ↦ stays_right t e e' x settles' (right x ltx (subst (λ r. Anc t r x) here anc))
        | inr there ↦ right' q x there ltx anc
      ] in
    (e', (rw (depth_children, ran) ran', (Settles-trans t d e e' settles settles', both)))

depth-Deepens :
    (fuel : ℕ) (cfg : Cfg) (t : Tree)
    → Down t
    → (n i : ℕ) (d : Depths) → Below t i n
    → n < cfg.size
    → cfg.size ≤ n + fuel
    → Deepens cfg t n (depth fuel (children_of cfg t) n i d) d
unfolding depth
depth-Deepens zero cfg t lower n i d b lt enough = absurd (omega arith)
depth-Deepens (suc fuel) cfg t lower n i d b lt enough =
    let ok : (c : ℕ) (e : Depths)
        → 0 < c
        → c < cfg.size
        → t c ≡ n
        → Deepens cfg t c (depth fuel (children_of cfg t) c (i + 1) e) e =
      λ c e pos ltc parent.
        let less = lower c pos in
        let one : suc i ≡ i + 1 = omega arith in
        let bc : Below t (i + 1) c = subst (λ k. Below t k c) one (down i c pos (rw parent b)) in
        depth-Deepens fuel cfg t lower c (i + 1) e bc ltc (omega arith) in
    let d1 = set d n i in
    let (d', (ran, (settles, right))) =
      depth_children-Deepens cfg t (depth fuel (children_of cfg t)) (i + 1) n ok
        (children_of cfg t n) d1 (λ c. (children_of_iff cfg t n c).0) in
    let first : Settles t d d1 = λ x. elim (eq_cases x n) [
      | inl e ↦ inr (rw (set_here d n i x e) (rw e b))
      | inr e ↦ inl (set_other d n i x e)
    ] in
    let all : (x : ℕ) → x < cfg.size → Anc t n x → Below t (d' x) x = λ x ltx anc.
      elim (child_between t n x anc) [
        | inl e ↦ stays_right t d1 d' x settles (rw (set_here d n i x (sym e)) (rw (← e) b))
        | inr (c, (pos, (parent, anc'))) ↦
            let le = Anc-le t lower c x anc' in
            right c x ((children_of_iff cfg t n c).1 (pos, (omega arith, parent))) ltx anc'
      ] in
    (d', (ran, (Settles-trans t d d1 d' first settles, all)))

Anc_entry_of : (fuel : ℕ) (t : Tree) → Down t → (n : ℕ) → n < fuel → Anc t 0 n
Anc_entry_of zero t lower n lt = absurd (omega arith)
Anc_entry_of (suc fuel) t lower n lt = elim (eq_cases n 0) [
  | inl e ↦ rw e self
  | inr e ↦
      let less = lower n (omega arith) in
      up n (omega arith) (Anc_entry_of fuel t lower (t n) (omega arith))
]

-- The depths are right: on a graph in which every node but the entry has a predecessor of a smaller
-- index, the recursion over the children ends, and the depth of a node is the number of steps by
-- immediate dominators from the node to the entry.
pub depths-Below :
    (cfg : Cfg) (n : ℕ)
    → IsOrdered cfg
    → n < cfg.size
    → (t : Tree) × ((create cfg ≡ some t)
        × ((d : Depths) × ((depths cfg t ≡ some d) × Below t (d n) n)))
unfolding depths
depths-Below cfg n ordered lt =
    let (t, (made, (v, settled))) = create-Settled cfg ordered in
    let (d, (ran, (_, right))) =
      depth-Deepens cfg.size cfg t v.down 0 0 (λ x. 0) top (omega arith) (omega arith) in
    (t, (made, (d, (ran, right n lt (Anc_entry_of (suc n) t v.down n (omega arith))))))
