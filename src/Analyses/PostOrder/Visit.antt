-- ===== src/Analyses/PostOrder/Visit.antt =====
-- `post_order_visit` keeps the numbering, and ends.
use mathlib.Core.List.{Memᴰ}
use mathlib.Core.List.Memᴰ
use thorin.Prelude.{
  eq_cases, ℕ, zero, suc, ◌^◌, ◌<◌, ◌≤◌, ◌≡◌, ◌≢◌, ◌⊎◌, inl, inr, refl, sym, ap, ◌∙◌, arith, true,
  Option, some, List, [], ◌∷◌, Bool-cases,
}
use thorin.Analyses.PostOrder.{
  Graph, Mark, unseen, active, at, Marks, put, is_unseen, before, Visitor, visit_succs,
  post_order_visit,
}
use thorin.Analyses.PostOrder.Count.{count-one, count-some, count_mono}
use thorin.Analyses.PostOrder.Numbered.{unseen_count, Rooted, IsNumbered, enter-IsNumbered}
use thorin.Analyses.PostOrder.Cycles.{step, Above, enter-Above, put_here, put_other}
use thorin.Analyses.PostOrder.Leave.{RootedElsewhere, leave-IsNumbered}

-- Marks stay, except that a node that was unseen may have an index now.
abbrev pub Keeps : Marks → Marks → Type 0
Keeps m m' = (x : ℕ) → (m' x ≡ m x) ⊎ ((m x ≡ unseen) × ((k : ℕ) × (m' x ≡ at k)))

Keeps-trans : (a b c : Marks) → Keeps a b → Keeps b c → Keeps a c
Keeps-trans a b c h k x = elim (h x) [
  | inl e ↦ elim (k x) [ inl e' ↦ inl (e' ∙ e) | inr (u, rest) ↦ inr (sym e ∙ u, rest) ]
  | inr (u, (i, e)) ↦ elim (k x) [ inl e' ↦ inr (u, (i, e' ∙ e)) | inr (u', rest) ↦ inr (u, rest) ]
]

pub Keeps-seen : (m m' : Marks) (x : ℕ) → Keeps m m' → m x ≢ unseen → m' x ≡ m x
Keeps-seen m m' x h seen = elim (h x) [ inl e ↦ e | inr (u, _) ↦ absurd (seen u) ]

stays_seen : (m m' : Marks) (x : ℕ) → Keeps m m' → m x ≢ unseen → m' x ≢ unseen
stays_seen m m' x h seen z = seen (sym (Keeps-seen m m' x h seen) ∙ z)

Keeps-unseen_count : (g : Graph) (m m' : Marks) → Keeps m m' → unseen_count g m' ≤ unseen_count g m
Keeps-unseen_count g m m' h =
    count_mono (λ x. is_unseen (m x)) (λ x. is_unseen (m' x)) g.size
      (λ x e. elim (h x) [ inl same ↦ rw (← same) e | inr (u, _) ↦ rw u refl ])

Above-Keeps : (g : Graph) (m m' : Marks) (n : ℕ) → Keeps m m' → Above g m n → Above g m' n
Above-Keeps g m m' n keeps above a act = elim (keeps a) [
  | inl same ↦ above a (sym same ∙ act)
  | inr (_, (k, e)) ↦ cc
]

-- Successors of nodes are nodes, and their number fits in a `size_t`.
pub record IsClosed (g : Graph) : Type 0 where
  pub inside : (x s : ℕ) → x < g.size → Memᴰ s (g.succs x) → s < g.size
  pub small : g.size < 2 ^ 64

-- The result of a visit, with the node `n` numbered last.
abbrev pub Visited : Graph → Option (ℕ × Marks) → Marks → ℕ → Type 0
Visited g result m n =
    (j : ℕ) × ((m' : Marks) × ((result ≡ some (j, m'))
        × (IsNumbered g j m' × (Keeps m m' × (m' n ≡ at j)))))

-- A visitor is right where the number of unseen nodes is bounded.
abbrev pub Visits : Graph → ℕ → Visitor → Type 0
Visits g bound visit =
    (n i : ℕ) (m : Marks)
    → IsNumbered g i m
    → m n ≡ unseen
    → n < g.size
    → unseen_count g m ≤ bound
    → Rooted g m n
    → Above g m n
    → Visited g (visit n i m) m n

visit_succs-IsNumbered :
    (g : Graph) (bound : ℕ) (visit : Visitor)
    → Visits g bound visit
    → IsClosed g
    → (n : ℕ) → n < g.size
    → (ss : List ℕ) (i : ℕ) (m : Marks) → ((s : ℕ) → Memᴰ s ss → Memᴰ s (g.succs n))
    → m n ≡ active
    → Above g m n
    → IsNumbered g i m
    → unseen_count g m ≤ bound
    → (j : ℕ) × ((m' : Marks) × ((visit_succs visit ss i m ≡ some (j, m'))
          × (IsNumbered g j m' × (Keeps m m' × ((s : ℕ) → Memᴰ s ss → m' s ≢ unseen)))))
unfolding visit_succs
visit_succs-IsNumbered g bound visit ok closed n lt [] i m sub act above v enough =
    (i, (m, (refl, (v, ((λ x. inl refl), (λ s mem. absurd (Memᴰ.not-nil mem)))))))
visit_succs-IsNumbered g bound visit ok closed n lt (s ∷ ss) i m sub act above v enough =
    let sub' : (q : ℕ) → Memᴰ q ss → Memᴰ q (g.succs n) = λ q mem. sub q (Memᴰ.tail mem) in
    elim (Bool-cases (is_unseen (m s))) [
      | inl fresh ↦
          let mem = sub s (Memᴰ.head refl) in
          let un = unseen_of (m s) fresh in
          let (j, (m', (ran, (v', (keeps, ats))))) =
            ok s i m v un (closed.inside n s lt mem) enough (inr (n, (mem, act)))
              (λ a e. step n s (above a e) mem) in
          let less = Keeps-unseen_count g m m' keeps in
          let act' : m' n ≡ active = Keeps-seen m m' n keeps (λ z. cc) ∙ act in
          let (l, (m'', (ran', (v'', (keeps', seen))))) =
            visit_succs-IsNumbered g bound visit ok closed n lt ss j m' sub' act'
              (Above-Keeps g m m' n keeps above) v' (omega arith) in
          let all : (q : ℕ) → Memᴰ q (s ∷ ss) → m'' q ≢ unseen = λ q k. elim (Memᴰ.cases_cons k) [
            | inl e ↦ rw e (stays_seen m' m'' s keeps' (λ z. cc))
            | inr k' ↦ seen q k'
          ] in
          (
            l,
            (
              m'',
              (
                rw (visit_succs, fresh) (rw ran ran'),
                (v'', (Keeps-trans m m' m'' keeps keeps', all)),
              ),
            ),
          )
      | inr known ↦
          let (l, (m'', (ran', (v'', (keeps', seen))))) =
            visit_succs-IsNumbered g bound visit ok closed n lt ss i m sub' act above v enough in
          let all : (q : ℕ) → Memᴰ q (s ∷ ss) → m'' q ≢ unseen = λ q k. elim (Memᴰ.cases_cons k) [
            | inl e ↦ rw e (stays_seen m m'' s keeps' (λ z. (let no = ap is_unseen z in cc)))
            | inr k' ↦ seen q k'
          ] in
          (l, (m'', (rw (visit_succs, known) ran', (v'', (keeps', all)))))
    ]
  where
    unseen_of : (a : Mark) → is_unseen a ≡ true → a ≡ unseen
    unseen_of unseen h = refl
    unseen_of active h = cc
    unseen_of (at k) h = cc

pub post_order_visit-Visits :
    (fuel : ℕ) (g : Graph) → IsClosed g → Visits g fuel (post_order_visit fuel g)
unfolding post_order_visit
post_order_visit-Visits zero g closed n i m v fresh lt enough root above =
    let some_left = count-some (λ x. is_unseen (m x)) n g.size lt (rw fresh refl) in
    absurd (omega arith)
post_order_visit-Visits (suc fuel) g closed n i m v fresh lt enough root above =
    let m1 = put m n active in
    let v1 = enter-IsNumbered g i n m v fresh in
    let act1 : m1 n ≡ active = put_here m n active n refl in
    let above1 : Above g m1 n = enter-Above g m n above in
    let fewer =
      count-one (λ x. is_unseen (m x)) (λ x. is_unseen (m1 x)) n g.size lt (rw fresh refl)
        (rw act1 refl) (λ x e. rw (put_other m n active x e) refl) in
    let (j, (m2, (ran, (v2, (keeps, seen))))) =
      visit_succs-IsNumbered g fuel (post_order_visit fuel g)
        (post_order_visit-Visits fuel g closed) closed n lt (g.succs n) i m1 (λ s mem. mem) act1
        above1 v1 (omega arith) in
    let act2 : m2 n ≡ active = Keeps-seen m1 m2 n keeps (λ z. cc) ∙ act1 in
    let root2 : RootedElsewhere g m2 n = elim root [
      | inl entry ↦ inl entry
      | inr (p, (mem, act)) ↦
          let other : p ≢ n = λ z. (let same = ap m z in cc) in
          let actp : m1 p ≡ active = put_other m n active p other ∙ act in
          inr (p, (mem, (Keeps-seen m1 m2 p keeps (λ z. cc) ∙ actp, other)))
    ] in
    let m3 = put m2 n (at (before j)) in
    let keeps3 : Keeps m m3 = λ x. elim (eq_cases x n) [
      | inl e ↦ inr (ap m e ∙ fresh, (before j, put_here m2 n (at (before j)) x e))
      | inr e ↦
          let last = put_other m2 n (at (before j)) x e in
          let firsts = put_other m n active x e in
          elim (keeps x) [
            | inl same ↦ inl (last ∙ same ∙ firsts)
            | inr (u, (k, ik)) ↦ inr (sym firsts ∙ u, (k, last ∙ ik))
          ]
    ] in
    (
      before j,
      (
        m3,
        (
          rw (post_order_visit, ran) refl,
          (
            leave-IsNumbered g j n m2 v2 closed.small lt act2 root2
                (Above-Keeps g m1 m2 n keeps above1) seen,
            (keeps3, put_here m2 n (at (before j)) n refl),
          ),
        ),
      ),
    )
