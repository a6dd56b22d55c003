-- ===== src/Analyses/Frontier/Climb.antt =====
-- The nodes that one predecessor is linked for.
use mathlib.Core.List.{Memᴰ}
use mathlib.Core.List.Memᴰ
use mathlib.Core.Path.{subst}
use thorin.Prelude.{
  ℕ, zero, suc, ◌<◌, ◌≤◌, ◌≡◌, ◌≢◌, ◌↔◌, inl, inr, refl, sym, ap, arith, some, List, [], ◌∷◌, ◌++◌,
  ◌==◌, ==_iff, eqb-false_iff, Bool-cases,
}
use thorin.Analyses.DomTree.{Tree}
use thorin.Analyses.DomTree.Ancestors.{Anc, self, up, Down, Anc-le, Anc-cases}
use thorin.Analyses.Frontier.{Links, climb_links, preds_links}

-- `a` stands above `b`, but not above `c`.
abbrev pub Between : Tree → ℕ → ℕ → ℕ → Type 0
Between t a b c = Anc t a b × (Anc t a c → ⊥)

-- The links are those of `n` from the nodes of a predicate.
abbrev pub Lists : Links → (ℕ → ℕ → Type 0) → Type 0
Lists ls P = (a m : ℕ) → Memᴰ (a, m) ls ↔ P a m

stop_links : (t : Tree) (idom n i : ℕ) → i ≡ idom → Lists [] (λ a m. (m ≡ n) × Between t a i idom)
stop_links t idom n i e a m = (
  (λ mem. absurd (Memᴰ.not-nil mem)),
  (λ (_, (above, below)). absurd (below (subst (Anc t a) e above))),
)

step_links :
    (t : Tree)
    → Down t
    → (idom n i : ℕ) (ls : Links) → Anc t idom i
    → i ≢ idom
    → 0 < i
    → Anc t idom (t i)
    → Lists ls (λ a m. (m ≡ n) × Between t a (t i) idom)
    → Lists ((i, n) ∷ ls) (λ a m. (m ≡ n) × Between t a i idom)
step_links t down idom n i ls h e pos h' rest a m =
    let forth : Memᴰ (a, m) ((i, n) ∷ ls) → (m ≡ n) × Between t a i idom = λ mem.
      elim (Memᴰ.cases_cons mem) [
        | inl here ↦
            let ai : a ≡ i = ap (λ (q : ℕ × ℕ). q.0) here in
            let lower = down i pos in
            let le = Anc-le t down idom (t i) h' in
            (
              ap (λ (q : ℕ × ℕ). q.1) here,
              (rw ai self, λ k. let high = Anc-le t down a idom k in omega arith),
            )
        | inr there ↦ let (mn, (above, below)) = (rest a m).0 there in (mn, (up i pos above, below))
      ] in
    let back : (m ≡ n) × Between t a i idom → Memᴰ (a, m) ((i, n) ∷ ls) = λ (mn, (above, below)).
      elim (Anc-cases t a i above) [
        | inl ai ↦ Memᴰ.head (rw ai (rw mn refl))
        | inr (_, above') ↦ Memᴰ.tail ((rest a m).1 (mn, (above', below)))
      ] in
    (forth, back)

pub climb_links-Between :
    (fuel : ℕ) (t : Tree)
    → Down t
    → (idom n i : ℕ) → i ≤ fuel
    → Anc t idom i
    → (ls : Links) × ((climb_links fuel t idom n i ≡ some ls)
        × Lists ls (λ a m. (m ≡ n) × Between t a i idom))
unfolding climb_links
climb_links-Between zero t down idom n i enough h =
    let le = Anc-le t down idom i h in
    let e : i ≡ idom = omega arith in ([], (rw ((==_iff i idom).1 e) refl, stop_links t idom n i e))
climb_links-Between (suc fuel) t down idom n i enough h = elim (Bool-cases (i == idom)) [
  | inl e ↦ ([], (rw e refl, stop_links t idom n i ((==_iff i idom).0 e)))
  | inr e ↦ elim (Anc-cases t idom i h) [
    | inl same ↦ absurd ((eqb-false_iff i idom).0 e (sym same))
    | inr (pos, h') ↦
        let lower = down i pos in
        let (ls, (ran, rest)) = climb_links-Between fuel t down idom n (t i) (omega arith) h' in
        (
          (i, n) ∷ ls,
          (
            rw e (rw (climb_links, ran) refl),
            step_links t down idom n i ls h ((eqb-false_iff i idom).0 e) pos h' rest,
          ),
        )
  ]
]

-- The links of all predecessors.
abbrev pub FromPreds : Tree → ℕ → List ℕ → ℕ → ℕ → Type 0
FromPreds t n ps a m = (m ≡ n) × ((p : ℕ) × (Memᴰ p ps × Between t a p (t n)))

append_links :
    (t : Tree) (n p : ℕ) (ps : List ℕ) (ls ms : Links)
    → Lists ls (λ a m. (m ≡ n) × Between t a p (t n))
    → Lists ms (FromPreds t n ps)
    → Lists (ls ++ ms) (FromPreds t n (p ∷ ps))
append_links t n p ps ls ms first others a m =
    let forth : Memᴰ (a, m) (ls ++ ms) → FromPreds t n (p ∷ ps) a m = λ mem.
      elim (Memᴰ.append_cases ls mem) [
        | inl l ↦ (let (mn, b) = (first a m).0 l in (mn, (p, (Memᴰ.head refl, b))))
        | inr r ↦ (let (mn, (q, (mq, b))) = (others a m).0 r in (mn, (q, (Memᴰ.tail mq, b))))
      ] in
    let back : FromPreds t n (p ∷ ps) a m → Memᴰ (a, m) (ls ++ ms) = λ (mn, (q, (mq, b))).
      elim (Memᴰ.cases_cons mq) [
        | inl e ↦ Memᴰ.append_left ms ((first a m).1 (mn, subst (λ r. Between t a r (t n)) e b))
        | inr mq' ↦ Memᴰ.append_right ls ((others a m).1 (mn, (q, (mq', b))))
      ] in
    (forth, back)

pub preds_links-FromPreds :
    (t : Tree) (n : ℕ) (ps : List ℕ)
    → Down t
    → ((p : ℕ) → Memᴰ p ps → Anc t (t n) p)
    → (ls : Links) × ((preds_links t n ps ≡ some ls) × Lists ls (FromPreds t n ps))
unfolding preds_links
preds_links-FromPreds t n [] down below = (
  [],
  (
    refl,
    λ a m. ((λ mem. absurd (Memᴰ.not-nil mem)), (λ (mn, (q, (mq, b))). absurd (Memᴰ.not-nil mq))),
  ),
)
preds_links-FromPreds t n (p ∷ ps) down below =
    let (ls, (ran, first)) =
      climb_links-Between p t down (t n) n p (omega arith) (below p (Memᴰ.head refl)) in
    let (ms, (ran', others)) = preds_links-FromPreds t n ps down (λ q mq. below q (Memᴰ.tail mq)) in
    (ls ++ ms, (rw (preds_links, ran) (rw ran' refl), append_links t n p ps ls ms first others))
