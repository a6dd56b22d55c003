-- ===== src/Analyses/Depth/Children.antt =====
-- The children of a node are the nodes whose immediate dominator it is.
use mathlib.Core.List.{Memᴰ}
use mathlib.Core.List.Memᴰ
use mathlib.Core.Path.{subst}
use thorin.Prelude.{
  eq_cases, ℕ, zero, suc, ◌+◌, ◌-◌, ◌<◌, ◌≤◌, ◌≡◌, ◌≢◌, ◌↔◌, inl, inr, sym, ap, ◌∙◌, arith, [], ◌∷◌,
  ◌++◌,
}
use thorin.Analyses.DomTree.{Cfg, Tree}
use thorin.Analyses.Depth.{Children, push_back, children_from, children_of}

push_back_here : (ch : Children) (p n q : ℕ) → q ≡ p → push_back ch p n q ≡ ch q ++ (n ∷ [])
unfolding push_back
push_back_here ch p n q e = ground arith

push_back_other : (ch : Children) (p n q : ℕ) → q ≢ p → push_back ch p n q ≡ ch q
unfolding push_back
push_back_other ch p n q e = ground arith

-- The children that are from `low` on and before `high` are entered.
abbrev Entered : Tree → ℕ → ℕ → Children → Type 0
Entered t low high ch = (p x : ℕ) → Memᴰ x (ch p) ↔ ((low ≤ x) × ((x < high) × (t x ≡ p)))

push_back-Entered :
    (t : Tree) (n : ℕ) (ch : Children)
    → 0 < n
    → Entered t 1 n ch
    → Entered t 1 (n + 1) (push_back ch (t n) n)
push_back-Entered t n ch pos h p x = elim (eq_cases p (t n)) [
  | inl e ↦ rw (push_back_here ch (t n) n p e) (
    (λ mem. elim (Memᴰ.append_cases (ch p) mem) [
      | inl old ↦ (let (low, (high, parent)) = (h p x).0 old in (low, (omega arith, parent)))
      | inr new ↦ let xn = Memᴰ.eq_of_singleton new in (omega arith, (omega arith, ap t xn ∙ sym e))
    ]),
    (λ (low, (high, parent)). elim (eq_cases x n) [
      | inl xn ↦ Memᴰ.append_right (ch p) (Memᴰ.head xn)
      | inr other ↦ Memᴰ.append_left (n ∷ []) ((h p x).1 (low, (omega arith, parent)))
    ]),
  )
  | inr e ↦ rw (push_back_other ch (t n) n p e) (
    (λ mem. (let (low, (high, parent)) = (h p x).0 mem in (low, (omega arith, parent)))),
    (λ (low, (high, parent)).
        let other : x ≢ n = λ xn. e (sym parent ∙ ap t xn) in
        (h p x).1 (low, (omega arith, parent))),
  )
]

children_from-Entered :
    (t : Tree) (left n : ℕ) (ch : Children)
    → 0 < n
    → Entered t 1 n ch
    → Entered t 1 (n + left) (children_from t left n ch)
unfolding children_from
children_from-Entered t zero n ch pos h =
    let end : n ≡ n + 0 = omega arith in subst (λ k. Entered t 1 k ch) end h
children_from-Entered t (suc left) n ch pos h =
    let end : (n + 1) + left ≡ n + suc left = omega arith in
    subst (λ k. Entered t 1 k (children_from t left (n + 1) (push_back ch (t n) n))) end
      (children_from-Entered t left (n + 1) (push_back ch (t n) n) (omega arith)
        (push_back-Entered t n ch pos h))

pub children_of_iff :
    (cfg : Cfg) (t : Tree) (p x : ℕ)
    → Memᴰ x (children_of cfg t p) ↔ ((0 < x) × ((x < cfg.size) × (t x ≡ p)))
unfolding children_of
children_of_iff cfg t p x =
    let none_yet : Entered t 1 1 (λ n. []) =
      λ q y. ((λ mem. absurd (Memᴰ.not-nil mem)), (λ (low, (high, _)). absurd (omega arith))) in
    let all = children_from-Entered t (cfg.size - 1) 1 (λ n. []) (omega arith) none_yet p x in
    (
      (λ mem. (let (low, (high, parent)) = all.0 mem in (low, (omega arith, parent)))),
      (λ (low, (high, parent)). all.1 (low, (omega arith, parent))),
    )
