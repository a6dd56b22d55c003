-- ===== src/Analyses/DomTree/Pass.antt =====
-- One round of the loop of `create`, and the rounds until nothing changes.
use mathlib.Core.Path.{subst, fun_ext}
use thorin.Prelude.{
  eq_cases, ℕ, zero, suc, ◌+◌, ◌-◌, ◌<◌, ◌≤◌, ◌≡◌, inl, inr, refl, sym, ◌∙◌, ap, arith, true, false,
  some, Bool-cases, ◌==◌, ==_iff, eqb-false_iff,
}
use thorin.Analyses.DomTree.{Cfg, Tree, Round, set, visit, pass_from, settle}
use thorin.Analyses.DomTree.Ancestors.{Anc-le, set_here, set_other}
use thorin.Analyses.DomTree.Meet.{IsMeet, meet-IsMeet}
use thorin.Analyses.DomTree.Dominance.{IsOrdered}
use thorin.Analyses.DomTree.Valid.{IsValid, set-IsValid, total, total-set}

-- The immediate dominator of `m` is the least common ancestor of the predecessors.
abbrev pub Settled : Cfg → Tree → ℕ → Type 0
Settled cfg t m = IsMeet t (cfg.preds m) (t m)

-- What a part of a round comes to: nothing changes and the nodes that it visits are settled, or `todo` is
-- set and the sum is lower.
pub data Progress (cfg : Cfg) (n end : ℕ) (r r' : Round) : Type 0 where
  same : r' ≡ r → ((m : ℕ) → n ≤ m → m < end → Settled cfg r.idoms m) → Progress cfg n end r r'
  lower :
      r'.todo ≡ true
      → total r'.idoms (cfg.size - 1) < total r.idoms (cfg.size - 1)
      → Progress cfg n end r r'

set-same : (t : Tree) (n : ℕ) → set t n (t n) ≡ t
set-same t n = fun_ext (λ m. elim (eq_cases m n) [
  | inl e ↦ set_here t n (t n) m e ∙ ap t (sym e)
  | inr e ↦ set_other t n (t n) m e
])

visit-Progress :
    (cfg : Cfg) (n : ℕ) (r : Round)
    → IsOrdered cfg
    → IsValid cfg n r.idoms
    → 0 < n
    → n < cfg.size
    → (r' : Round) × ((visit cfg n r ≡ some r')
        × (IsValid cfg (n + 1) r'.idoms × Progress cfg n (n + 1) r r'))
unfolding visit
visit-Progress cfg n r ordered v pos lt =
    let t = r.idoms in
    let (p, (mem, ltp)) = ordered.lower n pos lt in
    let (d, (eq, met)) = meet-IsMeet t v.down p (cfg.preds n) mem in
    let next = set-IsValid cfg t n d ordered v pos lt met in
    elim (Bool-cases (t n == d)) [
      | inl e ↦
          let td = (==_iff (t n) d).0 e in
          let unchanged : set t n d ≡ t = ap (set t n) (sym td) ∙ set-same t n in
          let settled : (m : ℕ) → n ≤ m → m < n + 1 → Settled cfg t m =
            λ m le less. let mn : n ≡ m = omega arith in subst (Settled cfg t) mn (rw td met) in
          let ran : visit cfg n r ≡ some r = rw (visit, eq) (rw e refl) in
          (r, (ran, (subst (IsValid cfg (n + 1)) unchanged next, same refl settled)))
      | inr e ↦
          let sums = total-set t n d (cfg.size - 1) pos (omega arith) in
          let le = Anc-le t v.down d (t n) (v.shrinks n d pos lt met.below) in
          let apart = (eqb-false_iff (t n) d).0 e in
          let less : d < t n = omega arith in
          let r' : Round = record { todo = true; idoms = set t n d } in
          let ran : visit cfg n r ≡ some r' = rw (visit, eq) (rw e refl) in
          (r', (ran, (next, lower refl (omega arith))))
    ]

Progress-next :
    (cfg : Cfg) (n end : ℕ) (r s s' : Round)
    → Progress cfg n (n + 1) r s
    → Progress cfg (n + 1) end s s'
    → Progress cfg n end r s'
Progress-next cfg n end r s s' (same e settled) (same e' settled') = same (e' ∙ e) (λ m le lt.
    elim (eq_cases m n) [
      | inl mn ↦ settled m le (omega arith)
      | inr mn ↦ subst (λ (q : Round). Settled cfg q.idoms m) e (settled' m (omega arith) lt)
    ])
Progress-next cfg n end r s s' (same e settled) (lower todo less) =
    lower todo
      (subst (λ (q : Round). total s'.idoms (cfg.size - 1) < total q.idoms (cfg.size - 1)) e less)
Progress-next cfg n end r s s' (lower todo less) (same e settled) =
    lower (ap (λ (q : Round). q.todo) e ∙ todo) (
      subst (λ (q : Round). total q.idoms (cfg.size - 1) < total r.idoms (cfg.size - 1)) (sym e)
        less)
Progress-next cfg n end r s s' (lower todo less) (lower todo' less') = lower todo' (omega arith)

pass_from-Progress :
    (cfg : Cfg) (left n : ℕ) (r : Round)
    → IsOrdered cfg
    → IsValid cfg n r.idoms
    → 0 < n
    → left ≤ cfg.size - n
    → (r' : Round) × ((pass_from cfg left n r ≡ some r')
        × (IsValid cfg (n + left) r'.idoms × Progress cfg n (n + left) r r'))
unfolding pass_from
pass_from-Progress cfg zero n r ordered v pos le =
    let end : n ≡ n + 0 = omega arith in
    (
      r,
      (
        refl,
        (subst (λ k. IsValid cfg k r.idoms) end v, same refl (λ m more less. absurd (omega arith))),
      ),
    )
pass_from-Progress cfg (suc left) n r ordered v pos le =
    let (s, (first, (vs, step))) = visit-Progress cfg n r ordered v pos (omega arith) in
    let (s', (others, (vs', steps))) =
      pass_from-Progress cfg left (n + 1) s ordered vs (omega arith) (omega arith) in
    let count : (n + 1) + left ≡ n + suc left = omega arith in
    (
      s',
      (
        rw (pass_from, first) others,
        (
          subst (λ k. IsValid cfg k s'.idoms) count vs',
          Progress-next cfg n (n + suc left) r s s' step
              (subst (λ k. Progress cfg (n + 1) k s s') count steps),
        ),
      ),
    )

restart : (cfg : Cfg) (n : ℕ) (t : Tree) → cfg.size ≤ n → IsValid cfg n t → IsValid cfg 1 t
restart cfg n t le v = record {
  down = v.down;
  follows = v.follows;
  bounded = v.bounded;
  shrinks = v.shrinks;
  linked = λ m pos lt side. v.linked m pos lt (inl (omega arith));
}

pub settle-Settled :
    (fuel : ℕ) (cfg : Cfg) (t : Tree)
    → IsOrdered cfg
    → IsValid cfg 1 t
    → total t (cfg.size - 1) < fuel
    → (t' : Tree) × ((settle fuel cfg t ≡ some t')
        × (IsValid cfg 1 t' × ((m : ℕ) → 0 < m → m < cfg.size → Settled cfg t' m)))
unfolding settle
settle-Settled zero cfg t ordered v enough = absurd (omega arith)
settle-Settled (suc fuel) cfg t ordered v enough =
    let k = cfg.size - 1 in
    let r : Round = record { todo = false; idoms = t } in
    let (r', (ran, (v', went))) =
      pass_from-Progress cfg k 1 r ordered v (omega arith) (omega arith) in
    let again = restart cfg (1 + k) r'.idoms (omega arith) v' in
    elim went [
      | same e settled ↦
          let quiet : r'.todo ≡ false = ap (λ (q : Round). q.todo) e in
          let tree : r'.idoms ≡ t = ap (λ (q : Round). q.idoms) e in
          let done : settle (suc fuel) cfg t ≡ some r'.idoms = rw (settle, ran) (rw quiet refl) in
          (
            r'.idoms,
            (
              done,
              (
                again,
                λ m pos lt. subst (λ q. Settled cfg q m) (sym tree) (settled m pos (omega arith)),
              ),
            ),
          )
      | lower todo less ↦
          let (t', (rest, others)) = settle-Settled fuel cfg r'.idoms ordered again (omega arith) in
          let done : settle (suc fuel) cfg t ≡ some t' = rw (settle, ran) (rw todo rest) in
          (t', (done, others))
    ]
