-- ===== src/Analyses/DomTree/Valid.antt =====
-- The invariant of the loops of `create`, and the number that every change lowers.
use thorin.Prelude.{eq_cases, ℕ, zero, suc, ◌+◌, ◌*◌, ◌<◌, ◌≤◌, ◌≡◌, inl, inr, refl, ap, arith}
use thorin.Analyses.DomTree.{Cfg, Tree, set}
use thorin.Analyses.DomTree.Ancestors.{Down, Anc-le, set_here, set_other}
use thorin.Analyses.DomTree.Meet.{IsMeet}
use thorin.Analyses.DomTree.Dominance.{
  IsOrdered, Follows, Bounded, set-Down, set-Follows, set-Bounded,
}
use thorin.Analyses.DomTree.Update.{Shrinks, Linked, set-Shrinks, set-Linked}

pub record IsValid (cfg : Cfg) (n : ℕ) (t : Tree) : Type 0 where
  pub down : Down t
  pub follows : Follows cfg t
  pub bounded : Bounded cfg t
  pub shrinks : Shrinks cfg t
  pub linked : Linked cfg n t

pub set-IsValid :
    (cfg : Cfg) (t : Tree) (n d : ℕ)
    → IsOrdered cfg
    → IsValid cfg n t
    → 0 < n
    → n < cfg.size
    → IsMeet t (cfg.preds n) d
    → IsValid cfg (n + 1) (set t n d)
set-IsValid cfg t n d ordered v pos lt met =
    let (p, (mem, ltp)) = ordered.lower n pos lt in
    let dp = Anc-le t v.down d p (met.below p mem) in
    let dn : d < n = omega arith in
    record {
      down = set-Down t n d v.down dn;
      follows = set-Follows cfg t ordered v.down v.follows n d p lt mem (met.below p mem) dn;
      bounded = set-Bounded cfg t ordered v.down v.follows v.bounded n d lt met;
      shrinks = set-Shrinks cfg t v.down v.shrinks n d pos lt v.linked met dn;
      linked = set-Linked cfg t ordered v.down n d v.linked met;
    }

-- The sum of the immediate dominators of the first nodes after the entry.
unfoldable pub total : Tree → ℕ → ℕ
total t zero = 0
total t (suc k) = total t k + t (suc k)

total-set_beyond : (t : Tree) (n d k : ℕ) → k < n → total (set t n d) k ≡ total t k
unfolding total
total-set_beyond t n d zero lt = refl
total-set_beyond t n d (suc k) lt =
    rw (total-set_beyond t n d k (omega arith))
      (rw (set_other t n d (suc k) (λ (e : suc k ≡ n). omega arith)) refl)

pub total-set : (t : Tree) (n d k : ℕ) → 0 < n → n ≤ k → total (set t n d) k + t n ≡ total t k + d
unfolding total
total-set t n d zero pos le = absurd (omega arith)
total-set t n d (suc k) pos le = elim (eq_cases (suc k) n) [
  | inl e ↦
      let before = total-set_beyond t n d k (omega arith) in
      let here = set_here t n d (suc k) e in let same : t (suc k) ≡ t n = ap t e in omega arith
  | inr e ↦
      let before = total-set t n d k pos (omega arith) in
      let other = set_other t n d (suc k) e in omega arith
]

pub total-bound : (t : Tree) → Down t → (k : ℕ) → total t k ≤ k * k
unfolding total
total-bound t down zero = omega arith
total-bound t down (suc k) =
    let before = total-bound t down k in let lower = down (suc k) (omega arith) in omega arith
