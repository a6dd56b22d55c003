-- ===== src/Analyses/DomTree/Ancestors.antt =====
-- The ancestors of a node in the tree, itself included.
use mathlib.Core.Path.{subst}
use thorin.Prelude.{eq_cases, ℕ, ◌<◌, ◌≤◌, ◌≡◌, ◌≢◌, ◌⊎◌, inl, inr, arith, refl}
use thorin.Analyses.DomTree.{Tree, set}

pub set_here : (t : Tree) (n d b : ℕ) → b ≡ n → set t n d b ≡ d
unfolding set
set_here t n d b e = ground arith

pub set_other : (t : Tree) (n d b : ℕ) → b ≢ n → set t n d b ≡ t b
unfolding set
set_other t n d b e = ground arith

-- `a` is reached from the node by immediate dominators. The entry has none.
pub data Anc (t : Tree) (a : ℕ) : ℕ → Type 0 where
  self : Anc t a a
  up : (b : ℕ) → 0 < b → Anc t a (t b) → Anc t a b

-- The immediate dominator of a node other than the entry has a smaller index.
abbrev pub Down : Tree → Type 0
Down t = (n : ℕ) → 0 < n → t n < n

pub Anc-le : (t : Tree) → Down t → (a b : ℕ) → Anc t a b → a ≤ b
Anc-le t down a _ self = omega arith
Anc-le t down a _ (up b pos h) =
    let below = Anc-le t down a (t b) h in let lower = down b pos in omega arith

pub Anc-trans : (t : Tree) (a b c : ℕ) → Anc t a b → Anc t b c → Anc t a c
Anc-trans t a b _ h self = h
Anc-trans t a b _ h (up c pos k) = up c pos (Anc-trans t a b (t c) h k)

pub Anc-cases : (t : Tree) (a b : ℕ) → Anc t a b → (a ≡ b) ⊎ ((0 < b) × Anc t a (t b))
Anc-cases t a _ self = inl refl
Anc-cases t a _ (up b pos h) = inr (pos, h)

-- The entry has no other ancestor.
pub Anc-entry : (t : Tree) (a : ℕ) → Anc t a 0 → a ≡ 0
Anc-entry t a h = elim (Anc-cases t a 0 h) [ inl e ↦ e | inr (pos, _) ↦ absurd (omega arith) ]

-- The ancestors of a node form a chain.
pub Anc-chain : (t : Tree) → Down t → (a b c : ℕ) → Anc t a c → Anc t b c → a ≤ b → Anc t a b
Anc-chain t down a b _ h self le = h
Anc-chain t down a b _ h (up c pos k) le = elim (Anc-cases t a c h) [
  | inl e ↦ let below = Anc-le t down b (t c) k in let lower = down c pos in absurd (omega arith)
  | inr (_, h') ↦ Anc-chain t down a b (t c) h' k le
]

-- With another immediate dominator for `n`, which is one of its ancestors, ancestors are ancestors as
-- before.
pub Anc_of_set : (t : Tree) (n d a b : ℕ) → Anc t d (t n) → Anc (set t n d) a b → Anc t a b
Anc_of_set t n d a _ h self = self
Anc_of_set t n d a _ h (up b pos k) = elim (eq_cases b n) [
  | inl e ↦
      let above : Anc t a d =
        subst (Anc t a) (set_here t n d b e) (Anc_of_set t n d a (set t n d b) h k) in
      up b pos (rw e (Anc-trans t a d (t n) above h))
  | inr e ↦ up b pos (subst (Anc t a) (set_other t n d b e) (Anc_of_set t n d a (set t n d b) h k))
]

-- An ancestor stays where it is not below `n`.
pub Anc-set_above : (t : Tree) → Down t → (n d a b : ℕ) → n ≤ a → Anc t a b → Anc (set t n d) a b
Anc-set_above t down n d a _ le self = self
Anc-set_above t down n d a _ le (up b pos k) =
    let below = Anc-le t down a (t b) k in
    let lower = down b pos in
    let other : set t n d b ≡ t b = set_other t n d b (λ (e : b ≡ n). omega arith) in
    up b pos (rw other (Anc-set_above t down n d a (t b) le k))

-- It stays as well unless `n` is between.
pub Anc-set : (t : Tree) (n d a b : ℕ) → Anc t a b → Anc (set t n d) a b ⊎ Anc t n b
Anc-set t n d a _ self = inl self
Anc-set t n d a _ (up b pos k) = elim (eq_cases b n) [
  | inl e ↦ inr (rw e self)
  | inr e ↦ elim (Anc-set t n d a (t b) k) [
    | inl h ↦ inl (up b pos (rw (set_other t n d b e) h))
    | inr h ↦ inr (up b pos h)
  ]
]
