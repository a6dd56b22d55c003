-- ===== src/Fe/Scopes/Blocks.antt =====
-- Runs of the parser on the scopes: symbols are bound, in the innermost scope or through a pointer in
-- one further out, the innermost scope is swapped, and blocks are entered and left.
use thorin.Prelude.{
  ℕ, suc, ◌≤◌, ◌<◌, ◌≡◌, refl, sym, ap, ◌∙◌, arith, some, [], ◌∷◌, ◌==◌, leb, if◌then◌else◌, length,
  Bool-cases, Option-cases, inl, inr,
}
use thorin.Fe.Scopes.{
  Sym, Scope, Scopes, push, pop, find_entry, Bound, done, declared, no_scope, bind_scope, within,
  bind_at, swap, is_anonymous,
}

-- A run from one stack of scopes to another in which every `push` is closed by a `pop`. It binds in
-- scopes from the index `floor` on, and a swapped scope has such an index.
pub data Run (floor : ℕ) : Scopes → Scopes → Type 0 where
  stop : (s : Scopes) → Run floor s s
  binds :
      (s t u : Scopes) (k : ℕ) (symbol : Sym) (d : ℕ)
      → floor ≤ k
      → bind_at k s symbol d ≡ done t
      → Run floor t u
      → Run floor s u
  swaps :
      (s t u : Scopes) (other old : Scope)
      → floor < length s
      → swap other s ≡ some (t, old)
      → Run floor t u
      → Run floor s u
  block : (s t u v : Scopes) → Run floor (push s) t → pop t ≡ some u → Run floor u v → Run floor s v

-- The outermost scopes, `floor` of them, or all if there are fewer.
outer : ℕ → Scopes → Scopes
outer floor [] = []
outer floor (scope ∷ rest) =
    let further = outer floor rest in
    if leb (suc (length rest)) floor then scope ∷ rest else further

-- As many scopes, and the same ones outside.
record Same (floor : ℕ) (s t : Scopes) : Type 0 where
  levels : length t ≡ length s
  outside : outer floor t ≡ outer floor s

Same-refl : (floor : ℕ) (s : Scopes) → Same floor s s
Same-refl floor s = record { levels = refl; outside = refl }

Same-trans : (floor : ℕ) (s t u : Scopes) → Same floor s t → Same floor t u → Same floor s u
Same-trans floor s t u h k = record {
  levels = k.levels ∙ h.levels;
  outside = k.outside ∙ h.outside;
}

-- Another scope above the floor.
Same-inner :
    (floor : ℕ) (scope inner : Scope) (rest : Scopes)
    → floor ≤ length rest
    → Same floor (scope ∷ rest) (inner ∷ rest)
unfolding outer
Same-inner floor scope inner rest h = record { levels = refl; outside = ground arith }

Same-rest :
    (floor : ℕ) (scope : Scope) (s t : Scopes)
    → floor ≤ length s
    → Same floor s t
    → Same floor (scope ∷ s) (scope ∷ t)
unfolding outer
Same-rest floor scope s t h same = record {
  levels = ap suc same.levels;
  outside = ground (arith, same.levels, same.outside);
}

-- What `bind` makes of the stack: another scope in the place of the one bound in.
bind_scope_lem :
    (scope : Scope) (rest after : Scopes) (symbol : Sym) (d : ℕ)
    → bind_scope scope (λ inner. inner ∷ rest) symbol d ≡ done after
    → (inner : Scope) × (after ≡ inner ∷ rest)
bind_scope_lem scope rest after symbol d e = elim (Bool-cases (is_anonymous symbol)) [
  | inl a ↦ (scope, ground arith)
  | inr a ↦ elim (Option-cases (find_entry scope symbol.str)) [
    | inl fresh ↦ ((symbol, d) ∷ scope, ground arith)
    | inr old ↦ absurd (ground arith)
  ]
]

within_lem :
    (scope : Scope) (outer : Bound) (after : Scopes)
    → within scope outer ≡ done after
    → (t : Scopes) × (outer ≡ done t) × (after ≡ scope ∷ t)
within_lem scope (done t) after e = (t, refl, ground arith)
within_lem scope (declared loc) after e = absurd (ground arith)
within_lem scope no_scope after e = absurd (ground arith)

-- The scope bound in is one of the stack.
bind_at-lt :
    (k : ℕ) (s t : Scopes) (symbol : Sym) (d : ℕ) → bind_at k s symbol d ≡ done t → k < length s
unfolding bind_at
bind_at-lt k [] t symbol d e = absurd (ground arith)
bind_at-lt k (scope ∷ rest) t symbol d e = elim (Bool-cases (k == length rest)) [
  | inl here ↦ ground arith
  | inr further ↦
      let below = within_lem scope (bind_at k rest symbol d) t (ground arith) in
      let lt = bind_at-lt k rest below.0 symbol d below.1 in omega arith
]

bind_at-Same :
    (floor k : ℕ) (s t : Scopes) (symbol : Sym) (d : ℕ)
    → floor ≤ k
    → bind_at k s symbol d ≡ done t
    → Same floor s t
unfolding bind_at
bind_at-Same floor k [] t symbol d h e = absurd (ground arith)
bind_at-Same floor k (scope ∷ rest) t symbol d h e = elim (Bool-cases (k == length rest)) [
  | inl here ↦
      let inner = bind_scope_lem scope rest t symbol d (ground arith) in
      rw inner.1 (Same-inner floor scope inner.0 rest (ground arith))
  | inr further ↦
      let below = within_lem scope (bind_at k rest symbol d) t (ground arith) in
      let same = bind_at-Same floor k rest below.0 symbol d h below.1 in
      let lt = bind_at-lt k rest below.0 symbol d below.1 in
      rw below.2 (Same-rest floor scope rest below.0 (omega arith) same)
]

swap-Same :
    (floor : ℕ) (s t : Scopes) (other old : Scope)
    → floor < length s
    → swap other s ≡ some (t, old)
    → Same floor s t
swap-Same floor [] t other old h e = absurd (ground arith)
swap-Same floor (scope ∷ rest) t other old h e =
    let after : t ≡ other ∷ rest = ground arith in
    rw after (Same-inner floor scope other rest (omega arith))

pop-Same :
    (floor : ℕ) (s t u : Scopes)
    → floor ≤ length s
    → Same floor (push s) t
    → pop t ≡ some u
    → Same floor s u
unfolding outer
pop-Same floor s [] u h same e = absurd (ground arith)
pop-Same floor s (scope ∷ rest) u h same e =
    let after : u ≡ rest = ground arith in
    rw after (record {
      levels = omega (arith, same.levels);
      outside = ground (arith, same.levels, same.outside);
    })

-- A run from a stack with scopes enough keeps their number and those outside the floor.
Run-Same : (floor : ℕ) (s t : Scopes) → floor ≤ length s → Run floor s t → Same floor s t
Run-Same floor _ _ h (stop s) = Same-refl floor s
Run-Same floor _ _ h (binds s t u k symbol d le e r) =
    let first = bind_at-Same floor k s t symbol d le e in
    Same-trans floor s t u first (Run-Same floor t u (rw first.levels h) r)
Run-Same floor _ _ h (swaps s t u other old lt e r) =
    let first = swap-Same floor s t other old lt e in
    Same-trans floor s t u first (Run-Same floor t u (rw first.levels h) r)
Run-Same floor _ _ h (block s t u v r e later) =
    let first = pop-Same floor s t u h (Run-Same floor (push s) t (omega arith) r) e in
    Same-trans floor s u v first (Run-Same floor u v (rw first.levels h) later)

outer_all : (s : Scopes) → outer (length s) s ≡ s
unfolding outer
outer_all [] = refl
outer_all (scope ∷ rest) = ground arith

-- What remains outside a block is all that was there.
popped :
    (s t : Scopes)
    → length t ≡ suc (length s)
    → outer (length s) t ≡ outer (length s) (push s)
    → pop t ≡ some s
unfolding outer
popped s [] h k = absurd (ground arith)
popped s (scope ∷ rest) h k =
    let same : length rest ≡ length s = omega arith in
    let all : outer (length s) rest ≡ rest =
      ap (λ (n : ℕ). outer n rest) (sym same) ∙ outer_all rest in
    let inner : outer (length s) rest ≡ outer (length s) s = ground (arith, same) in
    ap some (sym all ∙ inner ∙ outer_all s)

-- Leaving a block in which nothing was bound in a scope outside it, and no scope outside it swapped,
-- restores the scopes that were there when it was entered, whatever was bound in the block's scope
-- and in those of the blocks within, and however often these scopes were swapped.
pub pop-push : (s t : Scopes) → Run (length s) (push s) t → pop t ≡ some s
pop-push s t r =
    let same = Run-Same (length s) (push s) t (omega arith) r in popped s t same.levels same.outside
