-- ===== src/Tests/Scoping.antt =====
-- Instances for scopes.cpp.
use thorin.Prelude.{if◌then◌else◌, ◌&&◌, not, arith, ◌≡◌, refl, some, [], ◌∷◌}
use thorin.Fe.Scopes.{
  named, Sym, Scope, push, pop, find_entry, same_str, is_anonymous, found, find, done, bind_at,
  bind,
}
use thorin.Fe.Scopes.Lookup.{find-bind}
use thorin.Fe.Scopes.Blocks.{Run, stop, binds, swaps, pop-push}

abbrev x : Sym
x = record { str = named 1; loc = 10 }

abbrev y : Sym
y = record { str = named 2; loc = 20 }

abbrev scope_x : Scope
scope_x = (x, 5) ∷ []

abbrev scope_y : Scope
scope_y = (y, 7) ∷ []

inner_bound : bind_at 1 (push (scope_x ∷ [])) y 7 ≡ done (scope_y ∷ scope_x ∷ [])
unfolding bind_at find_entry
inner_bound = refl

-- An outer scope, below one that is open.
outer_bound : bind_at 0 (push (scope_x ∷ [])) y 7 ≡ done ([] ∷ ((y, 7) ∷ scope_x) ∷ [])
unfolding bind_at find_entry
outer_bound = refl

innermost_bound : bind (push (scope_x ∷ [])) y 7 ≡ done (scope_y ∷ scope_x ∷ [])
unfolding bind find_entry
innermost_bound = refl

-- One symbol is bound in a block, and its scope is swapped.
abbrev inner_run : Run 1 (push (scope_x ∷ [])) (scope_x ∷ scope_x ∷ [])
inner_run = binds _ _ _ 1 y 7 (omega arith) inner_bound (
    swaps (scope_y ∷ scope_x ∷ []) (scope_x ∷ scope_x ∷ []) _ scope_x scope_y (omega arith) refl
      (stop _))

pop-push_example : pop (scope_x ∷ scope_x ∷ []) ≡ some (scope_x ∷ [])
pop-push_example = pop-push (scope_x ∷ []) (scope_x ∷ scope_x ∷ []) inner_run

find-bind_example : find (scope_y ∷ scope_x ∷ []) x ≡ (
    if same_str y.str x.str && not (is_anonymous y) then found 7 else find (push (scope_x ∷ [])) x)
find-bind_example = find-bind (push (scope_x ∷ [])) (scope_y ∷ scope_x ∷ []) y x 7 innermost_bound
