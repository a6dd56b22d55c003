-- ===== src/Fe/Scopes/Lookup.antt =====
-- What a lookup finds after `bind` and after `merge`.
use thorin.Prelude.{
  ℕ, ◌≡◌, ◌↔◌, refl, arith, true, false, not, ◌&&◌, none, some, [], ◌∷◌, if◌then◌else◌, length,
  Option-cases, inl, inr,
}
use thorin.Fe.Scopes.{
  Str, underscore, named, Sym, same_str, is_anonymous, Scope, Scopes, find_entry, found, search,
  find, done, declared, bind_at, bind, merge_entries,
}

pub same_str_iff : (s t : Str) → (same_str s t ≡ true) ↔ (s ≡ t)
same_str_iff underscore underscore = (λ e. refl, λ e. refl)
same_str_iff underscore (named n) = (λ e. absurd (ground arith), λ e. absurd (ground arith))
same_str_iff (named m) underscore = (λ e. absurd (ground arith), λ e. absurd (ground arith))
same_str_iff (named m) (named n) = (λ e. ground arith, λ e. ground arith)

-- After a `bind` without error a lookup yields the definition for every symbol with the same string,
-- and for all others, the anonymous one included, what it yielded before.
pub find-bind :
    (scopes after : Scopes) (sym other : Sym) (d : ℕ)
    → bind scopes sym d ≡ done after
    → find after other ≡ (
        if same_str sym.str other.str && not (is_anonymous sym) then found d else find scopes other)
unfolding bind find search find_entry
find-bind [] after sym other d h = ground arith
find-bind (scope ∷ rest) after sym other d h = ground (
  arith,
  same_str_iff sym.str other.str,
  same_str_iff sym.str underscore,
  same_str_iff other.str underscore,
)

-- `bind` refuses exactly the symbols that are not anonymous and stand in the innermost scope.
pub bind-declared_iff :
    (scope : Scope) (rest : Scopes) (sym : Sym) (d : ℕ)
    → ((loc : ℕ) × (bind (scope ∷ rest) sym d ≡ declared loc))
      ↔ ((is_anonymous sym ≡ false) × (entry : Sym × ℕ) × (find_entry scope sym.str ≡ some entry))
unfolding bind
bind-declared_iff scope rest sym d = (
  λ h. elim (Option-cases (find_entry scope sym.str)) [
    | inl fresh ↦ absurd (ground (arith, h.1))
    | inr old ↦ (ground (arith, h.1), old.0, old.1)
  ],
  λ h. (h.1.0.loc, ground arith),
)

-- A lookup in merged scopes yields what the first scope holds, and else what the second does.
pub find_entry-merge_entries :
    (scope other : Scope) (str : Str)
    → find_entry (merge_entries scope other) str
      ≡ elim (find_entry scope str) [ none ↦ find_entry other str | some entry ↦ some entry ]
unfolding find_entry merge_entries
find_entry-merge_entries scope [] str = ground (arith, Option-cases (find_entry scope str))
find_entry-merge_entries scope ((sym, d) ∷ other) str =
    ground (arith, find_entry-merge_entries scope other str, same_str_iff sym.str str)

-- `bind` without a scope binds in the last one of the deque.
pub bind-bind_at :
    (scope : Scope) (rest : Scopes) (sym : Sym) (d : ℕ)
    → bind (scope ∷ rest) sym d ≡ bind_at (length rest) (scope ∷ rest) sym d
unfolding bind bind_at
bind-bind_at scope rest sym d = ground arith
