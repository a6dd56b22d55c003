-- ===== src/Fe/Scopes.antt =====
-- thorin/fe/scopes.h and scopes.cpp: the stack of scopes in which the parser binds symbols. A scope
-- is a hash map; here it is the list of its entries, each symbol once. The deque of scopes is a list
-- with the innermost scope first. A definition is known by its `gid`.
pub mod Lookup
pub mod Blocks
use thorin.Prelude.{
  ℕ, Bool, true, false, not, ◌&&◌, Option, none, some, List, [], ◌∷◌, ◌==◌, if◌then◌else◌, length,
}

-- The string of a symbol: the literal `_`, or another string, known by the `gid` of its definition.
pub data Str : Type 0 where
  underscore : Str
  named : ℕ → Str

pub record Sym : Type 0 where
  pub str : Str
  pub loc : ℕ

-- `operator==` on symbols compares the strings and not the locations.
abbrev pub same_str : Str → Str → Bool
same_str underscore underscore = true
same_str (named m) (named n) = m == n
same_str _ _ = false

abbrev pub is_anonymous : Sym → Bool
is_anonymous sym = same_str sym.str underscore

abbrev pub Scope : Type 0
Scope = List (Sym × ℕ)

abbrev pub Scopes : Type 0
Scopes = List Scope

abbrev pub root : Scopes
root = [] ∷ []

abbrev pub push : Scopes → Scopes
push scopes = [] ∷ scopes

-- `none` is the failed assertion.
abbrev pub pop : Scopes → Option Scopes
pop [] = none
pop (scope ∷ rest) = some rest

-- `find` of a hash map.
unfoldable pub find_entry : Scope → Str → Option (Sym × ℕ)
find_entry [] str = none
find_entry ((sym, d) ∷ rest) str =
    if same_str sym.str str then some (sym, d) else find_entry rest str

-- What a lookup ends in: the definition or one of the two errors.
pub data Found : Type 0 where
  found : ℕ → Found
  special : Found
  missing : Found

-- The loop of `find` from the innermost scope outwards.
unfoldable pub search : Scopes → Str → Found
search [] str = missing
search (scope ∷ rest) str = elim (find_entry scope str) [
  | none ↦ search rest str
  | some entry ↦ found entry.1
]

unfoldable pub find : Scopes → Sym → Found
find scopes sym = if is_anonymous sym then special else search scopes sym.str

-- What `bind` ends in: the scopes, the error with the location of the first declaration, or
-- undefined behaviour where there is no scope.
pub data Bound : Type 0 where
  done : Scopes → Bound
  declared : ℕ → Bound
  no_scope : Bound

-- `bind` with a pointer to the scope. The scope stands in a stack, which `put` gives back with
-- another scope in its place.
abbrev pub bind_scope : Scope → (Scope → Scopes) → Sym → ℕ → Bound
bind_scope scope put sym d =
    if is_anonymous sym then done (put scope) else elim (find_entry scope sym.str) [
      | none ↦ done (put ((sym, d) ∷ scope))
      | some entry ↦ declared entry.0.loc
    ]

-- The scopes inside, when the outer ones are done.
abbrev pub within : Scope → Bound → Bound
within scope (done scopes) = done (scope ∷ scopes)
within scope (declared loc) = declared loc
within scope no_scope = no_scope

-- `bind(&scopes_[k], sym, def)`. The outermost scope, the first of the deque, has the index 0.
unfoldable pub bind_at : ℕ → Scopes → Sym → ℕ → Bound
bind_at k [] sym d = no_scope
bind_at k (scope ∷ rest) sym d =
    let outer = bind_at k rest sym d in
    if k == length rest then bind_scope scope (λ inner. inner ∷ rest) sym d else within scope outer

-- `bind(&scopes_.back(), sym, def)`
unfoldable pub bind : Scopes → Sym → ℕ → Bound
bind [] sym d = no_scope
bind (scope ∷ rest) sym d = bind_scope scope (λ inner. inner ∷ rest) sym d

-- `swap`: the scopes with another innermost scope, and the one that was there.
abbrev pub swap : Scope → Scopes → Option (Scopes × Scope)
swap other [] = none
swap other (scope ∷ rest) = some (other ∷ rest, scope)

-- `merge` of hash maps: the entries of the second whose symbols the first does not hold move over.
unfoldable pub merge_entries : Scope → Scope → Scope
merge_entries scope [] = scope
merge_entries scope ((sym, d) ∷ other) =
    let rest = merge_entries scope other in
    elim (find_entry scope sym.str) [ none ↦ (sym, d) ∷ rest | some entry ↦ rest ]

-- `merge`, with the assertion that both have one scope.
abbrev pub merge : Scopes → Scopes → Option Scopes
merge (scope ∷ []) (other ∷ []) = some (merge_entries scope other ∷ [])
merge _ _ = none
