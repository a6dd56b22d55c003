-- ===== src/World/Sea/Find.antt =====
-- A list in place of the hash set of the submodule absl: the laws of a lookup can hold.
use mathlib.Core.List.{Memᴰ}
use mathlib.Core.List.Memᴰ
use thorin.Prelude.{
  ◌≡◌, inl, inr, sym, arith, true, false, ◌&&◌, Option, none, some, List, [], ◌∷◌, ◌==◌,
  if◌then◌else◌, Bool-cases,
}
use thorin.World.Sea.{Def, equal, IsLookup}

-- A lookup that searches a list.
unfoldable pub find_def : Def → List Def → Option Def
find_def d [] = none
find_def d (e ∷ rest) = if e.hash == d.hash && equal e d then some e else find_def d rest

find_def-some :
    (d e : Def) (ds : List Def) → find_def d ds ≡ some e → Memᴰ e ds × (equal e d ≡ true)
unfolding find_def
find_def-some d e [] h = cc
find_def-some d e (x ∷ ds) h = elim (Bool-cases (x.hash == d.hash && equal x d)) [
  | inl k ↦ let same : x ≡ e = ground arith in (Memᴰ.head (sym same), ground arith)
  | inr k ↦ let rest = find_def-some d e ds (ground arith) in (Memᴰ.tail rest.0, rest.1)
]

find_def-none :
    (d e : Def) (ds : List Def)
    → find_def d ds ≡ none
    → Memᴰ e ds
    → (e.hash == d.hash && equal e d) ≡ false
unfolding find_def
find_def-none d e [] h m = absurd (Memᴰ.not-nil m)
find_def-none d e (x ∷ ds) h m = elim (Bool-cases (x.hash == d.hash && equal x d)) [
  | inl k ↦ ground arith
  | inr k ↦ elim (Memᴰ.cases_cons m) [
    | inl here ↦ rw here k
    | inr there ↦ find_def-none d e ds (ground arith) there
  ]
]

pub find_def-IsLookup : IsLookup find_def
find_def-IsLookup = record { sound = find_def-some; complete = find_def-none }
