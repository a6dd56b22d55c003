-- ===== src/World/Sea.antt =====
-- The sea of nodes: `Def::Def`, `Def::equal` and `Def::hash` of thorin/def.cpp, and `World::unify`,
-- `World::insert` and `World::freeze` of thorin/world.h. A pointer to a definition is the definition's
-- `gid`.
pub mod Equal
pub mod Find
pub mod Unify
pub mod Frozen
pub mod Pointers
use mathlib.Core.List.{Memᴰ}
use thorin.Prelude.{
  ◌≡◌, ℕ, ◌+◌, ◌-◌, ◌%◌, ◌^◌, Bool, true, false, not, ◌&&◌, ◌||◌, Option, none, some, List, [], ◌∷◌,
  ◌==◌, if◌then◌else◌, length,
}
use thorin.Util.Hash.{murmur3, murmur3_u64, murmur3_rest, murmur3_single, murmur3_finalize}

-- What a definition is made of. `node` is the kind of node, and the type is absent for `.Univ` only.
pub record Node : Type 0 where
  pub node : ℕ
  pub flags : ℕ
  pub nominal : Bool
  pub type_ : Option ℕ
  pub ops : List ℕ

pub record Def : Type 0 where
  pub gid : ℕ
  pub hash : ℕ
  pub body : Node

-- `Node::Univ`
abbrev pub univ : ℕ
univ = 1

unfoldable pub hash_ops : ℕ → List ℕ → ℕ
hash_ops h [] = h
hash_ops h (op ∷ ops) = hash_ops (murmur3 h op) ops

abbrev pub type_gid : Option ℕ → ℕ
type_gid none = 0
type_gid (some t) = t

-- The hash of a definition that is no nominal, from its parts.
unfoldable pub hash_structural : Node → ℕ
unfolding hash_ops
hash_structural n =
    murmur3_finalize
      (murmur3_rest (murmur3_u64 (hash_ops (type_gid n.type_) n.ops) n.flags) (n.node % 256))
      (length n.ops)

-- Whether a definition is equal to itself alone.
abbrev pub is_unique : Node → Bool
is_unique n = n.node == univ || n.nominal

unfoldable pub hash_of : ℕ → Node → ℕ
hash_of gid n = if is_unique n then murmur3_single gid else hash_structural n

abbrev pub make : ℕ → Node → Def
make gid n = record { gid = gid; hash = hash_of gid n; body = n }

abbrev pub same_type : Option ℕ → Option ℕ → Bool
same_type none none = true
same_type (some t) (some u) = t == u
same_type _ _ = false

-- The loop over the operands, the numbers of which are the same.
unfoldable pub same_ops : List ℕ → List ℕ → Bool
same_ops [] [] = true
same_ops (x ∷ xs) (y ∷ ys) = x == y && same_ops xs ys
same_ops _ _ = false

-- `Def::equal`
unfoldable pub equal : Def → Def → Bool
unfolding same_ops
equal d e =
    if d.body.node == univ || (d.body.nominal || e.body.nominal)
    then d.gid == e.gid
    else d.body.node == e.body.node
      && (d.body.flags == e.body.flags
          && (length d.body.ops == length e.body.ops
              && (same_type d.body.type_ e.body.type_ && same_ops d.body.ops e.body.ops)))

-- `find` of the hash set, which is the submodule absl's.
abbrev pub Lookup : Type 0
Lookup = Def → List Def → Option Def

-- What its documentation says: it finds members that are equal to the key, and it finds one where a
-- member of the same hash is equal.
pub record IsLookup (find : Lookup) : Type 0 where
  pub sound : (d e : Def) (ds : List Def) → find d ds ≡ some e → Memᴰ e ds × (equal e d ≡ true)
  pub complete :
      (d e : Def) (ds : List Def)
      → find d ds ≡ none
      → Memᴰ e ds
      → (e.hash == d.hash && equal e d) ≡ false

pub record Sea : Type 0 where
  pub curr_gid : ℕ
  pub frozen : Bool
  pub defs : List Def

-- `World::State` at the start.
abbrev pub start : Sea
start = record { curr_gid = 0; frozen = false; defs = [] }

-- `World::next_gid` on a `u32`.
abbrev pub next_gid : Sea → ℕ
next_gid s = (s.curr_gid + 1) % 2 ^ 32

-- `World::unify`, whose callers construct no nominal: the pointer, which is null where the world is frozen and has no such definition, and
-- the sea. A number that was drawn for a definition that is there already is not given back.
unfoldable pub unify : Lookup → Node → Sea → Option ℕ × Sea
unify find n s =
    let d = make (next_gid s) n in
    if s.frozen
    then elim (find d s.defs) [ some e ↦ (some e.gid, s) | none ↦ (none, s) ]
    else elim (find d s.defs) [
      | some e ↦ (some e.gid, record s { curr_gid = next_gid s })
      | none ↦ (some (next_gid s), record s { curr_gid = next_gid s; defs = d ∷ s.defs })
    ]

-- `World::insert` of a new nominal. `none` is the failed assertion.
unfoldable pub insert_nominal : Lookup → Node → Sea → Option (ℕ × Sea)
insert_nominal find n s =
    let d = make (next_gid s) n in
    elim (find d s.defs) [
      | some e ↦ none
      | none ↦ some (next_gid s, record s { curr_gid = next_gid s; defs = d ∷ s.defs })
    ]

-- `World::freeze`: the old state, and the sea.
abbrev pub freeze : Bool → Sea → Bool × Sea
freeze on s = (s.frozen, record s { frozen = on })
