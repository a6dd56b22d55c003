-- ===== src/World/Sea/Equal.antt =====
-- `Def::equal` against the parts of the definitions, and against the hash.
use thorin.Prelude.{
  ℕ, ◌≡◌, ◌≢◌, refl, sym, ◌∙◌, arith, true, false, Option, none, some, List, [], ◌∷◌,
}
use thorin.World.Sea.{Node, Def, hash_structural, is_unique, hash_of, same_type, same_ops, equal}

same_ops_refl : (xs : List ℕ) → same_ops xs xs ≡ true
unfolding same_ops
same_ops_refl [] = refl
same_ops_refl (x ∷ xs) = ground (arith, same_ops_refl xs)

same_ops-eq : (xs ys : List ℕ) → same_ops xs ys ≡ true → xs ≡ ys
unfolding same_ops
same_ops-eq [] [] h = refl
same_ops-eq (x ∷ xs) (y ∷ ys) h = ground (arith, same_ops-eq xs ys)
same_ops-eq [] (y ∷ ys) h = cc
same_ops-eq (x ∷ xs) [] h = cc

same_type_refl : (t : Option ℕ) → same_type t t ≡ true
same_type_refl none = refl
same_type_refl (some t) = ground arith

same_type-eq : (t u : Option ℕ) → same_type t u ≡ true → t ≡ u
same_type-eq none none h = refl
same_type-eq (some t) (some u) h = ground arith
same_type-eq none (some u) h = cc
same_type-eq (some t) none h = cc

-- A definition of some parts that is neither a nominal nor `.Univ` equals every one of the same parts.
pub equal-body : (d e : Def) → is_unique d.body ≡ false → e.body ≡ d.body → equal e d ≡ true
unfolding equal
equal-body d e u h = rw h (ground (arith, same_type_refl d.body.type_, same_ops_refl d.body.ops))

Node-ext :
    (m n : Node)
    → m.node ≡ n.node
    → m.flags ≡ n.flags
    → m.nominal ≡ n.nominal
    → m.type_ ≡ n.type_
    → m.ops ≡ n.ops
    → m ≡ n
Node-ext m n a b c d e =
    λ i. record { node = a i; flags = b i; nominal = c i; type_ = d i; ops = e i }

-- If it equals a definition that is of another number, the parts are the same.
pub body_of_equal : (d e : Def) → e.gid ≢ d.gid → equal e d ≡ true → e.body ≡ d.body
unfolding equal
body_of_equal d e fresh h =
    Node-ext e.body d.body (ground arith) (ground arith) (ground arith)
      (ground (arith, same_type-eq e.body.type_ d.body.type_))
      (ground (arith, same_ops-eq e.body.ops d.body.ops))

-- The hash of what is neither a nominal nor `.Univ` depends on the parts alone.
pub hash-body :
    (d e : Def)
    → is_unique d.body ≡ false
    → d.hash ≡ hash_of d.gid d.body
    → e.hash ≡ hash_of e.gid e.body
    → e.body ≡ d.body
    → e.hash ≡ d.hash
unfolding hash_of
hash-body d e u hd he h =
    let same : hash_of e.gid e.body ≡ hash_structural d.body = rw h (rw u refl) in
    let own : hash_of d.gid d.body ≡ hash_structural d.body = rw u refl in
    he ∙ same ∙ sym (hd ∙ own)
