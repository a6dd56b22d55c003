-- ===== src/World/Sea/Pointers.antt =====
-- What the pointer that `unify` and `insert` return says of the definition.
use mathlib.Core.List.{Memᴰ}
use thorin.Prelude.{
  ℕ, ◌+◌, ◌^◌, ◌<◌, ◌≡◌, ◌↔◌, inl, inr, refl, sym, ap, ◌∙◌, arith, false, Option, some,
  Option-cases, Bool-cases,
}
use thorin.World.Sea.{Node, Def, is_unique, make, Lookup, IsLookup, Sea, next_gid, unify}
use thorin.World.Sea.Equal.{body_of_equal}
use thorin.World.Sea.Unify.{IsHashConsed, not_drawn, unify-IsHashConsed}

-- The sea has a definition of these parts under the pointer.
abbrev pub Stands : Option ℕ → Node → Sea → Type 0
Stands g n s = (d : Def) × (Memᴰ d s.defs × ((some d.gid ≡ g) × (d.body ≡ n)))

-- Two pointers of a hash-consed sea are the same if and only if the parts are.
pub Stands-iff :
    (g k : Option ℕ) (m n : Node) (s : Sea)
    → IsHashConsed s
    → is_unique m ≡ false
    → Stands g m s
    → Stands k n s
    → g ≡ k ↔ m ≡ n
Stands-iff g k m n s h u (d, (md, (gd, bd))) (e, (me, (ge, be))) =
    let forth : g ≡ k → m ≡ n = λ same.
      let gids : d.gid ≡ e.gid = cc in sym bd ∙ ap (λ z. z.body) (h.one_gid d e md me gids) ∙ be in
    let back : m ≡ n → g ≡ k = λ same.
      let one = h.one_body d e md me (rw bd u) (bd ∙ same ∙ sym be) in
      sym gd ∙ ap (λ z. some z.gid) one ∙ ge in
    (forth, back)

module _ (find : Lookup) (law : IsLookup find) where
  -- What the lookup finds has the parts that are looked for.
  pub find-body :
      (n : Node) (s : Sea)
      → s.curr_gid + 1 < 2 ^ 32
      → IsHashConsed s
      → (e : Def) → find (make (next_gid s) n) s.defs ≡ some e
      → Memᴰ e s.defs × (e.body ≡ n)
  find-body n s room h e there =
      let d = make (next_gid s) n in
      let (member, equals) = law.sound d e s.defs there in
      (member, body_of_equal d e (not_drawn s room h e member) equals)

  pub unify-Stands :
      (n : Node) (s : Sea)
      → s.frozen ≡ false
      → s.curr_gid + 1 < 2 ^ 32
      → IsHashConsed s
      → Stands (unify find n s).0 n (unify find n s).1
  unfolding unify
  unify-Stands n s live room h = elim (Option-cases (find (make (next_gid s) n) s.defs)) [
    | inl missing ↦ rw live (rw missing (make (next_gid s) n, (Memᴰ.head refl, (refl, refl))))
    | inr (e, there) ↦
        let (member, same) = find-body n s room h e there in
        rw live (rw there (e, (member, (refl, same))))
  ]

  -- A definition stays.
  pub unify-keeps : (n : Node) (s : Sea) (d : Def) → Memᴰ d s.defs → Memᴰ d (unify find n s).1.defs
  unfolding unify
  unify-keeps n s d m = elim (Bool-cases s.frozen) [
    | inl frozen ↦ elim (Option-cases (find (make (next_gid s) n) s.defs)) [
      | inl missing ↦ rw frozen (rw missing m)
      | inr (e, there) ↦ rw frozen (rw there m)
    ]
    | inr live ↦ elim (Option-cases (find (make (next_gid s) n) s.defs)) [
      | inl missing ↦ rw live (rw missing (Memᴰ.tail m))
      | inr (e, there) ↦ rw live (rw there m)
    ]
  ]

  -- The state after a definition is unified.
  pub unify-next :
      (n : Node) (s : Sea)
      → s.frozen ≡ false
      → s.curr_gid + 1 < 2 ^ 32
      → ((unify find n s).1.frozen ≡ false) × ((unify find n s).1.curr_gid ≡ s.curr_gid + 1)
  unfolding unify
  unify-next n s live room = elim (Option-cases (find (make (next_gid s) n) s.defs)) [
    | inl missing ↦ rw live (rw missing (live, omega arith))
    | inr (e, there) ↦ rw live (rw there (live, omega arith))
  ]

  -- Where a definition that is neither a nominal nor `.Univ` is unified and then another one, in a
  -- hash-consed world that is not frozen and in which numbers are left, the two pointers are the same if
  -- and only if the parts are.
  pub unify-pointers_iff :
      (m n : Node) (s : Sea)
      → IsHashConsed s
      → s.frozen ≡ false
      → s.curr_gid + 2 < 2 ^ 32
      → is_unique m ≡ false
      → (unify find m s).0 ≡ (unify find n (unify find m s).1).0 ↔ m ≡ n
  unify-pointers_iff m n s h live room u =
      let t = (unify find m s).1 in
      let (live', count) = unify-next m s live (omega arith) in
      let room' : t.curr_gid + 1 < 2 ^ 32 = rw count (omega arith) in
      let h' = unify-IsHashConsed find law m s (omega arith) h in
      let (d, (md, rest)) = unify-Stands m s live (omega arith) h in
      Stands-iff (unify find m s).0 (unify find n t).0 m n (unify find n t).1
        (unify-IsHashConsed find law n t room' h') u (d, (unify-keeps n t d md, rest))
        (unify-Stands n t live' room' h')
