-- ===== src/World/Sea/Frozen.antt =====
-- A frozen world, and new nominals.
use mathlib.Core.List.{Memᴰ}
use thorin.Prelude.{
  ℕ, ◌+◌, ◌^◌, ◌<◌, ◌≡◌, ◌↔◌, inl, inr, refl, sym, ap, ◌∙◌, arith, true, false, none, some, ◌∷◌,
  Option-cases,
}
use thorin.World.Sea.{
  Node, is_unique, make, equal, Lookup, IsLookup, Sea, next_gid, unify, insert_nominal,
}
use thorin.World.Sea.Unify.{IsHashConsed, not_drawn, absent, add-IsHashConsed}
use thorin.World.Sea.Pointers.{Stands, find-body}

module _ (find : Lookup) (law : IsLookup find) where
  -- In a frozen world `unify` leaves the world as it is, and returns the pointer to the definition that is
  -- there, which is null if and only if there is none.
  pub unify-frozen :
      (n : Node) (s : Sea) (g : ℕ)
      → IsHashConsed s
      → s.frozen ≡ true
      → s.curr_gid + 1 < 2 ^ 32
      → is_unique n ≡ false
      → ((unify find n s).1 ≡ s) × ((unify find n s).0 ≡ some g ↔ Stands (some g) n s)
  unfolding unify
  unify-frozen n s g h frozen room u = elim (Option-cases (find (make (next_gid s) n) s.defs)) [
    | inl missing ↦
        let nowhere : Stands (some g) n s → none ≡ some g =
          λ (e, (m, (at, same))). absurd (absent find law n s h missing e m u same) in
        let whole : unify find n s ≡ (none, s) = simp (frozen, missing) refl in
        rw whole (refl, ((λ eq. cc), nowhere))
    | inr (e, there) ↦
        let (member, same) = find-body find law n s room h e there in
        let only : Stands (some g) n s → some e.gid ≡ some g = λ (d, (m, (at, body))).
          ap (λ z. some z.gid) (h.one_body e d member m (rw same u) (same ∙ sym body)) ∙ at in
        let whole : unify find n s ≡ (some e.gid, s) = simp (frozen, there) refl in
        rw whole (refl, ((λ eq. (e, (member, (eq, same)))), only))
  ]

  -- The lookup of a nominal of a new number finds nothing.
  find-nominal :
      (n : Node) (s : Sea)
      → IsHashConsed s
      → s.curr_gid + 1 < 2 ^ 32
      → n.nominal ≡ true
      → find (make (next_gid s) n) s.defs ≡ none
  unfolding equal
  find-nominal n s h room nominal =
      let d = make (next_gid s) n in
      elim (Option-cases (find d s.defs)) [
        | inl missing ↦ missing
        | inr (e, there) ↦
            let (member, equals) = law.sound d e s.defs there in
            let fresh = not_drawn s room h e member in absurd (ground arith)
      ]

  -- A nominal is inserted whatever its parts are: the assertion holds, the world stays hash-consed, and the
  -- number, which is the next one, is the nominal's.
  pub insert_nominal-IsHashConsed :
      (n : Node) (s : Sea)
      → IsHashConsed s
      → s.curr_gid + 1 < 2 ^ 32
      → n.nominal ≡ true
      → (t : Sea) × ((insert_nominal find n s ≡ some (s.curr_gid + 1, t))
          × (IsHashConsed t × Stands (some (s.curr_gid + 1)) n t))
  unfolding insert_nominal
  insert_nominal-IsHashConsed n s h room nominal =
      let missing = find-nominal n s h room nominal in
      let drawn : next_gid s ≡ s.curr_gid + 1 = omega arith in
      let t = record s { curr_gid = next_gid s; defs = make (next_gid s) n ∷ s.defs } in
      let stands : Stands (some (s.curr_gid + 1)) n t =
        (make (next_gid s) n, (Memᴰ.head refl, (ap some drawn, refl))) in
      (
        t,
        (
          rw (insert_nominal, missing) (ap (λ g. some (g, t)) drawn),
          (add-IsHashConsed find law n s room h missing, stands),
        ),
      )
