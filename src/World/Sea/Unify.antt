-- ===== src/World/Sea/Unify.antt =====
-- `unify` keeps the definitions hash-consed: there is one definition for each structure.
use mathlib.Core.List.{Memᴰ}
use mathlib.Core.List.Memᴰ
use thorin.Prelude.{
  ◌+◌, ◌^◌, ◌≤◌, ◌<◌, ◌≡◌, ◌≢◌, inl, inr, refl, sym, ap, ◌∙◌, arith, true, false, none, ◌∷◌,
  Option-cases, Bool-cases,
}
use thorin.World.Sea.{
  Node, Def, is_unique, hash_of, make, equal, Lookup, IsLookup, Sea, start, next_gid, unify,
}
use thorin.World.Sea.Equal.{equal-body, hash-body}

-- The invariant: the numbers are drawn ones, the hashes are those of the parts, no two definitions have
-- the same number, and no two that are neither nominals nor `.Univ` have the same parts.
pub record IsHashConsed (s : Sea) : Type 0 where
  pub numbered : (d : Def) → Memᴰ d s.defs → d.gid ≤ s.curr_gid
  pub hashed : (d : Def) → Memᴰ d s.defs → d.hash ≡ hash_of d.gid d.body
  pub one_gid : (d e : Def) → Memᴰ d s.defs → Memᴰ e s.defs → d.gid ≡ e.gid → d ≡ e
  pub one_body :
      (d e : Def)
      → Memᴰ d s.defs
      → Memᴰ e s.defs
      → is_unique d.body ≡ false
      → d.body ≡ e.body
      → d ≡ e

-- The world at the start is hash-consed.
pub start-IsHashConsed : IsHashConsed start
start-IsHashConsed = record {
  numbered = λ d m. absurd (Memᴰ.not-nil m);
  hashed = λ d m. absurd (Memᴰ.not-nil m);
  one_gid = λ d e m k same. absurd (Memᴰ.not-nil m);
  one_body = λ d e m k u same. absurd (Memᴰ.not-nil m);
}

-- A number is drawn and no definition is added.
pub skip-IsHashConsed :
    (s : Sea)
    → s.curr_gid + 1 < 2 ^ 32
    → IsHashConsed s
    → IsHashConsed (record s { curr_gid = next_gid s })
skip-IsHashConsed s room h = record {
  numbered = λ d m. (let old = h.numbered d m in omega arith);
  hashed = h.hashed;
  one_gid = h.one_gid;
  one_body = h.one_body;
}

pub not_drawn :
    (s : Sea)
    → s.curr_gid + 1 < 2 ^ 32
    → IsHashConsed s
    → (e : Def) → Memᴰ e s.defs
    → e.gid ≢ next_gid s
not_drawn s room h e m same = let bound = h.numbered e m in omega arith

module _ (find : Lookup) (law : IsLookup find) where
  -- A definition that the lookup does not find has parts that no other one has.
  pub absent :
      (n : Node) (s : Sea)
      → IsHashConsed s
      → find (make (next_gid s) n) s.defs ≡ none
      → (e : Def) → Memᴰ e s.defs
      → is_unique n ≡ false
      → e.body ≢ n
  absent n s h missing e m u same =
      let d = make (next_gid s) n in
      let hashes : e.hash ≡ d.hash = hash-body d e u refl (h.hashed e m) same in
      let equals : equal e d ≡ true = equal-body d e u same in
      let both = law.complete d e s.defs missing m in ground arith

  pub add-IsHashConsed :
      (n : Node) (s : Sea)
      → s.curr_gid + 1 < 2 ^ 32
      → IsHashConsed s
      → find (make (next_gid s) n) s.defs ≡ none
      → IsHashConsed (record s { curr_gid = next_gid s; defs = make (next_gid s) n ∷ s.defs })
  add-IsHashConsed n s room h missing =
      let d = make (next_gid s) n in
      record {
        numbered = λ e m. elim (Memᴰ.cases_cons m) [
          | inl here ↦ rw here (omega arith)
          | inr old ↦ (let bound = h.numbered e old in omega arith)
        ];
        hashed =
            λ e m. elim (Memᴰ.cases_cons m) [ inl here ↦ rw here refl | inr old ↦ h.hashed e old ];
        one_gid = λ e f m k same. elim (Memᴰ.cases_cons m) [
          | inl x ↦ elim (Memᴰ.cases_cons k) [
            | inl y ↦ x ∙ sym y
            | inr y ↦ absurd (not_drawn s room h f y (sym same ∙ ap (λ z. z.gid) x))
          ]
          | inr x ↦ elim (Memᴰ.cases_cons k) [
            | inl y ↦ absurd (not_drawn s room h e x (same ∙ ap (λ z. z.gid) y))
            | inr y ↦ h.one_gid e f x y same
          ]
        ];
        one_body = λ e f m k u same. elim (Memᴰ.cases_cons m) [
          | inl x ↦ elim (Memᴰ.cases_cons k) [
            | inl y ↦ x ∙ sym y
            | inr y ↦ absurd (
                absent n s h missing f y (sym (ap (λ z. is_unique z.body) x) ∙ u)
                  (sym same ∙ ap (λ z. z.body) x))
          ]
          | inr x ↦ elim (Memᴰ.cases_cons k) [
            | inl y ↦ absurd (
                absent n s h missing e x (sym (ap is_unique (same ∙ ap (λ z. z.body) y)) ∙ u)
                  (same ∙ ap (λ z. z.body) y))
            | inr y ↦ h.one_body e f x y u same
          ]
        ];
      }

  -- `unify` keeps the world hash-consed, frozen or not, as long as numbers are left.
  pub unify-IsHashConsed :
      (n : Node) (s : Sea)
      → s.curr_gid + 1 < 2 ^ 32
      → IsHashConsed s
      → IsHashConsed (unify find n s).1
  unfolding unify
  unify-IsHashConsed n s room h = elim (Bool-cases s.frozen) [
    | inl frozen ↦ elim (Option-cases (find (make (next_gid s) n) s.defs)) [
      | inl missing ↦ rw frozen (rw missing h)
      | inr (e, there) ↦ rw frozen (rw there h)
    ]
    | inr live ↦ elim (Option-cases (find (make (next_gid s) n) s.defs)) [
      | inl missing ↦ rw live (rw missing (add-IsHashConsed n s room h missing))
      | inr (e, there) ↦ rw live (rw there (skip-IsHashConsed s room h))
    ]
  ]
