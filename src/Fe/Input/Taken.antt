-- ===== src/Fe/Input/Taken.antt =====
-- What `accept_while` reads: how many characters, and which.
use mathlib.Core.List.{append_assoc, append-nil}
use thorin.Prelude.{
  ℕ, zero, suc, ◌%◌, ◌^◌, ◌≡◌, refl, sym, ap, ◌∙◌, arith, Bool, true, List, [], ◌∷◌, ◌++◌,
  Bool-cases, inl, inr,
}
use thorin.Fe.Input.{
  Input, super_next, copy_md, next, consume, accept_fuel, accept_while, left, peek,
}

-- The state behind `n` characters that were accepted.
abbrev pub after : ℕ → Input → Input
after zero s = s
after (suc n) s = after n (consume s)

-- The next `n` characters, each as a `char`.
abbrev pub taken : ℕ → Input → List ℕ
taken zero s = []
taken (suc n) s = (peek s % 2 ^ 8) ∷ taken n (consume s)

-- The test holds of each of the next `n` characters.
abbrev pub All : (ℕ → Bool) → ℕ → Input → Type 0
All test zero s = Unit
All test (suc n) s = (test (peek s) ≡ true) × All test n (consume s)

str-copy_md : (s : Input) (c : ℕ) → (copy_md s c).str ≡ s.str
unfolding copy_md
str-copy_md s c = ground arith

str-consume : (s : Input) → (consume s).str ≡ s.str ++ (peek s % 2 ^ 8) ∷ []
unfolding consume next super_next
str-consume s = str-copy_md _ (peek s)

-- The text is that of the characters.
pub str-after : (n : ℕ) (s : Input) → (after n s).str ≡ s.str ++ taken n s
str-after zero s = sym (append-nil s.str)
str-after (suc n) s =
    str-after n (consume s)
    ∙ ap (λ (l : List ℕ). l ++ taken n (consume s)) (str-consume s)
    ∙ append_assoc s.str ((peek s % 2 ^ 8) ∷ []) (taken n (consume s))

-- What the loop reads are characters of which the test holds.
pub record Reading (test : ℕ → Bool) (s t : Input) : Type 0 where
  pub count : ℕ
  pub reached : t ≡ after count s
  pub accepted : All test count s

accept_fuel-Reading :
    (fuel : ℕ) (test : ℕ → Bool) (s : Input) → Reading test s (accept_fuel fuel test s)
unfolding accept_fuel
accept_fuel-Reading zero test s = record { count = 0; reached = refl; accepted = tt }
accept_fuel-Reading (suc fuel) test s = elim (Bool-cases (test (peek s))) [
  | inl e ↦
      let r = accept_fuel-Reading fuel test (consume s) in
      record {
        count = suc r.count;
        reached = rw (e, accept_fuel) r.reached;
        accepted = (e, r.accepted);
      }
  | inr e ↦ record { count = 0; reached = rw (e, accept_fuel) refl; accepted = tt }
]

pub accept_while-Reading : (test : ℕ → Bool) (s : Input) → Reading test s (accept_while test s)
unfolding accept_while
accept_while-Reading test s = accept_fuel-Reading (left s) test s
