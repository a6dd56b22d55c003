-- ===== src/Fe/Input/Progress.antt =====
-- Reading makes progress: the characters and bytes that are left become fewer.
use thorin.Prelude.{
  ℕ, zero, suc, ◌+◌, ◌%◌, ◌^◌, ◌≤◌, ◌<◌, ◌≡◌, refl, ap, ◌∙◌, arith, Bool, true, false, List, [],
  ◌∷◌, ◌++◌, ◌==◌, ==_iff, length, Bool-cases, inl, inr,
}
use thorin.Util.Utf8.{eof, encode}
use thorin.Util.Utf8.Length.{encode-nil, length-encode}
use thorin.Fe.Input.{
  Input, super_next, copy_md, next, consume, skip_if, accept_fuel, next_fuel, live, left,
  accept_while, next_while, peek, start,
}

encode-left : (bs : List ℕ) → live (encode bs).0 + length (encode bs).1 ≤ length bs
encode-left [] = rw encode-nil (omega arith)
encode-left (b ∷ bs) = ground (arith, length-encode b bs)

left-super_next : (s : Input) → left (super_next s) + live (peek s) ≤ left s
unfolding left super_next
left-super_next s = omega (arith, encode-left s.stream)

left-copy_md : (s : Input) (c : ℕ) → left (copy_md s c) ≡ left s
unfolding left copy_md
left-copy_md s c = ground arith

peek-copy_md : (s : Input) (c : ℕ) → peek (copy_md s c) ≡ peek s
unfolding copy_md
peek-copy_md s c = ground arith

pub left-next : (s : Input) → left (next s) + live (peek s) ≤ left s
unfolding next
left-next s = omega (arith, left-copy_md (super_next s) (peek s), left-super_next s)

-- The text read so far has no part in it.
pub left_str : (s : Input) (text : List ℕ) → left (record s { str = text }) ≡ left s
unfolding left
left_str s text = refl

pub left_out : (s : Input) (b : Bool) → left (record s { out = b }) ≡ left s
unfolding left
left_out s b = refl

pub left-start : (s : Input) → left (start s) ≡ left s
unfolding left
left-start s = refl

-- Away from the end of the file each character that is consumed is one less.
pub left-consume : (s : Input) → left (consume s) + live (peek s) ≤ left s
unfolding consume left
left-consume s = omega (arith, left-next s')
  where
    s' : Input
    s' = record s { str = s.str ++ (peek s % 2 ^ 8) ∷ [] }

pub left-skip_if : (test : ℕ → Bool) (s : Input) → left (skip_if test s) ≤ left s
unfolding skip_if
left-skip_if test s = ground (arith, left-consume s)

left-accept_fuel : (n : ℕ) (test : ℕ → Bool) (s : Input) → left (accept_fuel n test s) ≤ left s
unfolding accept_fuel
left-accept_fuel zero test s = omega arith
left-accept_fuel (suc n) test s =
    ground (arith, left-consume s, left-accept_fuel n test (consume s))

left-next_fuel : (n : ℕ) (test : ℕ → Bool) (s : Input) → left (next_fuel n test s) ≤ left s
unfolding next_fuel
left-next_fuel zero test s = omega arith
left-next_fuel (suc n) test s = ground (arith, left-next s, left-next_fuel n test (next s))

pub left-accept_while : (test : ℕ → Bool) (s : Input) → left (accept_while test s) ≤ left s
unfolding accept_while
left-accept_while test s = left-accept_fuel (left s) test s

pub left-next_while : (test : ℕ → Bool) (s : Input) → left (next_while test s) ≤ left s
unfolding next_while
left-next_while test s = left-next_fuel (left s) test s

pub peek-eof : (s : Input) → left s ≤ 0 → peek s ≡ eof
unfolding left
peek-eof s h = ground arith

-- A test that the end of the file fails and that holds of `c` says that `c` is a character.
live_of_test : (test : ℕ → Bool) (c : ℕ) → test eof ≡ false → test c ≡ true → live c ≡ 1
live_of_test test c h k = elim (Bool-cases (c == eof)) [
  | inl e ↦ absurd (ground (arith, ap test ((==_iff c eof).0 e)))
  | inr e ↦ ground arith
]

module _ (test : ℕ → Bool) (h : test eof ≡ false) where
  accept_fuel_stops : (n : ℕ) (s : Input) → left s ≤ n → test (peek (accept_fuel n test s)) ≡ false
  unfolding accept_fuel
  accept_fuel_stops zero s le = ap test (peek-eof s le) ∙ h
  accept_fuel_stops (suc n) s le = elim (Bool-cases (test (peek s))) [
    | inl e ↦
        let one = live_of_test test (peek s) h e in
        ground (arith, accept_fuel_stops n (consume s) (omega (arith, left-consume s, one)))
    | inr e ↦ ground arith
  ]

  next_fuel_stops : (n : ℕ) (s : Input) → left s ≤ n → test (peek (next_fuel n test s)) ≡ false
  unfolding next_fuel
  next_fuel_stops zero s le = ap test (peek-eof s le) ∙ h
  next_fuel_stops (suc n) s le = elim (Bool-cases (test (peek s))) [
    | inl e ↦
        let one = live_of_test test (peek s) h e in
        ground (arith, next_fuel_stops n (next s) (omega (arith, left-next s, one)))
    | inr e ↦ ground arith
  ]

  -- The fuel is enough: the loop ends because its test fails.
  pub accept_while_stops : (s : Input) → test (peek (accept_while test s)) ≡ false
  unfolding accept_while
  accept_while_stops s = accept_fuel_stops (left s) s (omega arith)

  pub next_while_stops : (s : Input) → test (peek (next_while test s)) ≡ false
  unfolding next_while
  next_while_stops s = next_fuel_stops (left s) s (omega arith)

  -- A loop whose test holds of the next character reads it.
  pub accept_while-lt : (s : Input) → test (peek s) ≡ true → left (accept_while test s) < left s
  unfolding accept_while accept_fuel
  accept_while-lt s e =
      let one = live_of_test test (peek s) h e in
      ground (arith, left-consume s, accept_some (left s) s one e)
    where
      accept_some :
          (n : ℕ) (s : Input)
          → live (peek s) ≡ 1
          → test (peek s) ≡ true
          → left s ≤ n
          → left (accept_fuel n test s) < left s
      accept_some zero s one e le = absurd (omega (arith, left-consume s))
      accept_some (suc n) s one e le =
          ground (arith, left-consume s, left-accept_fuel n test (consume s))
