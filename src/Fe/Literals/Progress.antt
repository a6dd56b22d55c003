-- ===== src/Fe/Literals/Progress.antt =====
-- A literal is read from at least one character.
use thorin.Prelude.{
  ℕ, zero, suc, ◌+◌, ◌-◌, ◌≤◌, ◌<◌, ◌≡◌, refl, arith, Bool, true, false, ◌||◌, Option, none, some,
  List, [], ◌∷◌, ◌++◌, ◌==◌, Bool-cases, inl, inr,
}
use thorin.Fe.Chars.{is_digit, is_sign, is_digit_of}
use thorin.Fe.Input.{Input, peek, next, consume, skip_if, left}
use thorin.Fe.Input.Progress.{
  left_str, left-next, left-consume, left-skip_if, left-accept_while, accept_while-lt,
}
use thorin.Fe.Step.{Step, token, again, fail}
use thorin.Fe.Literals.{
  parse_digits, Exponent, exponent, failed, parse_exp, finish_lit, lex_fraction, subscripts,
  lex_subscript, lex_underscore, lex_suffix, prefix_base, lex_number, parse_lit, finish_exp,
  strtoull,
}

-- A step that does not fail leaves at most `n`.
abbrev pub Within : ℕ → Step → Type 0
Within n (token t b e s) = left s ≤ n
Within n (again s) = left s ≤ n
Within n (fail why b e) = Unit

abbrev WithinExp : ℕ → Exponent → Type 0
WithinExp n (exponent found s) = left s ≤ n
WithinExp n (failed why s) = Unit

pub left-parse_digits : (base : ℕ) (s : Input) → left (parse_digits base s) ≤ left s
left-parse_digits base s = left-accept_while (is_digit_of base) s

parse_exp-Within : (base : ℕ) (s : Input) → WithinExp (left s) (parse_exp base s)
unfolding parse_exp
parse_exp-Within base s =
    let s' = skip_if is_sign (consume s) in
    ground (arith, left-consume s, left-skip_if is_sign (consume s), left-parse_digits 10 s')

finish_lit-Within :
    (sign : Option Bool) (base : ℕ) (is_float : Bool) (s : Input)
    → Within (left s) (finish_lit sign base is_float s)
unfolding finish_lit
finish_lit-Within sign base is_float s = ground arith

pub Within-le : (m n : ℕ) (step : Step) → Within m step → m ≤ n → Within n step
Within-le m n (token t b e s) h le = omega arith
Within-le m n (again s) h le = omega arith
Within-le m n (fail why b e) h le = tt

finish_exp-Within :
    (sign : Option Bool) (base : ℕ) (dot : Bool) (n : ℕ) (e : Exponent)
    → WithinExp n e
    → Within n (finish_exp sign base dot e)
unfolding finish_exp
finish_exp-Within sign base dot n (exponent found s) h =
    Within-le (left s) n (finish_lit sign base (dot || found) s)
      (finish_lit-Within sign base (dot || found) s) h
finish_exp-Within sign base dot n (failed why s) h = tt

-- An exponent at `s`, and what comes behind it.
pub exponent_at :
    (sign : Option Bool) (base : ℕ) (dot : Bool) (n : ℕ) (s : Input)
    → left s ≤ n
    → Within n (finish_exp sign base dot (parse_exp base s))
exponent_at sign base dot n s le =
    Within-le (left s) n (finish_exp sign base dot (parse_exp base s))
      (finish_exp-Within sign base dot (left s) (parse_exp base s) (parse_exp-Within base s)) le

lex_fraction-Within :
    (sign : Option Bool) (base : ℕ) (s : Input) → Within (left s) (lex_fraction sign base s)
unfolding lex_fraction
lex_fraction-Within sign base s = ground (
  arith,
  finish_lit-Within sign base false s,
  exponent_at sign base false (left s) s (omega arith),
  exponent_at sign base true (left s) (parse_digits base (consume s))
      (omega (arith, left-parse_digits base (consume s), left-consume s)),
)

left-subscripts : (n : ℕ) (s : Input) (text : List ℕ) → left (subscripts n s text).0 ≤ left s
unfolding subscripts
left-subscripts zero s text = omega arith
left-subscripts (suc n) s text =
    ground (arith, left-next s, left-subscripts n (next s) (text ++ (peek s - 0x2080 + b'0') ∷ []))

lex_subscript-Within : (s : Input) → Within (left s) (lex_subscript s)
unfolding lex_subscript
lex_subscript-Within s = left-subscripts (left s) s []

lex_underscore-Within : (i : ℕ) (s : Input) → Within (left s) (lex_underscore i s)
unfolding lex_underscore
lex_underscore-Within i s = ground (arith, left-consume s, left-parse_digits 10 (consume s))

lex_suffix-Within :
    (sign : Option Bool) (base : ℕ) (s : Input) → Within (left s) (lex_suffix sign base s)
unfolding lex_suffix
lex_suffix-Within sign base s =
    ground (arith, lex_fraction-Within sign base s, lex_subscript-Within s, underscore)
  where
    cleared : Input
    cleared = record (next s) { str = [] }

    underscore : Within (left s) (lex_underscore (strtoull 10 s.str) cleared)
    underscore =
        Within-le (left cleared) (left s) (lex_underscore (strtoull 10 s.str) cleared)
          (lex_underscore-Within (strtoull 10 s.str) cleared)
          (omega (arith, left-next s, left_str (next s) []))

-- Behind a leading zero what is left is less; otherwise the digits are read.
lex_number-Within : (sign : Option Bool) (s : Input) → Within (left s) (lex_number sign s)
unfolding lex_number
lex_number-Within sign s =
    let s' = next s in
    let base = prefix_base (peek s') in
    ground (
      arith,
      left-next s,
      left-next s',
      zero_then base s' (omega (arith, left-next s)),
      zero_then base (next s') (omega (arith, left-next s, left-next s')),
      zero_then 10 s (omega arith),
    )
  where
    zero_then :
        (base : ℕ) (t : Input)
        → left t ≤ left s
        → Within (left s) (lex_suffix sign base (parse_digits base t))
    zero_then base t le =
        Within-le (left (parse_digits base t)) (left s) (lex_suffix sign base (parse_digits base t))
          (lex_suffix-Within sign base (parse_digits base t))
          (omega (arith, left-parse_digits base t))

-- A step that does not fail leaves less than there was.
abbrev pub Reads : Input → Step → Type 0
Reads s (token t b e s') = left s' < left s
Reads s (again s') = left s' < left s
Reads s (fail why b e) = Unit

pub Reads-intro : (n : ℕ) (s : Input) (step : Step) → Within n step → n < left s → Reads s step
Reads-intro n s (token t b e s') h lt = omega arith
Reads-intro n s (again s') h lt = omega arith
Reads-intro n s (fail why b e) h lt = tt

module _ (s : Input) where
  after_digits :
      (sign : Option Bool) (base : ℕ) (t : Input)
      → left t < left s
      → Reads s (lex_suffix sign base t)
  after_digits sign base t lt =
      Reads-intro (left t) s (lex_suffix sign base t) (lex_suffix-Within sign base t) lt

  digits_then :
      (sign : Option Bool) (base : ℕ) (t : Input)
      → left t < left s
      → Reads s (lex_suffix sign base (parse_digits base t))
  digits_then sign base t lt =
      after_digits sign base (parse_digits base t) (omega (arith, left-parse_digits base t))

  unsigned-Reads : is_digit (peek s) ≡ true → Reads s (lex_number none s)
  unfolding lex_number
  unsigned-Reads h =
      let s' = next s in
      let base = prefix_base (peek s') in
      elim (Bool-cases (peek s == b'0')) [
        | inl e ↦
            let lt : left s' < left s = ground (arith, left-next s) in
            let lt' : left (next s') < left s = omega (arith, left-next s', lt) in
            ground (arith, digits_then none base s' lt, digits_then none base (next s') lt')
        | inr e ↦
            let lt = accept_while-lt (is_digit_of 10) refl s h in
            ground (arith, after_digits none 10 (parse_digits 10 s) lt)
      ]

  signed-Reads : (sign : Bool) (t : Input) → left t < left s → Reads s (lex_number (some sign) t)
  signed-Reads sign t lt =
      Reads-intro (left t) s (lex_number (some sign) t) (lex_number-Within (some sign) t) lt

  -- Where `lex` calls `parse_lit`, what it returns has read a character at least.
  pub parse_lit-Reads : (is_digit (peek s) || is_sign (peek s)) ≡ true → Reads s (parse_lit s)
  unfolding parse_lit
  parse_lit-Reads h = elim (Bool-cases (is_sign (peek s))) [
    | inl e ↦
        let lt : left (next s) < left s = ground (arith, left-next s) in
        ground (
          arith,
          signed-Reads false (next s) lt,
          signed-Reads true (next s) lt,
          left-consume (next s),
        )
    | inr e ↦ ground (arith, unsigned-Reads (ground arith))
  ]
