-- ===== src/Fe/Literals/Rejected.antt =====
-- Literals that `parse_lit` rejects.
use thorin.Prelude.{ℕ, zero, suc, ◌≡◌, refl, arith, Bool, false, Option, none, some, [], ◌==◌}
use thorin.Fe.Chars.{is_digit, is_exponent, is_digit_of}
use thorin.Fe.Input.{Input, peek, super_next, copy_md, next, accept_fuel, accept_while, left}
use thorin.Fe.Step.{fail_loc, no_exponent, stray_sign}
use thorin.Fe.Literals.{
  parse_digits, parse_exp, finish_exp, finish_lit, lex_fraction, lex_suffix, prefix_base,
  lex_number,
}

accept_fuel_none :
    (n : ℕ) (test : ℕ → Bool) (s : Input) → test (peek s) ≡ false → accept_fuel n test s ≡ s
unfolding accept_fuel
accept_fuel_none zero test s h = refl
accept_fuel_none (suc n) test s h = ground arith

accept_while_none : (test : ℕ → Bool) (s : Input) → test (peek s) ≡ false → accept_while test s ≡ s
unfolding accept_while
accept_while_none test s h = accept_fuel_none (left s) test s h

str-copy_md : (s : Input) (c : ℕ) → (copy_md s c).str ≡ s.str
unfolding copy_md
str-copy_md s c = ground arith

str-next : (s : Input) → (next s).str ≡ s.str
unfolding next super_next
str-next s = str-copy_md (super_next s) (peek s)

-- Behind the digits of a hexadecimal literal with neither a point nor an exponent.
hexadecimal_suffix :
    (sign : Option Bool) (s : Input)
    → (peek s == b'.') ≡ false
    → is_exponent 16 (peek s) ≡ false
    → lex_suffix sign 16 s ≡ fail_loc no_exponent s
unfolding lex_suffix lex_fraction parse_exp finish_exp
hexadecimal_suffix none s h k = ground arith
hexadecimal_suffix (some b) s h k = ground arith

-- A hexadecimal literal is rejected where its digits are followed by neither a point nor an exponent:
-- no hexadecimal integer is ever read.
pub lex_number_hexadecimal :
    (sign : Option Bool) (s : Input)
    → peek s ≡ b'0'
    → peek (next s) ≡ b'x'
    → (peek (parse_digits 16 (next (next s))) == b'.') ≡ false
    → is_exponent 16 (peek (parse_digits 16 (next (next s)))) ≡ false
    → lex_number sign s ≡ fail_loc no_exponent (parse_digits 16 (next (next s)))
unfolding lex_number
lex_number_hexadecimal sign s zero_ x h k =
    ground (arith, hexadecimal_suffix sign (parse_digits 16 (next (next s))) h k)

-- A zero with a sign is rejected as a stray sign where no digit, point or exponent follows, since the
-- leading zero is not kept in the text.
pub lex_number_signed_zero :
    (negative : Bool) (s : Input)
    → s.str ≡ []
    → peek s ≡ b'0'
    → prefix_base (peek (next s)) ≡ 10
    → is_digit (peek (next s)) ≡ false
    → (peek (next s) == b'.') ≡ false
    → is_exponent 10 (peek (next s)) ≡ false
    → lex_number (some negative) s ≡ fail_loc stray_sign (next s)
unfolding lex_number lex_suffix lex_fraction parse_exp finish_exp finish_lit
lex_number_signed_zero negative s clear zero_ plain digit dot exp =
    ground (arith, accept_while_none (is_digit_of 10) (next s) digit, str-next s)
