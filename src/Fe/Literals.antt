-- ===== src/Fe/Literals.antt =====
-- `parse_lit`, `parse_digits` and `parse_exp` of thorin/fe/lexer.cpp.
pub mod Progress
pub mod Rejected
use thorin.Prelude.{
  ℕ, zero, suc, ◌+◌, ◌-◌, ◌*◌, ◌%◌, ◌^◌, min, Bool, true, false, not, ◌&&◌, ◌||◌, Option, none,
  some, List, [], ◌∷◌, ◌++◌, ◌==◌, leb, ltb, if◌then◌else◌,
}
use thorin.Fe.Token.{t_arrow}
use thorin.Fe.Chars.{between, is_digit, is_xdigit, is_sign, is_subscript, is_exponent, is_digit_of}
use thorin.Fe.Input.{Input, peek, next, consume, skip_if, accept_while, left}
use thorin.Fe.Step.{
  Tok, plain, unsigned, real, index, Reason, stray_underscore, stray_sign, empty_exponent,
  no_exponent, Step, tok, fail, fail_loc,
}

-- The value of a digit of any base.
abbrev pub digit_value : ℕ → ℕ
digit_value c =
    if is_digit c then c - b'0' else if between b'a' b'f' c then c - b'a' + 10 else c - b'A' + 10

pub digits_value : ℕ → ℕ → List ℕ → ℕ
digits_value base acc [] = acc
digits_value base acc (c ∷ cs) = digits_value base (acc * base + digit_value c) cs

-- `strtoull` on digits: what does not fit yields the greatest number.
unfoldable pub strtoull : ℕ → List ℕ → ℕ
unfolding digits_value
strtoull base text = min (digits_value base 0 text) (2 ^ 64 - 1)

-- `u64(strtoll(...))` on digits with a sign.
unfoldable pub strtoll : Bool → ℕ → List ℕ → ℕ
unfolding digits_value
strtoll negative base text =
    if negative
    then (2 ^ 64 - min (digits_value base 0 text) (2 ^ 63)) % 2 ^ 64
    else min (digits_value base 0 text) (2 ^ 63 - 1)

-- `World::lit_idx_mod`: a size of 0 stands for 2 ^ 64.
abbrev pub lit_idx_mod : ℕ → ℕ → Tok
lit_idx_mod m i = index m (if m == 0 then i else i % m)

abbrev pub parse_digits : ℕ → Input → Input
parse_digits base s = accept_while (is_digit_of base) s

-- What `parse_exp` comes to: whether there was an exponent, or an error.
pub data Exponent : Type 0 where
  exponent : Bool → Input → Exponent
  failed : Reason → Input → Exponent

unfoldable pub parse_exp : ℕ → Input → Exponent
parse_exp base s =
    if is_exponent base (peek s)
    then (let s' = skip_if is_sign (consume s) in
        if is_digit (peek s') then exponent true (parse_digits 10 s') else failed empty_exponent s')
    else if base == 16
    then failed no_exponent s
    else exponent false s

-- The text of a floating-point literal for `strtod`.
abbrev pub sign_text : Option Bool → List ℕ
sign_text (some true) = b'-' ∷ []
sign_text _ = []

abbrev pub base_text : ℕ → List ℕ
base_text base = if base == 16 then b'0' ∷ b'x' ∷ [] else []

abbrev pub integer : Option Bool → ℕ → List ℕ → ℕ
integer none base text = strtoull base text
integer (some negative) base text = strtoll negative base text

abbrev pub is_nil : List ℕ → Bool
is_nil [] = true
is_nil (c ∷ cs) = false

abbrev pub is_signed : Option Bool → Bool
is_signed none = false
is_signed (some negative) = true

-- From the check for a stray sign on.
unfoldable pub finish_lit : Option Bool → ℕ → Bool → Input → Step
finish_lit sign base is_float s =
    if is_signed sign && is_nil s.str
    then fail_loc stray_sign s
    else if is_float
    then tok (real (sign_text sign ++ (base_text base ++ s.str))) s
    else tok (unsigned (integer sign base s.str)) s

-- Behind the exponent, or the error that it raised.
unfoldable pub finish_exp : Option Bool → ℕ → Bool → Exponent → Step
finish_exp sign base dot (exponent found s) = finish_lit sign base (dot || found) s
finish_exp sign base dot (failed why s) = fail_loc why s

-- From the fractional part on.
unfoldable pub lex_fraction : Option Bool → ℕ → Input → Step
lex_fraction sign base s =
    if base == 10 || base == 16
    then if peek s == b'.'
      then finish_exp sign base true (parse_exp base (parse_digits base (consume s)))
      else finish_exp sign base false (parse_exp base s)
    else finish_lit sign base false s

-- The loop over the subscripts, on fuel, with the digits that it writes to `mod`.
unfoldable pub subscripts : ℕ → Input → List ℕ → Input × List ℕ
subscripts zero s mod_ = (s, mod_)
subscripts (suc fuel) s mod_ = elim (is_subscript (peek s)) [
  | true ↦ subscripts fuel (next s) (mod_ ++ (peek s - 0x2080 + b'0') ∷ [])
  | false ↦ (s, mod_)
]

unfoldable pub lex_subscript : Input → Step
lex_subscript s =
    let (s', mod_) = subscripts (left s) s [] in
    tok (lit_idx_mod (strtoull 10 mod_) (strtoull 10 s.str)) s'

-- Behind the underscore of an index.
unfoldable pub lex_underscore : ℕ → Input → Step
lex_underscore i s =
    if is_digit (peek s)
    then (let s' = parse_digits 10 (consume s) in tok (lit_idx_mod (strtoull 10 s'.str) i) s')
    else fail_loc stray_underscore s

-- Behind the digits of an integer.
unfoldable pub lex_suffix : Option Bool → ℕ → Input → Step
lex_suffix sign base s =
    if not (is_signed sign) && base == 10
    then if is_subscript (peek s)
      then lex_subscript s
      else (if peek s == b'_'
          then lex_underscore (strtoull 10 s.str) (record (next s) { str = [] })
          else lex_fraction sign base s)
    else lex_fraction sign base s

-- The base that a character behind a leading zero stands for.
abbrev pub prefix_base : ℕ → ℕ
prefix_base c =
    if c == b'b' || c == b'B'
    then 2
    else if c == b'o' || c == b'O'
    then 8
    else if c == b'x' || c == b'X'
    then 16
    else 10

-- Behind the sign.
unfoldable pub lex_number : Option Bool → Input → Step
lex_number sign s =
    if peek s == b'0'
    then (let s' = next s in
        let base = prefix_base (peek s') in
        lex_suffix sign base (parse_digits base (if base == 10 then s' else next s')))
    else lex_suffix sign 10 (parse_digits 10 s)

unfoldable pub parse_lit : Input → Step
parse_lit s =
    if peek s == b'+'
    then lex_number (some false) (next s)
    else if peek s == b'-'
    then (let s' = next s in
        if peek s' == b'>' then tok (plain t_arrow) (consume s') else lex_number (some true) s')
    else lex_number none s
