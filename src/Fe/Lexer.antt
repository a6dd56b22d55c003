-- ===== src/Fe/Lexer.antt =====
-- `Lexer` of thorin/fe/lexer.h and lexer.cpp: the loop of `lex`, identifiers, comments and the
-- Markdown in comments.
pub mod Markdown
pub mod Loops
pub mod Progress
pub mod Tokens
use thorin.Prelude.{
  ℕ, zero, suc, ◌+◌, Bool, true, false, not, ◌&&◌, ◌||◌, Option, none, some, List, [], ◌∷◌, ◌++◌,
  ◌==◌, if◌then◌else◌,
}
use thorin.Util.Utf8.{eof, err}
use thorin.Fe.Token.{
  Tag, m_eof, d_angle_l, d_angle_r, d_brace_l, d_brace_r, d_brckt_l, d_brckt_r, d_paren_l,
  d_paren_r, d_quote_l, d_quote_r, t_pi, t_arrow, t_assign, t_at, t_bang, t_bot, t_top, t_box,
  t_colon, t_colon_colon, t_comma, t_dot, t_extract, t_lm, t_semicolon, t_star, keywords,
}
use thorin.Fe.Chars.{is_space, is_digit, is_sign, is_id_start, is_id_part}
use thorin.Fe.Input.{
  Input, peek, next, consume, skip_if, accept_while, next_while, left, start, open_stream,
}
use thorin.Fe.Step.{
  Tok, plain, id, ax, Reason, invalid_utf8, invalid_char, no_comment, not_pi, bad_axiom,
  unknown_keyword, open_comment, Step, token, again, fail, tok, fail_loc, fail_here,
}
use thorin.Fe.Literals.{parse_lit, parse_exp, parse_digits, finish_exp}

-- The characters that are a token whatever follows, in the order of the tests.
abbrev pub singles : List (ℕ × Tag)
singles =
    (b'(', d_paren_l)
    ∷ (b')', d_paren_r)
    ∷ (b'[', d_brckt_l)
    ∷ (b']', d_brckt_r)
    ∷ (b'{', d_brace_l)
    ∷ (b'}', d_brace_r)
    ∷ (0xab, d_quote_l)
    ∷ (0xbb, d_quote_r)
    ∷ (0x27ea, d_quote_l)
    ∷ (0x27eb, d_quote_r)
    ∷ (0x2039, d_angle_l)
    ∷ (0x203a, d_angle_r)
    ∷ (0x27e8, d_angle_l)
    ∷ (0x27e9, d_angle_r)
    ∷ (0x3bb, t_lm)
    ∷ (0x2192, t_arrow)
    ∷ (b'@', t_at)
    ∷ (b'=', t_assign)
    ∷ (b'!', t_bang)
    ∷ (0x22a5, t_bot)
    ∷ (0x22a4, t_top)
    ∷ (0x25a1, t_box)
    ∷ (b',', t_comma)
    ∷ (b'#', t_extract)
    ∷ (0x3a0, t_pi)
    ∷ (b';', t_semicolon)
    ∷ (0x2605, t_star)
    ∷ (b'*', t_star)
    ∷ []

unfoldable pub single : List (ℕ × Tag) → ℕ → Option Tag
single [] c = none
single ((d, tag) ∷ rest) c = if d == c then some tag else single rest c

unfoldable pub same_text : List ℕ → List ℕ → Bool
same_text [] [] = true
same_text (c ∷ cs) (d ∷ ds) = c == d && same_text cs ds
same_text _ _ = false

-- `keywords_.find`. A substitute that is entered later replaces an entry; no text occurs twice.
unfoldable pub keyword : List (List ℕ × Tag) → List ℕ → Option Tag
unfolding same_text
keyword [] text = none
keyword ((key, tag) ∷ rest) text = if same_text key text then some tag else keyword rest text

-- `<`, `>` and `:`, alone or doubled.
unfoldable pub lex_double : ℕ → Tag → Tag → Input → Step
lex_double c alone doubled s =
    let s' = consume s in
    if peek s' == c then tok (plain doubled) (consume s') else tok (plain alone) s'

-- `|~|`
unfoldable pub lex_pi : Input → Step
lex_pi s =
    let s' = skip_if (λ c. c == b'~') (consume s) in
    if peek (consume s) == b'~' && peek s' == b'|'
    then tok (plain t_pi) (consume s')
    else fail_loc not_pi s'

-- The rest of an identifier behind its first character.
unfoldable pub lex_id : Input → Input
lex_id s = accept_while is_id_part (consume s)

unfoldable pub lex_axiom : Input → Step
lex_axiom s =
    let s' = consume s in
    if is_id_start (peek s') then tok (ax (lex_id s').str) (lex_id s') else fail_loc bad_axiom s'

unfoldable pub lex_keyword : Input → Step
lex_keyword s = elim (keyword keywords s.str) [
  | some tag ↦ tok (plain tag) s
  | none ↦ fail_here unknown_keyword s
]

-- Behind `.`: a keyword, a number without an integral part, or the dot.
unfoldable pub lex_dot : Input → Step
lex_dot s =
    let s' = consume s in
    if is_id_start (peek s')
    then lex_keyword (lex_id s')
    else if is_digit (peek s')
    then finish_exp none 10 true (parse_exp 10 (parse_digits 10 (consume s')))
    else tok (plain t_dot) s'

abbrev pub start_md : Input → Bool
start_md s = s.ahead0.c32 == b'/' && (s.ahead1.c32 == b'/' && s.ahead2.c32 == b'/')

abbrev pub in_line : ℕ → Bool
in_line c = not (c == eof) && not (c == b'\n')

abbrev fence : List ℕ
fence = 96 ∷ 96 ∷ 96 ∷ 10 ∷ []

unfoldable pub md_fence : Input → Input
md_fence s = if s.md then record s { written = s.written ++ fence } else s

-- One round of the loop in `emit_md`: the slashes and a space are dropped, the line is copied.
unfoldable pub md_line : Input → Input
md_line s =
    let s' = skip_if (λ c. c == b' ') (next (next (next (record s { out = false })))) in
    skip_if (λ c. c == b'\n') (next_while in_line (record s' { out = true }))

-- The loop runs once, and again while the next line begins with three slashes.
unfoldable pub md_lines : ℕ → Input → Input
md_lines zero s = md_line s
md_lines (suc fuel) s = elim (start_md (md_line s)) [
  | true ↦ md_lines fuel (md_line s)
  | false ↦ md_line s
]

unfoldable pub emit_md : Bool → Input → Input
emit_md start_of_file s =
    let s' = if start_of_file then s else md_fence s in
    let s'' = md_lines (left s') s' in
    if peek s'' == eof then record s'' { out = false } else md_fence s''

abbrev pub in_comment : ℕ → Bool
in_comment c = not (c == eof) && not (c == b'*')

-- The loop of `eat_comments` on fuel; `none` is a fuel that ran out.
unfoldable pub comment_fuel : ℕ → Input → Option Step
comment_fuel zero s = none
comment_fuel (suc fuel) s =
    let s' = next_while in_comment s in
    elim (peek s' == eof) [
      | true ↦ some (fail_loc open_comment (consume s'))
      | false ↦ elim (peek (next s') == b'/') [
        | true ↦ some (again (consume (next s')))
        | false ↦ comment_fuel fuel (next s')
      ]
    ]

unfoldable pub eat_comments : Input → Option Step
eat_comments s = comment_fuel (left s + 1) s

-- Behind a slash that begins no Markdown.
unfoldable pub lex_slash : Input → Option Step
lex_slash s =
    let s' = consume s in
    if peek s' == b'*'
    then eat_comments (consume s')
    else if peek s' == b'/'
    then some (again (next_while in_line (consume s')))
    else some (fail_here no_comment s')

-- The tests behind those for delimiters. `none` is a fuel that ran out.
unfoldable pub lex_other : Input → Option Step
lex_other s =
    let c = peek s in
    if c == b'<'
    then some (lex_double b'<' d_angle_l d_quote_l s)
    else if c == b'>'
    then some (lex_double b'>' d_angle_r d_quote_r s)
    else if c == b':'
    then some (lex_double b':' t_colon t_colon_colon s)
    else if c == b'|'
    then some (lex_pi s)
    else if c == b'%'
    then some (lex_axiom s)
    else if c == b'.'
    then some (lex_dot s)
    else if is_id_start c
    then some (tok (id (lex_id s).str) (lex_id s))
    else if is_digit c || is_sign c
    then some (parse_lit s)
    else if start_md s
    then some (again (emit_md false s))
    else if c == b'/'
    then lex_slash s
    else some (fail_here invalid_char s)

-- One round of the loop of `lex`.
unfoldable pub lex_step : Input → Option Step
lex_step s' =
    let s = start s' in
    if is_space (peek s)
    then some (again (consume s))
    else if peek s == err
    then some (fail_loc invalid_utf8 (consume s))
    else if peek s == eof
    then some (tok (plain m_eof) (consume s))
    else elim (single singles (peek s)) [
      | some tag ↦ some (tok (plain tag) (consume s))
      | none ↦ lex_other s
    ]

-- `lex` on fuel: the token or the error that the loop ends in.
unfoldable pub lex_fuel : ℕ → Input → Option Step
lex_fuel zero s = none
lex_fuel (suc fuel) s = elim (lex_step s) [
  | none ↦ none
  | some step ↦ elim step [
    | again s' ↦ lex_fuel fuel s'
    | token t b e s' ↦ some (token t b e s')
    | fail why b e ↦ some (fail why b e)
  ]
]

unfoldable pub lex : Input → Option Step
lex s = lex_fuel (left s + 1) s

-- The constructor.
unfoldable pub open_lexer : List ℕ → Bool → Input
open_lexer bytes md =
    let s = open_stream bytes md in if start_md s then emit_md true s else md_fence s
