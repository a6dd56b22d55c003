-- ===== src/Fe/Lexer/Tokens.antt =====
-- Which token the loop of `lex` reads.
use thorin.Prelude.{
  ℕ, suc, ap, ap₂, ◌∙◌, ◌≡◌, refl, arith, Bool, true, false, not, ◌&&◌, Option, none, some, List,
  [], ◌∷◌, ◌++◌,
}
use thorin.Util.Utf8.{num_bytes, encode_rest, is_valid, first, append, encode}
use thorin.Fe.Token
use thorin.Fe.Token.{Tag, tag2str, tags, number, delim_l2r, keywords}
use thorin.Fe.Chars.{is_id_start, is_id_part}
use thorin.Fe.Input.{
  Input, peek, super_next, copy_md, next, consume, accept_fuel, left, accept_while, start,
  open_stream,
}
use thorin.Fe.Input.Taken.{taken, after, All, str-after, accept_while-Reading}
use thorin.Fe.Input.Progress.{accept_while_stops}
use thorin.Fe.Step.{id, tag_of, Step, token, tok}
use thorin.Fe.Lexer.{
  singles, single, keyword, lex_double, lex_id, lex_keyword, lex_dot, md_fence, lex_other, lex_step,
  lex_fuel, lex, open_lexer,
}

-- The tags that stand for one text.
abbrev pub is_fixed : Tag → Bool
is_fixed Token.l_s = false
is_fixed Token.l_u = false
is_fixed Token.l_r = false
is_fixed Token.m_eof = false
is_fixed Token.m_id = false
is_fixed Token.m_ax = false
is_fixed Token.m_i = false
is_fixed Token.nil = false
is_fixed _ = true

abbrev pub tag_read : Option Step → Option Tag
tag_read (some (token t b e s)) = some (tag_of t)
tag_read _ = none

-- The first token of a file that holds a text and a space.
abbrev pub lex_first : List ℕ → Option Tag
lex_first text = tag_read (lex (open_lexer (text ++ b' ' ∷ []) false))

abbrev pub lex_written : Option (List ℕ) → Option Tag
lex_written none = none
lex_written (some text) = lex_first text

-- No character of the table begins an identifier.
abbrev letters_free : List (ℕ × Tag) → Bool
letters_free [] = true
letters_free ((d, tag) ∷ rest) = not (is_id_start d) && letters_free rest

-- Each tag that stands for one text is read back from the text that `tag2str` writes for it.
pub lex-tag2str : (tag : Tag) → is_fixed tag ≡ true → lex_written (tag2str tag) ≡ some tag
unfolding tag2str lex lex_fuel lex_step open_lexer md_fence open_stream super_next encode
    encode_rest num_bytes first append is_valid next consume copy_md left single lex_other
    lex_double lex_dot lex_id lex_keyword keyword accept_while accept_fuel
lex-tag2str Token.k_module h = refl
lex-tag2str Token.k_import h = refl
lex-tag2str Token.k_ax h = refl
lex-tag2str Token.k_def h = refl
lex-tag2str Token.k_let h = refl
lex-tag2str Token.k_bool h = refl
lex-tag2str Token.k_nat h = refl
lex-tag2str Token.k_idx h = refl
lex-tag2str Token.k_extern h = refl
lex-tag2str Token.k_arr h = refl
lex-tag2str Token.k_sigma h = refl
lex-tag2str Token.k_type h = refl
lex-tag2str Token.k_univ h = refl
lex-tag2str Token.k_pack h = refl
lex-tag2str Token.k_cn_type h = refl
lex-tag2str Token.k_fn_type h = refl
lex-tag2str Token.k_pi h = refl
lex-tag2str Token.k_con h = refl
lex-tag2str Token.k_fun h = refl
lex-tag2str Token.k_lam h = refl
lex-tag2str Token.k_cn h = refl
lex-tag2str Token.k_fn h = refl
lex-tag2str Token.k_ff h = refl
lex-tag2str Token.k_tt h = refl
lex-tag2str Token.k_ins h = refl
lex-tag2str Token.d_angle_l h = refl
lex-tag2str Token.d_angle_r h = refl
lex-tag2str Token.d_brace_l h = refl
lex-tag2str Token.d_brace_r h = refl
lex-tag2str Token.d_brckt_l h = refl
lex-tag2str Token.d_brckt_r h = refl
lex-tag2str Token.d_paren_l h = refl
lex-tag2str Token.d_paren_r h = refl
lex-tag2str Token.d_quote_l h = refl
lex-tag2str Token.d_quote_r h = refl
lex-tag2str Token.t_pi h = refl
lex-tag2str Token.t_arrow h = refl
lex-tag2str Token.t_assign h = refl
lex-tag2str Token.t_at h = refl
lex-tag2str Token.t_bang h = refl
lex-tag2str Token.t_bot h = refl
lex-tag2str Token.t_top h = refl
lex-tag2str Token.t_box h = refl
lex-tag2str Token.t_colon h = refl
lex-tag2str Token.t_colon_colon h = refl
lex-tag2str Token.t_comma h = refl
lex-tag2str Token.t_dot h = refl
lex-tag2str Token.t_extract h = refl
lex-tag2str Token.t_lm h = refl
lex-tag2str Token.t_semicolon h = refl
lex-tag2str Token.t_star h = refl
lex-tag2str _ h = cc

-- The closing delimiter stands behind the opening one in the enumeration.
abbrev closing : Tag → Option Tag
closing Token.d_angle_l = some Token.d_angle_r
closing Token.d_brace_l = some Token.d_brace_r
closing Token.d_brckt_l = some Token.d_brckt_r
closing Token.d_paren_l = some Token.d_paren_r
closing Token.d_quote_l = some Token.d_quote_r
closing _ = none

-- `delim_l2r` yields the closing delimiter of each opening one.
pub delim_l2r-closing : (l r : Tag) → closing l ≡ some r → delim_l2r l ≡ some r
unfolding delim_l2r
delim_l2r-closing Token.d_angle_l r h = h
delim_l2r-closing Token.d_brace_l r h = h
delim_l2r-closing Token.d_brckt_l r h = h
delim_l2r-closing Token.d_paren_l r h = h
delim_l2r-closing Token.d_quote_l r h = h
delim_l2r-closing _ r h = cc

single_letter :
    (table : List (ℕ × Tag)) (c : ℕ)
    → is_id_start c ≡ true
    → letters_free table ≡ true
    → single table c ≡ none
unfolding single
single_letter [] c h k = refl
single_letter ((d, tag) ∷ rest) c h k = ground (arith, single_letter rest c h)

lex_other_id :
    (s : Input)
    → is_id_start (peek s) ≡ true
    → lex_other s ≡ some (tok (id (lex_id s).str) (lex_id s))
unfolding lex_other
lex_other_id s h = ground arith

-- An identifier is the longest run of characters that may stand in one: the token's text is the first
-- character and the `n` behind it, all of which may continue an identifier, the lexer stands behind
-- them, and the character that comes next may not continue one.
pub lex_step-id :
    (s : Input)
    → is_id_start (peek s) ≡ true
    → (n : ℕ) × (lex_step s ≡ some (tok (id (taken (suc n) (start s))) (after (suc n) (start s))))
      × All is_id_part n (consume (start s))
      × (is_id_part (peek (after (suc n) (start s))) ≡ false)
unfolding lex_step lex_id
lex_step-id s h =
    let first = consume (start s) in
    let word = accept_while is_id_part first in
    let read = accept_while-Reading is_id_part first in
    let text : word.str ≡ taken (suc read.count) (start s) =
      ap (λ (t : Input). t.str) read.reached ∙ str-after (suc read.count) (start s) in
    let step : lex_step s ≡ some (tok (id word.str) word) =
      ground (arith, lex_other_id (start s) h, single_letter singles (peek s) h refl) in
    (
      read.count,
      step ∙ ap₂ (λ (l : List ℕ) (t : Input). some (tok (id l) t)) text read.reached,
      read.accepted,
      rw (← read.reached) (accept_while_stops is_id_part refl first),
    )
