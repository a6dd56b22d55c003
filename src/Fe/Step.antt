-- ===== src/Fe/Step.antt =====
-- What one round of the loop in `Lexer::lex` comes to: a token, another round, or an error that is
-- thrown. The class `Tok` of thorin/fe/tok.h.
use thorin.Prelude.{ℕ, List}
use thorin.Fe.Token.{Tag, l_u, l_r, m_id, m_ax, m_i}
use thorin.Fe.Input.{Pos, Input}

-- A token with its payload. A floating-point literal keeps the text that is handed to `strtod`, an
-- index its size and its value.
pub data Tok : Type 0 where
  plain : Tag → Tok
  id ax : List ℕ → Tok
  unsigned : ℕ → Tok
  real : List ℕ → Tok
  index : ℕ → ℕ → Tok

abbrev pub tag_of : Tok → Tag
tag_of (plain t) = t
tag_of (id name) = m_id
tag_of (ax name) = m_ax
tag_of (unsigned n) = l_u
tag_of (real text) = l_r
tag_of (index size n) = m_i

pub data Reason : Type 0 where
  invalid_utf8 invalid_char no_comment not_pi bad_axiom unknown_keyword : Reason
  stray_underscore stray_sign empty_exponent no_exponent open_comment : Reason

-- The location of a token or an error is `loc_`, or the position of the next character alone.
pub data Step : Type 0 where
  token : Tok → Pos → Pos → Input → Step
  again : Input → Step
  fail : Reason → Pos → Pos → Step

abbrev pub tok : Tok → Input → Step
tok t s = token t s.begin s.finis s

abbrev pub fail_loc : Reason → Input → Step
fail_loc why s = fail why s.begin s.finis

abbrev pub fail_here : Reason → Input → Step
fail_here why s = fail why s.ahead0.pos s.ahead0.pos
