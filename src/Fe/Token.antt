-- ===== src/Fe/Token.antt =====
-- thorin/fe/tok.h and tok.cpp: the tags of tokens, how they are written, and precedences. The names
-- of the constructors are those of the source in lower case; `k_cn_type` and `k_fn_type` stand for
-- `K_Cn` and `K_Fn`.
use thorin.Prelude.{ℕ, ◌+◌, List, [], ◌∷◌, Option, some, none, get_elem?}

pub data Tag : Type 0 where
  k_module k_import k_ax k_def k_let k_bool k_nat k_idx k_extern : Tag
  k_arr k_sigma k_type k_univ k_pack k_cn_type k_fn_type k_pi k_con : Tag
  k_fun k_lam k_cn k_fn k_ff k_tt k_ins l_s l_u : Tag
  l_r m_eof m_id m_ax m_i d_angle_l d_angle_r d_brace_l d_brace_r : Tag
  d_brckt_l d_brckt_r d_paren_l d_paren_r d_quote_l d_quote_r t_pi t_arrow t_assign : Tag
  t_at t_bang t_bot t_top t_box t_colon t_colon_colon t_comma t_dot : Tag
  t_extract t_lm t_semicolon t_star nil : Tag

-- The bytes of `tag2str`, in UTF-8. `Nil` is unreachable there.
unfoldable pub tag2str : Tag → Option (List ℕ)
tag2str k_module = some (b'.' ∷ b'm' ∷ b'o' ∷ b'd' ∷ b'u' ∷ b'l' ∷ b'e' ∷ [])
tag2str k_import = some (b'.' ∷ b'i' ∷ b'm' ∷ b'p' ∷ b'o' ∷ b'r' ∷ b't' ∷ [])
tag2str k_ax = some (b'.' ∷ b'a' ∷ b'x' ∷ [])
tag2str k_def = some (b'.' ∷ b'd' ∷ b'e' ∷ b'f' ∷ [])
tag2str k_let = some (b'.' ∷ b'l' ∷ b'e' ∷ b't' ∷ [])
tag2str k_bool = some (b'.' ∷ b'B' ∷ b'o' ∷ b'o' ∷ b'l' ∷ [])
tag2str k_nat = some (b'.' ∷ b'N' ∷ b'a' ∷ b't' ∷ [])
tag2str k_idx = some (b'.' ∷ b'I' ∷ b'd' ∷ b'x' ∷ [])
tag2str k_extern = some (b'.' ∷ b'e' ∷ b'x' ∷ b't' ∷ b'e' ∷ b'r' ∷ b'n' ∷ [])
tag2str k_arr = some (b'.' ∷ b'A' ∷ b'r' ∷ b'r' ∷ [])
tag2str k_sigma = some (b'.' ∷ b'S' ∷ b'i' ∷ b'g' ∷ b'm' ∷ b'a' ∷ [])
tag2str k_type = some (b'.' ∷ b'T' ∷ b'y' ∷ b'p' ∷ b'e' ∷ [])
tag2str k_univ = some (b'.' ∷ b'U' ∷ b'n' ∷ b'i' ∷ b'v' ∷ [])
tag2str k_pack = some (b'.' ∷ b'p' ∷ b'a' ∷ b'c' ∷ b'k' ∷ [])
tag2str k_cn_type = some (b'.' ∷ b'C' ∷ b'n' ∷ [])
tag2str k_fn_type = some (b'.' ∷ b'F' ∷ b'n' ∷ [])
tag2str k_pi = some (b'.' ∷ b'P' ∷ b'i' ∷ [])
tag2str k_con = some (b'.' ∷ b'c' ∷ b'o' ∷ b'n' ∷ [])
tag2str k_fun = some (b'.' ∷ b'f' ∷ b'u' ∷ b'n' ∷ [])
tag2str k_lam = some (b'.' ∷ b'l' ∷ b'a' ∷ b'm' ∷ [])
tag2str k_cn = some (b'.' ∷ b'c' ∷ b'n' ∷ [])
tag2str k_fn = some (b'.' ∷ b'f' ∷ b'n' ∷ [])
tag2str k_ff = some (b'.' ∷ b'f' ∷ b'f' ∷ [])
tag2str k_tt = some (b'.' ∷ b't' ∷ b't' ∷ [])
tag2str k_ins = some (b'.' ∷ b'i' ∷ b'n' ∷ b's' ∷ [])
tag2str l_s = some (
    b'<' ∷ b's' ∷ b'i' ∷ b'g' ∷ b'n' ∷ b'e' ∷ b'd' ∷ b' ' ∷ b'i' ∷ b'n' ∷ b't' ∷ b'e' ∷ b'g' ∷ b'e'
    ∷ b'r' ∷ b' ' ∷ b'l' ∷ b'i' ∷ b't' ∷ b'e' ∷ b'r' ∷ b'a' ∷ b'l' ∷ b'>' ∷ [])
tag2str l_u = some (
    b'<' ∷ b'i' ∷ b'n' ∷ b't' ∷ b'e' ∷ b'g' ∷ b'e' ∷ b'r' ∷ b' ' ∷ b'l' ∷ b'i' ∷ b't' ∷ b'e' ∷ b'r'
    ∷ b'a' ∷ b'l' ∷ b'>' ∷ [])
tag2str l_r = some (
    b'<' ∷ b'f' ∷ b'l' ∷ b'o' ∷ b'a' ∷ b't' ∷ b'i' ∷ b'n' ∷ b'g' ∷ b'-' ∷ b'p' ∷ b'o' ∷ b'i' ∷ b'n'
    ∷ b't' ∷ b' ' ∷ b'l' ∷ b'i' ∷ b't' ∷ b'e' ∷ b'r' ∷ b'a' ∷ b'l' ∷ b'>' ∷ [])
tag2str m_eof = some (b'<' ∷ b'e' ∷ b'o' ∷ b'f' ∷ b'>' ∷ [])
tag2str m_id =
    some (b'<' ∷ b'i' ∷ b'd' ∷ b'e' ∷ b'n' ∷ b't' ∷ b'i' ∷ b'f' ∷ b'i' ∷ b'e' ∷ b'r' ∷ b'>' ∷ [])
tag2str m_ax =
    some (b'<' ∷ b'a' ∷ b'x' ∷ b'i' ∷ b'o' ∷ b'm' ∷ b' ' ∷ b'n' ∷ b'a' ∷ b'm' ∷ b'e' ∷ b'>' ∷ [])
tag2str m_i = some (b'<' ∷ b'i' ∷ b'n' ∷ b'd' ∷ b'e' ∷ b'x' ∷ b'>' ∷ [])
tag2str d_angle_l = some (226 ∷ 128 ∷ 185 ∷ [])
tag2str d_angle_r = some (226 ∷ 128 ∷ 186 ∷ [])
tag2str d_brace_l = some (b'{' ∷ [])
tag2str d_brace_r = some (b'}' ∷ [])
tag2str d_brckt_l = some (b'[' ∷ [])
tag2str d_brckt_r = some (b']' ∷ [])
tag2str d_paren_l = some (b'(' ∷ [])
tag2str d_paren_r = some (b')' ∷ [])
tag2str d_quote_l = some (194 ∷ 171 ∷ [])
tag2str d_quote_r = some (194 ∷ 187 ∷ [])
tag2str t_pi = some (206 ∷ 160 ∷ [])
tag2str t_arrow = some (226 ∷ 134 ∷ 146 ∷ [])
tag2str t_assign = some (b'=' ∷ [])
tag2str t_at = some (b'@' ∷ [])
tag2str t_bang = some (b'!' ∷ [])
tag2str t_bot = some (226 ∷ 138 ∷ 165 ∷ [])
tag2str t_top = some (226 ∷ 138 ∷ 164 ∷ [])
tag2str t_box = some (226 ∷ 150 ∷ 161 ∷ [])
tag2str t_colon = some (b':' ∷ [])
tag2str t_colon_colon = some (b':' ∷ b':' ∷ [])
tag2str t_comma = some (b',' ∷ [])
tag2str t_dot = some (b'.' ∷ [])
tag2str t_extract = some (b'#' ∷ [])
tag2str t_lm = some (206 ∷ 187 ∷ [])
tag2str t_semicolon = some (b';' ∷ [])
tag2str t_star = some (b'*' ∷ [])
tag2str nil = none

-- The tags in the order of the enumeration.
abbrev pub tags : List Tag
tags =
    k_module ∷ k_import ∷ k_ax ∷ k_def ∷ k_let ∷ k_bool ∷ k_nat ∷ k_idx ∷ k_extern ∷ k_arr ∷ k_sigma
    ∷ k_type ∷ k_univ ∷ k_pack ∷ k_cn_type ∷ k_fn_type ∷ k_pi ∷ k_con ∷ k_fun ∷ k_lam ∷ k_cn ∷ k_fn
    ∷ k_ff ∷ k_tt ∷ k_ins ∷ l_s ∷ l_u ∷ l_r ∷ m_eof ∷ m_id ∷ m_ax ∷ m_i ∷ d_angle_l ∷ d_angle_r
    ∷ d_brace_l ∷ d_brace_r ∷ d_brckt_l ∷ d_brckt_r ∷ d_paren_l ∷ d_paren_r ∷ d_quote_l ∷ d_quote_r
    ∷ t_pi ∷ t_arrow ∷ t_assign ∷ t_at ∷ t_bang ∷ t_bot ∷ t_top ∷ t_box ∷ t_colon ∷ t_colon_colon
    ∷ t_comma ∷ t_dot ∷ t_extract ∷ t_lm ∷ t_semicolon ∷ t_star ∷ nil ∷ []

unfoldable pub number : Tag → ℕ
number k_module = 0
number k_import = 1
number k_ax = 2
number k_def = 3
number k_let = 4
number k_bool = 5
number k_nat = 6
number k_idx = 7
number k_extern = 8
number k_arr = 9
number k_sigma = 10
number k_type = 11
number k_univ = 12
number k_pack = 13
number k_cn_type = 14
number k_fn_type = 15
number k_pi = 16
number k_con = 17
number k_fun = 18
number k_lam = 19
number k_cn = 20
number k_fn = 21
number k_ff = 22
number k_tt = 23
number k_ins = 24
number l_s = 25
number l_u = 26
number l_r = 27
number m_eof = 28
number m_id = 29
number m_ax = 30
number m_i = 31
number d_angle_l = 32
number d_angle_r = 33
number d_brace_l = 34
number d_brace_r = 35
number d_brckt_l = 36
number d_brckt_r = 37
number d_paren_l = 38
number d_paren_r = 39
number d_quote_l = 40
number d_quote_r = 41
number t_pi = 42
number t_arrow = 43
number t_assign = 44
number t_at = 45
number t_bang = 46
number t_bot = 47
number t_top = 48
number t_box = 49
number t_colon = 50
number t_colon_colon = 51
number t_comma = 52
number t_dot = 53
number t_extract = 54
number t_lm = 55
number t_semicolon = 56
number t_star = 57
number nil = 58

-- `Tok::Tag(int(tag) + 1)`
unfoldable pub delim_l2r : Tag → Option Tag
unfolding number
delim_l2r tag = get_elem? tags (number tag + 1)

-- `keywords_`: what the constructor of the lexer enters, the substitutes behind the keywords.
abbrev pub keywords : List (List ℕ × Tag)
keywords =
    (b'.' ∷ b'm' ∷ b'o' ∷ b'd' ∷ b'u' ∷ b'l' ∷ b'e' ∷ [], k_module)
    ∷ (b'.' ∷ b'i' ∷ b'm' ∷ b'p' ∷ b'o' ∷ b'r' ∷ b't' ∷ [], k_import)
    ∷ (b'.' ∷ b'a' ∷ b'x' ∷ [], k_ax)
    ∷ (b'.' ∷ b'd' ∷ b'e' ∷ b'f' ∷ [], k_def)
    ∷ (b'.' ∷ b'l' ∷ b'e' ∷ b't' ∷ [], k_let)
    ∷ (b'.' ∷ b'B' ∷ b'o' ∷ b'o' ∷ b'l' ∷ [], k_bool)
    ∷ (b'.' ∷ b'N' ∷ b'a' ∷ b't' ∷ [], k_nat)
    ∷ (b'.' ∷ b'I' ∷ b'd' ∷ b'x' ∷ [], k_idx)
    ∷ (b'.' ∷ b'e' ∷ b'x' ∷ b't' ∷ b'e' ∷ b'r' ∷ b'n' ∷ [], k_extern)
    ∷ (b'.' ∷ b'A' ∷ b'r' ∷ b'r' ∷ [], k_arr)
    ∷ (b'.' ∷ b'S' ∷ b'i' ∷ b'g' ∷ b'm' ∷ b'a' ∷ [], k_sigma)
    ∷ (b'.' ∷ b'T' ∷ b'y' ∷ b'p' ∷ b'e' ∷ [], k_type)
    ∷ (b'.' ∷ b'U' ∷ b'n' ∷ b'i' ∷ b'v' ∷ [], k_univ)
    ∷ (b'.' ∷ b'p' ∷ b'a' ∷ b'c' ∷ b'k' ∷ [], k_pack)
    ∷ (b'.' ∷ b'C' ∷ b'n' ∷ [], k_cn_type)
    ∷ (b'.' ∷ b'F' ∷ b'n' ∷ [], k_fn_type)
    ∷ (b'.' ∷ b'P' ∷ b'i' ∷ [], k_pi)
    ∷ (b'.' ∷ b'c' ∷ b'o' ∷ b'n' ∷ [], k_con)
    ∷ (b'.' ∷ b'f' ∷ b'u' ∷ b'n' ∷ [], k_fun)
    ∷ (b'.' ∷ b'l' ∷ b'a' ∷ b'm' ∷ [], k_lam)
    ∷ (b'.' ∷ b'c' ∷ b'n' ∷ [], k_cn)
    ∷ (b'.' ∷ b'f' ∷ b'n' ∷ [], k_fn)
    ∷ (b'.' ∷ b'f' ∷ b'f' ∷ [], k_ff)
    ∷ (b'.' ∷ b't' ∷ b't' ∷ [], k_tt)
    ∷ (b'.' ∷ b'i' ∷ b'n' ∷ b's' ∷ [], k_ins)
    ∷ (b'.' ∷ b'l' ∷ b'm' ∷ [], t_lm)
    ∷ (b'.' ∷ b'b' ∷ b'o' ∷ b't' ∷ [], t_bot)
    ∷ (b'.' ∷ b't' ∷ b'o' ∷ b'p' ∷ [], t_top)
    ∷ (b'.' ∷ b'i' ∷ b'n' ∷ b's' ∷ b'e' ∷ b'r' ∷ b't' ∷ [], k_ins)
    ∷ []

-- Precedences, from the loosest to the tightest.
pub data Prec : Type 0 where
  bot unbound arrow lam pi app extract lit : Prec

-- The precedences to the left and to the right of an operator.
unfoldable pub prec : Prec → Prec × Prec
prec bot = (unbound, unbound)
prec unbound = (unbound, unbound)
prec arrow = (lam, arrow)
prec lam = (unbound, pi)
prec pi = (unbound, app)
prec app = (app, extract)
prec extract = (extract, lit)
prec lit = (unbound, lit)
