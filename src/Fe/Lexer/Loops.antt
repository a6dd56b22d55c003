-- ===== src/Fe/Lexer/Loops.antt =====
-- The loops within a round of `lex`: those over a line, a comment, an identifier, digits, subscripts
-- and the lines of Markdown.
use thorin.Prelude.{
  ℕ, zero, suc, ◌+◌, ◌-◌, ◌≤◌, ◌≡◌, refl, ap, arith, false, not, ◌&&◌, List, [], ◌∷◌, ◌++◌, ◌==◌,
  Bool-cases, inl, inr,
}
use thorin.Util.Utf8.{eof}
use thorin.Fe.Chars.{is_id_part, is_subscript, is_digit_of}
use thorin.Fe.Input.{Input, peek, next, accept_while, next_while, left, live}
use thorin.Fe.Input.Progress.{left-next, peek-eof, accept_while_stops, next_while_stops}
use thorin.Fe.Literals.{subscripts, parse_digits}
use thorin.Fe.Lexer.{start_md, in_line, in_comment, md_lines}
use thorin.Fe.Lexer.Markdown.{md_lines_stops}

-- Each loop, begun at `s`, ends because its test fails there. That of `emit_md` is entered before the
-- end of the file.
pub record LoopsEnd (s : Input) : Type 0 where
  pub line : in_line (peek (next_while in_line s)) ≡ false
  pub comment : in_comment (peek (next_while in_comment s)) ≡ false
  pub word : is_id_part (peek (accept_while is_id_part s)) ≡ false
  pub digits : (base : ℕ) → is_digit_of base (peek (parse_digits base s)) ≡ false
  pub indices : is_subscript (peek (subscripts (left s) s []).0) ≡ false
  pub markdown : (not (peek s == eof) && start_md (md_lines (left s) s)) ≡ false

is_digit_of-eof : (base : ℕ) → is_digit_of base eof ≡ false
is_digit_of-eof base = ground arith

subscripts_stops :
    (n : ℕ) (s : Input) (text : List ℕ)
    → left s ≤ n
    → is_subscript (peek (subscripts n s text).0) ≡ false
unfolding subscripts
subscripts_stops zero s text h = ap is_subscript (peek-eof s h)
subscripts_stops (suc n) s text h = elim (Bool-cases (is_subscript (peek s))) [
  | inl e ↦
      let character : live (peek s) ≡ 1 = ground (arith, e) in
      ground (
        arith,
        subscripts_stops n (next s) (text ++ (peek s - 0x2080 + b'0') ∷ [])
            (omega (arith, left-next s, character)),
      )
  | inr e ↦ ground arith
]

markdown_stops : (s : Input) → (not (peek s == eof) && start_md (md_lines (left s) s)) ≡ false
markdown_stops s = elim (Bool-cases (peek s == eof)) [
  | inl e ↦ ground arith
  | inr e ↦ ground (arith, md_lines_stops (left s) s (omega arith) (ground arith))
]

pub loops_lem : (s : Input) → LoopsEnd s
loops_lem s = record {
  line = next_while_stops in_line refl s;
  comment = next_while_stops in_comment refl s;
  word = accept_while_stops is_id_part refl s;
  digits = λ base. accept_while_stops (is_digit_of base) (is_digit_of-eof base) s;
  indices = subscripts_stops (left s) s [] (omega arith);
  markdown = markdown_stops s;
}
