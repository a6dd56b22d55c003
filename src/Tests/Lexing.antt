-- ===== src/Tests/Lexing.antt =====
-- Instances for lexer.cpp.
use thorin.Prelude.{ℕ, suc, ◌≡◌, refl, true, false, some, [], ◌∷◌}
use thorin.Util.Utf8.{num_bytes, encode_rest, is_valid, first, append, encode, decode}
use thorin.Fe.Token
use thorin.Fe.Token.{Tag, tag2str}
use thorin.Fe.Input.{Input, peek, super_next, copy_md, consume, start, open_stream}
use thorin.Fe.Input.Taken.{taken, after, All}
use thorin.Fe.Step.{id, tok}
use thorin.Fe.Lexer.{lex_step, lex, md_fence, open_lexer}
use thorin.Fe.Lexer.Loops.{LoopsEnd}
use thorin.Fe.Lexer.Progress.{Ends, lex-Ends}
use thorin.Fe.Lexer.Tokens.{lex_written, lex-tag2str, lex_step-id}
use thorin.Fe.Chars.{is_id_part}

-- A comment that is not closed.
abbrev open_comment_text : Input
open_comment_text = open_lexer (b'/' ∷ b'*' ∷ b'x' ∷ []) false

lex-Ends_example : Ends open_comment_text (lex open_comment_text) × LoopsEnd open_comment_text
lex-Ends_example = lex-Ends open_comment_text

lex-tag2str_example : lex_written (tag2str Token.t_colon_colon) ≡ some Token.t_colon_colon
lex-tag2str_example = lex-tag2str Token.t_colon_colon refl

-- The text `ab1 `.
abbrev word_text : Input
word_text = open_lexer (b'a' ∷ b'b' ∷ b'1' ∷ b' ' ∷ []) false

word_text-peek : peek word_text ≡ b'a'
unfolding open_lexer md_fence open_stream super_next encode encode_rest num_bytes first append
    is_valid
word_text-peek = refl

lex_step-id_example :
    (n : ℕ) × (lex_step word_text
      ≡ some (tok (id (taken (suc n) (start word_text))) (after (suc n) (start word_text))))
    × All is_id_part n (consume (start word_text))
    × (is_id_part (peek (after (suc n) (start word_text))) ≡ false)
lex_step-id_example = lex_step-id word_text (rw word_text-peek refl)

-- The text `0x1F;`.
abbrev hexadecimal_text : Input
hexadecimal_text = open_lexer (b'0' ∷ b'x' ∷ b'1' ∷ b'F' ∷ b';' ∷ []) false

-- The text `0;`, behind a sign.
abbrev zero_text : Input
zero_text = open_lexer (b'0' ∷ b';' ∷ []) false

-- A character that `encode` reads and `decode` refuses, copied to the Markdown output.
beyond_failed : (copy_md (open_lexer [] true) 0x110000).failed ≡ true
unfolding copy_md decode open_lexer md_fence open_stream super_next encode encode_rest num_bytes
    first append is_valid
beyond_failed = refl
