-- ===== src/Fe/Input.antt =====
-- The template `utf8::Lexer` of thorin/util/utf8.h with three characters of lookahead, and `next` of
-- thorin/fe/lexer.h, which also copies what is read to the Markdown output.
pub mod Progress
pub mod Taken
use thorin.Prelude.{
  ℕ, zero, suc, ◌+◌, ◌-◌, ◌%◌, ◌^◌, Bool, true, false, not, ◌&&◌, Option, none, some, List, [], ◌∷◌,
  ◌++◌, ◌==◌, if◌then◌else◌, length,
}
use thorin.Util.Utf8.{eof, err, bom, encode, decode}

pub record Pos : Type 0 where
  pub row : ℕ
  pub col : ℕ

pub record Ahead : Type 0 where
  pub c32 : ℕ
  pub pos : Pos

-- The stream is the list of bytes left. `begin` and `finis` are those of `loc_`, and `written` is what
-- has gone to `md_`, if there is one. `failed` says that the assertion of `next` has failed; what
-- comes behind it is what the code does without assertions.
pub record Input : Type 0 where
  pub stream : List ℕ
  pub ahead0 : Ahead
  pub ahead1 : Ahead
  pub ahead2 : Ahead
  pub begin : Pos
  pub finis : Pos
  pub str : List ℕ
  pub md : Bool
  pub out : Bool
  pub written : List ℕ
  pub failed : Bool

-- The position of the character `c` that comes behind `prev`.
abbrev pub advance : Pos → ℕ → Pos
advance prev c =
    if c == b'\n'
    then record { row = prev.row + 1; col = 0 }
    else if c == eof
    then prev
    else record { row = prev.row; col = prev.col + 1 }

-- `utf8::Lexer::next`, without its result.
unfoldable pub super_next : Input → Input
super_next s =
    let (c, rest) = encode s.stream in
    record s {
      stream = rest;
      ahead0 = s.ahead1;
      ahead1 = s.ahead2;
      ahead2 = record { c32 = c; pos = advance s.ahead2.pos c };
      finis = s.ahead0.pos;
    }

abbrev pub peek : Input → ℕ
peek s = s.ahead0.c32

-- What `next` does to the Markdown output with the character `c` that was read. For a character that
-- `decode` refuses nothing is written, and the assertion fails.
unfoldable pub copy_md : Input → ℕ → Input
copy_md s c =
    if not (s.md && s.out)
    then s
    else if c == eof
    then record s { written = s.written ++ (10 ∷ 96 ∷ 96 ∷ 96 ∷ 10 ∷ []); out = false }
    else if c == err
    then s
    else elim (decode c) [
      | none ↦ record s { failed = true }
      | some bytes ↦ record s { written = s.written ++ bytes }
    ]

unfoldable pub next : Input → Input
next s = copy_md (super_next s) (peek s)

-- `next` behind a test that held: what was accepted is appended to `str_`, as a `char`.
unfoldable pub consume : Input → Input
consume s = next (record s { str = s.str ++ (peek s % 2 ^ 8) ∷ [] })

-- `accept_if` whose result is not looked at.
unfoldable pub skip_if : (ℕ → Bool) → Input → Input
skip_if test s = if test (peek s) then consume s else s

-- `while (accept_if(test)) {}` on fuel.
unfoldable pub accept_fuel : ℕ → (ℕ → Bool) → Input → Input
accept_fuel zero test s = s
accept_fuel (suc fuel) test s = elim (test (peek s)) [
  | true ↦ accept_fuel fuel test (consume s)
  | false ↦ s
]

-- `while (test(ahead())) next();` on fuel.
unfoldable pub next_fuel : ℕ → (ℕ → Bool) → Input → Input
next_fuel zero test s = s
next_fuel (suc fuel) test s = elim (test (peek s)) [
  | true ↦ next_fuel fuel test (next s)
  | false ↦ s
]

-- The characters in the lookahead that are not the end of the file, and the bytes behind them: no
-- loop takes more rounds than these.
abbrev pub live : ℕ → ℕ
live c = if c == eof then 0 else 1

unfoldable pub left : Input → ℕ
left s = live s.ahead0.c32 + live s.ahead1.c32 + live s.ahead2.c32 + length s.stream

unfoldable pub accept_while : (ℕ → Bool) → Input → Input
accept_while test s = accept_fuel (left s) test s

unfoldable pub next_while : (ℕ → Bool) → Input → Input
next_while test s = next_fuel (left s) test s

-- `loc_.begin = ahead().pos; str_.clear();`
abbrev pub start : Input → Input
start s = record s { begin = s.ahead0.pos; str = [] }

-- The members `c32` and `pos` that a default constructor leaves as they are, or sets to -1.
abbrev blank : Ahead
blank = record { c32 = 0; pos = record { row = 2 ^ 32 - 1; col = 2 ^ 32 - 1 } }

abbrev origin : Pos
origin = record { row = 0; col = 0 }

-- The constructor of `utf8::Lexer`. There `next` is that of `utf8::Lexer` itself.
unfoldable pub open_stream : List ℕ → Bool → Input
open_stream bytes md =
    let s = super_next (
      super_next (
        super_next (record {
          stream = bytes;
          ahead0 = blank;
          ahead1 = blank;
          ahead2 = record { c32 = 0; pos = record { row = 1; col = 0 } };
          begin = origin;
          finis = origin;
          str = [];
          md = md;
          out = true;
          written = [];
          failed = false;
        }))) in
    if peek s == bom then super_next (record s { str = s.str ++ (bom % 2 ^ 8) ∷ [] }) else s
