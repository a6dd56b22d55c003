-- ===== src/Fe/Lexer/Progress.antt =====
-- Every round of `lex` reads something, so that the loop ends.
use thorin.Prelude.{
  ℕ, zero, suc, ◌+◌, ◌≤◌, ◌<◌, ◌≡◌, ◌⊎◌, refl, arith, true, false, Option, none, some, ◌==◌,
  Bool-cases, Option-cases, inl, inr,
}
use thorin.Util.Utf8.{eof}
use thorin.Fe.Token.{Tag, m_eof, d_angle_l, d_angle_r, d_quote_l, d_quote_r, t_colon, t_colon_colon}
use thorin.Fe.Chars.{is_id_part}
use thorin.Fe.Input.{Input, peek, next, consume, skip_if, next_while, left, live, start}
use thorin.Fe.Input.Progress.{
  left-start, left-next, left-consume, left-skip_if, left-accept_while, left-next_while,
}
use thorin.Fe.Step.{plain, Step, token, again, fail, tok}
use thorin.Fe.Literals.{parse_exp, parse_digits, finish_exp}
use thorin.Fe.Lexer.Markdown.{emit_md-lt}
use thorin.Fe.Lexer.Loops.{LoopsEnd, loops_lem}
use thorin.Fe.Literals.Progress.{
  Within, Reads, Reads-intro, exponent_at, left-parse_digits, parse_lit-Reads,
}
use thorin.Fe.Lexer.{
  lex_double, lex_pi, lex_id, lex_axiom, lex_keyword, keyword, lex_dot, in_line, in_comment,
  comment_fuel, eat_comments, lex_slash, lex_other, lex_step, lex_fuel, lex, single, singles,
  keywords,
}

left-lex_id : (s : Input) → left (lex_id s) ≤ left (consume s)
unfolding lex_id
left-lex_id s = left-accept_while is_id_part (consume s)

lex_keyword-Within : (s : Input) → Within (left s) (lex_keyword s)
unfolding lex_keyword
lex_keyword-Within s = ground (arith, Option-cases (keyword keywords s.str))

module _ (s : Input) (character : live (peek s) ≡ 1) where
  consume-lt : left (consume s) < left s
  consume-lt = omega (arith, left-consume s, character)

  lex_double-Reads : (c : ℕ) (alone doubled : Tag) → Reads s (lex_double c alone doubled s)
  unfolding lex_double
  lex_double-Reads c alone doubled = ground (arith, consume-lt, left-consume (consume s))

  lex_pi-Reads : Reads s (lex_pi s)
  unfolding lex_pi
  lex_pi-Reads =
      let s' = skip_if (λ c. c == b'~') (consume s) in
      ground (arith, consume-lt, left-skip_if (λ c. c == b'~') (consume s), left-consume s')

  lex_axiom-Reads : Reads s (lex_axiom s)
  unfolding lex_axiom
  lex_axiom-Reads = ground (arith, consume-lt, left-consume (consume s), left-lex_id (consume s))

  lex_dot-Reads : Reads s (lex_dot s)
  unfolding lex_dot
  lex_dot-Reads =
      let s' = consume s in
      let d = parse_digits 10 (consume s') in
      let lt = consume-lt in
      let le : left d ≤ left s' =
        omega (arith, left-parse_digits 10 (consume s'), left-consume s') in
      let word = lex_keyword-Within (lex_id s') in
      let number = exponent_at none 10 true (left d) d (omega arith) in
      ground (
        arith,
        lt,
        le,
        Reads-intro (left (lex_id s')) s (lex_keyword (lex_id s')) word
            (omega (arith, lt, left-lex_id s', left-consume s')),
        Reads-intro (left d) s (finish_exp none 10 true (parse_exp 10 d)) number
            (omega (arith, lt, le)),
      )

lex_id-lt : (s : Input) → live (peek s) ≡ 1 → left (lex_id s) < left s
lex_id-lt s one = omega (arith, left-lex_id s, consume-lt s one)

-- What is left of an optional step.
abbrev pub ReadsSome : Input → Option Step → Type 0
ReadsSome s none = ⊥
ReadsSome s (some step) = Reads s step

-- A comment is read to its end, or to the error at the end of the file.
comment_fuel-Reads :
    (n : ℕ) (s t : Input) → left t < n → left t < left s → ReadsSome s (comment_fuel n t)
unfolding comment_fuel
comment_fuel-Reads zero s t h lt = absurd (omega arith)
comment_fuel-Reads (suc n) s t h lt =
    let t' = next_while in_comment t in
    let le = left-next_while in_comment t in
    elim (Bool-cases (peek t' == eof)) [
      | inl e ↦ ground arith
      | inr e ↦
          let less : left (next t') < left t' = ground (arith, left-next t') in
          ground (
            arith,
            le,
            less,
            left-consume (next t'),
            comment_fuel-Reads n s (next t') (omega (arith, le, less)) (omega (arith, le, less)),
          )
    ]

eat_comments-Reads : (s t : Input) → left t < left s → ReadsSome s (eat_comments t)
unfolding eat_comments
eat_comments-Reads s t lt = comment_fuel-Reads (left t + 1) s t (omega arith) lt

lex_slash-Reads : (s : Input) → live (peek s) ≡ 1 → ReadsSome s (lex_slash s)
unfolding lex_slash
lex_slash-Reads s one =
    let s' = consume s in
    let lt = consume-lt s one in
    ground (
      arith,
      lt,
      left-consume s',
      left-next_while in_line (consume s'),
      eat_comments-Reads s (consume s') (omega (arith, lt, left-consume s')),
    )

lex_other-Reads : (s : Input) → live (peek s) ≡ 1 → ReadsSome s (lex_other s)
unfolding lex_other
lex_other-Reads s one = ground (
  arith,
  lex_double-Reads s one b'<' d_angle_l d_quote_l,
  lex_double-Reads s one b'>' d_angle_r d_quote_r,
  lex_double-Reads s one b':' t_colon t_colon_colon,
  lex_pi-Reads s one,
  lex_axiom-Reads s one,
  lex_dot-Reads s one,
  lex_id-lt s one,
  parse_lit-Reads s,
  emit_md-lt s one,
  lex_slash-Reads s one,
)

Reads-start : (s : Input) (step : Step) → Reads (start s) step → Reads s step
Reads-start s (token t b e s') h = omega (arith, left-start s)
Reads-start s (again s') h = omega (arith, left-start s)
Reads-start s (fail why b e) h = tt

ReadsSome-start : (s : Input) (o : Option Step) → ReadsSome (start s) o → ReadsSome s o
ReadsSome-start s none h = elim h [ ]
ReadsSome-start s (some step) h = Reads-start s step h

live_of_ne : (c : ℕ) → (c == eof) ≡ false → live c ≡ 1
live_of_ne c h = ground arith

-- Before the end of the file each round of the loop of `lex` reads a character at least.
pub lex_step-Reads : (s : Input) → (peek s == eof) ≡ false → ReadsSome s (lex_step s)
unfolding lex_step
lex_step-Reads s h =
    let t = start s in
    let one = live_of_ne (peek s) h in
    let lt = consume-lt t one in
    ReadsSome-start s (lex_step s)
      (ground (arith, lt, delimiter t one lt (single singles (peek s))))
  where
    delimiter :
        (t : Input)
        → live (peek t) ≡ 1
        → left (consume t) < left t
        → (o : Option Tag)
        → ReadsSome t (elim o [
          | some tag ↦ some (token (plain tag) t.begin (consume t).finis (consume t))
          | none ↦ lex_other t
        ])
    delimiter t one lt none = lex_other-Reads t one
    delimiter t one lt (some tag) = lt

-- What `lex` may end in: the end of the file, a token behind which less is left, or an error.
abbrev pub Final : Input → Step → Type 0
Final s (token t b e s') = (t ≡ plain m_eof) ⊎ (left s' < left s)
Final s (again s') = ⊥
Final s (fail why b e) = Unit

-- A result, and it is final.
pub record Ends (s : Input) (result : Option Step) : Type 0 where
  pub step : Step
  pub returned : result ≡ some step
  pub final : Final s step

Final-lt : (s t : Input) (step : Step) → left t < left s → Final t step → Final s step
Final-lt s t (token u b e s') lt (inl h) = inl h
Final-lt s t (token u b e s') lt (inr h) = inr (omega arith)
Final-lt s t (again s') lt h = elim h [ ]
Final-lt s t (fail why b e) lt h = tt

lex_fuel_round :
    (n : ℕ) (s : Input) (o : Option Step)
    → lex_step s ≡ o
    → ReadsSome s o
    → ((t : Input) → left t < left s → Ends t (lex_fuel n t))
    → Ends s (lex_fuel (suc n) s)
unfolding lex_fuel
lex_fuel_round n s none e h later = elim h [ ]
lex_fuel_round n s (some (again t)) e h later =
    let r = later t h in
    record {
      step = r.step;
      returned = ground (arith, r.returned);
      final = Final-lt s t r.step h r.final;
    }
lex_fuel_round n s (some (token t b f s')) e h later = record {
  step = token t b f s';
  returned = ground arith;
  final = inr h;
}
lex_fuel_round n s (some (fail why b f)) e h later = record {
  step = fail why b f;
  returned = ground arith;
  final = tt;
}

lex_step-eof :
    (s : Input) → (peek s == eof) ≡ true → lex_step s ≡ some (tok (plain m_eof) (consume (start s)))
unfolding lex_step
lex_step-eof s h = ground arith

lex_fuel-Ends : (n : ℕ) (s : Input) → left s < n → Ends s (lex_fuel n s)
lex_fuel-Ends zero s lt = absurd (omega arith)
lex_fuel-Ends (suc n) s lt = elim (Bool-cases (peek s == eof)) [
  | inl h ↦ record {
    step = tok (plain m_eof) (consume (start s));
    returned = unfold lex_fuel in ground (arith, lex_step-eof s h);
    final = inl refl;
  }
  | inr h ↦
      lex_fuel_round n s (lex_step s) refl (lex_step-Reads s h)
        (λ t less. lex_fuel-Ends n t (omega arith))
]

-- `lex` ends on every input: with the end of the file, with a token behind which less of the input is
-- left, or with an error; and wherever a loop within begins, it ends because its test fails.
pub lex-Ends : (s : Input) → Ends s (lex s) × LoopsEnd s
unfolding lex
lex-Ends s = (lex_fuel-Ends (left s + 1) s (omega arith), loops_lem s)
