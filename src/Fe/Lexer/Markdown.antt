-- ===== src/Fe/Lexer/Markdown.antt =====
-- `emit_md` reads at least one line, and its loop ends.
use thorin.Prelude.{
  ℕ, zero, suc, ◌+◌, ◌≤◌, ◌<◌, ◌≡◌, ap, arith, true, false, ◌==◌, Bool-cases, inl, inr,
}
use thorin.Fe.Input.{Input, peek, next, skip_if, next_while, left, live}
use thorin.Fe.Input.Progress.{left_out, left-next, left-skip_if, left-next_while}
use thorin.Fe.Lexer.{start_md, in_line, md_fence, md_line, md_lines, emit_md}

left-md_fence : (s : Input) → left (md_fence s) ≡ left s
unfolding left md_fence
left-md_fence s = ground arith

left-md_line : (s : Input) → left (md_line s) + live (peek s) ≤ left s
unfolding md_line
left-md_line s =
    let quiet = record s { out = false } in
    let dropped = next (next (next quiet)) in
    let space = skip_if (λ c. c == b' ') dropped in
    let aloud = record space { out = true } in
    omega (
      arith,
      left_out s false,
      left-next quiet,
      left-next (next quiet),
      left-next (next (next quiet)),
      left-skip_if (λ c. c == b' ') dropped,
      left_out space true,
      left-next_while in_line aloud,
      left-skip_if (λ c. c == b'\n') (next_while in_line aloud),
    )

left-md_lines : (n : ℕ) (s : Input) → left (md_lines n s) + live (peek s) ≤ left s
unfolding md_lines
left-md_lines zero s = left-md_line s
left-md_lines (suc n) s = ground (arith, left-md_line s, left-md_lines n (md_line s))

peek-md_fence : (s : Input) → peek (md_fence s) ≡ peek s
unfolding md_fence
peek-md_fence s = ground arith

pub emit_md-lt : (s : Input) → live (peek s) ≡ 1 → left (emit_md false s) < left s
unfolding emit_md
emit_md-lt s one =
    let t = md_fence s in
    let u = md_lines (left t) t in
    ground (
      arith,
      left-md_fence s,
      ap live (peek-md_fence s),
      left-md_lines (left t) t,
      left_out u false,
      left-md_fence u,
    )

-- The loop of `emit_md` has rounds enough: it ends because no line with three slashes follows.
live_of_start_md : (s : Input) → start_md s ≡ true → live (peek s) ≡ 1
live_of_start_md s h = ground arith

pub md_lines_stops :
    (n : ℕ) (s : Input) → left s ≤ n → live (peek s) ≡ 1 → start_md (md_lines n s) ≡ false
unfolding md_lines
md_lines_stops zero s le one = absurd (omega (arith, left-md_line s))
md_lines_stops (suc n) s le one = elim (Bool-cases (start_md (md_line s))) [
  | inl e ↦ ground (
    arith,
    md_lines_stops n (md_line s) (omega (arith, left-md_line s)) (live_of_start_md (md_line s) e),
  )
  | inr e ↦ ground arith
]
