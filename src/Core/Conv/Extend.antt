-- ===== src/Core/Conv/Extend.antt =====
-- Conversions of signed literals to a wider type.
use native.Mathlib.Nat.{one-le-pow, pow-le-pow_right, pow-suc}
use thorin.Prelude.{ℕ, suc, ◌-◌, ◌^◌, ◌<◌, ◌≤◌, ◌≡◌, ◌≢◌, refl, arith, true, false, ◌||◌, ◌==◌, ltb}
use thorin.Idx.{bitwidth2size, size2bitwidth-bitwidth2size}
use thorin.Core.Conv.{
  s2s, literal, lit, value, accepts, u2u_lit, rest_u2u, rest_s2s, s2s_lit, normalize_conv,
  sign_extend, has_case,
}
use thorin.Core.Conv.Truncate.{size_small, size-eq-zero, sizes_differ}

case_lt : (sw dw : ℕ) → has_case sw dw ≡ true → (0 < sw) × (sw < dw) × (dw ≤ 64)
case_lt sw dw h = (ground arith, ground arith, ground arith)

-- A literal that is converted with its sign to a type of 64 bits is not extended by its sign: as the
-- size of that type is written as 0, it counts as the smaller one. The value is right only where it is
-- not negative.
pub normalize_conv-s2s_w64 :
    (sw l : ℕ)
    → 1 < sw
    → sw < 64
    → 2 ^ (sw - 1) ≤ l
    → l < 2 ^ sw
    → (normalize_conv s2s (literal (bitwidth2size sw)) (literal (bitwidth2size 64)) (lit l)
        ≡ value l)
      × (sign_extend sw l ≢ l)
unfolding normalize_conv rest_u2u rest_s2s u2u_lit sign_extend
normalize_conv-s2s_w64 sw l pos small neg lt =
    let big = pow-le-pow_right {n = 2} (omega arith) {i = suc sw} {j = 64} small in
    (
      rw (sizes_differ sw 64 (omega arith) (omega arith) (λ e. omega arith))
          (rw (size_small sw small, size-eq-zero) (ground (arith, one-le-pow sw 2 (omega arith)))),
      ground (arith, big, pow-suc 2 sw),
    )

-- A literal that is converted with its sign to a wider type below 64 bits is extended by its sign to
-- the whole 64-bit word, which `World::lit` takes exactly where the value is not negative, or a Boolean.
pub normalize_conv-s2s :
    (sw dw l : ℕ)
    → has_case sw dw ≡ true
    → dw < 64
    → l < 2 ^ sw
    → (normalize_conv s2s (literal (bitwidth2size sw)) (literal (bitwidth2size dw)) (lit l)
        ≡ value (sign_extend sw l))
      × (accepts (literal (bitwidth2size dw)) (sign_extend sw l)
          ≡ (sw == 1 || ltb l (2 ^ (sw - 1))))
unfolding normalize_conv rest_s2s s2s_lit
normalize_conv-s2s sw dw l c small lt =
    let b = case_lt sw dw c in
    let ws = size2bitwidth-bitwidth2size sw b.0 (omega (arith, b.1)) in
    let wd = size2bitwidth-bitwidth2size dw (omega (arith, b.1)) b.2 in
    let up = pow-le-pow_right {n = 2} (omega arith) {i = suc sw} {j = dw} (b.1) in
    let top = pow-le-pow_right {n = 2} (omega arith) {i = suc dw} {j = 64} small in
    let order : ltb (bitwidth2size dw) (bitwidth2size sw) ≡ false =
      ground (arith, size_small sw (omega (arith, b.1)), size_small dw small, up, pow-suc 2 sw) in
    (
      rw (sizes_differ sw dw (omega (arith, b.1)) (omega arith) (λ e. omega (arith, b.1)))
          (rw order (rw (ws, wd) (rw c refl))),
      rw (size_small dw small) (
          unfold sign_extend in
          ground (arith, up, top, pow-suc 2 sw, pow-suc 2 dw, one-le-pow dw 2 (omega arith))),
    )
