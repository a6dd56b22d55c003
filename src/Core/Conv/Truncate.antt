-- ===== src/Core/Conv/Truncate.antt =====
-- Conversions of literals that are not read as signed.
use native.Mathlib.Decide.{dec_lt}
use native.Mathlib.Nat.{mod-lt, one-le-pow, pow-le-pow_right, pow-suc}
use thorin.Prelude.{
  ℕ, suc, Bool-cases, ==_iff, inl, inr, ◌%◌, ◌^◌, ◌<◌, ◌≤◌, ◌≡◌, ◌≢◌, refl, sym, ap, ◌∙◌, arith,
  true, false, ◌==◌,
}
use thorin.Idx.{bitwidth2size}
use thorin.Core.Conv.{u2u, literal, lit, value, accepts, u2u_lit, rest_u2u, normalize_conv}

-- The size of the 64-bit type apart, a size is a power of two.
pub size_small : (n : ℕ) → n < 64 → bitwidth2size n ≡ 2 ^ n
unfolding bitwidth2size
size_small n h = ground arith

pub size-eq-zero : bitwidth2size 64 ≡ 0
unfolding bitwidth2size
size-eq-zero = refl

size_different : (m n : ℕ) → m < n → n ≤ 64 → bitwidth2size m ≢ bitwidth2size n
size_different m n lt hn e =
    let small = size_small m (omega arith) in
    let pos = one-le-pow m 2 (omega arith) in
    elim (dec_lt n 64) [
      | yes p ↦ omega (
        arith,
        size_small n p,
        small,
        pos,
        e,
        pow-suc 2 m,
        pow-le-pow_right {n = 2} (omega arith) {i = suc m} {j = n} lt,
      )
      | no p ↦
          let same : n ≡ 64 = omega arith in
          omega (arith, small, pos, e ∙ ap bitwidth2size same ∙ size-eq-zero)
    ]

size-injective : (m n : ℕ) → m ≤ 64 → n ≤ 64 → bitwidth2size m ≡ bitwidth2size n → m ≡ n
size-injective m n hm hn e = elim (dec_lt m n) [
  | yes p ↦ absurd (size_different m n p hn e)
  | no p ↦ elim (dec_lt n m) [
    | yes q ↦ absurd (size_different n m q hm (sym e))
    | no q ↦ omega arith
  ]
]

pub sizes_differ :
    (m n : ℕ) → m ≤ 64 → n ≤ 64 → m ≢ n → (bitwidth2size m == bitwidth2size n) ≡ false
sizes_differ m n hm hn ne = elim (Bool-cases (bitwidth2size m == bitwidth2size n)) [
  | inl e ↦
      absurd (ne (size-injective m n hm hn ((==_iff (bitwidth2size m) (bitwidth2size n)).0 e)))
  | inr e ↦ e
]

-- Cutting a word to a type of any width, and the check on what is left.
pub u2u_lit-mod : (dw l : ℕ) → dw ≤ 64 → l < 2 ^ 64 → u2u_lit (bitwidth2size dw) l ≡ l % 2 ^ dw
unfolding u2u_lit
u2u_lit-mod dw l hd lt = elim (dec_lt dw 64) [
  | yes p ↦ rw (size_small dw p) (ground (arith, one-le-pow dw 2 (omega arith)))
  | no p ↦ let e : dw ≡ 64 = omega arith in rw e (rw size-eq-zero (omega arith))
]

accepts-mod : (dw l : ℕ) → dw ≤ 64 → accepts (literal (bitwidth2size dw)) (l % 2 ^ dw) ≡ true
accepts-mod dw l hd = elim (dec_lt dw 64) [
  | yes p ↦ rw (size_small dw p) (ground (arith, mod-lt l (one-le-pow dw 2 (omega arith))))
  | no p ↦ let e : dw ≡ 64 = omega arith in rw e (rw size-eq-zero refl)
]

-- Converting a literal of the source type without a sign, between any two widths up to 64, yields the
-- value modulo the target's size, which `World::lit` takes.
pub normalize_conv-u2u :
    (sw dw l : ℕ)
    → sw ≤ 64
    → dw ≤ 64
    → sw ≢ dw
    → l < 2 ^ sw
    → (normalize_conv u2u (literal (bitwidth2size sw)) (literal (bitwidth2size dw)) (lit l)
        ≡ value (l % 2 ^ dw))
      × (accepts (literal (bitwidth2size dw)) (l % 2 ^ dw) ≡ true)
unfolding normalize_conv rest_u2u u2u_lit
normalize_conv-u2u sw dw l hs hd ne lt =
    let word_ = pow-le-pow_right {n = 2} (omega arith) {i = sw} {j = 64} hs in
    (
      rw (sizes_differ sw dw hs hd ne) (ap value (u2u_lit-mod dw l hd (omega arith))),
      accepts-mod dw l hd,
    )
