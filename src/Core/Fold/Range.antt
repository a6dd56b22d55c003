-- ===== src/Core/Fold/Range.antt =====
-- Where the results of folding lie, and what they are modulo the size of the type. In the types of
-- 32 and 64 bits C++ computes in the type itself; narrower operands are promoted to `int`.
use native.Mathlib.Nat.{
  one-le-pow, mul-le-mul_left, div-le_self, mod-lt, div-mul-le_self, div-add-mod', mod-eq_of_lt,
}
use native.Mathlib.Decide.{dec_lt}
use thorin.Prelude.{
  sym, ℕ, ◌+◌, ◌-◌, ◌*◌, ◌/◌, ◌%◌, ◌^◌, ◌≤◌, ◌<◌, ◌≡◌, ◌≢◌, ◌↔◌, ◌⊎◌, arith, Bool, true, false, not,
  ◌&&◌, if◌then◌else◌, ltb, leb, ◌==◌,
}
use thorin.Prelude.Bits.{bit_and-lt}
use thorin.Core.Ops.{Wrap, add, sub, mul, shl, sdiv, udiv, srem, urem}
use thorin.Core.Fold.{
  Width, w1, w8, w16, w32, w64, bits, Res, empty, word, undefined, low, is_negative, magnitude,
  overflows, fold_wrap, fold_div, fold_div_by, differ, get_sign, same, pattern_of,
}

-- A literal of the type: the check that `World::lit` makes.
abbrev pub InRange : Width → Res → Type 0
InRange w (word r) = r < 2 ^ bits w
InRange w empty = Unit
InRange w undefined = Unit

-- The widths at which nothing is promoted.
abbrev pub IsWide : Width → Type 0
IsWide w32 = Unit
IsWide w64 = Unit
IsWide _ = ⊥

-- At 32 and 64 bits a folded `wrap` operation is a literal of its type; `mul` and `shl` are at
-- every width.
pub fold_wrap-InRange :
    (id : Wrap) (w : Width) (a b : ℕ) (nsw nuw : Bool)
    → (IsWide w ⊎ ((id ≡ mul) ⊎ (id ≡ shl)))
    → InRange w (fold_wrap id w a b nsw nuw)
unfolding fold_wrap
fold_wrap-InRange add w32 a b nsw nuw h = ground arith
fold_wrap-InRange add w64 a b nsw nuw h = ground arith
fold_wrap-InRange add w1 a b nsw nuw h = absurd (ground arith)
fold_wrap-InRange add w8 a b nsw nuw h = absurd (ground arith)
fold_wrap-InRange add w16 a b nsw nuw h = absurd (ground arith)
fold_wrap-InRange sub w32 a b nsw nuw h = omega arith
fold_wrap-InRange sub w64 a b nsw nuw h = omega arith
fold_wrap-InRange sub w1 a b nsw nuw h = absurd (ground arith)
fold_wrap-InRange sub w8 a b nsw nuw h = absurd (ground arith)
fold_wrap-InRange sub w16 a b nsw nuw h = absurd (ground arith)
fold_wrap-InRange mul w1 a b nsw nuw h = bit_and-lt 1 (a % 2) (b % 2) (omega arith)
fold_wrap-InRange mul w8 a b nsw nuw h = omega arith
fold_wrap-InRange mul w16 a b nsw nuw h = ground arith
fold_wrap-InRange mul w32 a b nsw nuw h = omega arith
fold_wrap-InRange mul w64 a b nsw nuw h = omega arith
fold_wrap-InRange shl w1 a b nsw nuw h = ground arith
fold_wrap-InRange shl w8 a b nsw nuw h = ground arith
fold_wrap-InRange shl w16 a b nsw nuw h = ground arith
fold_wrap-InRange shl w32 a b nsw nuw h = ground arith
fold_wrap-InRange shl w64 a b nsw nuw h = ground arith

-- At 1, 8 and 16 bits a sum is the sum of the numbers, also where that is beyond the type and `nuw`
-- asks for the overflow to be noticed; a difference below zero wraps at 32 bits, not in the type.
pub fold_wrap_narrow :
    (w : Width) (a b : ℕ) (nsw nuw : Bool)
    → bits w < 32
    → a < 2 ^ bits w
    → b < 2 ^ bits w
    → (fold_wrap add w a b nsw nuw ≡ word (a + b))
      × (fold_wrap sub w a b nsw nuw ≡ word (if ltb a b then 2 ^ 32 - (b - a) else a - b))
unfolding fold_wrap
fold_wrap_narrow w1 a b nsw nuw n ha hb = (ground arith, ground arith)
fold_wrap_narrow w8 a b nsw nuw n ha hb = (ground arith, ground arith)
fold_wrap_narrow w16 a b nsw nuw n ha hb = (ground arith, ground arith)
fold_wrap_narrow w32 a b nsw nuw n ha hb = absurd (omega arith)
fold_wrap_narrow w64 a b nsw nuw n ha hb = absurd (omega arith)

-- At 32 and 64 bits, on literals of the type: a sum is right modulo the size of the type, and with
-- `nuw` it is refused exactly when it does not fit; a difference added to the subtrahend gives the
-- minuend back modulo that size.
pub fold_wrap_modular :
    (w : Width) (a b : ℕ) (nsw : Bool)
    → IsWide w
    → a < 2 ^ bits w
    → b < 2 ^ bits w
    → (fold_wrap add w a b nsw false ≡ word ((a + b) % 2 ^ bits w))
      × ((fold_wrap add w a b nsw true ≡ empty) ↔ (2 ^ bits w ≤ a + b))
      × (r : ℕ) × (fold_wrap sub w a b nsw false ≡ word r)
      × ((r + b) % 2 ^ bits w ≡ a)
unfolding fold_wrap
fold_wrap_modular w1 a b nsw h ha hb = absurd h
fold_wrap_modular w8 a b nsw h ha hb = absurd h
fold_wrap_modular w16 a b nsw h ha hb = absurd h
fold_wrap_modular w32 a b nsw h ha hb = (
  ground arith,
  (λ e. ground arith, λ e. ground arith),
  (a + 2 ^ 32 - b) % 2 ^ 32,
  ground arith,
  omega arith,
)
fold_wrap_modular w64 a b nsw h ha hb = (
  ground arith,
  (λ e. ground arith, λ e. ground arith),
  (a + 2 ^ 64 - b) % 2 ^ 64,
  ground arith,
  omega arith,
)

-- Division of literals of a type by one that is not zero, unsigned: quotient and remainder are
-- literals of the type, and they are the Euclidean ones.
pub fold_div_unsigned :
    (w : Width) (a b : ℕ)
    → a < 2 ^ bits w
    → b < 2 ^ bits w
    → b ≢ 0
    → (q r : ℕ) × (fold_div udiv w a b ≡ word q)
      × (fold_div urem w a b ≡ word r)
      × (a ≡ q * b + r)
      × (r < b)
      × (q < 2 ^ bits w)
unfolding fold_div fold_div_by
fold_div_unsigned w a b ha hb nz =
    let fa : low w a ≡ a = mod-eq_of_lt ha in
    let fb : low w b ≡ b = mod-eq_of_lt hb in
    (
      a / b,
      a % b,
      rw (fa, fb) (ground arith),
      rw (fa, fb) (ground arith),
      sym (div-add-mod' a b),
      mod-lt a (omega arith),
      omega (arith, div-le_self a b),
    )

-- A shift to the left by less than the width is refused under `nuw` only where bits are lost.
pub fold_shl_nuw :
    (w : Width) (a b : ℕ)
    → a < 2 ^ bits w
    → b < bits w
    → fold_wrap shl w a b false true ≡ empty
    → 2 ^ bits w ≤ a * 2 ^ low w b
unfolding fold_wrap
fold_shl_nuw w a b ha hb h = elim (dec_lt (a * 2 ^ low w b) (2 ^ bits w)) [
  | no lost ↦ omega arith
  | yes fits ↦
      let fa : low w a ≡ a = mod-eq_of_lt ha in
      let res : a * 2 ^ low w b % 2 ^ bits w ≡ a * 2 ^ low w b = mod-eq_of_lt fits in
      let grows =
        mul-le-mul_left {m = 1} {n = 2 ^ low w b} a (one-le-pow (low w b) 2 (omega arith)) in
      absurd (kept a (a * 2 ^ low w b) (omega (arith, grows)) (rw (fa, res) at h))
]
  where
    kept :
        (u r : ℕ)
        → u ≤ r
        → (if leb (bits w) b
            then empty
            else if true && ltb r u
            then empty
            else if false && not (same (get_sign w u) (get_sign w r))
            then empty
            else word r)
          ≡ empty
        → ⊥
    kept u r le e = ground arith

half-le : (x d : ℕ) → 2 ≤ d → x / d * 2 ≤ x
half-le x d h = omega (arith, div-mul-le_self x d, mul-le-mul_left {m = 2} {n = d} (x / d) h)

-- Division of literals of 32 or 64 bits, signed, by one that is not zero and where the quotient
-- exists in the type: the quotient is rounded towards zero, the remainder has the sign of the
-- dividend, and the one or the other is negative only where it is not zero.
pub fold_div_signed :
    (w : Width) (a b : ℕ)
    → IsWide w
    → a < 2 ^ bits w
    → b < 2 ^ bits w
    → b ≢ 0
    → overflows w a b ≡ false
    → (q r : ℕ) × (fold_div sdiv w a b ≡ word q)
      × (fold_div srem w a b ≡ word r)
      × (magnitude w q ≡ magnitude w a / magnitude w b)
      × (magnitude w r ≡ magnitude w a % magnitude w b)
      × (is_negative w q ≡ (differ (is_negative w a) (is_negative w b) && not (magnitude w q == 0)))
      × (is_negative w r ≡ (is_negative w a && not (magnitude w r == 0)))
unfolding fold_div fold_div_by
fold_div_signed w1 a b h ha hb nz fits = absurd h
fold_div_signed w8 a b h ha hb nz fits = absurd h
fold_div_signed w16 a b h ha hb nz fits = absurd h
fold_div_signed w32 a b h ha hb nz fits =
    let x = magnitude w32 a in
    let d = magnitude w32 b in
    let fa : low w32 a ≡ a = mod-eq_of_lt ha in
    let fb : low w32 b ≡ b = mod-eq_of_lt hb in
    let q = pattern_of w32 (differ (is_negative w32 a) (is_negative w32 b)) (x / d) in
    let r = pattern_of w32 (is_negative w32 a) (x % d) in
    let small = half-le x d in
    let down = div-le_self x d in
    let rest = mod-lt x {m = d} (ground arith) in
    (
      q,
      r,
      rw (fa, fb) (ground arith),
      rw (fa, fb) (ground arith),
      ground (arith, small, down),
      ground (arith, rest),
      ground (arith, small, down),
      ground (arith, rest),
    )
fold_div_signed w64 a b h ha hb nz fits =
    let x = magnitude w64 a in
    let d = magnitude w64 b in
    let fa : low w64 a ≡ a = mod-eq_of_lt ha in
    let fb : low w64 b ≡ b = mod-eq_of_lt hb in
    let q = pattern_of w64 (differ (is_negative w64 a) (is_negative w64 b)) (x / d) in
    let r = pattern_of w64 (is_negative w64 a) (x % d) in
    let small = half-le x d in
    let down = div-le_self x d in
    let rest = mod-lt x {m = d} (ground arith) in
    (
      q,
      r,
      rw (fa, fb) (ground arith),
      rw (fa, fb) (ground arith),
      ground (arith, small, down),
      ground (arith, rest),
      ground (arith, small, down),
      ground (arith, rest),
    )
