-- ===== src/Core/Fold.antt =====
-- `fold<Id, id, w>` of dialects/core/normalizers.cpp: an operation on two literals at one of the
-- widths that the compiler instantiates. Literals are 64-bit words.
pub mod Compare
pub mod Range
use thorin.Prelude.{
  ℕ, ◌+◌, ◌-◌, ◌*◌, ◌/◌, ◌%◌, ◌^◌, Bool, true, false, not, ◌&&◌, ◌||◌, ◌==◌, ltb, leb,
  if◌then◌else◌, bit_and,
}
use thorin.Prelude.Bits.{bit}
use thorin.Core.Ops.{
  Wrap, add, sub, mul, shl, Shr, arithmetic, logical, Div, sdiv, udiv, srem, urem,
}

pub data Width : Type 0 where
  w1 w8 w16 w32 w64 : Width

abbrev pub bits : Width → ℕ
bits w1 = 1
bits w8 = 8
bits w16 = 16
bits w32 = 32
bits w64 = 64

-- The width of the type in which C++ computes: what is narrower than `int` is promoted to it.
abbrev pub promoted : Width → ℕ
promoted w64 = 64
promoted _ = 32

-- `none` of `Res`, the word that `Res` keeps (a narrower value is padded with zeros), or no result
-- at all, where C++ leaves the operation undefined.
pub data Res : Type 0 where
  empty : Res
  word : ℕ → Res
  undefined : Res

-- `thorin::bitcast<UT>` of a word; the same bits are those of the signed type.
abbrev pub low : Width → ℕ → ℕ
low w x = x % 2 ^ bits w

-- The sign of the signed type, which is `bool` and has none at width 1.
abbrev pub is_negative : Width → ℕ → Bool
is_negative w1 u = false
is_negative w u = leb (2 ^ (bits w - 1)) u

abbrev pub magnitude : Width → ℕ → ℕ
magnitude w u = if is_negative w u then 2 ^ bits w - u else u

-- The bits of a signed result in the promoted type.
abbrev pub pattern_of : Width → Bool → ℕ → ℕ
pattern_of w negative m = if negative then (2 ^ promoted w - m) % 2 ^ promoted w else m

-- `get_sign` of an unsigned value: its top bit.
abbrev pub get_sign : Width → ℕ → Bool
get_sign w u = leb (2 ^ (bits w - 1)) u

abbrev pub same : Bool → Bool → Bool
same true y = y
same false y = not y

-- A product of two 16-bit values is computed in `int`, which it may overflow.
abbrev pub fold_mul : Width → ℕ → ℕ → Res
fold_mul w1 u v = word (bit_and u v)
fold_mul w16 u v = if leb (2 ^ 31) (u * v) then undefined else word (u * v % 2 ^ 16)
fold_mul w u v = word (u * v % 2 ^ bits w)

unfoldable pub fold_wrap : Wrap → Width → ℕ → ℕ → Bool → Bool → Res
fold_wrap add w a b nsw nuw =
    let u = low w a in
    let res = (u + low w b) % 2 ^ promoted w in if nuw && ltb res u then empty else word res
fold_wrap sub w a b nsw nuw = word ((low w a + 2 ^ promoted w - low w b) % 2 ^ promoted w)
fold_wrap mul w a b nsw nuw = fold_mul w (low w a) (low w b)
fold_wrap shl w a b nsw nuw =
    let u = low w a in
    let res = u * 2 ^ low w b % 2 ^ bits w in
    if leb (bits w) b
    then empty
    else if nuw && ltb res u
    then empty
    else if nsw && not (same (get_sign w u) (get_sign w res))
    then empty
    else word res

-- An arithmetic shift rounds down: away from zero for a negative number.
unfoldable pub fold_shr : Shr → Width → ℕ → ℕ → Res
fold_shr arithmetic w a b =
    let u = low w a in
    let p = 2 ^ low w b in
    if leb (bits w) b
    then empty
    else if is_negative w u
    then word (pattern_of w true ((magnitude w u + p - 1) / p))
    else word (u / p)
fold_shr logical w a b = if leb (bits w) b then empty else word (low w a / 2 ^ low w b)

-- The quotient or remainder of the most negative number by -1 does not exist in `int` and wider.
abbrev pub overflows : Width → ℕ → ℕ → Bool
overflows w32 u v = u == 2 ^ 31 && v == 2 ^ 32 - 1
overflows w64 u v = u == 2 ^ 63 && v == 2 ^ 64 - 1
overflows _ u v = false

abbrev pub differ : Bool → Bool → Bool
differ x y = not (same x y)

unfoldable pub fold_div_by : Div → Width → ℕ → ℕ → Res
fold_div_by sdiv w u v =
    if overflows w u v
    then undefined
    else word
        (pattern_of w (differ (is_negative w u) (is_negative w v)) (magnitude w u / magnitude w v))
fold_div_by srem w u v =
    if overflows w u v
    then undefined
    else word (pattern_of w (is_negative w u) (magnitude w u % magnitude w v))
fold_div_by udiv w u v = word (u / v)
fold_div_by urem w u v = word (u % v)

-- The test is on the whole literal; a divisor whose low bits are zero is undefined.
unfoldable pub fold_div : Div → Width → ℕ → ℕ → Res
unfolding fold_div_by
fold_div id w a b =
    if b == 0
    then empty
    else if low w b == 0
    then undefined
    else fold_div_by id w (low w a) (low w b)

-- The five flags of a comparison are bits of its sub tag: X 16, Y 8, G 4, L 2 and E 1.
abbrev pub flag : ℕ → ℕ → Bool
flag id i = bit id i == 1

unfoldable pub fold_icmp : ℕ → Width → ℕ → ℕ → Bool
fold_icmp id w a b =
    let u = low w a in
    let v = low w b in
    let pm = not (get_sign w u) && get_sign w v in
    let mp = get_sign w u && not (get_sign w v) in
    (flag id 4 && pm)
    || ((flag id 3 && mp)
        || ((flag id 2 && (ltb v u && not mp))
            || ((flag id 1 && (ltb u v && not pm)) || (flag id 0 && u == v))))
