-- ===== src/Util/Utf8.antt =====
-- thorin/util/utf8.h and utf8.cpp: UTF-8 bytes to code points and back.
-- An input stream is the list of bytes that are left to read, and an output stream the bytes
-- written.
pub mod RoundTrip
pub mod Length
use thorin.Prelude.{
  ℕ, zero, suc, ◌+◌, ◌-◌, ◌*◌, ◌/◌, ◌%◌, ◌^◌, bit_and, bit_or, Bool, true, false, Option, none,
  some, List, [], ◌∷◌, ◌++◌, ◌==◌, leb, if◌then◌else◌,
}

-- `char32_t(-1)`, `char32_t(-2)` and the byte order mark.
abbrev pub eof : ℕ
eof = 0xffff_ffff

abbrev pub err : ℕ
err = 0xffff_fffe

abbrev pub bom : ℕ
bom = 0xfeff

abbrev pub max_bytes : ℕ
max_bytes = 4

-- `is.get()`: at the end of the stream it yields the end-of-file value.
abbrev pub get : List ℕ → ℕ × List ℕ
get [] = (eof, [])
get (b ∷ bs) = (b, bs)

unfoldable pub num_bytes : ℕ → ℕ
num_bytes c =
    if bit_and c 0b10000000 == 0b00000000
    then 1
    else if bit_and c 0b11100000 == 0b11000000
    then 2
    else if bit_and c 0b11110000 == 0b11100000
    then 3
    else if bit_and c 0b11111000 == 0b11110000
    then 4
    else 0

-- `char32_t` is 32 bits wide, so the shift drops what leaves the word.
unfoldable pub append : ℕ → ℕ → ℕ
append c b = bit_or (c * 2 ^ 6 % 2 ^ 32) (bit_and b 0b00111111)

unfoldable pub first : ℕ → ℕ → ℕ
first c num = bit_and c (0b00011111 / 2 ^ (num - 2))

unfoldable pub is_valid : ℕ → Option ℕ
is_valid c = if bit_and c 0b11000000 == 0b10000000 then some (bit_and c 0b00111111) else none

-- The loop of `encode`, with `n` bytes left to read. What `is.get()` yields is cut to a `char8_t`.
unfoldable pub encode_rest : ℕ → ℕ → List ℕ → ℕ × List ℕ
encode_rest zero result bs = (result, bs)
encode_rest (suc n) result bs =
    let (c, bs') = get bs in
    elim (is_valid (c % 2 ^ 8)) [ some x ↦ encode_rest n (append result x) bs' | none ↦ (err, bs') ]

-- The switch on the number of bytes.
encode_from : ℕ → ℕ → List ℕ → ℕ × List ℕ
encode_from zero result bs = (0, bs)
encode_from (suc zero) result bs = (result, bs)
encode_from (suc (suc n)) result bs = encode_rest (suc n) (first result (suc (suc n))) bs

unfoldable pub encode : List ℕ → ℕ × List ℕ
unfolding encode_from
encode bs =
    let (result, bs') = get bs in
    if result == eof then (result, bs') else encode_from (num_bytes (result % 2 ^ 8)) result bs'

-- `ao`, the byte `(c32 & a) | o` that is written.
unfoldable pub ao : ℕ → ℕ → ℕ → ℕ
ao c32 a o = bit_or (bit_and c32 a) o % 2 ^ 8

abbrev tail_byte : ℕ → ℕ
tail_byte c32 = ao c32 0b00111111 0b10000000

-- The bytes written, or `none` where the function returns `false`.
unfoldable pub decode : ℕ → Option (List ℕ)
decode c32 =
    if leb c32 0x00007f
    then some (ao c32 0b11111111 0b00000000 ∷ [])
    else if leb c32 0x0007ff
    then some (ao (c32 / 2 ^ 6) 0b00011111 0b11000000 ∷ tail_byte c32 ∷ [])
    else if leb c32 0x00ffff
    then some
        (ao (c32 / 2 ^ 12) 0b00001111 0b11100000 ∷ tail_byte (c32 / 2 ^ 6) ∷ tail_byte c32 ∷ [])
    else if leb c32 0x10ffff
    then some (
        ao (c32 / 2 ^ 18) 0b00000111 0b11110000
        ∷ tail_byte (c32 / 2 ^ 12)
        ∷ tail_byte (c32 / 2 ^ 6)
        ∷ tail_byte c32
        ∷ [])
    else none
