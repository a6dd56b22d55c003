-- ===== src/Util/Utf8/RoundTrip.antt =====
-- Reading back what `decode` wrote.
use thorin.Prelude.{
  ℕ, suc, ◌+◌, ◌-◌, ◌*◌, ◌/◌, ◌%◌, ◌^◌, ◌≤◌, ◌<◌, bit_and, bit_or, Bool, true, false, ◌&&◌, none,
  some, List, [], ◌∷◌, ◌++◌, ◌≡◌, ◌↔◌, refl, ◌==◌, ==_iff, arith, length, holds_below,
  holds_below_sound,
}
use native.Mathlib.Decide.{dec_lt}
use native.Mathlib.Nat.{mod-lt, mod-eq_of_lt, one-le-pow}
use thorin.Prelude.Bits.{bit_and_mask, bit_or_sum, bit_or-zero}
use thorin.Util.Utf8.{
  max_bytes, num_bytes, append, first, is_valid, encode_rest, encode, ao, decode,
}

-- What the tests and masks do to the bytes that `decode` writes, for every payload.
tail_table :
    holds_below 64
      (λ y. bit_and (y + 128) 0b11000000 == 0b10000000 && bit_and (y + 128) 0b00111111 == y)
    ≡ true
unfolding holds_below
tail_table = refl

ascii_table : holds_below 128 (λ x. num_bytes x == 1) ≡ true
unfolding holds_below num_bytes
ascii_table = refl

two_table : holds_below 32 (λ x. num_bytes (x + 192) == 2 && first (x + 192) 2 == x) ≡ true
unfolding holds_below num_bytes first
two_table = refl

three_table : holds_below 16 (λ x. num_bytes (x + 224) == 3 && first (x + 224) 3 == x) ≡ true
unfolding holds_below num_bytes first
three_table = refl

four_table : holds_below 8 (λ x. num_bytes (x + 240) == 4 && first (x + 240) 4 == x) ≡ true
unfolding holds_below num_bytes first
four_table = refl

and_true : (a b : Bool) → (a && b) ≡ true → (a ≡ true) × (b ≡ true)
and_true true true h = (refl, refl)
and_true true false h = cc
and_true false b h = cc

both : (a b c d : ℕ) → (a == b && c == d) ≡ true → (a ≡ b) × (c ≡ d)
both a b c d h = ((==_iff a b).0 (and_true _ _ h).0, (==_iff c d).0 (and_true _ _ h).1)

is_valid_tail : (y : ℕ) → y < 64 → is_valid ((y + 128) % 2 ^ 8) ≡ some y
unfolding is_valid
is_valid_tail y h =
    let byte : (y + 128) % 2 ^ 8 ≡ y + 128 = omega arith in
    let t =
      both (bit_and (y + 128) 192) 128 (bit_and (y + 128) 63) y
        (holds_below_sound 64 _ y tail_table h) in
    rw (byte, t.0, t.1)

num_bytes_ascii : (x : ℕ) → x < 128 → num_bytes x ≡ 1
num_bytes_ascii x h = (==_iff _ _).0 (holds_below_sound 128 _ x ascii_table h)

lead_two : (x : ℕ) → x < 32 → (num_bytes (x + 192) ≡ 2) × (first (x + 192) 2 ≡ x)
lead_two x h = both _ _ _ _ (holds_below_sound 32 _ x two_table h)

lead_three : (x : ℕ) → x < 16 → (num_bytes (x + 224) ≡ 3) × (first (x + 224) 3 ≡ x)
lead_three x h = both _ _ _ _ (holds_below_sound 16 _ x three_table h)

lead_four : (x : ℕ) → x < 8 → (num_bytes (x + 240) ≡ 4) × (first (x + 240) 4 ≡ x)
lead_four x h = both _ _ _ _ (holds_below_sound 8 _ x four_table h)

append_lem : (c b : ℕ) → c < 2 ^ 20 → b < 64 → append c b ≡ c * 64 + b
unfolding append
append_lem c b hc hb =
    let fits : c * 2 ^ 6 % 2 ^ 32 ≡ c * 2 ^ 6 = omega arith in
    let low : bit_and b 63 ≡ b = omega (arith, bit_and_mask 6 b) in
    rw (fits, low) (omega (arith, bit_or_sum 6 c b hb))

encode_rest-step :
    (n r y : ℕ) (rest : List ℕ)
    → r < 2 ^ 20
    → y < 64
    → encode_rest (suc n) r ((y + 128) ∷ rest) ≡ encode_rest n (r * 64 + y) rest
unfolding encode_rest
encode_rest-step n r y rest hr hy = ground (arith, is_valid_tail y hy, append_lem r y hr hy)

-- Each form of sequence reads back as the number that it spells.
encode_ascii : (x : ℕ) (rest : List ℕ) → x < 128 → encode (x ∷ rest) ≡ (x, rest)
unfolding encode
encode_ascii x rest h =
    let byte : x % 2 ^ 8 ≡ x = omega arith in rw (byte, num_bytes_ascii x h) (ground arith)

encode_two :
    (x y : ℕ) (rest : List ℕ)
    → x < 32
    → y < 64
    → encode ((x + 192) ∷ (y + 128) ∷ rest) ≡ (x * 64 + y, rest)
unfolding encode encode_rest
encode_two x y rest hx hy =
    let byte : (x + 192) % 2 ^ 8 ≡ x + 192 = omega arith in
    rw (byte, (lead_two x hx).0, (lead_two x hx).1)
      (ground (arith, is_valid_tail y, append_lem x y))

encode_three :
    (x y z : ℕ) (rest : List ℕ)
    → x < 16
    → y < 64
    → z < 64
    → encode ((x + 224) ∷ (y + 128) ∷ (z + 128) ∷ rest) ≡ ((x * 64 + y) * 64 + z, rest)
unfolding encode encode_rest
encode_three x y z rest hx hy hz =
    let byte : (x + 224) % 2 ^ 8 ≡ x + 224 = omega arith in
    rw (byte, (lead_three x hx).0, (lead_three x hx).1)
      (ground (arith, is_valid_tail y, is_valid_tail z, append_lem x y, append_lem (x * 64 + y) z))

encode_four :
    (x y z w : ℕ) (rest : List ℕ)
    → x < 8
    → y < 64
    → z < 64
    → w < 64
    → encode ((x + 240) ∷ (y + 128) ∷ (z + 128) ∷ (w + 128) ∷ rest)
      ≡ (((x * 64 + y) * 64 + z) * 64 + w, rest)
unfolding encode encode_rest
encode_four x y z w rest hx hy hz hw =
    let byte : (x + 240) % 2 ^ 8 ≡ x + 240 = omega arith in
    rw (byte, (lead_four x hx).0, (lead_four x hx).1)
      (ground (
        arith,
        is_valid_tail y,
        is_valid_tail z,
        is_valid_tail w,
        append_lem x y,
        append_lem (x * 64 + y) z,
        append_lem ((x * 64 + y) * 64 + z) w,
      ))

-- The bytes that `decode` writes.
or_tail_table : holds_below 64 (λ y. bit_or y 128 == y + 128) ≡ true
unfolding holds_below
or_tail_table = refl

or_two_table : holds_below 32 (λ y. bit_or y 192 == y + 192) ≡ true
unfolding holds_below
or_two_table = refl

or_three_table : holds_below 16 (λ y. bit_or y 224 == y + 224) ≡ true
unfolding holds_below
or_three_table = refl

or_four_table : holds_below 8 (λ y. bit_or y 240 == y + 240) ≡ true
unfolding holds_below
or_four_table = refl

module _ (k high : ℕ) (table : holds_below (2 ^ k) (λ y. bit_or y high == y + high) ≡ true) where
  ao-mask : (c : ℕ) → 2 ^ k + high ≤ 256 → ao c (2 ^ k - 1) high ≡ c % 2 ^ k + high
  unfolding ao
  ao-mask c room =
      let fits = mod-lt c (one-le-pow k 2 (omega arith)) in
      let sum = (==_iff _ _).0 (holds_below_sound (2 ^ k) _ (c % 2 ^ k) table fits) in
      rw (bit_and_mask k c, sum) (mod-eq_of_lt (omega arith))

ao_tail : (c : ℕ) → ao c 63 128 ≡ c % 64 + 128
ao_tail c = ao-mask 6 128 or_tail_table c (omega arith)

ao_ascii : (c : ℕ) → c < 128 → ao c 255 0 ≡ c
unfolding ao
ao_ascii c h = omega (arith, bit_and_mask 8 c, bit_or-zero (bit_and c 255))

-- What `decode` promises of a code point: it is written as at most four bytes, and these read back
-- as the code point, whatever follows them.
pub record ReadsBack (c : ℕ) (rest : List ℕ) : Type 0 where
  pub bytes : List ℕ
  pub written : decode c ≡ some bytes
  pub read : encode (bytes ++ rest) ≡ (c, rest)
  pub short : length bytes ≤ max_bytes

module _ (c : ℕ) (rest : List ℕ) where
  decode_ascii : c < 128 → ReadsBack c rest
  unfolding decode
  decode_ascii h = record {
    bytes = c ∷ [];
    written = ground (arith, ao_ascii c);
    read = encode_ascii c rest h;
    short = omega arith;
  }

  decode_two : 128 ≤ c → c < 0x800 → ReadsBack c rest
  unfolding decode
  decode_two lo hi =
      let lead : ao (c / 2 ^ 6) 31 192 ≡ c / 64 + 192 =
        omega (arith, ao-mask 5 192 or_two_table (c / 64)) in
      let value : c / 64 * 64 + c % 64 ≡ c = omega arith in
      record {
        bytes = (c / 64 + 192) ∷ (c % 64 + 128) ∷ [];
        written = rw (lead, ao_tail c) (ground arith);
        read = rw value at (encode_two (c / 64) (c % 64) rest (omega arith) (omega arith));
        short = omega arith;
      }

  decode_three : 0x800 ≤ c → c < 0x10000 → ReadsBack c rest
  unfolding decode
  decode_three lo hi =
      let lead : ao (c / 2 ^ 12) 15 224 ≡ c / 4096 + 224 =
        omega (arith, ao-mask 4 224 or_three_table (c / 4096)) in
      let value : (c / 4096 * 64 + c / 64 % 64) * 64 + c % 64 ≡ c = omega arith in
      record {
        bytes = (c / 4096 + 224) ∷ (c / 64 % 64 + 128) ∷ (c % 64 + 128) ∷ [];
        written = rw (lead, ao_tail (c / 64), ao_tail c) (ground arith);
        read = rw value at (
            encode_three (c / 4096) (c / 64 % 64) (c % 64) rest (omega arith) (omega arith)
              (omega arith));
        short = omega arith;
      }

  decode_four : 0x10000 ≤ c → c ≤ 0x10ffff → ReadsBack c rest
  unfolding decode
  decode_four lo hi =
      let lead : ao (c / 2 ^ 18) 7 240 ≡ c / 262144 + 240 =
        omega (arith, ao-mask 3 240 or_four_table (c / 262144)) in
      let value : ((c / 262144 * 64 + c / 4096 % 64) * 64 + c / 64 % 64) * 64 + c % 64 ≡ c =
        omega arith in
      record {
        bytes =
            (c / 262144 + 240) ∷ (c / 4096 % 64 + 128) ∷ (c / 64 % 64 + 128) ∷ (c % 64 + 128) ∷ [];
        written = rw (lead, ao_tail (c / 4096), ao_tail (c / 64), ao_tail c) (ground arith);
        read = rw value at (
            encode_four (c / 262144) (c / 4096 % 64) (c / 64 % 64) (c % 64) rest (omega arith)
              (omega arith) (omega arith) (omega arith));
        short = omega arith;
      }

-- Every code point up to 0x10ffff is written as one to four bytes, and `encode` reads exactly
-- those bytes back as the code point, whatever follows them in the stream.
pub encode-decode : (c : ℕ) (rest : List ℕ) → c ≤ 0x10ffff → ReadsBack c rest
encode-decode c rest h = elim (dec_lt c 128) [
  | yes p ↦ decode_ascii c rest p
  | no p ↦ elim (dec_lt c 0x800) [
    | yes q ↦ decode_two c rest (omega arith) q
    | no q ↦ elim (dec_lt c 0x10000) [
      | yes r ↦ decode_three c rest (omega arith) r
      | no r ↦ decode_four c rest (omega arith) h
    ]
  ]
]

-- `decode` reports an error exactly for the numbers above the last code point.
pub decode-eq-none_iff : (c : ℕ) → (decode c ≡ none) ↔ (0x10ffff < c)
unfolding decode
decode-eq-none_iff c = (λ h. ground arith, λ h. ground arith)
