-- ===== src/Util/Utf8/Length.antt =====
-- How much of the stream `encode` reads.
use thorin.Prelude.{
  ℕ, zero, suc, ◌%◌, ◌^◌, ◌≤◌, ◌≡◌, refl, arith, List, [], ◌∷◌, length, Option-cases, inl, inr,
}
use thorin.Util.Utf8.{eof, num_bytes, encode_rest, encode_from, is_valid, encode, append, first}

pub length-encode_rest : (n r : ℕ) (bs : List ℕ) → length (encode_rest n r bs).1 ≤ length bs
unfolding encode_rest
length-encode_rest zero r bs = omega arith
length-encode_rest (suc n) r [] = elim (Option-cases (is_valid (eof % 2 ^ 8))) [
  | inl e ↦ ground arith
  | inr (x, e) ↦ ground (arith, length-encode_rest n (append r x) [])
]
length-encode_rest (suc n) r (b ∷ bs) = elim (Option-cases (is_valid (b % 2 ^ 8))) [
  | inl e ↦ ground arith
  | inr (x, e) ↦ ground (arith, length-encode_rest n (append r x) bs)
]

length-encode_from : (n r : ℕ) (bs : List ℕ) → length (encode_from n r bs).1 ≤ length bs
unfolding encode_from
length-encode_from zero r bs = omega arith
length-encode_from (suc zero) r bs = omega arith
length-encode_from (suc (suc n)) r bs = length-encode_rest (suc n) (first r (suc (suc n))) bs

-- The end of the stream is read as the end-of-file value.
pub encode-nil : encode [] ≡ (eof, [])
unfolding encode
encode-nil = refl

-- A byte at least is read where there is one.
pub length-encode : (b : ℕ) (bs : List ℕ) → length (encode (b ∷ bs)).1 ≤ length bs
unfolding encode
length-encode b bs = ground (arith, length-encode_from (num_bytes (b % 2 ^ 8)) b bs)
