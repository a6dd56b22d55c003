-- ===== src/Util/Hash.antt =====
-- thorin/util/hash.h and thorin/util/hash.cpp: murmur3 and FNV-1 on 32-bit words.
pub mod Finalizer
use thorin.Prelude.{ℕ, zero, suc, length, ◌+◌, ◌*◌, ◌/◌, ◌%◌, ◌^◌, List, [], ◌∷◌, bit_or, bit_xor}

-- `hash_t`
abbrev pub word : ℕ → ℕ
word n = n % 2 ^ 32

unfoldable pub murmur_32_scramble : ℕ → ℕ
murmur_32_scramble k =
    let a = word (k * 0xcc9e2d51) in
    let b = bit_or (word (a * 2 ^ 15)) (a / 2 ^ 17) in word (b * 0x1b873593)

-- `murmur3(h, u32)`
unfoldable pub murmur3 : ℕ → ℕ → ℕ
murmur3 h key =
    let a = bit_xor h (murmur_32_scramble key) in
    let b = bit_or (word (a * 2 ^ 13)) (a / 2 ^ 19) in word (b * 5 + 0xe6546b64)

-- `murmur3(h, u64)`
unfoldable pub murmur3_u64 : ℕ → ℕ → ℕ
murmur3_u64 h key = murmur3 (murmur3 h (word key)) (word (key / 2 ^ 32))

-- `murmur3_rest`
unfoldable pub murmur3_rest : ℕ → ℕ → ℕ
murmur3_rest h key = bit_xor h (murmur_32_scramble key)

-- `murmur3(h)`
unfoldable pub murmur3_single : ℕ → ℕ
murmur3_single h =
    let a = bit_xor h (h / 2 ^ 16) in
    let b = word (a * 0x85ebca6b) in
    let c = bit_xor b (b / 2 ^ 13) in let d = word (c * 0xc2b2ae35) in bit_xor d (d / 2 ^ 16)

unfoldable pub murmur3_finalize : ℕ → ℕ → ℕ
murmur3_finalize h len = murmur3_single (bit_xor h len)

-- One round of `hash_combine`, and the rounds for a value of some bytes. The value is converted to a
-- 32-bit word first, so its higher bytes count as 0.
unfoldable pub combine_octet : ℕ → ℕ → ℕ
combine_octet seed octet = word (bit_xor seed octet * 16777619)

unfoldable pub combine_octets : ℕ → ℕ → ℕ → ℕ
combine_octets zero seed val = seed
combine_octets (suc n) seed val = combine_octets n (combine_octet seed (val % 256)) (val / 256)

-- `hash_combine` on an unsigned value of some bytes.
unfoldable pub hash_combine : ℕ → ℕ → ℕ → ℕ
hash_combine bytes seed v = combine_octets bytes seed (word v)

abbrev pub offset : ℕ
offset = 2166136261

-- The loop of `hash` over characters.
unfoldable pub hash_chars : ℕ → List ℕ → ℕ
hash_chars seed [] = seed
hash_chars seed (c ∷ cs) = hash_chars (hash_combine 1 seed c) cs

-- `hash(std::string_view)`, with the size as a word of eight bytes.
unfoldable pub hash_string : List ℕ → ℕ
hash_string s = hash_chars (hash_combine 8 offset (length s)) s
