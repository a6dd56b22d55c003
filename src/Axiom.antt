-- ===== src/Axiom.antt =====
-- thorin/axiom.h and axiom.cpp: the names of axioms, `%dialect.tag.sub`, and the 64-bit flags that
-- an axiom keeps in their place. A string is the list of its characters' codes.
pub mod Curry
pub mod Fields
pub mod Mangle
pub mod Split
use mathlib.Core.Option
use thorin.Prelude.{
  ℕ, zero, suc, ◌+◌, ◌-◌, ◌*◌, ◌/◌, ◌%◌, ◌^◌, bit_and, bit_or, Bool, true, false, ◌&&◌, Option,
  none, some, List, [], ◌∷◌, ◌++◌, ◌==◌, ltb, leb, if◌then◌else◌, length, drop, take,
}

abbrev pub max_dialect_size : ℕ
max_dialect_size = 8

-- The fields of the flags: 48 bits of dialect, 8 of tag and 8 of sub tag.
unfoldable pub flags : ℕ → ℕ → ℕ → ℕ
flags dialect tag sub = bit_or (bit_or dialect (tag * 2 ^ 8 % 2 ^ 64)) sub

unfoldable pub dialect : ℕ → ℕ
dialect f = bit_and f 0xffff_ffff_ffff_0000

unfoldable pub tag : ℕ → ℕ
tag f = bit_and f 0xff00 / 2 ^ 8 % 2 ^ 8

unfoldable pub sub : ℕ → ℕ
sub f = bit_and f 0xff % 2 ^ 8

unfoldable pub base : ℕ → ℕ
base f = bit_and f (2 ^ 64 - 1 - 0xff)

-- The six bits of a character, or `none` where it may not stand in a name.
unfoldable pub char_code : ℕ → Option ℕ
char_code c =
    if c == b'_'
    then some 1
    else if leb b'a' c && leb c b'z'
    then some (c - b'a' + 2)
    else if leb b'A' c && leb c b'Z'
    then some (c - b'A' + 28)
    else if leb b'0' c && leb c b'9'
    then some (c - b'0' + 54)
    else none

-- `(result << 6_u64) | u`
unfoldable pub push_code : ℕ → ℕ → ℕ
push_code result u = bit_or (result * 2 ^ 6 % 2 ^ 64) u

-- The loop of `mangle` with `n` rounds left: behind the end of the name the code is 0.
unfoldable pub mangle_rounds : ℕ → List ℕ → ℕ → Option ℕ
mangle_rounds zero s result = some result
mangle_rounds (suc n) [] result = mangle_rounds n [] (push_code result 0)
mangle_rounds (suc n) (c ∷ s) result = elim (char_code c) [
  | none ↦ none
  | some u ↦ mangle_rounds n s (push_code result u)
]

unfoldable pub mangle : List ℕ → Option ℕ
mangle s =
    if ltb max_dialect_size (length s)
    then none
    else Option.map (λ result. result * 2 ^ 16 % 2 ^ 64) (mangle_rounds max_dialect_size s 0)

unfoldable pub code_char : ℕ → ℕ
code_char c =
    if c == 1
    then b'_'
    else if leb 2 c && ltb c 28
    then b'a' + (c - 2)
    else if leb 28 c && ltb c 54
    then b'A' + (c - 28)
    else b'0' + (c - 54)

-- The loop of `demangle` with `n` rounds left. Characters are added behind those before.
unfoldable pub demangle_rounds : ℕ → ℕ → List ℕ
demangle_rounds zero u = []
demangle_rounds (suc n) u =
    let c = bit_and u 0xfc00_0000_0000_0000 / 2 ^ 58 in
    let rest = code_char c ∷ demangle_rounds n (u * 2 ^ 6 % 2 ^ 64) in if c == 0 then [] else rest

unfoldable pub demangle : ℕ → List ℕ
demangle u = demangle_rounds max_dialect_size u

-- `std::string_view::find`
unfoldable pub find : ℕ → List ℕ → Option ℕ
find x [] = none
find x (c ∷ s) = if c == x then some 0 else Option.map suc (find x s)

-- The parts behind the dialect, the name's `tag` or `tag.sub`.
split_tag : List ℕ → List ℕ → Option (List ℕ × List ℕ × List ℕ)
split_tag dialect tag = elim (find b'.' tag) [
  | some dot ↦ some (dialect, take dot tag, drop (suc dot) tag)
  | none ↦ elim tag [ [] ↦ none | c ∷ s ↦ some (dialect, c ∷ s, []) ]
]

split_name : List ℕ → Option (List ℕ × List ℕ × List ℕ)
split_name s = elim (find b'.' s) [
  | none ↦ none
  | some dot ↦ elim (mangle (take dot s)) [
    | none ↦ none
    | some _ ↦ split_tag (take dot s) (drop (suc dot) s)
  ]
]

unfoldable pub split : List ℕ → Option (List ℕ × List ℕ × List ℕ)
unfolding split_name split_tag
split [] = none
split (c ∷ s) = if c == b'%' then split_name s else none
