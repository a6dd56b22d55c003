-- ===== src/Core/Ncmp.antt =====
-- `normalize_nop` and `normalize_ncmp` of dialects/core/normalizers.cpp, the operations on natural
-- numbers.
pub mod Sound
use thorin.Prelude.{
  Option, none, some, ℕ, ◌+◌, ◌*◌, ◌%◌, ◌^◌, Bool, true, false, not, ◌&&◌, ◌||◌, ◌==◌, ltb, leb,
  if◌then◌else◌,
}

pub data Nop : Type 0 where
  add mul : Nop

-- The sub tags in their order.
pub data Ncmp : Type 0 where
  f e l le g ge ne t : Ncmp

pub data Def : Type 0 where
  lit : ℕ → Def
  other : ℕ → Def

-- A literal of `.Nat`, a literal of `.Bool`, or the application built anew.
pub data Result : Type 0 where
  lit_nat : ℕ → Result
  lit_bool : Bool → Result
  raw_app : Def → Def → Result

abbrev pub is_lit : Def → Bool
is_lit (lit n) = true
is_lit (other i) = false

-- `commute`, where the operation commutes. `gid` numbers the definitions.
abbrev pub commute : Bool → (Def → ℕ) → Def → Def → Def × Def
commute commutes gid x y =
    if commutes && (is_lit y || (ltb (gid y) (gid x) && not (is_lit x))) then (y, x) else (x, y)

abbrev pub word : ℕ → ℕ
word n = n % 2 ^ 64

-- The literals behind `commute`, and else nothing.
nop_folded : Nop → Def → Def → Option Result
nop_folded add (lit m) (lit n) = some (lit_nat (word (m + n)))
nop_folded mul (lit m) (lit n) = some (lit_nat (word (m * n)))
nop_folded id x y = none

-- `is_commutative` holds of both operations. The application is built from the operands as they came.
unfoldable pub normalize_nop : Nop → (Def → ℕ) → Def → Def → Result
unfolding nop_folded
normalize_nop id gid x y =
    let (x', y') = commute true gid x y in
    elim (nop_folded id x' y') [ some r ↦ r | none ↦ raw_app x y ]

abbrev pub is_commutative_ncmp : Ncmp → Bool
is_commutative_ncmp e = true
is_commutative_ncmp ne = true
is_commutative_ncmp _ = false

-- What `lit_nat` makes of a C++ `bool`.
abbrev pub number : Bool → ℕ
number true = 1
number false = 0

ncmp_folded : Ncmp → Def → Def → Option Result
ncmp_folded e (lit m) (lit n) = some (lit_nat (number (m == n)))
ncmp_folded ne (lit m) (lit n) = some (lit_nat (number (not (m == n))))
ncmp_folded l (lit m) (lit n) = some (lit_nat (number (ltb m n)))
ncmp_folded le (lit m) (lit n) = some (lit_nat (number (leb m n)))
ncmp_folded g (lit m) (lit n) = some (lit_nat (number (ltb n m)))
ncmp_folded ge (lit m) (lit n) = some (lit_nat (number (leb n m)))
ncmp_folded id x y = none

-- The application is built from the operands as they came.
unfoldable pub normalize_ncmp : Ncmp → (Def → ℕ) → Def → Def → Result
unfolding ncmp_folded
normalize_ncmp t gid x y = lit_bool true
normalize_ncmp f gid x y = lit_bool false
normalize_ncmp id gid x y =
    let (x', y') = commute (is_commutative_ncmp id) gid x y in
    elim (ncmp_folded id x' y') [ some r ↦ r | none ↦ raw_app x y ]
