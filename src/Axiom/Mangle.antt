-- ===== src/Axiom/Mangle.antt =====
-- `demangle` undoes `mangle`. The codes are digits of base 64; with `n` rounds left the name that
-- is left is a number of `n` digits.
use native.Mathlib.Nat.{pow-suc, one-le-pow, mul-le-mul_left, mul-le-mul_right}
use thorin.Prelude.{
  ℕ, zero, suc, ◌+◌, ◌*◌, ◌/◌, ◌%◌, ◌^◌, ◌≤◌, ◌<◌, ◌≡◌, ◌↔◌, Bool, true, false, ◌&&◌, ◌||◌, refl,
  ap, ◌∙◌, arith, bit_and, none, some, List, [], ◌∷◌, ◌==◌, leb, if◌then◌else◌, length,
  Option-cases, inl, inr,
}
use thorin.Prelude.Bits.{bit_or_sum, bit_and_mask, bit_and_high}
use thorin.Axiom.{
  max_dialect_size, char_code, push_code, mangle_rounds, mangle, code_char, demangle_rounds,
  demangle,
}

char_code_lem : (c u : ℕ) → char_code c ≡ some u → (0 < u) × (u < 64) × (code_char u ≡ c)
unfolding char_code code_char
char_code_lem c u h = ground arith

push_code_lem : (r u : ℕ) → r < 2 ^ 58 → u < 64 → push_code r u ≡ r * 64 + u
unfolding push_code
push_code_lem r u hr hu =
    let fits : r * 2 ^ 6 % 2 ^ 64 ≡ r * 2 ^ 6 = omega arith in
    rw fits (omega (arith, bit_or_sum 6 r u hu))

-- One round of `demangle` on a word whose top digit is `d`.
demangle_step :
    (n d low : ℕ)
    → d < 64
    → low < 2 ^ 58
    → demangle_rounds (suc n) (d * 2 ^ 58 + low)
      ≡ (if d == 0 then [] else code_char d ∷ demangle_rounds n (low * 64))
unfolding demangle_rounds
demangle_step n d low hd hl =
    let u = d * 2 ^ 58 + low in
    let top : bit_and u 0xfc00_0000_0000_0000 / 2 ^ 58 ≡ d =
      omega (arith, bit_and_high 58 u 63, bit_and_mask 6 (u / 2 ^ 58)) in
    let shift : u * 2 ^ 6 % 2 ^ 64 ≡ low * 64 = omega arith in rw (top, shift)

-- What `n` rounds read from `s`: a number of `n` digits that `demangle` turns back into `s`.
record Digits (n : ℕ) (s : List ℕ) (acc u : ℕ) : Type 0 where
  value : ℕ
  bound : value < 64 ^ n
  result : u ≡ acc * 64 ^ n + value
  back : (r : ℕ) → 64 ^ n * r ≡ 2 ^ 64 → demangle_rounds n (value * r) ≡ s

-- Multiplying by a positive number keeps `<`.
scaled-lt : (a b r total : ℕ) → a < b → b * r ≡ total → 0 < total → a * r < total
scaled-lt a b zero total h e p = absurd (omega arith)
scaled-lt a b (suc r) total h e p = grind arith

-- `d` in front of the digits of `rest`.
digits-cons :
    (n d acc : ℕ) (s rest : List ℕ) (u : ℕ)
    → d < 64
    → Digits n rest (acc * 64 + d) u
    → ((low : ℕ)
        → demangle_rounds n (low * 64) ≡ rest
        → (if d == 0 then [] else code_char d ∷ demangle_rounds n (low * 64)) ≡ s)
    → Digits (suc n) s acc u
digits-cons n d acc s rest u hd t front =
    let t_bound = t.bound in
    let t_result = t.result in
    let power = pow-suc 64 n in
    record {
      value = d * 64 ^ n + t.value;
      bound = grind (arith, power);
      result = omega (arith, power, ap (λ (x : ℕ). acc * x) power);
      back = λ r whole.
          let part : 64 ^ n * r ≡ 2 ^ 58 = omega (arith, ap (λ (x : ℕ). x * r) power) in
          let low_lt = scaled-lt t.value (64 ^ n) r (2 ^ 58) t_bound part (omega arith) in
          let sum : (d * 64 ^ n + t.value) * r ≡ d * 2 ^ 58 + t.value * r =
            omega (arith, ap (λ (x : ℕ). d * x) part) in
          let shifted : t.value * r * 64 ≡ t.value * (64 * r) = omega arith in
          ap (demangle_rounds (suc n)) sum
          ∙ demangle_step n d (t.value * r) hd low_lt
          ∙ front (t.value * r)
              (ap (demangle_rounds n) shifted ∙ t.back (64 * r) (omega (arith, part)));
    }

acc_small : (acc p : ℕ) → 1 ≤ p → (acc + 1) * p ≤ 2 ^ 48 → acc < 2 ^ 48
acc_small acc p one h = omega (arith, mul-le-mul_left {m = 1} {n = p} (acc + 1) one)

fits_next :
    (n acc d : ℕ)
    → 64 ^ suc n ≡ 64 ^ n * 64
    → d < 64
    → (acc + 1) * 64 ^ suc n ≤ 2 ^ 48
    → (acc * 64 + d + 1) * 64 ^ n ≤ 2 ^ 48
fits_next n acc d power small h = omega (
  arith,
  power,
  ap (λ (x : ℕ). (acc + 1) * x) power,
  mul-le-mul_right {m = acc * 64 + d + 1} {n = (acc + 1) * 64} (64 ^ n) (omega arith),
)

digits :
    (n : ℕ) (s : List ℕ) (acc u : ℕ)
    → length s ≤ n
    → (acc + 1) * 64 ^ n ≤ 2 ^ 48
    → mangle_rounds n s acc ≡ some u
    → Digits n s acc u
unfolding mangle_rounds
digits zero [] acc u le fits h = record {
  value = 0;
  bound = omega arith;
  result = ground arith;
  back = λ r e. unfold demangle_rounds in refl;
}
digits zero (c ∷ s) acc u le fits h = absurd (omega arith)
digits (suc n) [] acc u le fits h =
    let power = pow-suc 64 n in
    let small = acc_small acc (64 ^ suc n) (one-le-pow (suc n) 64 (omega arith)) fits in
    let pushed : push_code acc 0 ≡ acc * 64 + 0 = push_code_lem acc 0 (omega arith) (omega arith) in
    digits-cons n 0 acc [] [] u (omega arith)
      (digits n [] (acc * 64 + 0) u (omega arith)
        (omega (arith, power, ap (λ (x : ℕ). acc * x) power)) (rw pushed at h))
      (λ low e. refl)
digits (suc n) (c ∷ s) acc u le fits h = elim (Option-cases (char_code c)) [
  | inl bad ↦ ground (arith, bad)
  | inr (d, good) ↦
      let (pos, small_d, back) = char_code_lem c d good in
      let power = pow-suc 64 n in
      let small = acc_small acc (64 ^ suc n) (one-le-pow (suc n) 64 (omega arith)) fits in
      let pushed : push_code acc d ≡ acc * 64 + d = push_code_lem acc d (omega arith) small_d in
      let rest : mangle_rounds n s (acc * 64 + d) ≡ some u = ground (arith, good, pushed) in
      digits-cons n d acc (c ∷ s) s u small_d
        (digits n s (acc * 64 + d) u (omega arith) (fits_next n acc d power small_d fits) rest)
        (λ low e. ground arith)
]

-- Every name that `mangle` accepts comes back from `demangle`.
pub demangle-mangle : (s : List ℕ) (u : ℕ) → mangle s ≡ some u → demangle u ≡ s
unfolding mangle demangle
demangle-mangle s u h = elim (Option-cases (mangle_rounds max_dialect_size s 0)) [
  | inl refused ↦ ground (arith, refused)
  | inr (v, read) ↦
      let short : length s ≤ 8 = ground arith in
      let t = digits 8 s 0 v short (omega arith) read in
      let t_bound = t.bound in
      let t_result = t.result in
      let word : u ≡ t.value * 2 ^ 16 = ground (arith, read) in
      ap (demangle_rounds 8) word ∙ t.back (2 ^ 16) refl
]

-- A letter, a digit or an underscore.
is_name_char : ℕ → Bool
is_name_char c =
    c == b'_'
    || (leb b'a' c && leb c b'z' || (leb b'A' c && leb c b'Z' || leb b'0' c && leb c b'9'))

unfoldable pub is_name : List ℕ → Bool
unfolding is_name_char
is_name [] = true
is_name (c ∷ s) = is_name_char c && is_name s

is_name_char-char_code : (c u : ℕ) → char_code c ≡ some u → is_name_char c ≡ true
unfolding char_code is_name_char
is_name_char-char_code c u h = ground arith

is_name_char-false : (c : ℕ) → char_code c ≡ none → is_name_char c ≡ false
unfolding char_code is_name_char
is_name_char-false c h = ground arith

mangle_rounds_iff :
    (n : ℕ) (s : List ℕ) (acc : ℕ)
    → length s ≤ n
    → ((u : ℕ) × (mangle_rounds n s acc ≡ some u)) ↔ (is_name s ≡ true)
unfolding mangle_rounds is_name
mangle_rounds_iff zero [] acc le = (λ _. refl, λ _. (acc, refl))
mangle_rounds_iff zero (c ∷ s) acc le = absurd (omega arith)
mangle_rounds_iff (suc n) [] acc le = mangle_rounds_iff n [] (push_code acc 0) (omega arith)
mangle_rounds_iff (suc n) (c ∷ s) acc le = elim (Option-cases (char_code c)) [
  | inl bad ↦
      (λ (u, e). ground (arith, bad), λ h. absurd (ground (arith, is_name_char-false c bad)))
  | inr (d, good) ↦
      let ih = mangle_rounds_iff n s (push_code acc d) (omega arith) in
      let head = is_name_char-char_code c d good in
      (
        λ (u, e). rw head (ih.0 (u, ground (arith, good))),
        λ h. let (u, e) = ih.1 (rw head at h) in (u, ground (arith, good, e)),
      )
]

-- `mangle` accepts exactly the names of at most eight letters, digits and underscores.
pub mangle_iff :
    (s : List ℕ) → ((u : ℕ) × (mangle s ≡ some u)) ↔ ((length s ≤ 8) × (is_name s ≡ true))
unfolding mangle
mangle_iff s = (to, from)
  where
    to : (u : ℕ) × (mangle s ≡ some u) → (length s ≤ 8) × (is_name s ≡ true)
    to (u, h) =
        let short : length s ≤ 8 = ground arith in
        elim (Option-cases (mangle_rounds max_dialect_size s 0)) [
          | inl refused ↦ absurd (ground (arith, refused))
          | inr (v, read) ↦ (short, (mangle_rounds_iff 8 s 0 short).0 (v, read))
        ]

    from : (length s ≤ 8) × (is_name s ≡ true) → (u : ℕ) × (mangle s ≡ some u)
    from (short, name) =
        let (v, read) = (mangle_rounds_iff 8 s 0 short).1 name in
        (v * 2 ^ 16 % 2 ^ 64, ground (arith, read))
