-- ===== src/Core/Bit2/Meaning.antt =====
-- The value of a term, and which terms are of the type.
use thorin.Prelude.{
  ℕ, ◌^◌, ◌<◌, ◌≡◌, refl, sym, ap, ◌∙◌, arith, Bool, true, false, ◌&&◌, List, [], ◌∷◌, get_or,
  ==_iff,
}
use thorin.Core.Ops.{
  Bit2, f, nor, nciff, na, niff, nb, xor_, nand, and_, nxor, b, iff, a, ciff, or_, t, bit2_sub,
}
use thorin.Core.Fold.{Width, fold_icmp}
use thorin.Core.Bitwise.{bit2_value, bit2_value-lt, digit}
use thorin.Core.Bit2.{Term, lit, bit2, icmp, other, same_bit2, same_term}

-- Values of the unknown definitions, and the width of the operands of comparisons.
pub record Env : Type 0 where
  pub of : ℕ → ℕ
  pub width : Width

abbrev pub eval : ℕ → Env → Term → ℕ
eval n env (lit m) = m
eval n env (bit2 id x y) = bit2_value id n (eval n env x) (eval n env y)
eval n env (icmp sub x y) = digit (fold_icmp sub env.width (env.of x) (env.of y))
eval n env (other i) = env.of i

-- Terms of the type of `n` bits. A comparison is of the type of one bit.
abbrev pub Typed : ℕ → Env → Term → Type 0
Typed n env (lit m) = m < 2 ^ n
Typed n env (bit2 id x y) = Typed n env x × Typed n env y
Typed n env (icmp sub x y) = n ≡ 1
Typed n env (other i) = env.of i < 2 ^ n

pub digit-lt : (p : Bool) (n : ℕ) → n ≡ 1 → digit p < 2 ^ n
digit-lt true n h = rw h (omega arith)
digit-lt false n h = rw h (omega arith)

pub eval-lt : (n : ℕ) (env : Env) (x : Term) → Typed n env x → eval n env x < 2 ^ n
eval-lt n env (lit m) h = h
eval-lt n env (bit2 id x y) h =
    bit2_value-lt n (eval n env x) (eval n env y) (eval-lt n env x h.0) (eval-lt n env y h.1) id
eval-lt n env (icmp sub x y) h = digit-lt (fold_icmp sub env.width (env.of x) (env.of y)) n h
eval-lt n env (other i) h = h

abbrev all_bit2 : List Bit2
all_bit2 =
    f ∷ nor ∷ nciff ∷ na ∷ niff ∷ nb ∷ xor_ ∷ nand ∷ and_ ∷ nxor ∷ b ∷ iff ∷ a ∷ ciff ∷ or_ ∷ t ∷ []

bit2_at : (id : Bit2) → get_or all_bit2 (bit2_sub id) f ≡ id
bit2_at f = refl
bit2_at _ = refl

pub same_bit2_eq : (i j : Bit2) → same_bit2 i j ≡ true → i ≡ j
same_bit2_eq i j h =
    sym (bit2_at i)
    ∙ ap (λ (k : ℕ). get_or all_bit2 k f) ((==_iff (bit2_sub i) (bit2_sub j)).0 h)
    ∙ bit2_at j

pub and_split : (p q : Bool) → (p && q) ≡ true → (p ≡ true) × (q ≡ true)
and_split true q h = (refl, h)
and_split false q h = cc

pub same_term-eval :
    (n : ℕ) (env : Env) (x y : Term) → same_term x y ≡ true → eval n env x ≡ eval n env y
unfolding same_term
same_term-eval n env (lit m) (lit k) h = (==_iff m k).0 h
same_term-eval n env (bit2 i x y) (bit2 j v u) h =
    let p = and_split (same_bit2 i j) (same_term x v && same_term y u) h in
    let q = and_split (same_term x v) (same_term y u) p.1 in
    cc (same_bit2_eq i j p.0, same_term-eval n env x v q.0, same_term-eval n env y u q.1)
same_term-eval n env (icmp i x y) (icmp j v u) h =
    ground (arith, ==_iff i j, ==_iff x v, ==_iff y u)
same_term-eval n env (other m) (other k) h = ground (arith, ==_iff m k)
same_term-eval n env (lit m) _ h = cc
same_term-eval n env (bit2 i x y) _ h = cc
same_term-eval n env (icmp i x y) _ h = cc
same_term-eval n env (other m) _ h = cc
