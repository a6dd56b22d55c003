-- ===== src/Core/Bit2/Sound.antt =====
-- `normalize_bit2` keeps the value, for the operations that commute.
use native.Mathlib.Nat.{one-le-pow}
use thorin.Prelude.{
  ℕ, zero, suc, ◌^◌, ◌<◌, ◌≡◌, refl, sym, ap, ◌∙◌, arith, true, not, ◌&&◌, ◌||◌, Option, none, some,
  ◌==◌, ==_iff, ltb, Bool-cases, inl, inr,
}
use thorin.Core.Ops.{Bit2, f, nciff, na, nb, b, a, ciff, t, make_truth_table, is_commutative_bit2}
use thorin.Core.Fold.{Width, bits, word, fold_icmp}
use thorin.Core.MergeCmps.{merge_sub, fold_icmp-merge_sub}
use thorin.Core.Bitwise.{bit2_value, digit}
use thorin.Core.Normalize
use thorin.Core.Normalize.{Result, def, raw_app, bot, unknown, normalize_icmp, icmp_word}
use thorin.Core.Normalize.Sound.{result}
use thorin.Core.Normalize.Compare.{normalize_icmp-value}
use thorin.Core.Bit2.{
  Term, lit, bit2, icmp, other, is_lit, term_of, op_icmp, fold_bit2, merge_icmps, or_else,
  bit2_rules, bit2_literals, bit2_folded, bit2_switch, bit2_commuted, normalize_bit2, build,
}
use thorin.Core.Bit2.Fold.{fold_bit2_lem}
use thorin.Core.Bit2.Meaning.{Env, eval, Typed, digit-lt, eval-lt, and_split}
use thorin.Core.Bit2.Operands.{
  HasValue, IfSome, Keeps, table, digit_value, same_operands-IfSome, lit_left-IfSome,
  lit_right-IfSome, commutes, V-lt,
}
use thorin.Core.Bit2.Reassociate.{reassociate-IfSome}

-- What a comparison is worth, and a result of normalizing it.
abbrev truth_at : ℕ → Env → ℕ → ℕ → ℕ
truth_at sub env x y = digit (fold_icmp sub env.width (env.of x) (env.of y))

-- A literal that results is the truth value.
term_of-HasValue :
    (n sub : ℕ) (env : Env) (x y : ℕ) (r : Result)
    → n ≡ 1
    → result (icmp_word sub env.width) env.of r ≡ word (truth_at sub env x y)
    → HasValue n env (truth_at sub env x y) (term_of sub x y r)
term_of-HasValue n sub env x y (def (Normalize.lit m)) h e =
    let lt = digit-lt (fold_icmp sub env.width (env.of x) (env.of y)) n h in
    (ground (arith, e, lt), ground (arith, e))
term_of-HasValue n sub env x y (raw_app (Normalize.other i) (Normalize.other j)) h e =
    (h, ground (arith, e))
term_of-HasValue n sub env x y (def bot) h e = (h, refl)
term_of-HasValue n sub env x y (def (Normalize.other i)) h e = (h, refl)
term_of-HasValue n sub env x y (raw_app (Normalize.lit m) z) h e = (h, refl)
term_of-HasValue n sub env x y (raw_app bot z) h e = (h, refl)
term_of-HasValue n sub env x y (raw_app (Normalize.other i) (Normalize.lit m)) h e = (h, refl)
term_of-HasValue n sub env x y (raw_app (Normalize.other i) bot) h e = (h, refl)
term_of-HasValue n sub env x y unknown h e = (h, refl)

-- The width plays no part.
normalize_icmp_width :
    (sub x y : ℕ) (v w : Width)
    → normalize_icmp sub v (Normalize.other x) (Normalize.other y)
      ≡ normalize_icmp sub w (Normalize.other x) (Normalize.other y)
unfolding normalize_icmp
normalize_icmp_width sub x y v w = refl

op_icmp-HasValue :
    (n sub : ℕ) (w : Width) (env : Env) (x y : ℕ)
    → n ≡ 1
    → HasValue n env (truth_at sub env x y) (op_icmp w sub x y)
unfolding op_icmp
op_icmp-HasValue n sub w env x y h =
    let left = Normalize.other x in
    let right = Normalize.other y in
    term_of-HasValue n sub env x y (normalize_icmp sub w left right) h (
      ap (result (icmp_word sub env.width) env.of) (normalize_icmp_width sub x y w env.width)
      ∙ normalize_icmp-value sub env.width env.of left right (truth_at sub env x y) refl)

module _ (make : Bit2 → Term → Term → Term) (gid : Term → ℕ) (w : Width) (env : Env)
    (keeps : Keeps w env make) where
  abbrev n : ℕ
  n = bits w

  abbrev val : Term → ℕ
  val x = eval n env x

  module _ (id : Bit2) (c : is_commutative_bit2 id ≡ true) where
    abbrev value : ℕ → ℕ → ℕ
    value u v = bit2_value id n u v

    merge_icmps-IfSome :
        (x y : Term)
        → Typed n env x
        → IfSome n env (value (val x) (val y)) (merge_icmps make gid w id x y)
    unfolding merge_icmps
    merge_icmps-IfSome (icmp i x y) (icmp j v u) hx = elim (Bool-cases (x == v && y == u)) [
      | inl e ↦
          let p = and_split (x == v) (y == u) e in
          let left = fold_icmp i env.width (env.of x) (env.of y) in
          let right = fold_icmp j env.width (env.of x) (env.of y) in
          let merged = op_icmp-HasValue n (merge_sub (make_truth_table id) 5 i j) w env x y hx in
          rw e (
            merged.0,
            merged.1
                ∙ ap digit (
                    fold_icmp-merge_sub (make_truth_table id) i j env.width (env.of x) (env.of y)
                    ∙ table id c left right)
                ∙ digit_value id left right
                ∙ ap (λ (k : ℕ). bit2_value id k (digit left) (digit right)) (sym hx)
                ∙ ap
                    (λ (k : ℕ).
                      value (digit left) (digit (fold_icmp j env.width (env.of k) (env.of y))))
                    ((==_iff x v).0 p.0)
                ∙ ap
                    (λ (k : ℕ).
                      value (digit left) (digit (fold_icmp j env.width (env.of v) (env.of k))))
                    ((==_iff y u).0 p.1),
          )
      | inr e ↦ rw e tt
    ]
    merge_icmps-IfSome (lit m) y hx = tt
    merge_icmps-IfSome (bit2 j x z) y hx = tt
    merge_icmps-IfSome (other m) y hx = tt
    merge_icmps-IfSome (icmp i x y) (lit m) hx = tt
    merge_icmps-IfSome (icmp i x y) (bit2 j v u) hx = tt
    merge_icmps-IfSome (icmp i x y) (other m) hx = tt

    or_else-IfSome :
        (v : ℕ) (o p : Option Term)
        → IfSome n env v o
        → IfSome n env v p
        → IfSome n env v (or_else make gid w o p)
    or_else-IfSome v (some x) p ho hp = ho
    or_else-IfSome v none p ho hp = hp

    or_keep :
        (v : ℕ) (o : Option Term) (d : Term)
        → IfSome n env v o
        → HasValue n env v d
        → HasValue n env v (elim o [ some r ↦ r | none ↦ d ])
    or_keep v (some x) d ho hd = ho
    or_keep v none d ho hd = hd

    bit2_rules-HasValue :
        (x y : Term)
        → Typed n env x
        → Typed n env y
        → HasValue n env (value (val x) (val y)) (bit2_rules make gid w id x y)
    unfolding bit2_rules
    bit2_rules-HasValue x y hx hy =
        let v = value (val x) (val y) in
        or_keep v _ (bit2 id x y)
          (or_else-IfSome v _ _ (same_operands-IfSome make gid w env keeps id c x y hx) (
            or_else-IfSome v _ _ (lit_left-IfSome make gid w env keeps id c x y hy) (
              or_else-IfSome v _ _ (lit_right-IfSome make gid w env keeps id c x y hx)
                (reassociate-IfSome make gid w env keeps id c x y hx hy))))
          ((hx, hy), refl)

    lits_keep :
        (v : ℕ)
        → v < 2 ^ n
        → (o : Option ℕ) → ((r : ℕ) → o ≡ some r → r ≡ v)
        → IfSome n env v (elim o [ some r ↦ some (lit r) | none ↦ none ])
    lits_keep v hv (some r) h = let e = h r refl in (omega arith, e)
    lits_keep v hv none h = tt

    bit2_literals-IfSome :
        (x y : Term)
        → Typed n env x
        → Typed n env y
        → IfSome n env (value (val x) (val y)) (bit2_literals make gid w id x y)
    unfolding bit2_literals
    bit2_literals-IfSome (lit m) (lit k) hx hy =
        lits_keep (value m k) (V-lt make gid w env keeps id c m k hx hy) (fold_bit2 id w m k)
          (λ r e. fold_bit2_lem w m k hx hy id r e)
    bit2_literals-IfSome (lit m) (bit2 j v u) hx hy = tt
    bit2_literals-IfSome (lit m) (icmp j v u) hx hy = tt
    bit2_literals-IfSome (lit m) (other k) hx hy = tt
    bit2_literals-IfSome (bit2 j v u) y hx hy = tt
    bit2_literals-IfSome (icmp j v u) y hx hy = tt
    bit2_literals-IfSome (other k) y hx hy = tt

    bit2_folded-HasValue :
        (x y : Term)
        → Typed n env x
        → Typed n env y
        → HasValue n env (value (val x) (val y)) (bit2_folded make gid w id x y)
    unfolding bit2_folded
    bit2_folded-HasValue x y hx hy =
        or_keep (value (val x) (val y)) _ (bit2_rules make gid w id x y)
          (bit2_literals-IfSome x y hx hy) (bit2_rules-HasValue x y hx hy)

  bit2_switch-HasValue :
      (id : Bit2) (x y : Term)
      → is_commutative_bit2 id ≡ true
      → Typed n env x
      → Typed n env y
      → HasValue n env (bit2_value id n (val x) (val y)) (bit2_switch make gid w id x y)
  unfolding bit2_switch bit2_value is_commutative_bit2 make_truth_table
  bit2_switch-HasValue f x y c hx hy = (one-le-pow n 2 (omega arith), refl)
  bit2_switch-HasValue t x y c hx hy = let one = one-le-pow n 2 (omega arith) in (omega arith, refl)
  bit2_switch-HasValue a x y c hx hy = (hx, refl)
  bit2_switch-HasValue b x y c hx hy = (hy, refl)
  bit2_switch-HasValue na x y c hx hy = absurd (ground arith)
  bit2_switch-HasValue nb x y c hx hy = absurd (ground arith)
  bit2_switch-HasValue ciff x y c hx hy = absurd (ground arith)
  bit2_switch-HasValue nciff x y c hx hy = absurd (ground arith)
  bit2_switch-HasValue id x y c hx hy = bit2_folded-HasValue id c x y hx hy

  bit2_commuted-HasValue :
      (id : Bit2) (x y : Term)
      → is_commutative_bit2 id ≡ true
      → Typed n env x
      → Typed n env y
      → HasValue n env (bit2_value id n (val x) (val y)) (bit2_commuted make gid w id x y)
  unfolding bit2_commuted
  bit2_commuted-HasValue id x y c hx hy =
      or_keep id c (bit2_value id n (val x) (val y)) _ (bit2_switch make gid w id x y)
        (merge_icmps-IfSome id c x y hx) (bit2_switch-HasValue id x y c hx hy)

  -- If the world keeps the value of the operations that commute, so does the normalizer.
  pub normalize_bit2-Keeps : Keeps w env (normalize_bit2 make gid w)
  unfolding normalize_bit2
  normalize_bit2-Keeps id x y c hx hy =
      elim (Bool-cases
        (is_commutative_bit2 id && (is_lit y || (ltb (gid y) (gid x) && not (is_lit x))))) [
          | inl e ↦
              let k = bit2_commuted-HasValue id y x c hy hx in
              rw e (
                k.0,
                k.1
                    ∙ commutes make gid w env keeps id c (val y) (val x) (eval-lt n env y hy)
                        (eval-lt n env x hx),
              )
          | inr e ↦ rw e (bit2_commuted-HasValue id x y c hx hy)
        ]

build-Keeps : (depth : ℕ) (gid : Term → ℕ) (w : Width) (env : Env) → Keeps w env (build depth gid w)
unfolding build
build-Keeps zero gid w env = λ id x y c hx hy. ((hx, hy), refl)
build-Keeps (suc depth) gid w env =
    normalize_bit2-Keeps (build depth gid w) gid w env (build-Keeps depth gid w env)

-- However deep the normalizers call one another, what is built for an operation that commutes, from
-- two operands of the type, is of the type and has the operation's documented value, whatever the
-- values of the unknown definitions.
pub build-HasValue :
    (depth : ℕ) (gid : Term → ℕ) (w : Width) (env : Env) (id : Bit2) (x y : Term)
    → is_commutative_bit2 id ≡ true
    → Typed (bits w) env x
    → Typed (bits w) env y
    → HasValue
        (bits w)
        env
        (bit2_value id (bits w) (eval (bits w) env x) (eval (bits w) env y))
        (build depth gid w id x y)
build-HasValue depth gid w env = build-Keeps depth gid w env
