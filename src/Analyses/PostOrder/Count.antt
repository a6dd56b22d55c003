-- ===== src/Analyses/PostOrder/Count.antt =====
-- The number of nodes with some mark.
use thorin.Prelude.{
  eq_cases, ℕ, zero, suc, ◌<◌, ◌≤◌, ◌≡◌, ◌≢◌, inl, inr, refl, arith, Bool, true, false, Bool-cases,
  if◌then◌else◌,
}

unfoldable pub count : (ℕ → Bool) → ℕ → ℕ
count f zero = 0
count f (suc k) = if f k then suc (count f k) else count f k

pub count-le : (f : ℕ → Bool) (k : ℕ) → count f k ≤ k
unfolding count
count-le f zero = omega arith
count-le f (suc k) = (let rest = count-le f k in ground arith)

pub count-same : (f g : ℕ → Bool) (k : ℕ) → ((x : ℕ) → x < k → f x ≡ g x) → count f k ≡ count g k
unfolding count
count-same f g zero same = refl
count-same f g (suc k) same =
    rw (same k (omega arith), count-same f g k (λ x lt. same x (omega arith))) refl

-- If one node goes, the number is one less.
pub count-one :
    (f g : ℕ → Bool) (n k : ℕ)
    → n < k
    → f n ≡ true
    → g n ≡ false
    → ((x : ℕ) → x ≢ n → f x ≡ g x)
    → count f k ≡ suc (count g k)
unfolding count
count-one f g n zero lt fn gn same = absurd (omega arith)
count-one f g n (suc k) lt fn gn same = elim (eq_cases k n) [
  | inl e ↦
      let rest = count-same f g k (λ x less. same x (λ (z : x ≡ n). omega arith)) in
      let fk : f k ≡ true = rw e fn in let gk : g k ≡ false = rw e gn in rw (fk, gk, rest) refl
  | inr e ↦
      let rest = count-one f g n k (omega arith) fn gn same in
      elim (Bool-cases (g k)) [
        | inl q ↦ rw (same k e, rest, q) refl
        | inr q ↦ rw (same k e, rest, q) refl
      ]
]

-- If nodes only go, the number is no greater.
pub count_mono :
    (f g : ℕ → Bool) (k : ℕ) → ((x : ℕ) → g x ≡ true → f x ≡ true) → count g k ≤ count f k
unfolding count
count_mono f g zero sub = omega arith
count_mono f g (suc k) sub =
    let rest = count_mono f g k sub in
    elim (Bool-cases (g k)) [ inl e ↦ rw (e, sub k e) (omega arith) | inr e ↦ rw e (ground arith) ]

-- Where there is a node, the number is not 0.
pub count-some : (f : ℕ → Bool) (n k : ℕ) → n < k → f n ≡ true → 0 < count f k
unfolding count
count-some f n zero lt fn = absurd (omega arith)
count-some f n (suc k) lt fn = elim (Bool-cases (f k)) [
  | inl e ↦ rw e (omega arith)
  | inr e ↦ elim (eq_cases n k) [
    | inl same ↦ (let fk : f k ≡ true = rw (← same) fn in cc)
    | inr other ↦ rw e (count-some f n k (omega arith) fn)
  ]
]

-- Where no node is, it is 0.
pub count-none : (f : ℕ → Bool) (k : ℕ) → ((x : ℕ) → x < k → f x ≡ false) → count f k ≡ 0
unfolding count
count-none f zero nowhere = refl
count-none f (suc k) nowhere =
    rw (nowhere k (omega arith), count-none f k (λ x lt. nowhere x (omega arith))) refl

pub count-all : (f : ℕ → Bool) (k : ℕ) → ((x : ℕ) → f x ≡ true) → count f k ≡ k
unfolding count
count-all f zero all = refl
count-all f (suc k) all = rw (all k, count-all f k all) refl
