-- ===== src/Axiom/Curry/Rounds.antt =====
-- The applications of an axiom, one after the other.
use thorin.Prelude.{
  eq_cases, ltb, ℕ, zero, suc, ◌+◌, ◌-◌, ◌*◌, ◌<◌, ◌≡◌, ◌↔◌, inl, inr, refl, ap, ◌∙◌, arith, Bool,
  true, false, ◌&&◌, some, ◌==◌, ==_iff, Bool-cases, if◌then◌else◌,
}
use thorin.Axiom.Curry.{
  Counted, Callee, axiom_def, app_def, other_def, trip_end, get, next_curry, normalized, built,
  count_app, raw_app,
}

-- The axiom after some applications without normalization.
unfoldable pub applied : ℕ → Counted → Callee
applied zero a = axiom_def a
applied (suc k) a = elim (raw_app false (applied k a)) [ normalized b ↦ other_def | built f ↦ f ]

-- The counter after some applications: it goes down to 0, then round after round from the trip to 0, and
-- without a trip it stops at the end.
data Count (curry trip k c : ℕ) : Type 0 where
  first : k + c ≡ curry → Count curry trip k c
  later : (q : ℕ) → k + c ≡ curry + (q + 1) * trip → c < trip → Count curry trip k c
  over : trip ≡ 0 → c ≡ trip_end → curry < k → Count curry trip k c

-- What `next_curry` comes to.
next_curry-down : (c trip : ℕ) → 0 < c → c < 255 → next_curry c trip ≡ c - 1
unfolding next_curry
next_curry-down c trip pos lt = ground arith

next_curry-stays : (trip : ℕ) → next_curry trip_end trip ≡ trip_end
unfolding next_curry
next_curry-stays trip = refl

next_curry-end : next_curry 0 0 ≡ trip_end
unfolding next_curry
next_curry-end = refl

next_curry-trip : (trip : ℕ) → 0 < trip → trip < 255 → next_curry 0 trip ≡ trip - 1
unfolding next_curry
next_curry-trip trip pos lt = ground arith

next_curry-Count :
    (curry trip k c : ℕ)
    → curry < 255
    → trip < 255
    → Count curry trip k c
    → Count curry trip (suc k) (next_curry c trip)
next_curry-Count curry trip k c lc lt (first e) = elim (eq_cases c 0) [
  | inl z ↦ elim (eq_cases trip 0) [
    | inl none_left ↦ over none_left (rw (z, none_left) next_curry-end) (omega arith)
    | inr some_left ↦
        rw (z, next_curry-trip trip (omega arith) lt) (later 0 (omega arith) (omega arith))
  ]
  | inr pos ↦ rw (next_curry-down c trip (omega arith) (omega arith)) (first (omega arith))
]
next_curry-Count curry trip k c lc lt (later q e less) = elim (eq_cases c 0) [
  | inl z ↦
      rw (z, next_curry-trip trip (omega arith) lt) (later (q + 1) (omega arith) (omega arith))
  | inr pos ↦
      rw (next_curry-down c trip (omega arith) (omega arith)) (later q (omega arith) (omega arith))
]
next_curry-Count curry trip k c lc lt (over z e less) =
    over z (rw e (next_curry-stays trip)) (omega arith)

-- Two numbers of rounds that end with the same count.
rounds_unique : (p q trip c : ℕ) → p * trip ≡ c + q * trip → c < trip → c ≡ 0
rounds_unique p q trip c e lt = elim (Bool-cases (ltb q p)) [
  | inl more ↦
      let d = p - suc q in
      let pd : p ≡ suc q + d = ground arith in
      let mul : p * trip ≡ (suc q + d) * trip = ap (λ (r : ℕ). r * trip) pd in absurd (omega arith)
  | inr less ↦
      let d = q - p in
      let qd : q ≡ p + d = ground arith in
      let mul : q * trip ≡ (p + d) * trip = ap (λ (r : ℕ). r * trip) qd in omega arith
]

Count-zero_iff :
    (curry trip k c : ℕ) → Count curry trip k c → c ≡ 0 ↔ ((q : ℕ) × (k ≡ curry + q * trip))
Count-zero_iff curry trip k c (first e) = ((λ z. (0, omega arith)), (λ (q, eq). omega arith))
Count-zero_iff curry trip k c (later q e less) =
    ((λ z. (q + 1, omega arith)), (λ (p, eq). rounds_unique (q + 1) p trip c (omega arith) less))
Count-zero_iff curry trip k c (over z e less) = (
  (λ zero_c. absurd (omega arith)),
  (λ (q, eq). let mul : q * trip ≡ q * 0 = ap (λ (r : ℕ). q * r) z in absurd (omega arith)),
)

raw_app-axiom :
    (normalize : Bool) (f : Callee) (a : Counted) (c trip : ℕ)
    → get f ≡ (some a, (c, trip))
    → raw_app normalize f ≡ (
        if normalize && (a.has_normalizer && next_curry c trip == 0)
        then normalized a
        else built (app_def (some a) (next_curry c trip) trip))
unfolding raw_app count_app
raw_app-axiom normalize f a c trip e = ap (count_app normalize) e

-- The callee after some applications has the axiom, a counter as above, and the trip.
applied-Count :
    (a : Counted) (k : ℕ)
    → a.curry < 255
    → a.trip < 255
    → (c : ℕ) × ((get (applied k a) ≡ (some a, (c, a.trip))) × Count a.curry a.trip k c)
unfolding applied get
applied-Count a zero lc lt = (a.curry, (refl, first (omega arith)))
applied-Count a (suc k) lc lt =
    let (c, (e, count)) = applied-Count a k lc lt in
    let after : applied (suc k) a ≡ app_def (some a) (next_curry c a.trip) a.trip =
      rw (applied, raw_app-axiom false (applied k a) a c a.trip e) refl in
    (next_curry c a.trip, (ap get after, next_curry-Count a.curry a.trip k c lc lt count))

-- An axiom that has a normalizer is normalized at the application that completes its curried arguments,
-- and then at the end of every trip, and at no other.
pub raw_app-normalized_iff :
    (a : Counted) (k : ℕ)
    → a.has_normalizer ≡ true
    → a.curry < 255
    → a.trip < 255
    → raw_app true (applied k a) ≡ normalized a ↔ ((q : ℕ) × (suc k ≡ a.curry + q * a.trip))
raw_app-normalized_iff a k has lc lt =
    let (c, (e, count)) = applied-Count a k lc lt in
    let next = next_curry c a.trip in
    let zero_iff =
      Count-zero_iff a.curry a.trip (suc k) next
        (next_curry-Count a.curry a.trip k c lc lt count) in
    let shape = raw_app-axiom true (applied k a) a c a.trip e in
    let forth : raw_app true (applied k a) ≡ normalized a → next ≡ 0 = λ h.
      elim (Bool-cases (next == 0)) [
        | inl z ↦ (==_iff next 0).0 z
        | inr z ↦
            (let kept : raw_app true (applied k a) ≡ built (app_def (some a) next a.trip) =
                shape ∙ simp (has, z) refl in
              cc)
      ] in
    let back : next ≡ 0 → raw_app true (applied k a) ≡ normalized a =
      λ z. shape ∙ simp (has, (==_iff next 0).1 z) refl in
    ((λ h. zero_iff.0 (forth h)), (λ q. back (zero_iff.1 q)))
