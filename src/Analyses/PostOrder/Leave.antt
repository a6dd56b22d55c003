-- ===== src/Analyses/PostOrder/Leave.antt =====
-- A node is left, and gets its index.
use mathlib.Core.List.{Memᴰ}
use mathlib.Core.Path.{subst}
use thorin.Prelude.{eq_cases, ℕ, suc, ◌^◌, ◌<◌, ◌≡◌, ◌≢◌, ◌⊎◌, inl, inr, refl, sym, ap, ◌∙◌, arith}
use thorin.Analyses.PostOrder.{Graph, unseen, active, at, Marks, put, before}
use thorin.Analyses.PostOrder.Count.{count-one, count-le}
use thorin.Analyses.PostOrder.Numbered.{is_open, open_count, Rooted, Preceded, IsNumbered}
use thorin.Analyses.PostOrder.Cycles.{Above, leave-IsForward, put_here, put_other, at-inj}

pub before-pred : (j : ℕ) → 0 < j → j < 2 ^ 64 → suc (before j) ≡ j
before-pred j pos lt = omega arith

-- The root of an active node is another one.
abbrev pub RootedElsewhere : Graph → Marks → ℕ → Type 0
RootedElsewhere g m n =
    (n ≡ g.entry) ⊎ ((p : ℕ) × (Memᴰ n (g.succs p) × ((m p ≡ active) × (p ≢ n))))

module _ (g : Graph) (j n : ℕ) (m : Marks) (v : IsNumbered g j m) (small : g.size < 2 ^ 64)
    (lt : n < g.size) (act : m n ≡ active) where
  after : Marks
  after = put m n (at (before j))

  -- The counter goes down.
  leave-counter : (suc (before j) ≡ j) × (before j ≡ open_count g after)
  unfolding after
  leave-counter =
      let one =
        count-one (λ x. is_open (m x)) (λ x. is_open (after x)) n g.size lt (rw act refl)
          (rw (put_here m n (at (before j)) n refl) refl)
          (λ x e. rw (put_other m n (at (before j)) x e) refl) in
      let le = count-le (λ x. is_open (m x)) g.size in
      let c = v.counter in
      let pos : 0 < j = omega arith in
      let pred = before-pred j pos (omega arith) in (pred, omega arith)

  leave-Preceded :
      RootedElsewhere g m n → (x k : ℕ) → after x ≡ at k → Rooted g after x ⊎ Preceded g after x k
  unfolding after
  leave-Preceded root x k e = elim (eq_cases x n) [
    | inl same ↦ elim root [
      | inl entry ↦ inl (inl (same ∙ entry))
      | inr (p, (mem, (pact, other))) ↦
          inl (inr (p, (rw same mem, put_other m n (at (before j)) p other ∙ pact)))
    ]
    | inr differs ↦
        let old : m x ≡ at k = sym (put_other m n (at (before j)) x differs) ∙ e in
        let bound = v.within x k old in
        elim (v.preceded x k old) [
          | inl r ↦ elim r [
            | inl entry ↦ inl (inl entry)
            | inr (p, (mem, pact)) ↦ elim (eq_cases p n) [
              | inl here ↦
                  let pred = leave-counter.0 in
                  inr (
                    p,
                    (
                      before j,
                      (
                        mem,
                        (put_here m n (at (before j)) p here, (let low = bound.0 in omega arith)),
                      ),
                    ),
                  )
              | inr there ↦ inl (inr (p, (mem, put_other m n (at (before j)) p there ∙ pact)))
            ]
          ]
          | inr (p, (kp, (mem, (ip, less)))) ↦ inr (
            p,
            (
              kp,
              (mem, (put_other m n (at (before j)) p (λ z. (let pa = ap m z in cc)) ∙ ip, less)),
            ),
          )
        ]
  ]

  pub leave-IsNumbered :
      RootedElsewhere g m n
      → Above g m n
      → ((s : ℕ) → Memᴰ s (g.succs n) → m s ≢ unseen)
      → IsNumbered g (before j) (put m n (at (before j)))
  unfolding after
  leave-IsNumbered root above seen =
      let a = at (before j) in
      let pred = leave-counter.0 in
      let old : (x k : ℕ) → x ≢ n → after x ≡ at k → m x ≡ at k =
        λ x k other e. sym (put_other m n a x other) ∙ e in
      let new : (x k : ℕ) → x ≡ n → after x ≡ at k → before j ≡ k =
        λ x k same e. at-inj (before j) k (sym (put_here m n a x same) ∙ e) in
      let stays : (s : ℕ) → m s ≢ unseen → after s ≢ unseen = λ s known z. elim (eq_cases s n) [
        | inl same ↦ (let here = put_here m n a s same in cc)
        | inr other ↦ known (sym (put_other m n a s other) ∙ z)
      ] in
      record {
        counter = leave-counter.1;
        within = λ x k e. elim (eq_cases x n) [
          | inl same ↦
              let k' = new x k same e in
              let le = count-le (λ y. is_open (m y)) g.size in
              let c = v.counter in (omega arith, omega arith)
          | inr other ↦ (let (low, high) = v.within x k (old x k other e) in (omega arith, high))
        ];
        distinct = λ x y k e f. elim (eq_cases x n) [
          | inl same ↦ elim (eq_cases y n) [
            | inl same' ↦ same ∙ sym same'
            | inr other' ↦
                let k' = new x k same e in
                let (low, high) = v.within y k (old y k other' f) in absurd (omega arith)
          ]
          | inr other ↦ elim (eq_cases y n) [
            | inl same' ↦
                let k' = new y k same' f in
                let (low, high) = v.within x k (old x k other e) in absurd (omega arith)
            | inr other' ↦ v.distinct x y k (old x k other e) (old y k other' f)
          ]
        ];
        preceded = leave-Preceded root;
        forward =
            leave-IsForward g m n (before j) act above seen
              (λ y l e. let (low, high) = v.within y l e in omega arith) v.forward;
        taken = λ k low high. elim (eq_cases (before j) k) [
          | inl same ↦ (n, put_here m n a n refl ∙ ap at same)
          | inr other ↦
              let (x, e) = v.taken k (omega arith) high in
              (x, put_other m n a x (λ z. (let eq = ap m z in cc)) ∙ e)
        ];
        followed = λ x s k e mem. elim (eq_cases x n) [
          | inl same ↦ stays s (seen s (subst (λ q. Memᴰ s (g.succs q)) same mem))
          | inr other ↦ stays s (v.followed x s k (old x k other e) mem)
        ];
      }
