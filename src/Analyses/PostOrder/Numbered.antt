-- ===== src/Analyses/PostOrder/Numbered.antt =====
-- The invariant of the numbering, and the two changes of a mark.
use mathlib.Core.List.{Memᴰ}
use mathlib.Core.Path.{subst}
use thorin.Prelude.{
  eq_cases, ℕ, ◌<◌, ◌≤◌, ◌≡◌, ◌≢◌, ◌⊎◌, inl, inr, refl, sym, ap, ◌∙◌, Bool, true, false,
}
use thorin.Analyses.PostOrder.{Graph, Mark, unseen, active, at, Marks, put, is_unseen}
use thorin.Analyses.PostOrder.Count.{count, count-same}
use thorin.Analyses.PostOrder.Cycles.{IsForward, enter-IsForward, put_here, put_other}

-- The node has no index yet.
abbrev pub is_open : Mark → Bool
is_open unseen = true
is_open active = true
is_open (at k) = false

abbrev pub open_count : Graph → Marks → ℕ
open_count g m = count (λ x. is_open (m x)) g.size

abbrev pub unseen_count : Graph → Marks → ℕ
unseen_count g m = count (λ x. is_unseen (m x)) g.size

-- A node is the entry, or it is a successor of a node that is active.
abbrev pub Rooted : Graph → Marks → ℕ → Type 0
Rooted g m x = (x ≡ g.entry) ⊎ ((p : ℕ) × (Memᴰ x (g.succs p) × (m p ≡ active)))

-- A node is a successor of a node of a smaller index than `k`.
abbrev pub Preceded : Graph → Marks → ℕ → ℕ → Type 0
Preceded g m x k = (p : ℕ) × ((kp : ℕ) × (Memᴰ x (g.succs p) × ((m p ≡ at kp) × (kp < k))))

-- The counter is the number of nodes without an index. The indices are from the counter up to the number
-- of nodes and no two are the same; a node that has one follows a node of a smaller index, unless that is
-- still active or the node is the entry, and its successors are no longer unseen; edges go to greater
-- indices or lie on cycles. Every index from the counter on is taken.
pub record IsNumbered (g : Graph) (i : ℕ) (m : Marks) : Type 0 where
  pub counter : i ≡ open_count g m
  pub within : (x k : ℕ) → m x ≡ at k → (i ≤ k) × (k < g.size)
  pub distinct : (x y k : ℕ) → m x ≡ at k → m y ≡ at k → x ≡ y
  pub preceded : (x k : ℕ) → m x ≡ at k → Rooted g m x ⊎ Preceded g m x k
  pub followed : (x s k : ℕ) → m x ≡ at k → Memᴰ s (g.succs x) → m s ≢ unseen
  pub forward : IsForward g m
  pub taken : (k : ℕ) → i ≤ k → k < g.size → (x : ℕ) × (m x ≡ at k)

-- A node with an index keeps it where another mark is put on a node without one.
other_of_at :
    (m : Marks) (n : ℕ) (a : Mark) (x k : ℕ) → is_open a ≡ true → put m n a x ≡ at k → m x ≡ at k
other_of_at m n a x k o e = elim (eq_cases x n) [
  | inl same ↦
      let isa : a ≡ at k = sym (put_here m n a x same) ∙ e in
      let no : is_open (at k) ≡ true = subst (λ b. is_open b ≡ true) isa o in cc
  | inr other ↦ sym (put_other m n a x other) ∙ e
]

-- A node is entered.
pub enter-IsNumbered :
    (g : Graph) (i n : ℕ) (m : Marks)
    → IsNumbered g i m
    → m n ≡ unseen
    → IsNumbered g i (put m n active)
enter-IsNumbered g i n m v fresh =
    let m' = put m n active in
    let old : (x k : ℕ) → m' x ≡ at k → m x ≡ at k = λ x k. other_of_at m n active x k refl in
    let stays : (x : ℕ) → m x ≢ unseen → m' x ≡ m x =
      λ x seen. put_other m n active x (λ (e : x ≡ n). seen (ap m e ∙ fresh)) in
    let sameopen : (x : ℕ) → is_open (m x) ≡ is_open (m' x) = λ x. elim (eq_cases x n) [
      | inl e ↦ rw (put_here m n active x e, e, fresh) refl
      | inr e ↦ rw (put_other m n active x e) refl
    ] in
    record {
      counter =
          v.counter
          ∙ count-same (λ x. is_open (m x)) (λ x. is_open (m' x)) g.size (λ x lt. sameopen x);
      within = λ x k e. v.within x k (old x k e);
      distinct = λ x y k e f. v.distinct x y k (old x k e) (old y k f);
      preceded = λ x k e. elim (v.preceded x k (old x k e)) [
        | inl root ↦ elim root [
          | inl entry ↦ inl (inl entry)
          | inr (p, (mem, act)) ↦ inl (inr (p, (mem, stays p (λ z. cc) ∙ act)))
        ]
        | inr (p, (kp, (mem, (ip, lt)))) ↦ inr (p, (kp, (mem, (stays p (λ z. cc) ∙ ip, lt))))
      ];
      followed = λ x s k e mem z. elim (eq_cases s n) [
        | inl same ↦ (let act = put_here m n active s same in cc)
        | inr other ↦ v.followed x s k (old x k e) mem (sym (put_other m n active s other) ∙ z)
      ];
      forward = enter-IsForward g m n fresh v.forward;
      taken = λ k low high. let (x, e) = v.taken k low high in (x, stays x (λ z. cc) ∙ e);
    }
