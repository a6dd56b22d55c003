-- ===== src/Tests/Numbering.antt =====
-- Instances for post_order_visit.
use mathlib.Core.List.{Memᴰ}
use mathlib.Core.List.Memᴰ
use thorin.Prelude.{refl, ℕ, zero, suc, ◌+◌, ◌%◌, ◌<◌, ◌≡◌, ◌↔◌, ◌⊎◌, some, [], ◌∷◌, arith}
use thorin.Analyses.PostOrder.{Graph, at, Marks, number}
use thorin.Analyses.PostOrder.Numbered.{Preceded}
use thorin.Analyses.PostOrder.Visit.{IsClosed}
use thorin.Analyses.PostOrder.Correct.{Reach, begin, next, number-Preceded, number-IsForward}
use thorin.Analyses.PostOrder.Cycles.{Walk}

-- Three nodes in a ring.
abbrev ring : Graph
ring = record { size = 3; entry = 0; succs = λ x. (x + 1) % 3 ∷ [] }

ring-IsClosed : IsClosed ring
ring-IsClosed = record {
  inside = λ x s lt mem. (let e = Memᴰ.eq_of_singleton mem in omega arith);
  small = omega arith;
}

ring-Reach : (z : ℕ) → z < 3 → Reach ring z
ring-Reach zero lt = begin
ring-Reach (suc z) lt =
    let e : suc z ≡ (z + 1) % 3 = omega arith in
    next z (suc z) (ring-Reach z (omega arith)) (Memᴰ.head e)

number-Preceded_example :
    (m : Marks) × ((number ring ≡ some (0, m))
      × ((m 0 ≡ at 0)
          × ((k : ℕ) × ((m 2 ≡ at k)
                × ((k < 3)
                    × ((m 2 ≡ m 1 ↔ ◌≡◌ {A = ℕ} 2 1)
                        × ((◌≡◌ {A = ℕ} 2 0) ⊎ Preceded ring m 2 k)))))))
number-Preceded_example =
    number-Preceded ring 2 1 ring-IsClosed (omega arith) ring-Reach (omega arith) (omega arith)

-- The edge that closes the ring.
number-IsForward_example :
    (m : Marks) × ((number ring ≡ some (0, m))
      × ((k : ℕ) × ((m 2 ≡ at k) × ((l : ℕ) × ((m 0 ≡ at l) × ((k < l) ⊎ Walk ring 0 2))))))
number-IsForward_example =
    number-IsForward ring 2 0 ring-IsClosed (omega arith) ring-Reach (omega arith) (Memᴰ.head refl)
