-- ===== src/Tests/Currying.antt =====
-- Instances for the counter of axioms.
use thorin.Prelude.{ℕ, ◌+◌, ◌*◌, ◌≡◌, ◌↔◌, refl, true, arith}
use thorin.Axiom.Curry.{Counted, normalized, raw_app}
use thorin.Axiom.Curry.Rounds.{applied, raw_app-normalized_iff}

-- Two curried arguments, and then trips of three.
abbrev folding : Counted
folding = record { gid = 1; has_normalizer = true; curry = 2; trip = 3 }

raw_app-normalized_iff_example :
    raw_app true (applied 4 folding) ≡ normalized folding ↔ ((q : ℕ) × (5 ≡ 2 + q * 3))
raw_app-normalized_iff_example = raw_app-normalized_iff folding 4 refl (omega arith) (omega arith)
