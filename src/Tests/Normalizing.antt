-- ===== src/Tests/Normalizing.antt =====
-- Instances for the normalizers.
use thorin.Prelude.{arith}
use thorin.Core.Ops.{logical, sdiv}
use thorin.Core.Fold.{w32, w64, fold_shr, fold_div}
use thorin.Core.Normalize.{
  lit, other, normalize_shr, normalize_div, normalize_icmp, icmp_word, icmp_e,
}
use thorin.Core.Normalize.Sound.{
  Env, value, apply, result, Refines, normalize_shr-Refines, normalize_div-Refines,
}
use thorin.Core.Normalize.Compare.{normalize_icmp-Refines}

-- Every unknown is 7.
abbrev sevens : Env
sevens i = 7

normalize_shr-Refines_example :
    Refines
      (apply (fold_shr logical w32) (value sevens (other 3)) (value sevens (lit 1)))
      (result (fold_shr logical w32) sevens (normalize_shr logical w32 (other 3) (lit 1)))
normalize_shr-Refines_example =
    normalize_shr-Refines logical w32 sevens (other 3) (lit 1) tt (omega arith) (omega arith)

normalize_div-Refines_example :
    Refines
      (apply (fold_div sdiv w32) (value sevens (other 3)) (value sevens (other 3)))
      (result (fold_div sdiv w32) sevens (normalize_div sdiv w32 (other 3) (other 3)))
normalize_div-Refines_example =
    normalize_div-Refines sdiv w32 sevens (other 3) (other 3) tt (omega arith) (omega arith)

normalize_icmp-Refines_example :
    Refines
      (apply (icmp_word icmp_e w64) (value sevens (other 3)) (value sevens (lit 5)))
      (result (icmp_word icmp_e w64) sevens (normalize_icmp icmp_e w64 (other 3) (lit 5)))
normalize_icmp-Refines_example = normalize_icmp-Refines icmp_e w64 sevens (other 3) (lit 5)
