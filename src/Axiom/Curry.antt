-- ===== src/Axiom/Curry.antt =====
-- When an application of an axiom is normalized: `Axiom::get` of thorin/axiom.cpp and the counter of
-- `World::raw_app` in thorin/world.cpp.
pub mod Rounds
use thorin.Prelude.{
  ℕ, zero, suc, ◌+◌, ◌%◌, ◌^◌, Bool, true, false, ◌&&◌, Option, none, some, ◌==◌, if◌then◌else◌,
}

-- The part of an axiom that counts.
pub record Counted : Type 0 where
  pub gid : ℕ
  pub has_normalizer : Bool
  pub curry : ℕ
  pub trip : ℕ

-- The callee of an application: an axiom, an application, or something else.
pub data Callee : Type 0 where
  axiom_def : Counted → Callee
  app_def : Option Counted → ℕ → ℕ → Callee
  other_def : Callee

-- `Axiom::Trip_End`
abbrev pub trip_end : ℕ
trip_end = 255

unfoldable pub get : Callee → Option Counted × (ℕ × ℕ)
get (axiom_def a) = (some a, (a.curry, a.trip))
get (app_def a curry trip) = (a, (curry, trip))
get other_def = (none, (0, 0))

-- The counter of the application, on a `u8`.
unfoldable pub next_curry : ℕ → ℕ → ℕ
next_curry curry trip =
    let c = if curry == 0 then trip else curry in if c == trip_end then c else (c + 255) % 2 ^ 8

-- An application is a normalizer's answer, or it is built with its counter.
pub data Applied : Type 0 where
  normalized : Counted → Applied
  built : Callee → Applied

-- The application, from what `get` says of the callee. The first argument is the template's.
unfoldable pub count_app : Bool → Option Counted × (ℕ × ℕ) → Applied
count_app normalize (none, (curry, trip)) = built (app_def none curry trip)
count_app normalize (some a, (curry, trip)) =
    let c = next_curry curry trip in
    if normalize && (a.has_normalizer && c == 0)
    then normalized a
    else built (app_def (some a) c trip)

-- `World::raw_app`
unfoldable pub raw_app : Bool → Callee → Applied
raw_app normalize callee = count_app normalize (get callee)
