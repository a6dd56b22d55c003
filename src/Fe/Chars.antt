-- ===== src/Fe/Chars.antt =====
-- The classes of characters that the lexer asks for. Those of <cctype> are in the "C" locale; what is
-- no `unsigned char` belongs to none of them.
use thorin.Prelude.{ℕ, Bool, ◌&&◌, ◌||◌, ◌==◌, leb, if◌then◌else◌}

abbrev pub between : ℕ → ℕ → ℕ → Bool
between lo hi c = leb lo c && leb c hi

abbrev pub is_space : ℕ → Bool
is_space c = c == 32 || between 9 13 c

abbrev pub is_digit : ℕ → Bool
is_digit c = between b'0' b'9' c

abbrev pub is_xdigit : ℕ → Bool
is_xdigit c = is_digit c || (between b'a' b'f' c || between b'A' b'F' c)

abbrev pub is_alpha : ℕ → Bool
is_alpha c = between b'a' b'z' c || between b'A' b'Z' c

abbrev pub is_sign : ℕ → Bool
is_sign c = c == b'+' || c == b'-'

-- The subscripts from `₀` to `₉`.
abbrev pub is_subscript : ℕ → Bool
is_subscript c = between 0x2080 0x2089 c

-- What an identifier begins with, and what may follow.
abbrev pub is_id_start : ℕ → Bool
is_id_start c = c == b'_' || is_alpha c

abbrev pub is_id_part : ℕ → Bool
is_id_part c = c == b'_' || (c == b'.' || (is_alpha c || is_digit c))

abbrev pub is_exponent : ℕ → ℕ → Bool
is_exponent base c = if base == 10 then c == b'e' || c == b'E' else c == b'p' || c == b'P'

-- The digits that `parse_digits` takes; there is no other base.
abbrev pub is_digit_of : ℕ → ℕ → Bool
is_digit_of base c =
    if base == 2
    then between b'0' b'1' c
    else if base == 8
    then between b'0' b'7' c
    else if base == 10
    then is_digit c
    else is_xdigit c
