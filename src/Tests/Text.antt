-- ===== src/Tests/Text.antt =====
-- Instances for utf8.cpp and axiom.cpp.
use thorin.Prelude.{ℕ, ◌≡◌, refl, arith, none, some, List, [], ◌∷◌, ◌++◌}
use thorin.Util.Utf8.RoundTrip.{ReadsBack, encode-decode}
use thorin.Axiom.{mangle, demangle, find, mangle_rounds, char_code, push_code}
use thorin.Axiom.Mangle.{demangle-mangle}

-- The euro sign, followed by a letter.
encode-decode_example : ReadsBack 0x20ac (65 ∷ [])
encode-decode_example = encode-decode 0x20ac (65 ∷ []) (omega arith)

abbrev core_name : List ℕ
core_name = b'c' ∷ b'o' ∷ b'r' ∷ b'e' ∷ []

abbrev icmp_name : List ℕ
icmp_name = b'i' ∷ b'c' ∷ b'm' ∷ b'p' ∷ []

abbrev e_name : List ℕ
e_name = b'e' ∷ []

abbrev core_word : ℕ
core_word = 1226322701853917184

mangle_core : mangle core_name ≡ some core_word
unfolding mangle mangle_rounds char_code push_code
mangle_core = refl

demangle-mangle_example : demangle core_word ≡ core_name
demangle-mangle_example = demangle-mangle core_name core_word mangle_core

no_dot : find b'.' icmp_name ≡ none
unfolding find
no_dot = refl

abbrev full_name : List ℕ
full_name = b'%' ∷ (core_name ++ b'.' ∷ (icmp_name ++ b'.' ∷ e_name))
