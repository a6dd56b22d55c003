-- ===== src/Core/Bitwise/Laws.antt =====
-- Laws of the bit operations on words: one operand fixed, commuted, reassociated.
use thorin.Prelude.{
  ℕ, zero, suc, ◌^◌, ◌<◌, ◌≡◌, refl, sym, ap, ◌∙◌, arith, Bool, true, false, ◌==◌, if◌then◌else◌,
}
use thorin.Prelude.Bits.{bit, bit-lt, bit-zero, bit_ext, bit-complement}
use thorin.Core.Ops.{is_associative_bit2, Bit2, f}
use thorin.Core.TruthTable.{documented}
use thorin.Core.Bitwise.{
  ones, negated, bit2_value, digit, entry, bit-ones, bit2_value-lt, bit-bit2_value,
}

-- What an operation with a table of two entries makes of one operand.
unfoldable pub unary_value : ℕ → Bool → Bool → ℕ → ℕ
unary_value n false false z = 0
unary_value n true true z = ones n
unary_value n false true z = z
unary_value n true false z = negated n z

abbrev pick : Bool → Bool → ℕ → ℕ
pick p q u = if u == 0 then digit p else digit q

bit-unary_value :
    (n : ℕ) (p q : Bool) (z i : ℕ)
    → z < 2 ^ n
    → i < n
    → bit (unary_value n p q z) i ≡ pick p q (bit z i)
unfolding unary_value
bit-unary_value n false false z i hz lt = ground (arith, bit-zero i)
bit-unary_value n true true z i hz lt = ground (arith, bit-ones n i lt)
bit-unary_value n false true z i hz lt = ground (arith, bit-lt z i)
bit-unary_value n true false z i hz lt = ground (arith, bit-complement n z i hz lt, bit-lt z i)

pub unary_value-lt : (n : ℕ) (p q : Bool) (z : ℕ) → z < 2 ^ n → unary_value n p q z < 2 ^ n
unfolding unary_value
unary_value-lt n false false z h = omega arith
unary_value-lt n true true z h = omega arith
unary_value-lt n false true z h = h
unary_value-lt n true false z h = omega arith

module _ (id : Bit2) (n z : ℕ) (hz : z < 2 ^ n) where
  by_bits :
      (x y : ℕ) (p q : Bool)
      → x < 2 ^ n
      → y < 2 ^ n
      → ((i : ℕ) → i < n → entry id (bit x i) (bit y i) ≡ pick p q (bit z i))
      → bit2_value id n x y ≡ unary_value n p q z
  by_bits x y p q hx hy h =
      bit_ext n (bit2_value id n x y) (unary_value n p q z) (bit2_value-lt n x y hx hy id)
        (unary_value-lt n p q z hz)
        (λ i lt.
          bit-bit2_value n x y hx hy id i lt ∙ h i lt ∙ sym (bit-unary_value n p q z i hz lt))

  pub value_same :
      bit2_value id n z z ≡ unary_value n (documented id false false) (documented id true true) z
  unfolding entry
  value_same = by_bits z z _ _ hz hz (λ i lt. ground (arith, bit-lt z i))

  pub value_zero_left :
      bit2_value id n 0 z ≡ unary_value n (documented id false false) (documented id false true) z
  unfolding entry
  value_zero_left =
      by_bits 0 z _ _ (omega arith) hz (λ i lt. ground (arith, bit-lt z i, bit-zero i))

  pub value_ones_left :
      bit2_value id n (ones n) z
      ≡ unary_value n (documented id true false) (documented id true true) z
  unfolding entry
  value_ones_left =
      by_bits (ones n) z _ _ (omega arith) hz (λ i lt. ground (arith, bit-lt z i, bit-ones n i lt))

  pub value_zero_right :
      bit2_value id n z 0 ≡ unary_value n (documented id false false) (documented id true false) z
  unfolding entry
  value_zero_right =
      by_bits z 0 _ _ hz (omega arith) (λ i lt. ground (arith, bit-lt z i, bit-zero i))

  pub value_ones_right :
      bit2_value id n z (ones n)
      ≡ unary_value n (documented id false true) (documented id true true) z
  unfolding entry
  value_ones_right =
      by_bits z (ones n) _ _ hz (omega arith) (λ i lt. ground (arith, bit-lt z i, bit-ones n i lt))

-- An operation whose table is symmetric commutes on words.
pub value_comm :
    (id : Bit2) (n x y : ℕ)
    → x < 2 ^ n
    → y < 2 ^ n
    → documented id true false ≡ documented id false true
    → bit2_value id n x y ≡ bit2_value id n y x
unfolding entry
value_comm id n x y hx hy h =
    bit_ext n (bit2_value id n x y) (bit2_value id n y x) (bit2_value-lt n x y hx hy id)
      (bit2_value-lt n y x hy hx id)
      (λ i lt.
        bit-bit2_value n x y hx hy id i lt
        ∙ ground (arith, bit-lt x i, bit-lt y i, h)
        ∙ sym (bit-bit2_value n y x hy hx id i lt))

-- The operations that `is_associative` lists have associative tables.
entry_assoc :
    (id : Bit2) (u v w : ℕ)
    → u < 2
    → v < 2
    → w < 2
    → is_associative_bit2 id ≡ true
    → entry id (entry id u v) w ≡ entry id u (entry id v w)
unfolding entry documented bit is_associative_bit2
entry_assoc f zero zero zero hu hv hw h = refl
entry_assoc _ zero zero zero hu hv hw h = ground arith
entry_assoc f zero zero (suc zero) hu hv hw h = refl
entry_assoc _ zero zero (suc zero) hu hv hw h = ground arith
entry_assoc f zero (suc zero) zero hu hv hw h = refl
entry_assoc _ zero (suc zero) zero hu hv hw h = ground arith
entry_assoc f zero (suc zero) (suc zero) hu hv hw h = refl
entry_assoc _ zero (suc zero) (suc zero) hu hv hw h = ground arith
entry_assoc f (suc zero) zero zero hu hv hw h = refl
entry_assoc _ (suc zero) zero zero hu hv hw h = ground arith
entry_assoc f (suc zero) zero (suc zero) hu hv hw h = refl
entry_assoc _ (suc zero) zero (suc zero) hu hv hw h = ground arith
entry_assoc f (suc zero) (suc zero) zero hu hv hw h = refl
entry_assoc _ (suc zero) (suc zero) zero hu hv hw h = ground arith
entry_assoc f (suc zero) (suc zero) (suc zero) hu hv hw h = refl
entry_assoc _ (suc zero) (suc zero) (suc zero) hu hv hw h = ground arith
entry_assoc id (suc (suc u)) v w hu hv hw h = absurd (omega arith)
entry_assoc id zero (suc (suc v)) w hu hv hw h = absurd (omega arith)
entry_assoc id (suc zero) (suc (suc v)) w hu hv hw h = absurd (omega arith)
entry_assoc id zero zero (suc (suc w)) hu hv hw h = absurd (omega arith)
entry_assoc id zero (suc zero) (suc (suc w)) hu hv hw h = absurd (omega arith)
entry_assoc id (suc zero) zero (suc (suc w)) hu hv hw h = absurd (omega arith)
entry_assoc id (suc zero) (suc zero) (suc (suc w)) hu hv hw h = absurd (omega arith)

pub value_assoc :
    (id : Bit2) (n x y z : ℕ)
    → x < 2 ^ n
    → y < 2 ^ n
    → z < 2 ^ n
    → is_associative_bit2 id ≡ true
    → bit2_value id n (bit2_value id n x y) z ≡ bit2_value id n x (bit2_value id n y z)
value_assoc id n x y z hx hy hz h =
    let xy = bit2_value id n x y in
    let yz = bit2_value id n y z in
    let hxy = bit2_value-lt n x y hx hy id in
    let hyz = bit2_value-lt n y z hy hz id in
    bit_ext n (bit2_value id n xy z) (bit2_value id n x yz) (bit2_value-lt n xy z hxy hz id)
      (bit2_value-lt n x yz hx hyz id)
      (λ i lt.
        bit-bit2_value n xy z hxy hz id i lt
        ∙ ap (λ (k : ℕ). entry id k (bit z i)) (bit-bit2_value n x y hx hy id i lt)
        ∙ entry_assoc id (bit x i) (bit y i) (bit z i) (bit-lt x i) (bit-lt y i) (bit-lt z i) h
        ∙ ap (λ (k : ℕ). entry id (bit x i) k) (sym (bit-bit2_value n y z hy hz id i lt))
        ∙ sym (bit-bit2_value n x yz hx hyz id i lt))
