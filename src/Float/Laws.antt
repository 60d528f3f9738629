-- ===== src/Float/Laws.antt =====
-- What IEEE 754 says of the operations on finite doubles, as far as the proofs rest on it: the
-- order is total, each operation is monotone (the exact result is, and rounding is), and `x / x`
-- and `x * 1` are exact.
use upbit_auto_trader.Prelude.{◌≡◌, true, false}
use upbit_auto_trader.Float.{Float, ◌⊖◌, ◌⊗◌, ◌⊘◌, nil, one}

module _ ⦃fl : Float⦄ where
  pub record FloatLaws : Type 0 where
    pub le_refl : (a : fl.Num) → fl.le a a ≡ true
    pub le_trans : (a b c : fl.Num) → fl.le a b ≡ true → fl.le b c ≡ true → fl.le a c ≡ true
    pub le_of_lt_false : (a b : fl.Num) → fl.lt a b ≡ false → fl.le b a ≡ true
    pub lt_of_le_false : (a b : fl.Num) → fl.le a b ≡ false → fl.lt b a ≡ true
    pub le_of_lt : (a b : fl.Num) → fl.lt a b ≡ true → fl.le a b ≡ true
    pub lt_false_of_le : (a b : fl.Num) → fl.le a b ≡ true → fl.lt b a ≡ false
    pub sub_mono : (a b c : fl.Num) → fl.le a b ≡ true → fl.le (c ⊖ b) (c ⊖ a) ≡ true
    pub sub_mono_left : (a b c : fl.Num) → fl.le a b ≡ true → fl.le (a ⊖ c) (b ⊖ c) ≡ true
    pub div_self : (a : fl.Num) → fl.lt nil a ≡ true → a ⊘ a ≡ one
    pub mul_one : (a : fl.Num) → a ⊗ one ≡ a
