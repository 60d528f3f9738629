-- ===== src/Float/Fixed.antt =====
-- A concrete `Float` that runs: integers in units of 1e-12, products and quotients rounded
-- towards zero. It meets `FloatLaws`, and the tests and examples compute with it.
use native.Mathlib.Nat.{mul-div_right}
use upbit_auto_trader.Prelude.{ℕ, zero, suc, String, ◌+◌, ◌*◌, ◌/◌, ◌^◌, ◌≡◌, ap, true, ◌&&◌, arith}
use upbit_auto_trader.Prelude.Int.{ℤ, pos, negsuc, sub_ℕ, ◌+ℤ◌, ◌-ℤ◌, -ℤ_parts, ltb_ℤ, leb_ℤ}
use upbit_auto_trader.Float.{Float}
use upbit_auto_trader.Float.Laws.{FloatLaws}

abbrev scale : ℕ
scale = 1_000_000_000_000

-- |x| / scale, away from the sign
abbrev mul_units : ℕ → ℕ → ℕ
mul_units a b = a * b / scale

abbrev div_units : ℕ → ℕ → ℕ
div_units a b = a * scale / b

-- A value of one sign has one of its two parts at zero, so the sum is its magnitude.
abbrev mul_fixed : ℤ → ℤ → ℤ
mul_fixed (pos a) (pos b) = pos (mul_units a b)
mul_fixed (pos a) (negsuc b) = sub_ℕ 0 (mul_units a (b + 1))
mul_fixed (negsuc a) (pos b) = sub_ℕ 0 (mul_units (a + 1) b)
mul_fixed (negsuc a) (negsuc b) = pos (mul_units (a + 1) (b + 1))

abbrev div_fixed : ℤ → ℤ → ℤ
div_fixed (pos a) (pos b) = pos (div_units a b)
div_fixed (pos a) (negsuc b) = sub_ℕ 0 (div_units a (b + 1))
div_fixed (negsuc a) (pos b) = sub_ℕ 0 (div_units (a + 1) b)
div_fixed (negsuc a) (negsuc b) = pos (div_units (a + 1) (b + 1))

abbrev floor_fixed : ℤ → ℤ
floor_fixed (pos a) = pos (a / scale)
floor_fixed (negsuc a) = negsuc (a / scale)

abbrev from_fixed : ℤ → ℤ
from_fixed (pos a) = pos (a * scale)
from_fixed (negsuc a) = sub_ℕ 0 ((a + 1) * scale)

abbrev micros_fixed : ℤ → ℤ
micros_fixed (pos a) = pos (a * 1_000_000)
micros_fixed (negsuc a) = sub_ℕ 0 ((a + 1) * 1_000_000)

-- The texts tell only zero and the signs apart: no theorem rests on them.
abbrev show_fixed : ℤ → String
show_fixed (pos zero) = "0"
show_fixed (pos (suc _)) = "1"
show_fixed (negsuc _) = "-1"

instance abbrev pub fixed : Float
fixed = record {
  Num = ℤ;
  number = λ m k. pos (m * scale / 10 ^ k);
  add = ◌+ℤ◌;
  sub = ◌-ℤ◌;
  mul = mul_fixed;
  div = div_fixed;
  lt = ltb_ℤ;
  le = leb_ℤ;
  eq = λ a b. leb_ℤ a b && leb_ℤ b a;
  floor = floor_fixed;
  from_ℤ = from_fixed;
  total_seconds = micros_fixed;
  Decimal = ℤ;
  dec_zero = pos 0;
  dec_add = ◌+ℤ◌;
  dec_mul = mul_fixed;
  dec_lt = ltb_ℤ;
  float_of = λ d. d;
  quantize_down = λ x. x;
  show_round = λ x. show_fixed x;
  show_dec = λ x. show_fixed x;
}

fixed-le_trans : (a b c : ℤ) → leb_ℤ a b ≡ true → leb_ℤ b c ≡ true → leb_ℤ a c ≡ true
fixed-le_trans a b c h k = ground arith

fixed-sub_mono : (a b c : ℤ) → leb_ℤ a b ≡ true → leb_ℤ (c -ℤ b) (c -ℤ a) ≡ true
fixed-sub_mono a b c h = ground (arith, -ℤ_parts c b, -ℤ_parts c a)

fixed-sub_mono_left : (a b c : ℤ) → leb_ℤ a b ≡ true → leb_ℤ (a -ℤ c) (b -ℤ c) ≡ true
fixed-sub_mono_left a b c h = ground (arith, -ℤ_parts a c, -ℤ_parts b c)

fixed-div_self : (a : ℤ) → ltb_ℤ (pos 0) a ≡ true → div_fixed a a ≡ pos scale
fixed-div_self (pos a) h = ap pos (mul-div_right scale {m = a} (ground arith))
fixed-div_self (negsuc a) h = ground arith

fixed-mul_one : (a : ℤ) → mul_fixed a (pos scale) ≡ a
fixed-mul_one (pos a) = ground arith
fixed-mul_one (negsuc a) = ground arith

pub fixed-FloatLaws : FloatLaws
fixed-FloatLaws = record {
  le_refl = λ a. ground arith;
  le_trans = fixed-le_trans;
  le_of_lt_false = λ a b h. ground arith;
  lt_of_le_false = λ a b h. ground arith;
  le_of_lt = λ a b h. ground arith;
  lt_false_of_le = λ a b h. ground arith;
  sub_mono = fixed-sub_mono;
  sub_mono_left = fixed-sub_mono_left;
  div_self = fixed-div_self;
  mul_one = fixed-mul_one;
}
