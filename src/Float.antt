-- ===== src/Float.antt =====
-- Python's `float` and `Decimal`, which the language gives and which are parameters here. Every amount, price,
-- quantity and rate of the program is a value of `Num`. The operations are those that the
-- program applies; each rounds its result, so no law of exact arithmetic is assumed.
pub mod Laws
pub mod Fixed
use upbit_auto_trader.Prelude.{ℕ, String, Bool, not, if◌then◌else◌}
use upbit_auto_trader.Prelude.Int.{ℤ}

pub record Float : Type 1 where
  pub Num : Type 0
  -- `number m k` is the literal m / 10 ** k: `number 5 4` is 0.0005.
  pub number : ℕ → ℕ → Num
  pub add : Num → Num → Num
  pub sub : Num → Num → Num
  pub mul : Num → Num → Num
  pub div : Num → Num → Num
  pub lt : Num → Num → Bool
  pub le : Num → Num → Bool
  pub eq : Num → Num → Bool
  -- `math.floor` and the conversion back.
  pub floor : Num → ℤ
  pub from_ℤ : ℤ → Num
  -- `timedelta.total_seconds()`, of a signed number of microseconds.
  pub total_seconds : ℤ → Num
  -- `Decimal`, which the answers of the exchange hold, and `float(d)`.
  pub Decimal : Type 0
  pub dec_zero : Decimal
  pub dec_add : Decimal → Decimal → Decimal
  pub dec_mul : Decimal → Decimal → Decimal
  pub dec_lt : Decimal → Decimal → Bool
  pub float_of : Decimal → Num
  -- `Decimal(str(x)).quantize(Decimal("0.00000001"), rounding=ROUND_DOWN)`
  pub quantize_down : Num → Decimal
  -- The texts `f"{x:.0f}"` and `f"{d:.8f}"`
  pub show_round : Num → String
  pub show_dec : Decimal → String

module _ ⦃fl : Float⦄ where
  infixl 65 ◌⊕◌ ◌⊖◌
  infixl 70 ◌⊗◌ ◌⊘◌
  abbrev pub ◌⊕◌ : fl.Num → fl.Num → fl.Num
  a ⊕ b = fl.add a b

  abbrev pub ◌⊖◌ : fl.Num → fl.Num → fl.Num
  a ⊖ b = fl.sub a b

  abbrev pub ◌⊗◌ : fl.Num → fl.Num → fl.Num
  a ⊗ b = fl.mul a b

  abbrev pub ◌⊘◌ : fl.Num → fl.Num → fl.Num
  a ⊘ b = fl.div a b

  -- `0.0` and `1.0`
  abbrev pub nil : fl.Num
  nil = fl.number 0 0

  abbrev pub one : fl.Num
  one = fl.number 1 0

  -- `bool(x)` of a number
  abbrev pub truthy : fl.Num → Bool
  truthy x = not (fl.eq x nil)

  -- Python's `min(a, b)` and `max(a, b)`, which keep the first of two equal values.
  abbrev pub min : fl.Num → fl.Num → fl.Num
  min a b = if fl.lt b a then b else a

  abbrev pub max : fl.Num → fl.Num → fl.Num
  max a b = if fl.lt a b then b else a

  -- `abs(x)`
  abbrev pub abs : fl.Num → fl.Num
  abs x = if fl.lt x nil then nil ⊖ x else x
