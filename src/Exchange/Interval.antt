-- ===== src/Exchange/Interval.antt =====
-- app/exchange/models.py: the candle intervals, `CandleInterval`.
use Prim.Native.Char.{code}
use Prim.Native.String.{◌∷◌ as ◌∷c◌, [] as no_text, ◌++◌}
use upbit_auto_trader.Prelude.{
  ℕ, ◌+◌, ◌-◌, ◌*◌, ◌≤◌, arith, String, ◌≡◌, refl, ap, ◌∙◌, Bool, false, Option, none, some, List,
  [], ◌∷◌, or_else, str_eq, if◌then◌else◌,
}
use upbit_auto_trader.Dict
use upbit_auto_trader.Dict.{Dict}

pub data CandleInterval : Type 0 where
  s1 m1 m3 m5 m10 m15 m30 m60 m240 d1 w1 mon1 y1 : CandleInterval

-- `member.value`
unfoldable pub value : CandleInterval → String
value s1 = "1s"
value m1 = "1m"
value m3 = "3m"
value m5 = "5m"
value m10 = "10m"
value m15 = "15m"
value m30 = "30m"
value m60 = "60m"
value m240 = "240m"
value d1 = "1d"
value w1 = "1w"
value mon1 = "1M"
value y1 = "1y"

-- The members in their order.
abbrev pub members : List CandleInterval
members = s1 ∷ m1 ∷ m3 ∷ m5 ∷ m10 ∷ m15 ∷ m30 ∷ m60 ∷ m240 ∷ d1 ∷ w1 ∷ mon1 ∷ y1 ∷ []

abbrev pub interval_aliases : Dict String
interval_aliases = ("1h", "60m") ∷ ("4h", "240m") ∷ ("1mo", "1M") ∷ ("1month", "1M") ∷ []

unfoldable pub find_member : String → List CandleInterval → Option CandleInterval
unfolding value
find_member text [] = none
find_member text (i ∷ is) =
    let rest = find_member text is in if str_eq (value i) text then some i else rest

-- `parse` of a text; `none` is the `ValueError`. `strip` and `lower` are the methods of texts.
unfoldable pub parse : (strip lower : String → String) → String → Option CandleInterval
unfolding find_member
parse strip lower text =
    find_member (or_else (Dict.lookup (lower (strip text)) interval_aliases) (strip text)) members

-- `self.value.endswith("m")`
unfoldable pub ends_in_m : String → Bool
ends_in_m no_text = false
ends_in_m (c ∷c no_text) = str_eq (c ∷c no_text) "m"
ends_in_m (c ∷c (d ∷c s)) = ends_in_m (d ∷c s)

-- `int(self.value[:-1])` of a text of digits, from the value of those before it.
unfoldable pub int_but_last : ℕ → String → ℕ
int_but_last acc no_text = acc
int_but_last acc (c ∷c no_text) = acc
int_but_last acc (c ∷c (d ∷c s)) = int_but_last (acc * 10 + (code c - 48)) (d ∷c s)

unfoldable pub minute_unit : CandleInterval → Option ℕ
unfolding value ends_in_m int_but_last
minute_unit i = if ends_in_m (value i) then some (int_but_last 0 (value i)) else none

-- The length of the intervals that are not of minutes; `none` is the `KeyError`.
abbrev pub other_seconds : CandleInterval → Option ℕ
other_seconds d1 = some 86_400
other_seconds w1 = some (7 * 86_400)
other_seconds mon1 = some (30 * 86_400)
other_seconds y1 = some (365 * 86_400)
other_seconds _ = none

unfoldable pub seconds : CandleInterval → Option ℕ
unfolding minute_unit
seconds s1 = some 1
seconds i = elim (minute_unit i) [ some unit ↦ some (unit * 60) | none ↦ other_seconds i ]

abbrev pub other_path : CandleInterval → Option String
other_path d1 = some "/v1/candles/days"
other_path w1 = some "/v1/candles/weeks"
other_path mon1 = some "/v1/candles/months"
other_path y1 = some "/v1/candles/years"
other_path _ = none

-- `path`; `show` is `str` of a number.
unfoldable pub path : (show : ℕ → String) → CandleInterval → Option String
unfolding minute_unit
path show s1 = some "/v1/candles/seconds"
path show i = elim (minute_unit i) [
  | some unit ↦ some ("/v1/candles/minutes/" ++ show unit)
  | none ↦ other_path i
]

-- The values in lower case: the month's "1M" is the minute's "1m" there.
abbrev pub lower_value : CandleInterval → String
lower_value mon1 = "1m"
lower_value i = value i

find_value :
    (i : CandleInterval)
    → find_member (or_else (Dict.lookup (lower_value i) interval_aliases) (value i)) members
      ≡ some i
unfolding find_member value Dict.lookup
find_value s1 = refl
find_value m1 = refl
find_value m3 = refl
find_value m5 = refl
find_value m10 = refl
find_value m15 = refl
find_value m30 = refl
find_value m60 = refl
find_value m240 = refl
find_value d1 = refl
find_value w1 = refl
find_value mon1 = refl
find_value y1 = refl

-- Every interval is read back from its own value, the month's not as the minute's, where `strip`
-- leaves the values alone and `lower` changes only the month's.
pub parse-value :
    (strip lower : String → String)
    → ((i : CandleInterval) → strip (value i) ≡ value i)
    → ((i : CandleInterval) → lower (value i) ≡ lower_value i)
    → (i : CandleInterval) → parse strip lower (value i) ≡ some i
unfolding parse
parse-value strip lower same small i =
    ap (λ t. find_member (or_else (Dict.lookup (lower t) interval_aliases) t) members) (same i)
    ∙ ap (λ l. find_member (or_else (Dict.lookup l interval_aliases) (value i)) members) (small i)
    ∙ find_value i

-- Every interval has a length of at least a second and a path: no lookup fails with a `KeyError`.
pub seconds-path :
    (show : ℕ → String) (i : CandleInterval)
    → ((n : ℕ) × (seconds i ≡ some n) × (1 ≤ n)) × ((p : String) × (path show i ≡ some p))
unfolding seconds path value minute_unit ends_in_m int_but_last
seconds-path show s1 = ((1, refl, ground arith), (_, refl))
seconds-path show m1 = ((60, refl, ground arith), (_, refl))
seconds-path show m3 = ((180, refl, ground arith), (_, refl))
seconds-path show m5 = ((300, refl, ground arith), (_, refl))
seconds-path show m10 = ((600, refl, ground arith), (_, refl))
seconds-path show m15 = ((900, refl, ground arith), (_, refl))
seconds-path show m30 = ((1800, refl, ground arith), (_, refl))
seconds-path show m60 = ((3600, refl, ground arith), (_, refl))
seconds-path show m240 = ((14400, refl, ground arith), (_, refl))
seconds-path show d1 = ((86400, refl, ground arith), (_, refl))
seconds-path show w1 = ((604800, refl, ground arith), (_, refl))
seconds-path show mon1 = ((2592000, refl, ground arith), (_, refl))
seconds-path show y1 = ((31536000, refl, ground arith), (_, refl))
