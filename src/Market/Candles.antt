-- ===== src/Market/Candles.antt =====
-- app/strategy/data.py: `candles_to_dataframe`, `validate_candles`, `drop_unclosed`, on a frame that is the list of
-- its rows. Times are microseconds. A missing value, column or time zone has no place in a row.
use upbit_auto_trader.Prelude.{
  ℕ, String, Bool, true, false, ◌&&◌, ◌||◌, not, Option, none, some, List, [], ◌∷◌, ◌+◌, ◌-◌, ◌*◌,
  ltb, leb, ◌==◌, str_eq, or_else, if◌then◌else◌,
}
use upbit_auto_trader.Float.{Float, nil, min, max}
use upbit_auto_trader.Exchange.Interval.{CandleInterval, seconds}

pub data MarketDataError : Type 0 where
  mixed_markets no_candles not_ascending duplicated not_positive contradictory negative_volume :
      MarketDataError
  too_close : MarketDataError

pub data Checked (A : Type 0) : Type 0 where
  accepted : A → Checked A
  refused : MarketDataError → Checked A

-- `timedelta(seconds=interval.seconds)`
unfoldable pub step_of : CandleInterval → ℕ
unfolding seconds
step_of i = or_else (seconds i) 0 * 1_000_000

module _ ⦃fl : Float⦄ where
  pub record Row : Type 0 where
    pub time : ℕ
    pub opening : fl.Num
    pub high : fl.Num
    pub low : fl.Num
    pub closing : fl.Num
    pub volume : fl.Num
    pub value : fl.Num

  pub record Candle : Type 0 where
    pub market : String
    pub candle_date_time_utc : ℕ
    pub opening_price : fl.Num
    pub high_price : fl.Num
    pub low_price : fl.Num
    pub trade_price : fl.Num
    pub candle_acc_trade_volume : fl.Num
    pub candle_acc_trade_price : fl.Num

  unfoldable pub row_of : Candle → Row
  row_of c = record {
    time = c.candle_date_time_utc;
    opening = c.opening_price;
    high = c.high_price;
    low = c.low_price;
    closing = c.trade_price;
    volume = c.candle_acc_trade_volume;
    value = c.candle_acc_trade_price;
  }

  unfoldable pub rows_of : List Candle → List Row
  unfolding row_of
  rows_of [] = []
  rows_of (c ∷ cs) = row_of c ∷ rows_of cs

  -- `t in df.index`
  unfoldable pub has_time : ℕ → List Row → Bool
  has_time t [] = false
  has_time t (r ∷ rs) = r.time == t || has_time t rs

  -- `drop_duplicates(subset="time", keep="last")`
  unfoldable pub drop_duplicates : List Row → List Row
  unfolding has_time
  drop_duplicates [] = []
  drop_duplicates (r ∷ rs) =
      let rest = drop_duplicates rs in if has_time r.time rs then rest else r ∷ rest

  unfoldable pub insert_row : Row → List Row → List Row
  insert_row r [] = r ∷ []
  insert_row r (s ∷ rows) =
      let rest = insert_row r rows in if leb r.time s.time then r ∷ s ∷ rows else s ∷ rest

  -- `sort_values("time")`, `sort_index()`
  unfoldable pub sort_rows : List Row → List Row
  unfolding insert_row
  sort_rows [] = []
  sort_rows (r ∷ rs) = insert_row r (sort_rows rs)

  unfoldable pub tidy : List Row → List Row
  unfolding drop_duplicates sort_rows
  tidy rs = sort_rows (drop_duplicates rs)

  unfoldable pub all_of : String → List Candle → Bool
  all_of market [] = true
  all_of market (c ∷ cs) = str_eq c.market market && all_of market cs

  unfoldable pub candles_to_dataframe : List Candle → Checked (List Row)
  unfolding rows_of tidy all_of
  candles_to_dataframe [] = accepted []
  candles_to_dataframe (c ∷ cs) =
      if all_of c.market cs then accepted (tidy (rows_of (c ∷ cs))) else refused mixed_markets

  -- The last row is dropped while its candle has not ended.
  unfoldable pub drop_unclosed : List Row → ℕ → ℕ → List Row
  drop_unclosed [] step now = []
  drop_unclosed (r ∷ []) step now = if ltb now (r.time + step) then [] else r ∷ []
  drop_unclosed (r ∷ s ∷ rows) step now = r ∷ drop_unclosed (s ∷ rows) step now

  -- `index.is_monotonic_increasing`, which allows equal times, and `index.has_duplicates`
  unfoldable pub is_ascending : List Row → Bool
  is_ascending [] = true
  is_ascending (r ∷ []) = true
  is_ascending (r ∷ s ∷ rows) = leb r.time s.time && is_ascending (s ∷ rows)

  unfoldable pub has_duplicates : List Row → Bool
  unfolding has_time
  has_duplicates [] = false
  has_duplicates (r ∷ rs) = has_time r.time rs || has_duplicates rs

  -- `.any()` of a column of tests
  unfoldable pub any_row : (Row → Bool) → List Row → Bool
  any_row test [] = false
  any_row test (r ∷ rs) = test r || any_row test rs

  unfoldable pub has_no_price : Row → Bool
  has_no_price r = fl.le r.opening nil || fl.le r.high nil || fl.le r.low nil || fl.le r.closing nil

  unfoldable pub contradicts : Row → Bool
  contradicts r =
      fl.lt r.high r.low
      || fl.lt r.high (max r.opening r.closing)
      || fl.lt (min r.opening r.closing) r.low

  unfoldable pub lacks_volume : Row → Bool
  lacks_volume r = fl.lt r.volume nil

  -- `(diffs < step).any()`, of rows in ascending order
  unfoldable pub has_short_step : ℕ → List Row → Bool
  has_short_step step [] = false
  has_short_step step (r ∷ []) = false
  has_short_step step (r ∷ s ∷ rows) = ltb (s.time - r.time) step || has_short_step step (s ∷ rows)

  -- The first test that fails; `none` where all pass.
  unfoldable pub validate_candles : List Row → ℕ → Option MarketDataError
  unfolding is_ascending has_duplicates any_row has_no_price contradicts lacks_volume has_short_step
  validate_candles [] step = some no_candles
  validate_candles (r ∷ rs) step =
      if not (is_ascending (r ∷ rs))
      then some not_ascending
      else if has_duplicates (r ∷ rs)
      then some duplicated
      else if any_row has_no_price (r ∷ rs)
      then some not_positive
      else if any_row contradicts (r ∷ rs)
      then some contradictory
      else if any_row lacks_volume (r ∷ rs)
      then some negative_volume
      else if has_short_step step (r ∷ rs)
      then some too_close
      else none
