-- ===== src/Market/Frames.antt =====
-- app/trading/market_state.py: the candle half of `MarketState`, one frame for each market.
use upbit_auto_trader.Prelude.{
  ℕ, zero, suc, String, Bool, true, false, Option, none, some, List, [], ◌∷◌, ◌++◌, ◌+◌, ◌-◌,
  length, ltb, if◌then◌else◌,
}
use upbit_auto_trader.Float.{Float}
use upbit_auto_trader.Dict
use upbit_auto_trader.Dict.{Dict}
use upbit_auto_trader.Exchange.Interval.{CandleInterval, w1, mon1, y1}
use upbit_auto_trader.Market.Candles.{
  accepted, refused, Checked, step_of, Row, Candle, has_time, tidy, candles_to_dataframe,
  drop_unclosed, validate_candles,
}

module _ ⦃fl : Float⦄ where
  -- `MarketState`, the fields of the candles.
  pub record Frames : Type 0 where
    pub interval : CandleInterval
    pub max_rows : ℕ
    pub candles : Dict (List Row)

  unfoldable pub times : List Row → List ℕ
  times [] = []
  times (r ∷ rs) = r.time ∷ times rs

  -- `[t for t in incoming.index if t not in existing.index]`
  unfoldable pub unseen : List Row → List Row → List ℕ
  unfolding has_time
  unseen existing [] = []
  unseen existing (r ∷ rs) =
      let rest = unseen existing rs in if has_time r.time existing then rest else r.time ∷ rest

  unfoldable pub drop_rows : ℕ → List Row → List Row
  drop_rows zero rs = rs
  drop_rows (suc n) [] = []
  drop_rows (suc n) (r ∷ rs) = drop_rows n rs

  -- `merged.iloc[-max_rows:]` where there are more rows than that; `iloc[-0:]` is every row.
  unfoldable pub newest : ℕ → List Row → List Row
  unfolding drop_rows
  newest max_rows rs =
      if ltb max_rows (length rs)
      then drop_rows (if ltb 0 max_rows then length rs - max_rows else 0) rs
      else rs

  -- The rows of a market; a market without a frame has none.
  unfoldable pub frame_of : Frames → String → List Row
  frame_of s market = elim (Dict.lookup market s.candles) [ none ↦ [] | some rs ↦ rs ]

  -- `merged` and `new_times`
  unfoldable pub combined : List Row → List Row → List Row
  unfolding tidy
  combined [] incoming = incoming
  combined (r ∷ rs) incoming = tidy ((r ∷ rs) ++ incoming)

  unfoldable pub new_times : List Row → List Row → List ℕ
  unfolding times unseen
  new_times [] incoming = times incoming
  new_times (r ∷ rs) incoming = unseen (r ∷ rs) incoming

  -- From the closed rows on.
  unfoldable pub merge_rows : String → List Row → Frames → Checked (List ℕ) × Frames
  unfolding validate_candles combined new_times newest frame_of step_of
  merge_rows market [] s = (accepted [], s)
  merge_rows market (r ∷ rs) s = elim (validate_candles (r ∷ rs) (step_of s.interval)) [
    | some e ↦ (refused e, s)
    | none ↦
        let whole = combined (frame_of s market) (r ∷ rs) in
        (
          accepted (new_times (frame_of s market) (r ∷ rs)),
          record s { candles = Dict.insert market (newest s.max_rows whole) s.candles },
        )
  ]

  -- The new times come out in ascending order, since the rows are, so `sorted` leaves them.
  unfoldable pub merge_candles : String → List Candle → ℕ → Frames → Checked (List ℕ) × Frames
  unfolding candles_to_dataframe drop_unclosed merge_rows step_of
  merge_candles market candles now s = elim (candles_to_dataframe candles) [
    | refused e ↦ (refused e, s)
    | accepted rows ↦ merge_rows market (drop_unclosed rows (step_of s.interval) now) s
  ]

  -- The pairs of neighbours that are further apart than a candle is long.
  unfoldable pub gaps_of : ℕ → List Row → List (ℕ × ℕ)
  gaps_of step [] = []
  gaps_of step (r ∷ []) = []
  gaps_of step (r ∷ s ∷ rows) =
      let rest = gaps_of step (s ∷ rows) in
      if ltb (r.time + step) s.time then (r.time, s.time) ∷ rest else rest

  -- `self.interval.value in ("1w", "1M", "1y")`
  unfoldable pub has_no_fixed_length : CandleInterval → Bool
  has_no_fixed_length w1 = true
  has_no_fixed_length mon1 = true
  has_no_fixed_length y1 = true
  has_no_fixed_length _ = false

  unfoldable pub find_gaps : String → Frames → List (ℕ × ℕ)
  unfolding gaps_of has_no_fixed_length frame_of step_of
  find_gaps market s =
      if has_no_fixed_length s.interval
      then []
      else gaps_of (step_of s.interval) (frame_of s market)

  unfoldable pub last_time_of : List Row → Option ℕ
  last_time_of [] = none
  last_time_of (r ∷ []) = some r.time
  last_time_of (r ∷ s ∷ rows) = last_time_of (s ∷ rows)

  unfoldable pub last_closed_time : String → Frames → Option ℕ
  unfolding last_time_of frame_of
  last_closed_time market s = last_time_of (frame_of s market)
