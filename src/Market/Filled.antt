-- ===== src/Market/Filled.antt =====
-- The theorems on the frames of candles at concrete inputs.
use upbit_auto_trader.Prelude.{
  All, ℕ, String, ◌+◌, ◌*◌, ◌<◌, ◌≡◌, refl, false, List, [], ◌∷◌, arith,
}
use upbit_auto_trader.Prelude.Int.{◌+ℤ◌, ◌-ℤ◌}
use upbit_auto_trader.Dict
use upbit_auto_trader.Float.Fixed.{fixed}
use upbit_auto_trader.Exchange.Interval.{m60}
use upbit_auto_trader.Market.Candles.{
  Row, Candle, row_of, accepted, refused, not_positive, has_time, step_of,
}
use upbit_auto_trader.Market.Frames.{Frames, merge_candles, find_gaps, frame_of, last_closed_time}
use upbit_auto_trader.Market.Merged.{IsMerged, IsKept, merge_candles_lem}
use upbit_auto_trader.Market.Kept.{merge_all, no_frames, frames-IsKept}
use upbit_auto_trader.Market.Gaps.{InGap, IsGap, Missing, find_gaps_lem}

-- The candle of an hour, with the price at which it closes; `low` is its lowest price.
abbrev hour : ℕ → ℕ
hour n = n * 3_600_000_000

abbrev candle : ℕ → ℕ → ℕ → Candle
candle n low price = record {
  market = "KRW-BTC";
  candle_date_time_utc = hour n;
  opening_price = fixed.number 100 0;
  high_price = fixed.number 200 0;
  low_price = fixed.number low 0;
  trade_price = fixed.number price 0;
  candle_acc_trade_volume = fixed.number 1 0;
  candle_acc_trade_price = fixed.number 100 0;
}

-- Three hours that come newest first, the last of them not over, then a correction with a later hour.
abbrev first_answer : List Candle
first_answer = candle 3 90 100 ∷ candle 2 90 110 ∷ candle 1 90 100 ∷ []

abbrev second_answer : List Candle
second_answer = candle 5 90 120 ∷ candle 2 90 115 ∷ []

abbrev calls : List (String × List Candle × ℕ)
calls = ("KRW-BTC", first_answer, hour 3 + 10) ∷ []

abbrev started : Frames
started = merge_all calls (no_frames m60 3)

started-IsKept : IsKept started
started-IsKept = frames-IsKept m60 3 calls

-- The hour that is not over is left out; an hour that is sent again is replaced and not new.
first_times :
    (merge_candles "KRW-BTC" first_answer (hour 3 + 10) (no_frames m60 3)).0
    ≡ accepted (hour 1 ∷ hour 2 ∷ [])
unfolding merge_candles ◌+ℤ◌ ◌-ℤ◌ Dict.lookup Dict.insert
first_times = refl

second_times : (merge_candles "KRW-BTC" second_answer (hour 6) started).0 ≡ accepted (hour 5 ∷ [])
unfolding merge_candles merge_all ◌+ℤ◌ ◌-ℤ◌ Dict.lookup Dict.insert
second_times = refl

low_refused :
    (merge_candles "KRW-BTC" (candle 4 0 100 ∷ []) (hour 6) started).0 ≡ refused not_positive
unfolding merge_candles merge_all ◌+ℤ◌ ◌-ℤ◌ Dict.lookup Dict.insert
low_refused = refl

abbrev later : Frames
later = (merge_candles "KRW-BTC" second_answer (hour 6) started).1

later-IsKept : IsKept later
unfolding merge_all
later-IsKept =
    frames-IsKept m60 3
      (("KRW-BTC", first_answer, hour 3 + 10) ∷ ("KRW-BTC", second_answer, hour 6) ∷ [])

gaps_found : find_gaps "KRW-BTC" later ≡ (hour 2, hour 5) ∷ []
unfolding merge_candles merge_all find_gaps ◌+ℤ◌ ◌-ℤ◌ Dict.lookup Dict.insert
gaps_found = refl

frames-IsKept_example : IsKept started
frames-IsKept_example = frames-IsKept m60 3 calls

merge_candles_lem_example : IsMerged "KRW-BTC" second_answer (hour 6) started (hour 5 ∷ []) later
unfolding merge_candles merge_all ◌+ℤ◌ ◌-ℤ◌ Dict.lookup Dict.insert
merge_candles_lem_example =
    merge_candles_lem "KRW-BTC" second_answer (hour 6) started later (hour 5 ∷ []) started-IsKept
      refl

abbrev kept_rows : List Row
kept_rows = row_of (candle 2 90 115) ∷ row_of (candle 5 90 120) ∷ []

find_gaps_lem_example :
    (Missing (step_of m60) (hour 4) (row_of (candle 1 90 100) ∷ kept_rows)
      → hour 1 < hour 4
      → hour 4 < hour 5
      → InGap (hour 4) (find_gaps "KRW-BTC" later))
    × (InGap (hour 4) (find_gaps "KRW-BTC" later)
        → has_time (hour 4) (frame_of later "KRW-BTC") ≡ false)
    × All (IsGap (step_of m60) (frame_of later "KRW-BTC")) (find_gaps "KRW-BTC" later)
unfolding merge_candles merge_all row_of find_gaps last_closed_time ◌+ℤ◌ ◌-ℤ◌ Dict.lookup
    Dict.insert
find_gaps_lem_example =
    find_gaps_lem later "KRW-BTC" (row_of (candle 1 90 100)) kept_rows (hour 5) (hour 4)
      later-IsKept refl refl refl (omega arith)
