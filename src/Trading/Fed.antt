-- ===== src/Trading/Fed.antt =====
-- The theorems on the candles of a market and on the rounds of the loop at concrete inputs.
use upbit_auto_trader.Prelude.{
  none, ◌+◌, ◌≡◌, true, false, ℕ, zero, suc, ◌*◌, ◌≤◌, refl, some, List, [], ◌∷◌, arith, true,
  false, length, ◌==◌, if◌then◌else◌,
}
use upbit_auto_trader.Prelude.Int.{◌+ℤ◌, ◌-ℤ◌}
use upbit_auto_trader.Dict
use upbit_auto_trader.Float.Fixed.{fixed}
use upbit_auto_trader.Exchange.Interval.{m60}
use upbit_auto_trader.Market.Candles.{Candle, not_positive}
use upbit_auto_trader.Market.Frames.{Frames, merge_candles, find_gaps}
use upbit_auto_trader.Market.Merged.{IsKept}
use upbit_auto_trader.Market.Kept.{merge_all, no_frames, frames-IsKept}
use upbit_auto_trader.Trading.Feed.{CandleClient, fetch_candles, feed_market}
use upbit_auto_trader.Trading.Punctual.{candles_on_time}
use upbit_auto_trader.Trading.Rounds.{
  poll_commands, apply_cash_flows, resolve_pending_orders, check_staleness, write_heartbeat,
  ensure_prices, check_exits, apply_settings, process_closed_candles, Timing, Reading, wake_at,
  rounds, scheduled,
}
use upbit_auto_trader.Trading.Lost.{
  SendsAtMost, EndsWithin, fetch_candles_ends, IsLost, refill_loses,
}

abbrev hour : ℕ → ℕ
hour n = n * 3_600_000_000

abbrev candle : ℕ → ℕ → Candle
candle n low = record {
  market = "KRW-BTC";
  candle_date_time_utc = hour n;
  opening_price = fixed.number 100 0;
  high_price = fixed.number 200 0;
  low_price = fixed.number low 0;
  trade_price = fixed.number 100 0;
  candle_acc_trade_volume = fixed.number 1 0;
  candle_acc_trade_price = fixed.number 100 0;
}

-- An exchange that sends one candle for each candle wanted, up to three, and whose `World` counts the calls.
abbrev answers : ℕ → List Candle
answers zero = []
answers (suc zero) = candle 4 90 ∷ []
answers (suc (suc zero)) = candle 4 90 ∷ candle 3 90 ∷ []
answers _ = candle 4 90 ∷ candle 3 90 ∷ candle 2 90 ∷ []

abbrev exchange : CandleClient
exchange = record { World = ℕ; get_candles = λ market count to w. (some (answers count), suc w) }

length-answers : (n : ℕ) → length (answers n) ≤ n
length-answers zero = omega arith
length-answers (suc zero) = omega arith
length-answers (suc (suc zero)) = omega arith
length-answers (suc (suc (suc n))) = omega arith

exchange-SendsAtMost : SendsAtMost exchange
exchange-SendsAtMost market count to w cs h = ground (arith, length-answers count)

fetch_candles_ends_example : EndsWithin exchange 2 (fetch_candles exchange "KRW-BTC" 2 0).0
fetch_candles_ends_example = fetch_candles_ends exchange exchange-SendsAtMost "KRW-BTC" 2 0

-- An exchange that sends a candle after a gap, and a broken one when the gap is to be refilled.
abbrev broken : CandleClient
broken = record {
  World = ℕ;
  get_candles =
      λ market count to w. (some (if w == 0 then candle 5 90 ∷ [] else candle 4 0 ∷ []), suc w);
}

abbrev before : Frames
before = merge_all (("KRW-BTC", candle 2 90 ∷ candle 1 90 ∷ [], hour 4) ∷ []) (no_frames m60 10)

before-IsKept : IsKept before
before-IsKept = frames-IsKept m60 10 (("KRW-BTC", candle 2 90 ∷ candle 1 90 ∷ [], hour 4) ∷ [])

abbrev after : Frames
after = (merge_candles "KRW-BTC" (candle 5 90 ∷ []) (hour 6) before).1

refill_loses_example :
    (cs : List Candle) × (new : List ℕ) × IsLost broken "KRW-BTC" (hour 6) before after cs new
unfolding feed_market merge_candles merge_all find_gaps ◌+ℤ◌ ◌-ℤ◌ Dict.lookup Dict.insert
refill_loses_example =
    refill_loses broken 3 1 "KRW-BTC" (hour 6) before after 0 2 not_positive before-IsKept refl

-- Candles of a minute, with a grace of two seconds; the first round wakes too early for the candles.
abbrev minutes : Timing
minutes = record {
  interval_seconds = 60;
  candle_grace = 2_000_000;
  snapshot_interval = 600_000_000;
  command_poll_interval = 2_000_000;
  heartbeat_interval = 10_000_000;
  is_live = false;
  deadline = none;
}

abbrev reading : ℕ → Reading
reading woke = record {
  begun = woke;
  woke = woke;
  finished = woke + 1_000;
  stopped_waiting = false;
  stopped_by_command = false;
  reload_requested = false;
  has_pending = true;
  last_heartbeat = some 60_000_000;
}

steps_taken :
    (rounds minutes
      (scheduled minutes 61_000_000)
      (reading 63_000_000 ∷ reading 122_000_000 ∷ [])).0
    ≡ (
      reading 63_000_000,
      poll_commands ∷ apply_cash_flows ∷ resolve_pending_orders ∷ check_staleness ∷ [],
    )
      ∷ (
        reading 122_000_000,
        poll_commands ∷ apply_cash_flows ∷ resolve_pending_orders ∷ check_staleness
            ∷ write_heartbeat ∷ ensure_prices ∷ check_exits ∷ apply_settings
            ∷ process_closed_candles ∷ [],
      )
      ∷ []
unfolding rounds scheduled
steps_taken = refl

candles_on_time_example :
    (2 * 60 * 1_000_000 + 2_000_000 ≤ 122_000_000 → 2 * 60 * 1_000_000 ≤ 122_001_000)
    × (wake_at minutes (scheduled minutes 61_000_000) 122_000_000 ≤ 122_000_000)
unfolding rounds scheduled
candles_on_time_example =
    candles_on_time minutes 61_000_000 (reading 63_000_000 ∷ []) (reading 122_000_000) 2
      (omega arith) (omega arith) refl
