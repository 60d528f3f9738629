-- ===== src/Risk/Examples.antt =====
-- Tests of the risk manager, and its theorems at concrete inputs.
use upbit_auto_trader.Prelude.{ℕ, ◌≡◌, refl, true, false, none, some, List, [], ◌∷◌, is_some}
use upbit_auto_trader.Prelude.Int.{ℤ, ◌+ℤ◌, ◌-ℤ◌}
use upbit_auto_trader.Float.Fixed.{fixed, fixed-FloatLaws}
use upbit_auto_trader.Dict
use upbit_auto_trader.Portfolio.Account.{text, Portfolio, Position, Trade}
use upbit_auto_trader.Risk.State.{
  RiskConfig, RiskState, RiskManager, LockReason, losses_in_a_row, daily_loss, daily, consecutive,
  blank_state, trading_day,
}
use upbit_auto_trader.Risk.Events.{record_trade, halt, sort_by_exit, rebuild}
use upbit_auto_trader.Risk.Entries.{buy_now, Signal, evaluate}
use upbit_auto_trader.Risk.Exits.{
  check_exits, stop_loss, stop_hit, target_hit, previous_peak, exit_at,
}
use upbit_auto_trader.Risk.Life.{Event, saw_equity, closed, resumed, stopped, restarted, live}
use upbit_auto_trader.Risk.Locks.{IsLocked, lock_lasts}
use upbit_auto_trader.Risk.Halts.{halt_blocks_entries}
use upbit_auto_trader.Risk.Approval.{IsClear, IsSized, evaluate_approved_entry}
use upbit_auto_trader.Risk.Chronology.{IsInOrder}
use upbit_auto_trader.Risk.Restart.{
  on_day, final_losses, realized, rebuild_same_day, rebuild_keeps_daily_lock,
}
use upbit_auto_trader.Risk.Protection.{IsRightExit, check_exits_right, watch, watch_peak}

-- 3 % a day, three losses in a row, 5 % stop, 10 % target, 4 % trailing stop.
abbrev limits : RiskConfig
limits = record {
  position_fraction = fixed.number 5 1;
  max_order_amount = some (fixed.number 300000 0);
  max_position_ratio = fixed.number 4 1;
  max_open_positions = 2;
  daily_loss_limit_pct = some (fixed.number 3 2);
  max_consecutive_losses = some 3;
  stop_loss_pct = some (fixed.number 5 2);
  take_profit_pct = some (fixed.number 1 1);
  trailing_stop_pct = some (fixed.number 4 2);
  price_deviation_limit = some (fixed.number 1 1);
  min_order_amount = fixed.number 5000 0;
  cooldown_seconds = fixed.number 60 0;
}

-- The evening of day 99 in Korea, in microseconds.
abbrev evening : ℕ
evening = 8_600_000_000_000

abbrev fresh : RiskManager
fresh = record {
  config = limits;
  state = record {
    day = some 99;
    day_start_equity = some (fixed.number 1000000 0);
    last_equity = some (fixed.number 990000 0);
    daily_realized_pnl = fixed.number 0 0;
    consecutive_losses = 0;
    lock_reason = none;
    lock_kind = none;
    halted = false;
    halt_reason = none;
    peak_prices = [];
    last_exit_at = [];
    day_cash_flow = fixed.number 0 0;
    cash_flow_cursor = some 7;
  };
  store = none;
}

evening_day : trading_day evening ≡ 99
unfolding trading_day
evening_day = refl

abbrev account : Portfolio
account = record {
  initial_cash = fixed.number 1000000 0;
  fee_rate = fixed.number 5 4;
  min_order_amount = fixed.number 5000 0;
  cash = fixed.number 1000000 0;
  positions = [];
  fills = [];
  trades = [];
  fees_paid = fixed.number 0 0;
  dust = [];
}

abbrev buy_signal : Signal
buy_signal = record {
  action = buy_now;
  market = "KRW-BTC";
  time = evening;
  price = fixed.number 50000 0;
  strategy = "rsi";
  reason = "oversold";
}

-- Half of the cash is over the order limit of 300,000 won, which is the amount.
buy_approved :
    (evaluate buy_signal account none evening none fresh).0.amount ≡ some (fixed.number 300000 0)
unfolding evaluate trading_day Dict.lookup ◌+ℤ◌ ◌-ℤ◌
buy_approved = refl

evaluate_approved_entry_example :
    let (decision, m') = evaluate buy_signal account none evening none fresh in
    (b : ℤ) × (decision.amount ≡ some b)
    × IsClear limits m'.state buy_signal account none evening
    × IsSized limits m'.state account none b
unfolding evaluate trading_day Dict.lookup ◌+ℤ◌ ◌-ℤ◌
evaluate_approved_entry_example =
    evaluate_approved_entry fixed-FloatLaws buy_signal account none evening none fresh refl refl

-- A loss of 7,000 won that closed in the evening.
abbrev loss : Trade
loss = record {
  market = "KRW-ETH";
  entry_time = 5;
  entry_price = fixed.number 3000 0;
  quantity = fixed.number 10 0;
  entry_amount = fixed.number 30000 0;
  entry_fee = fixed.number 15 0;
  exit_time = evening;
  exit_price = fixed.number 2300 0;
  exit_amount = fixed.number 23000 0;
  exit_fee = fixed.number 11 0;
  exit_reason = text "stop";
  pnl = ℤ.negsuc 7_025_999_999_999_999;
  pnl_pct = ℤ.negsuc 234_082_958_520;
}

abbrev in_a_row : LockReason
in_a_row = losses_in_a_row 3 3

abbrev locked : RiskManager
locked = record fresh {
  state = record fresh.state { lock_reason = some in_a_row; lock_kind = some consecutive };
}

-- The third loss of the day sets the lock.
third_loss_locks :
    (record_trade loss evening
      (record fresh { state = record fresh.state { consecutive_losses = 2 } })).0
    ≡ some in_a_row
unfolding record_trade trading_day
third_loss_locks = refl

abbrev busy : List Event
busy =
    saw_equity (fixed.number 900000 0) evening
    ∷ closed loss evening
    ∷ stopped "manual"
    ∷ resumed
    ∷ []

lock_lasts_example : IsLocked 99 in_a_row (live busy locked)
unfolding trading_day
lock_lasts_example =
    lock_lasts 99 in_a_row busy locked (refl, (refl, (tt, (tt, tt))))
      (record { on_day = refl; locked = refl })

-- The next day and a restart lie between the stop and the signal.
abbrev restarting : List Event
restarting =
    closed loss evening
    ∷ restarted (loss ∷ []) 8_700_000_000_000 none
    ∷ saw_equity (fixed.number 1000000 0) 8_700_000_000_000
    ∷ []

halt_blocks_entries_example :
    (evaluate buy_signal account none 8_700_000_000_000 none
      (live restarting (halt "manual" fresh))).0.approved
    ≡ false
halt_blocks_entries_example =
    halt_blocks_entries "manual" fresh restarting buy_signal account none 8_700_000_000_000 none
      (tt, (tt, (tt, tt))) refl

-- A day that was saved with a lock for its loss.
abbrev saved_day : RiskState
saved_day = record fresh.state {
  lock_reason = some (
      daily_loss (some (fixed.number 1000000 0)) (fixed.number 0 0) (fixed.number 960000 0)
        (fixed.number 4 2) (fixed.number 3 2));
  lock_kind = some daily;
}

abbrev reopened : RiskManager
unfolding blank_state
reopened = record { config = limits; state = blank_state; store = some saved_day }

-- A profit that closed an hour before the loss.
abbrev profit : Trade
profit = record loss { exit_time = 8_596_400_000_000; pnl = fixed.number 5000 0 }

-- The trades come with the later one first.
abbrev both : List Trade
both = loss ∷ profit ∷ []

replayed_in_order : sort_by_exit both ≡ profit ∷ loss ∷ []
unfolding sort_by_exit
replayed_in_order = refl

rebuild_same_day_example :
    let s = (rebuild both evening (some (fixed.number 950000 0)) reopened).state in
    (closed : List Trade) × IsInOrder both closed
    × let today = on_day (trading_day evening) closed in
      (s.consecutive_losses ≡ final_losses today)
      × (s.daily_realized_pnl ≡ realized (fixed.number 0 0) today)
      × (s.day_start_equity ≡ some (fixed.number 1000000 0))
      × (s.day_cash_flow ≡ fixed.number 0 0)
      × (s.cash_flow_cursor ≡ some 7)
unfolding trading_day reopened
rebuild_same_day_example =
    rebuild_same_day both evening (some (fixed.number 950000 0)) reopened saved_day refl refl

rebuild_keeps_daily_lock_example :
    is_some (rebuild (loss ∷ []) evening none reopened).state.lock_reason ≡ true
unfolding trading_day reopened
rebuild_keeps_daily_lock_example =
    rebuild_keeps_daily_lock (loss ∷ []) evening none reopened saved_day
      (daily_loss (some (fixed.number 1000000 0)) (fixed.number 0 0) (fixed.number 960000 0)
        (fixed.number 4 2) (fixed.number 3 2))
      refl refl refl refl

abbrev coins : Position
coins = record {
  market = "KRW-BTC";
  quantity = fixed.number 15 1;
  avg_price = fixed.number 50000 0;
  opened_at = 7;
  entry_amount = fixed.number 75000 0;
  entry_fee = fixed.number 375 1;
  cost_known = true;
}

-- The candle reaches both the stop at 47,500 and the target at 55,000: the stop is reported.
stop_before_target :
    (check_exits coins (fixed.number 47000 0) (fixed.number 56000 0) fresh).0
    ≡ some (exit_at "KRW-BTC" stop_loss (fixed.number 47500 0))
unfolding check_exits ◌+ℤ◌ ◌-ℤ◌
stop_before_target = refl

check_exits_right_example :
    let (found, pos', m') = check_exits coins (fixed.number 47000 0) (fixed.number 56000 0) fresh in
    IsRightExit limits "KRW-BTC" coins.avg_price
      (previous_peak fresh.state.peak_prices coins)
      (fixed.number 47000 0)
      (fixed.number 56000 0)
      found
    × (pos' ≡ coins)
check_exits_right_example =
    check_exits_right coins (fixed.number 47000 0) (fixed.number 56000 0) fresh refl

abbrev candles : List (ℤ × ℤ)
candles =
    (fixed.number 49000 0, fixed.number 51000 0)
    ∷ (fixed.number 50500 0, fixed.number 54000 0)
    ∷ (fixed.number 52000 0, fixed.number 53000 0)
    ∷ []

watch_peak_example :
    previous_peak (watch coins candles fresh).state.peak_prices coins ≡ fixed.number 54000 0
unfolding stop_hit target_hit previous_peak Dict.lookup ◌+ℤ◌ ◌-ℤ◌
watch_peak_example =
    watch_peak (fixed.number 4 2) coins candles fresh refl refl
      (refl, refl, (refl, refl, (refl, refl, tt)))
