-- ===== src/Backtest/Examples.antt =====
-- Tests of the backtest, and its theorems at concrete inputs.
use upbit_auto_trader.Prelude.{
  ℕ, ◌≡◌, refl, false, Option, none, some, List, [], ◌∷◌, ◌++◌, foldl, map, All,
}
use upbit_auto_trader.Prelude.Int.{◌+ℤ◌, ◌-ℤ◌}
use upbit_auto_trader.Float.{nil}
use upbit_auto_trader.Float.Fixed.{fixed}
use upbit_auto_trader.Dict
use upbit_auto_trader.Portfolio.Account.{
  Note, text, Result, ok, err, Fill, Side, buying, selling, Portfolio, market_value, equity,
  floor_quantity, new_portfolio,
}
use upbit_auto_trader.Portfolio.Ledger.{apply_cash, apply_fee}
use upbit_auto_trader.Portfolio.Trading.{
  buy, buy_refusal, buy_quantity, bought_position, bought_fill, settle_buy, sell, sell_from,
  sell_refusal, sell_quantity, sells_all, sold_fill, sold_position, settle_sell, closed_trade,
}
use upbit_auto_trader.Risk.State.{
  start_day_if_needed, update_equity, note_equity, lock_daily, loss_over_limit, daily_base_equity,
  fresh_day, is_day, persist, blank_state, trading_day,
}
use upbit_auto_trader.Risk.Entries.{
  buy_now, sell_now, Action, evaluate, decide, size_entry, final_size, ratio_room, cap_budget,
  rejection, entry_refusal, deviating, cooling, entries_blocked_reason,
}
use upbit_auto_trader.Risk.Exits.{
  check_exits, check_priced, adopt_price, check_trailing, raise_peak, previous_peak, trail_hit,
  stop_hit, target_hit,
}
use upbit_auto_trader.Risk.Events.{record_trade, book_trade, count_trade, lock_after, losing_lock}
use upbit_auto_trader.Backtest.Config.{BacktestConfig, unrestricted, risk_config}
use upbit_auto_trader.Backtest.Engine.{
  Bar, Run, run, steps, start, step, begin_bar, fill_pending, fill_one, bought_or_noted, sell_out,
  record_new_trades, record_all, watch_exits, after_check, exit_price, close_last, value_bar,
  note_signal, note_action, entry_signal, take_decision,
}
use upbit_auto_trader.Backtest.Flat.{run_ends_flat}
use upbit_auto_trader.Backtest.Causes.{Follows, fills_follow_signals}

-- One million won, 0.05 % fees and slippage, half of the cash for an order, a 5 % stop.
abbrev config : BacktestConfig
config = record {
  initial_capital = fixed.number 1000000 0;
  fee_rate = fixed.number 5 4;
  slippage_rate = fixed.number 5 4;
  position_fraction = fixed.number 5 1;
  min_order_amount = fixed.number 5000 0;
  stop_loss_pct = some (fixed.number 5 2);
  take_profit_pct = none;
  risk = none;
}

-- A candle at a price, with the signal.
abbrev bar : ℕ → ℕ → Action → Bar
bar now price action = record {
  time = now;
  opening = fixed.number price 0;
  high = fixed.number price 0;
  low = fixed.number price 0;
  closing = fixed.number price 0;
  action = action;
  reason = "cross";
}

abbrev first : Bar
first = bar 1000 100 buy_now

abbrev second : Bar
second = bar 2000 110 sell_now

-- A purchase at the second candle, which is sold at its close.
abbrev candles : List Bar
candles = first ∷ second ∷ []

abbrev opened : Portfolio
opened = record {
  initial_cash = fixed.number 1000000 0;
  fee_rate = fixed.number 5 4;
  min_order_amount = fixed.number 5000 0;
  cash = fixed.number 1000000 0;
  positions = [];
  fills = [];
  trades = [];
  fees_paid = fixed.number 0 0;
  dust = [];
}

abbrev result_of : Result Run → Run
result_of (ok r) = r
result_of (err _) = start config opened

abbrev finished : Option (Result Run) → Run
finished (some r) = result_of r
finished none = start config opened

abbrev final : Run
final = finished (run config "KRW-BTC" "sma" candles)

abbrev side_and_time : Fill → Side × ℕ
side_and_time f = (f.side, f.time)

final_fills : map side_and_time final.portfolio.fills ≡ (buying, 2000) ∷ (selling, 2000) ∷ []
unfolding run steps start step begin_bar fill_pending fill_one bought_or_noted sell_out
    record_new_trades record_all watch_exits after_check exit_price close_last value_bar note_signal
    note_action entry_signal take_decision unrestricted risk_config new_portfolio Dict.lookup
    Dict.insert Dict.erase ◌+ℤ◌ ◌-ℤ◌ buy buy_refusal buy_quantity bought_position bought_fill
    settle_buy sell sell_from sell_refusal sell_quantity sells_all sold_fill sold_position
    settle_sell closed_trade floor_quantity market_value equity start_day_if_needed update_equity
    note_equity lock_daily loss_over_limit daily_base_equity fresh_day is_day persist blank_state
    trading_day evaluate decide size_entry final_size ratio_room cap_budget rejection entry_refusal
    deviating cooling entries_blocked_reason check_exits check_priced adopt_price check_trailing
    raise_peak previous_peak trail_hit stop_hit target_hit record_trade book_trade count_trade
    lock_after losing_lock
final_fills = refl

final-ok : run config "KRW-BTC" "sma" candles ≡ some (ok final)
unfolding run steps start step begin_bar fill_pending fill_one bought_or_noted sell_out
    record_new_trades record_all watch_exits after_check exit_price close_last value_bar note_signal
    note_action entry_signal take_decision unrestricted risk_config new_portfolio Dict.lookup
    Dict.insert Dict.erase ◌+ℤ◌ ◌-ℤ◌ buy buy_refusal buy_quantity bought_position bought_fill
    settle_buy sell sell_from sell_refusal sell_quantity sells_all sold_fill sold_position
    settle_sell closed_trade floor_quantity market_value equity start_day_if_needed update_equity
    note_equity lock_daily loss_over_limit daily_base_equity fresh_day is_day persist blank_state
    trading_day evaluate decide size_entry final_size ratio_room cap_budget rejection entry_refusal
    deviating cooling entries_blocked_reason check_exits check_priced adopt_price check_trailing
    raise_peak previous_peak trail_hit stop_hit target_hit record_trade book_trade count_trade
    lock_after losing_lock
final-ok = refl

run_ends_flat_example :
    (final.portfolio.positions ≡ [])
    × (final.last_equity ≡ foldl apply_cash (fixed.number 1000000 0) final.portfolio.fills)
    × (final.portfolio.fees_paid ≡ foldl apply_fee nil final.portfolio.fills)
run_ends_flat_example = run_ends_flat config "KRW-BTC" "sma" candles final final-ok

-- The first candle's signal is a purchase; the next one fills it at its opening and falls to the stop.
abbrev falling : Bar
falling = record second { low = fixed.number 100 0 }

abbrev begun : Run
begun = start config opened

abbrev signalled : Run
signalled = result_of (step "KRW-BTC" "sma" (fixed.number 5 4) false first begun)

abbrev traded : Run
traded = result_of (step "KRW-BTC" "sma" (fixed.number 5 4) false falling signalled)

signalled-ok : step "KRW-BTC" "sma" (fixed.number 5 4) false first begun ≡ ok signalled
unfolding run steps start step begin_bar fill_pending fill_one bought_or_noted sell_out
    record_new_trades record_all watch_exits after_check exit_price close_last value_bar note_signal
    note_action entry_signal take_decision unrestricted risk_config new_portfolio Dict.lookup
    Dict.insert Dict.erase ◌+ℤ◌ ◌-ℤ◌ buy buy_refusal buy_quantity bought_position bought_fill
    settle_buy sell sell_from sell_refusal sell_quantity sells_all sold_fill sold_position
    settle_sell closed_trade floor_quantity market_value equity start_day_if_needed update_equity
    note_equity lock_daily loss_over_limit daily_base_equity fresh_day is_day persist blank_state
    trading_day evaluate decide size_entry final_size ratio_room cap_budget rejection entry_refusal
    deviating cooling entries_blocked_reason check_exits check_priced adopt_price check_trailing
    raise_peak previous_peak trail_hit stop_hit target_hit record_trade book_trade count_trade
    lock_after losing_lock
signalled-ok = refl

abbrev reason_of : Fill → Note
reason_of f = f.reason

stopped_out : map reason_of traded.portfolio.fills ≡ text "signal" ∷ text "stop_loss" ∷ []
unfolding run steps start step begin_bar fill_pending fill_one bought_or_noted sell_out
    record_new_trades record_all watch_exits after_check exit_price close_last value_bar note_signal
    note_action entry_signal take_decision unrestricted risk_config new_portfolio Dict.lookup
    Dict.insert Dict.erase ◌+ℤ◌ ◌-ℤ◌ buy buy_refusal buy_quantity bought_position bought_fill
    settle_buy sell sell_from sell_refusal sell_quantity sells_all sold_fill sold_position
    settle_sell closed_trade floor_quantity market_value equity start_day_if_needed update_equity
    note_equity lock_daily loss_over_limit daily_base_equity fresh_day is_day persist blank_state
    trading_day evaluate decide size_entry final_size ratio_room cap_budget rejection entry_refusal
    deviating cooling entries_blocked_reason check_exits check_priced adopt_price check_trailing
    raise_peak previous_peak trail_hit stop_hit target_hit record_trade book_trade count_trade
    lock_after losing_lock
stopped_out = refl

traded-ok : step "KRW-BTC" "sma" (fixed.number 5 4) false falling signalled ≡ ok traded
unfolding run steps start step begin_bar fill_pending fill_one bought_or_noted sell_out
    record_new_trades record_all watch_exits after_check exit_price close_last value_bar note_signal
    note_action entry_signal take_decision unrestricted risk_config new_portfolio Dict.lookup
    Dict.insert Dict.erase ◌+ℤ◌ ◌-ℤ◌ buy buy_refusal buy_quantity bought_position bought_fill
    settle_buy sell sell_from sell_refusal sell_quantity sells_all sold_fill sold_position
    settle_sell closed_trade floor_quantity market_value equity start_day_if_needed update_equity
    note_equity lock_daily loss_over_limit daily_base_equity fresh_day is_day persist blank_state
    trading_day evaluate decide size_entry final_size ratio_room cap_budget rejection entry_refusal
    deviating cooling entries_blocked_reason check_exits check_priced adopt_price check_trailing
    raise_peak previous_peak trail_hit stop_hit target_hit record_trade book_trade count_trade
    lock_after losing_lock
traded-ok = refl

fills_follow_signals_example :
    (new : List Fill) × (traded.portfolio.fills ≡ signalled.portfolio.fills ++ new)
    × All (Follows "KRW-BTC" (fixed.number 5 4) false first falling signalled) new
fills_follow_signals_example =
    fills_follow_signals "KRW-BTC" "sma" (fixed.number 5 4) false first falling begun signalled
      traded signalled-ok traded-ok
