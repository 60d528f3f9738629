-- ===== src/Trading/Examples.antt =====
-- Tests of the trading engine, and its theorems at concrete inputs.
use upbit_auto_trader.Prelude.{
  ℕ, suc, ◌<◌, String, ◌≡◌, refl, true, false, Option, none, some, List, [], ◌∷◌, ◌++◌, arith,
}
use upbit_auto_trader.Float.Fixed.{fixed}
use upbit_auto_trader.Dict
use upbit_auto_trader.Portfolio.Account.{Portfolio, Position, text, selling}
use upbit_auto_trader.Risk.State.{RiskConfig, RiskManager, blank_state}
use upbit_auto_trader.Risk.Entries.{Signal, buy_now}
use upbit_auto_trader.Risk.Exits.{ExitReason, stop_loss, take_profit}
use upbit_auto_trader.Market.Prices.{PriceState, ticker}
use upbit_auto_trader.Orders.Order.{Order, rejected, is_filled}
use upbit_auto_trader.Orders.Paper.{PaperBroker}
use upbit_auto_trader.Database.Repository.{Repository}
use upbit_auto_trader.Live.Broker.{includes}
use upbit_auto_trader.Trading.Engine.{
  still_open, Broker, Engine, EngineSettings, EngineStats, Ended, completed, failed,
}
use upbit_auto_trader.Prelude.Int.{◌+ℤ◌, ◌-ℤ◌}
use upbit_auto_trader.Trading.Unresolved.{
  resolve_pending_orders, resolve_all, after_follow_up, follow_up, keep_or_give_up, give_up_pending,
  sync_account,
}
use upbit_auto_trader.Trading.Overdue.{Settles, IsYoung, no_overdue_order}
use upbit_auto_trader.Trading.Loop.{next_boundary}
use upbit_auto_trader.Trading.Brokers.{paper_trading}
use upbit_auto_trader.Trading.Exits.{observe, exit_delay, note_exit_result, watch_one, backs_off}
use upbit_auto_trader.Trading.Signals.{on_signal}
use upbit_auto_trader.Trading.Confirm.{repeated, seen, confirmed_after_repeats, repeats_confirm}
use upbit_auto_trader.Trading.Backoff.{no_exit_before_retry, failures_raise}
use upbit_auto_trader.Trading.Gate.{Gated, on_signal_gate}
use upbit_auto_trader.Trading.Once.{on_signal_once}
use upbit_auto_trader.Trading.OnePending.{
  Spares, Event, closed_candle, exit_check, price_message, handle_all, none_while_pending,
}
use upbit_auto_trader.Trading.SafeMode.{
  IsAt, ends, after_steps, ten_failed, failed_in_a_row, safe_mode_after_ten,
}

-- A stop loss that is seen twice in a row after a take profit.
abbrev checks : List (Option ExitReason)
checks = some stop_loss ∷ some stop_loss ∷ none ∷ some take_profit ∷ []

checks_confirm : (seen 2 checks).0 ≡ true
unfolding seen observe
checks_confirm = refl

one_is_too_few : (seen 2 (some stop_loss ∷ some take_profit ∷ [])).0 ≡ false
unfolding seen observe
one_is_too_few = refl

confirmed_after_repeats_example :
    (r : ExitReason) × (older : List (Option ExitReason)) × (checks ≡ repeated 2 r ++ older)
confirmed_after_repeats_example = confirmed_after_repeats 2 checks (ground arith) checks_confirm

repeats_confirm_example :
    (k : ℕ) × (k < 3) × ((seen 3 (repeated (suc k) stop_loss ++ some take_profit ∷ [])).0 ≡ true)
repeats_confirm_example = repeats_confirm 3 stop_loss (some take_profit ∷ []) (ground arith)

-- Stand-ins for `datetime.isoformat` and `uuid4().hex`.
abbrev stamp_of : ℕ → String
stamp_of t = "1970-01-01T00:00:01+00:00"

abbrev uuid_of : ℕ → String
uuid_of n = "c0ffee"

abbrev paper : Broker
paper = paper_trading stamp_of uuid_of

abbrev account : Portfolio
account = record {
  initial_cash = fixed.number 1000000 0;
  fee_rate = fixed.number 5 4;
  min_order_amount = fixed.number 5000 0;
  cash = fixed.number 1000000 0;
  positions = [];
  fills = [];
  trades = [];
  fees_paid = fixed.number 0 0;
  dust = [];
}

abbrev till : PaperBroker
till = record {
  portfolio = account;
  slippage_rate = fixed.number 5 4;
  max_price_age = fixed.number 30 0;
  processed = [];
}

abbrev limits : RiskConfig
limits = record {
  position_fraction = fixed.number 5 1;
  max_order_amount = none;
  max_position_ratio = fixed.number 1 0;
  max_open_positions = 2;
  daily_loss_limit_pct = none;
  max_consecutive_losses = none;
  stop_loss_pct = some (fixed.number 5 2);
  take_profit_pct = none;
  trailing_stop_pct = none;
  price_deviation_limit = none;
  min_order_amount = fixed.number 5000 0;
  cooldown_seconds = fixed.number 0 0;
}

abbrev unlimited : RiskManager
unlimited = record { config = limits; state = blank_state; store = none }

abbrev quote : PriceState
quote = record {
  market = "KRW-BTC";
  last_price = some (fixed.number 50000 0);
  last_time = some 1_000_000;
  best_bid = none;
  best_ask = none;
  book_time = none;
  book_max_age_seconds = fixed.number 30 0;
}

abbrev settings : EngineSettings
settings = record {
  strategy = "rsi";
  interval = "1h";
  interval_seconds = 3600;
  candle_grace_seconds = fixed.number 5 0;
  price_max_age_seconds = fixed.number 30 0;
  exit_confirm_ticks = 2;
}

abbrev no_stats : EngineStats
no_stats = record {
  signals = 0;
  actionable_signals = 0;
  orders_filled = 0;
  orders_rejected = 0;
  orders_unknown = 0;
  orders_resolved = 0;
  stale_signals_skipped = 0;
  anomalous_signals_held = 0;
  loop_step_failures = 0;
  risk_rejections = 0;
  exits_triggered = 0;
  risk_locks = 0;
  commands_processed = 0;
  snapshots = 0;
  last_equity = none;
  errors = 0;
}

abbrev no_rows : Repository
no_rows = record {
  signals = [];
  orders = [];
  fills = [];
  round_trips = [];
  account = none;
  balances = [];
  commands = [];
  cash_flows = [];
}

abbrev engine : (b : Broker) → b.State → Engine b
engine b s = record {
  settings = settings;
  broker = s;
  risk = unlimited;
  market = record { price_max_age_seconds = fixed.number 30 0; prices = ("KRW-BTC", quote) ∷ [] };
  repo = no_rows;
  pending_orders = [];
  exit_backoff = [];
  exit_failures = [];
  exit_streak = [];
  paused = false;
  safe_mode = false;
  step_failures = 0;
  round_trips_saved = 0;
  last_exit_check = none;
  last_trade_at = none;
  stopping = false;
  reload_requested = false;
  notified = [];
  stats = no_stats;
}

abbrev begun : Engine paper
begun = engine paper (0, till)

abbrev entry : Signal
entry = record {
  action = buy_now;
  market = "KRW-BTC";
  time = 1_000_000;
  price = fixed.number 50000 0;
  strategy = "rsi";
  reason = "oversold";
}

on_signal_gate_example :
    Gated paper entry 2_000_000 begun (on_signal paper entry 2_000_000 begun).1.broker
on_signal_gate_example = on_signal_gate paper entry 2_000_000 begun

-- The engine of a restart with the signals of `begun` after the entry.
abbrev restarted : Engine paper
restarted = record begun {
  repo = record no_rows { signals = (on_signal paper entry 2_000_000 begun).1.repo.signals ++ [] };
}

on_signal_once_example : (on_signal paper entry 9_000_000 restarted).1.broker ≡ restarted.broker
on_signal_once_example =
    on_signal_once paper entry entry 2_000_000 9_000_000 begun restarted [] refl refl refl refl refl

abbrev refused : Order
refused = record {
  id = "o1";
  client_id = "c1";
  mode = "paper";
  market = "KRW-BTC";
  side = selling;
  amount = none;
  quantity = none;
  status = rejected;
  created_at = 1_000_000;
  reason = text "stop_loss";
  strategy = "rsi";
  signal_time = none;
  filled_at = none;
  fill_price = none;
  filled_quantity = none;
  fee = fixed.number 0 0;
  error = none;
  exchange_order_id = none;
  exchange_identifier = none;
  fills = [];
}

refused_unfilled : is_filled refused ≡ false
unfolding is_filled
refused_unfilled = refl

abbrev holding : Position
holding = record {
  market = "KRW-BTC";
  quantity = fixed.number 1 0;
  avg_price = fixed.number 60000 0;
  opened_at = 500_000;
  entry_amount = fixed.number 60000 0;
  entry_fee = fixed.number 30 0;
  cost_known = true;
}

first_delay : exit_delay 1 ≡ some 5_000_000
unfolding exit_delay
first_delay = refl

third_delay : exit_delay 3 ≡ some 20_000_000
unfolding exit_delay
third_delay = refl

last_delay : exit_delay 1024 ≡ some 300_000_000
unfolding exit_delay
last_delay = refl

-- The stop loss failed at 2 s; a forced check at 6.9 s is held back.
no_exit_before_retry_example :
    watch_one stamp_of paper true 6_900_000 "KRW-BTC" holding
      (note_exit_result stamp_of paper "KRW-BTC" refused 2_000_000 begun).1
    ≡ (completed, (note_exit_result stamp_of paper "KRW-BTC" refused 2_000_000 begun).1)
unfolding Dict.lookup
no_exit_before_retry_example =
    no_exit_before_retry stamp_of paper true "KRW-BTC" holding refused 2_000_000 6_900_000 5_000_000
      begun refused_unfilled first_delay (ground arith)

abbrev worn : Engine paper
worn = record begun { exit_failures = ("KRW-BTC", 1024) ∷ [] }

failures_raise_example :
    ((note_exit_result stamp_of paper "KRW-BTC" refused 2_000_000 worn).0 ≡ failed)
    × (backs_off stamp_of paper "KRW-BTC" 3_000_000
          (note_exit_result stamp_of paper "KRW-BTC" refused 2_000_000 worn).1
        ≡ backs_off stamp_of paper "KRW-BTC" 3_000_000 worn)
unfolding Dict.lookup
failures_raise_example =
    failures_raise stamp_of paper "KRW-BTC" refused 2_000_000 3_000_000 worn refused_unfilled
      (ground arith)

-- A broker that only notes the markets of its orders, and rejects them.
abbrev desk : Broker
desk = record {
  State = List String;
  mode = "paper";
  account = λ s. account;
  with_account = λ p s. s;
  execute = λ r price now s. (some refused, r.market ∷ s);
  resolve_order = none;
  reconcile = none;
}

-- No order of the market was sent.
abbrev Unsent : List String → Type 0
Unsent sent = includes "KRW-BTC" sent ≡ false

desk-Spares : Spares stamp_of desk "KRW-BTC" Unsent
unfolding includes
desk-Spares = record {
  other_orders = λ r price now s other h. ground arith;
  new_account = λ p s h. h;
}

abbrev unsettled : Engine desk
unsettled = record (engine desk ("KRW-ETH" ∷ [])) { pending_orders = ("KRW-BTC", refused) ∷ [] }

abbrev events : List Event
events =
    closed_candle entry 2_000_000
    ∷ price_message (ticker "KRW-BTC" (fixed.number 40000 0) 3_000_000) 3_000_000
    ∷ exit_check true 4_000_000
    ∷ []

none_while_pending_example :
    (Dict.contains "KRW-BTC" (handle_all stamp_of desk events unsettled).pending_orders ≡ true)
    × Unsent (handle_all stamp_of desk events unsettled).broker
unfolding Dict.lookup includes
none_while_pending_example =
    none_while_pending stamp_of desk "KRW-BTC" Unsent desk-Spares events unsettled refl refl

abbrev nothing : Engine paper → Engine paper
nothing e = e

-- A step that does something: the trading is paused.
abbrev pausing : Engine paper → Engine paper
pausing e = record e { paused = true }

abbrev fails : Ended × (Engine paper → Engine paper)
fails = (failed, nothing)

abbrev steps : List (Ended × (Engine paper → Engine paper))
steps =
    (completed, pausing)
    ∷ fails
    ∷ fails
    ∷ fails
    ∷ (failed, pausing)
    ∷ fails
    ∷ fails
    ∷ fails
    ∷ fails
    ∷ fails
    ∷ fails
    ∷ []

ten_steps_failed : ten_failed (ends paper steps) ≡ true
unfolding ten_failed ends
ten_steps_failed = refl

abbrev alone : (x : Engine paper) → IsAt paper x.safe_mode x.step_failures x
alone x = (refl, refl)

safe_mode_after_ten_example :
    IsAt paper
      (ten_failed (ends paper steps))
      (failed_in_a_row (ends paper steps))
      (after_steps paper steps begun)
safe_mode_after_ten_example =
    safe_mode_after_ten paper steps begun
      (
        alone,
        (
          alone,
          (alone, (alone, (alone, (alone, (alone, (alone, (alone, (alone, (alone, tt))))))))),
        ),
      )
      (refl, refl)

-- A broker whose follow-up never settles an order.
abbrev silent : Broker
silent = record desk { resolve_order = some (λ o now s. (still_open, o, s)) }

silent-Settles : Settles silent 2_000_000
unfolding follow_up
silent-Settles o e = tt

abbrev asking : Engine silent
asking = record (engine silent []) { pending_orders = ("KRW-BTC", refused) ∷ [] }

-- An order that is a second old waits on.
still_waits :
    Dict.lookup "KRW-BTC" (resolve_pending_orders silent 2_000_000 asking).pending_orders
    ≡ some refused
unfolding resolve_pending_orders resolve_all after_follow_up follow_up keep_or_give_up Dict.lookup
    Dict.insert ◌+ℤ◌ ◌-ℤ◌
still_waits = refl

no_overdue_order_example : IsYoung silent 2_000_000 refused
no_overdue_order_example =
    no_overdue_order silent 2_000_000 asking silent-Settles "KRW-BTC" refused still_waits

-- Twelve minutes later it is given up.
given_up : (resolve_pending_orders silent 721_000_000 asking).pending_orders ≡ []
unfolding resolve_pending_orders resolve_all after_follow_up follow_up keep_or_give_up
    give_up_pending sync_account Dict.lookup Dict.insert Dict.erase ◌+ℤ◌ ◌-ℤ◌
given_up = refl

-- 14:59:59 on the day after the epoch, for candles of an hour.
on_the_hour : next_boundary 140_399_000_000 3600 ≡ 140_400
unfolding next_boundary
on_the_hour = refl
