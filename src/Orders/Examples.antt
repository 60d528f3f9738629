-- ===== src/Orders/Examples.antt =====
-- Tests of the gate and of the paper broker, and their theorems at concrete inputs.
use upbit_auto_trader.Prelude.{true, ℕ, String, ◌≡◌, none, some, [], ◌∷◌, ◌++◌}
use upbit_auto_trader.Float.Fixed.{fixed}
use upbit_auto_trader.Portfolio.Account.{Portfolio, buying}
use upbit_auto_trader.Market.Prices.{PriceState}
use upbit_auto_trader.Orders.Order.{OrderRequest}
use upbit_auto_trader.Orders.Guard.{live, LiveFlags}
use upbit_auto_trader.Orders.Paper.{PaperBroker}
use upbit_auto_trader.Orders.PaperLaws.{Outcome, execute_outcome}
use upbit_auto_trader.Orders.OnceOnly.{Ask, Distinct, filled_ids, session, session_fills_once}

abbrev account : Portfolio
account = record {
  initial_cash = fixed.number 1000000 0;
  fee_rate = fixed.number 5 4;
  min_order_amount = fixed.number 5000 0;
  cash = fixed.number 1000000 0;
  positions = [];
  fills = [];
  trades = [];
  fees_paid = fixed.number 0 0;
  dust = [];
}

abbrev quote : PriceState
quote = record {
  market = "KRW-BTC";
  last_price = some (fixed.number 50000 0);
  last_time = some 1_000_000;
  best_bid = some (fixed.number 49990 0);
  best_ask = some (fixed.number 50010 0);
  book_time = some 2_000_000;
  book_max_age_seconds = fixed.number 30 0;
}

abbrev broker : PaperBroker
broker = record {
  portfolio = account;
  slippage_rate = fixed.number 5 4;
  max_price_age = fixed.number 30 0;
  processed = [];
}

abbrev request : OrderRequest
request = record {
  market = "KRW-BTC";
  side = buying;
  amount = some (fixed.number 100000 0);
  quantity = none;
  reason = "oversold";
  strategy = "rsi";
  signal_time = some 1_000_000;
  client_id = none;
}

-- A stand-in for `datetime.isoformat`, for the tests.
abbrev stamp_of : ℕ → String
stamp_of t = "1970-01-01T00:00:01+00:00"

abbrev ask_now : Ask
ask_now = record { stamp = "a1"; id = "o1"; request = request; price = some quote; now = 3_000_000 }

execute_outcome_example : Outcome stamp_of "a1" "o1" request (some quote) 3_000_000 broker
execute_outcome_example = execute_outcome stamp_of "a1" "o1" request (some quote) 3_000_000 broker

session_fills_once_example :
    let (os, b') = session stamp_of (ask_now ∷ ask_now ∷ []) broker in
    (b'.processed ≡ filled_ids os ++ []) × Distinct (filled_ids os ++ [])
session_fills_once_example = session_fills_once stamp_of (ask_now ∷ ask_now ∷ []) broker tt

abbrev live_flags : LiveFlags
live_flags = record { trading_mode = live; live_trading_enabled = true }
