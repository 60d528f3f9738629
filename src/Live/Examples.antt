-- ===== src/Live/Examples.antt =====
-- Tests of the live broker against a small exchange, and the theorems at concrete inputs.
use upbit_auto_trader.Prelude.{ℕ, zero, suc, ◌≡◌, ◌≢◌, refl, true, none, some, [], ◌∷◌, arith}
use upbit_auto_trader.Float.Fixed.{fixed}
use upbit_auto_trader.Portfolio.Account.{Portfolio, buying, selling}
use upbit_auto_trader.Prelude.Int.{◌+ℤ◌, ◌-ℤ◌}
use upbit_auto_trader.Dict
use upbit_auto_trader.Portfolio.Account.{floor_quantity}
use upbit_auto_trader.Portfolio.Trading.{buy, bought_fill, buy_quantity, buy_refusal, settle_buy}
use upbit_auto_trader.Market.Prices.{PriceState}
use upbit_auto_trader.Exchange.Models.{Balance, OrderInfo, OrderChance}
use upbit_auto_trader.Exchange.Client.{
  Reply, answer, failed, unreachable, garbled, OrderParams, Client,
}
use upbit_auto_trader.Orders.Guard.{live, assert_live_order_allowed}
use upbit_auto_trader.Orders.Order.{
  OrderRequest, Order, new_order, is_processed, resolved_client_id, given_id, side_value, filled,
  rejected,
}
use upbit_auto_trader.Live.Broker.{
  Texts, LiveBroker, Outcome, returned, raised, running, make_identifier, prepare_buy, prepare_sell,
  Prepared, params, includes,
}
use upbit_auto_trader.Live.Broker.{
  buy_amount, build_params, prepare, price_guard, attempt_suffix, take,
}
use upbit_auto_trader.Exchange.Models.{fill_funds, funds_by_type, is_final}
use upbit_auto_trader.Exchange.Client.{market_buy_params, market_sell_params}
use upbit_auto_trader.Live.Submit.{attempts, react}
use upbit_auto_trader.Live.Settle.{
  wait_for_fill, poll, give_up, with_trades, refresh_trades, apply_fill, booked, book, with_fill,
}
use upbit_auto_trader.Live.Execute.{
  execute, resolve, final_order, resolve_by, send, place, after_attempts, finish,
}
use upbit_auto_trader.Live.Record.{recorded}
use upbit_auto_trader.Live.Accounts.{reconcile}
use upbit_auto_trader.Live.Excluded.{Untouched, reconcile_excluded}
use upbit_auto_trader.Live.Noted.{Accounted}
use upbit_auto_trader.Live.Again.{execute-Accounted, execute_again}
use upbit_auto_trader.Live.Ends.{EnoughFuel, elapsed_after, execute_ends}
use upbit_auto_trader.Live.Broker.{response_unreadable, sell_amount}
use upbit_auto_trader.Orders.Order.{OrderStatus, reject, duplicate_signal}
use upbit_auto_trader.Live.OneOrder.{AtMostOneOpen, execute_at_most_one}

abbrev texts : Texts
texts = record {
  isoformat = λ t. "1970-01-01T00:00:01";
  show = λ n. "2";
  digest = λ s. "0123456789abcdef";
}

abbrev krw : Balance
krw = record {
  currency = "KRW";
  balance = fixed.number 1000000 0;
  locked = fixed.number 0 0;
  avg_buy_price = fixed.number 0 0;
}

abbrev coin : Balance
coin = record {
  currency = "BTC";
  balance = fixed.number 2 0;
  locked = fixed.number 0 0;
  avg_buy_price = fixed.number 50000 0;
}

abbrev chance : OrderChance
chance = record {
  bid_account = krw;
  ask_account = coin;
  min_total_bid = some (fixed.number 5000 0);
  max_total = some (fixed.number 1000000000 0);
  market_state = some "active";
  bid_types = "limit" ∷ "price" ∷ [];
  ask_types = "limit" ∷ "market" ∷ [];
}

abbrev done_order : OrderInfo
done_order = record {
  uuid = "cdd92199-2897";
  ord_type = "price";
  state = "done";
  executed_volume = fixed.number 2 0;
  paid_fee = fixed.number 50 0;
  price = some (fixed.number 100000 0);
  trades = [];
}

-- An exchange that makes each order at once and counts them. `first` is how it answers the first
-- order, which it makes as well.
abbrev exchange : (first : Reply OrderInfo) → Client
exchange first = record {
  World = ℕ;
  allow_orders = true;
  create_order = λ ps w. elim w [ zero ↦ (first, 1) | suc n ↦ (answer done_order, suc (suc n)) ];
  get_order = λ key w. (answer done_order, w);
  cancel_order = λ uuid w. (answer done_order, w);
  get_order_chance = λ market w. (answer chance, w);
  get_ticker = none;
  get_accounts = λ w. (answer (krw ∷ coin ∷ []), w);
  sleep = λ t w. w;
}

abbrev account : Portfolio
account = record {
  initial_cash = fixed.number 1000000 0;
  fee_rate = fixed.number 5 4;
  min_order_amount = fixed.number 5000 0;
  cash = fixed.number 1000000 0;
  positions = [];
  fills = [];
  trades = [];
  fees_paid = fixed.number 0 0;
  dust = [];
}

abbrev broker : LiveBroker
broker = record {
  portfolio = account;
  settings = record { trading_mode = live; live_trading_enabled = true };
  price_max_age_seconds = fixed.number 10 0;
  processed = [];
  poll_interval = fixed.number 5 1;
  fill_timeout = fixed.number 30 0;
  max_attempts = 2;
  lookup_attempts = 5;
  lookup_backoff = fixed.number 1 0;
  trades_lookup_attempts = 3;
  last_chance = none;
}

abbrev request : OrderRequest
request = record {
  market = "KRW-BTC";
  side = buying;
  amount = some (fixed.number 100000 0);
  quantity = none;
  reason = "oversold";
  strategy = "rsi";
  signal_time = some 1_000_000;
  client_id = none;
}

-- What the tests run.
abbrev call : (first : Reply OrderInfo) → LiveBroker → ℕ → Outcome Order × LiveBroker × ℕ
call first b w = execute (exchange first) texts 60 "stamp" "id" request none 2_000_000 b w

abbrev quote : PriceState
quote = record {
  market = "KRW-BTC";
  last_price = some (fixed.number 50000 0);
  last_time = some 1_000_000;
  best_bid = none;
  best_ask = none;
  book_time = none;
  book_max_age_seconds = fixed.number 30 0;
}

same_signal :
    resolved_client_id texts.isoformat "other" "live" request
    ≡ resolved_client_id texts.isoformat "stamp" "live" request
unfolding resolved_client_id given_id
same_signal = refl

abbrev blank : Order
blank = new_order "" "" "live" request 0

abbrev order_of : Outcome Order → Order
order_of (returned o) = o
order_of _ = blank

first_fills :
    (call (answer done_order) broker 0).0
    ≡ returned (order_of (call (answer done_order) broker 0).0)
unfolding execute send place after_attempts finish attempts react make_identifier build_params
    prepare prepare_buy buy_amount market_buy_params wait_for_fill poll give_up with_trades
    refresh_trades apply_fill booked book with_fill fill_funds funds_by_type is_final price_guard
    assert_live_order_allowed is_processed resolved_client_id given_id side_value new_order
    attempt_suffix take includes
first_fills = refl

first_is_filled : (order_of (call (answer done_order) broker 0).0).status ≡ filled
unfolding Dict.lookup Dict.insert buy bought_fill buy_quantity buy_refusal settle_buy floor_quantity
    ◌+ℤ◌ ◌-ℤ◌ execute send place after_attempts finish attempts react make_identifier build_params
    prepare prepare_buy buy_amount market_buy_params wait_for_fill poll give_up with_trades
    refresh_trades apply_fill booked book with_fill fill_funds funds_by_type is_final price_guard
    assert_live_order_allowed is_processed resolved_client_id given_id side_value new_order
    attempt_suffix take includes
first_is_filled = refl

filled_alive : (s : OrderStatus) → s ≡ filled → s ≢ rejected
filled_alive s e = ground arith

first_is_alive : (order_of (call (answer done_order) broker 0).0).status ≢ rejected
first_is_alive = filled_alive _ first_is_filled

-- An unreadable answer to the order leaves the method as an exception, the signal is not noted,
-- and the same signal makes a second order.
garbled_escapes :
    ((call (failed garbled) broker 0).0 ≡ raised response_unreadable)
    × ((call (failed garbled) broker 0).1.processed ≡ [])
unfolding execute send place after_attempts finish attempts react make_identifier build_params
    prepare prepare_buy buy_amount market_buy_params wait_for_fill poll give_up with_trades
    refresh_trades apply_fill booked book with_fill fill_funds funds_by_type is_final price_guard
    assert_live_order_allowed is_processed resolved_client_id given_id side_value new_order
    attempt_suffix take includes
garbled_escapes = (refl, refl)

garbled_orders_twice :
    let first = call (failed garbled) broker 0 in (call (failed garbled) first.1 first.2).2 ≡ 2
unfolding execute send place after_attempts finish attempts react make_identifier build_params
    prepare prepare_buy buy_amount market_buy_params wait_for_fill poll give_up with_trades
    refresh_trades apply_fill booked book with_fill fill_funds funds_by_type is_final price_guard
    assert_live_order_allowed is_processed resolved_client_id given_id side_value new_order
    attempt_suffix take includes
garbled_orders_twice = refl

execute_at_most_one_example :
    AtMostOneOpen
      (execute
        (recorded (exchange (answer done_order)))
        texts
        60
        "stamp"
        "id"
        request
        none
        2_000_000
        broker
        ([], 0)).2.0
execute_at_most_one_example =
    execute_at_most_one (exchange (answer done_order)) texts 60 "stamp" "id" request none 2_000_000
      broker 0

execute_again_example :
    let z = call (answer done_order) broker 0 in
    execute
      (exchange (answer done_order))
      texts
      3
      "other"
      "id2"
      request
      (some quote)
      9_000_000
      z.1
      7
    ≡ (
      returned (
          reject
            (new_order "id2"
              (resolved_client_id texts.isoformat "other" "live" request)
              "live"
              request
              9_000_000)
            duplicate_signal),
      z.1,
      7,
    )
execute_again_example =
    execute_again (exchange (answer done_order)) texts 60 "stamp" "id" request none 2_000_000 broker
      0 (order_of (call (answer done_order) broker 0).0) first_fills first_is_alive 3 "other" "id2"
      (some quote) 9_000_000 7 same_signal

execute-Accounted_example :
    Accounted (resolved_client_id texts.isoformat "stamp" "live" request) broker (
      execute (exchange (failed unreachable)) texts 60 "stamp" "id" request none 2_000_000 broker 0)
execute-Accounted_example =
    execute-Accounted (exchange (failed unreachable)) texts 60 "stamp" "id" request none 2_000_000
      broker 0

sixty_are_enough : EnoughFuel 60 broker
unfolding elapsed_after ◌+ℤ◌
sixty_are_enough = refl

execute_ends_example :
    (execute (exchange (answer done_order)) texts 60 "stamp" "id" request none 2_000_000 broker 0).0
    ≢ running
execute_ends_example =
    execute_ends (exchange (answer done_order)) texts 60 "stamp" "id" request none 2_000_000 broker
      0 sixty_are_enough

abbrev sell_request : OrderRequest
sell_request = record request { side = selling; amount = none }

abbrev params_of : Prepared → OrderParams
params_of (params ps) = ps
params_of _ = record {
  market = "";
  side = "";
  ord_type = "";
  price = none;
  volume = none;
  identifier = none;
}

buy_prepared :
    (prepare_buy chance request blank).0 ≡ params (params_of (prepare_buy chance request blank).0)
unfolding prepare_buy buy_amount market_buy_params includes
buy_prepared = refl

abbrev holding : Portfolio
holding = record account {
  positions =
      (
        "KRW-BTC",
        record {
          market = "KRW-BTC";
          quantity = fixed.number 2 0;
          avg_price = fixed.number 50000 0;
          opened_at = 0;
          entry_amount = fixed.number 100000 0;
          entry_fee = fixed.number 50 0;
          cost_known = true;
        },
      )
      ∷ [];
}

sell_prepared :
    (prepare_sell chance sell_request holding blank).0
    ≡ params (params_of (prepare_sell chance sell_request holding blank).0)
unfolding prepare_sell sell_amount market_sell_params includes Dict.lookup
sell_prepared = refl

btc_excluded : includes "KRW-BTC" ("KRW-BTC" ∷ []) ≡ true
unfolding includes
btc_excluded = refl

reconcile_excluded_example :
    Untouched "KRW-BTC"
      (record broker { portfolio = holding })
      (reconcile
        (exchange (answer done_order))
        ("KRW-BTC" ∷ [])
        []
        ("KRW-BTC" ∷ [])
        5
        (record broker { portfolio = holding })
        0)
reconcile_excluded_example =
    reconcile_excluded (exchange (answer done_order)) ("KRW-BTC" ∷ []) [] ("KRW-BTC" ∷ []) 5
      (record broker { portfolio = holding }) 0 "KRW-BTC" btc_excluded

-- The exchange with no answer to a lookup, and an order that waits to be resolved.
abbrev silent : Client
silent = record (exchange (answer done_order)) { get_order = λ key w. (failed unreachable, w) }

abbrev open_order : Order
open_order = record blank { exchange_identifier = some "live:KRW-BTC:BUY:now" }

stays_pending : (resolve silent open_order 9_000_000 broker 0).0 ≢ final_order
unfolding resolve resolve_by given_id new_order
stays_pending = ground arith
