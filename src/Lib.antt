-- ===== src/Lib.antt =====
-- upbit-auto-trader: a model of the trading core, and theorems about it.
--
-- The program trades spot coins on the Upbit exchange. A strategy turns closed candles into
-- signals; the risk manager approves or refuses them; a broker executes what is approved, either
-- on paper against the quotes or for real; the account (portfolio) holds cash, positions, fills
-- and closed trades. The same account and risk manager serve the backtest.
--
-- Which file models what:
--   Float           Python's float: a type of numbers with the operations that the code applies,
--                   a parameter of everything else. Float/Laws has the facts on finite doubles that
--                   some proofs use, as a named hypothesis; Float/Fixed is a concrete instance that
--                   meets them and that the tests compute with.
--   Dict            dicts with text keys, in insertion order.
--   Portfolio       app/trading/portfolio.py: Account (data, equity), Trading (buy, sell).
--   Market          app/trading/market_state.py and app/strategy/data.py: Prices (prices and marks), Candles
--                   (frames as lists of rows, their checks), Frames (merge_candles, find_gaps).
--   Risk            app/risk: State (days, equity, locks), Events (cash flows, trades, emergency stop,
--                   rebuild), Entries (evaluate), Exits (check_exits), Life (calls in sequence).
--   Orders          app/trading/orders.py and app/trading/live_guard.py: Guard, Order, Paper.
--   Exchange        app/exchange/models.py and app/exchange/upbit_client.py: the answers that the live
--                   broker reads, the parameters of an order, and the client as a record of calls.
--                   Interval is the candle intervals, Errors the classes of app/core/exceptions.py.
--                   Limiter is app/exchange/rate_limiter.py; one round of a loop of `acquire` is one attempt.
--                   Request is `_request` of the client, over an HTTP client that is a parameter.
--   Live            app/trading/live_broker.py: Broker (state, checks, parameters), Submit (the attempts),
--                   Settle (waiting, booking), Execute (_execute_locked, _resolve_locked), Accounts
--                   (portfolio_from_accounts, merge_saved_positions, _reconcile_locked). Record is a client
--                   that keeps a list of the orders it was asked to create.
--   Backtest        app/backtest/engine.py and app/risk/config.py: Config (settings, risk limits), Engine
--                   (`run`, with one function for each numbered part of its loop).
--   Notify          app/notify: Event (kinds), Manager (queue, cooldown, delivery with retries).
--   Database        app/database/repository.py: the operations that the engine calls, on the rows of one
--                   mode as lists; a table's unique key is tested where the code relies on it.
--   Trading         app/trading/engine.py: Engine (state, _record_order), Signals (process_closed_candles,
--                   _on_signal), Exits (check_exits, _note_exit_result, _handle_price_message), Unresolved
--                   (the follow-up of unknown orders), Loop (_guarded, poll_commands, next_boundary), Feed
--                   (the candles of a market up to those that closed), Rounds (the loop of run, as steps and
--                   times), Reload (warmup, maybe_reload_settings, with app/trading/runtime_settings.py).
--                   The engine works over a broker as a record of operations; Brokers gives it the paper
--                   broker of Orders and the live broker of Live.
-- The other files below these hold the proofs and the examples.
--
-- Conventions. A method returns its result beside the object that it changed, also where it
-- raises. An object that is mutated in place through a dict is written back to the dict. Times are
-- microseconds since the epoch. A text that is put together for a log or for a person is a value
-- that holds its parts. What the standard library makes up (uuid4, isoformat) is an argument.
-- The numbers stand for doubles that are not NaN; where the code divides, it has tested the divisor.
--
-- The exchange is a parameter: a state, and calls that answer or fail and may change it, so the
-- theorems hold for every behaviour of it. The broker's lock makes each of its calls one step. The loop
-- that waits for a fill runs on fuel, one unit for a poll; `Live.Ends.execute_ends` says how much is
-- enough. The wait for the rate limiter in Exchange/Request runs on fuel too, one unit for a round, and
-- the theorem about it holds for every fuel. The loop of `_fetch_candles` gets one round more than
-- the candles that it wants, which `Trading.Lost.fetch_candles_ends` shows to be enough. What a call raises is a value.
--
-- In the engine, a step that raises gives back the state that it left. A closed candle comes with the
-- strategy's signal for it and the jump of its price, where that is an anomaly; a notification is its
-- kind. The database is taken to answer; a failure of it is not a behaviour of the model.
--
-- Not modelled: network, SQL, web pages and command line; the pandas expressions of the indicators and
-- of the backtest's statistics and benchmark; the start and the end of the engine's `run`, its
-- heartbeats and price loop; the WebSocket client; logging.
pub mod Prelude
pub mod Float
pub mod Dict
pub mod Portfolio
pub mod Market
pub mod Risk
pub mod Exchange
pub mod Orders
pub mod Live
pub mod Backtest
pub mod Notify
pub mod Database
pub mod Trading
