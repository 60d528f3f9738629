-- ===== src/Trading/Engine.antt =====
-- app/trading/engine.py: the state of the engine, the broker that it trades through, and the record of
-- an order that the broker gave back. Logs and the texts of notifications are left out.
use upbit_auto_trader.Prelude.{
  ℕ, String, Bool, true, false, ◌&&◌, Option, none, some, List, [], ◌∷◌, ◌++◌, length, suc, is_some,
  or_else, if◌then◌else◌,
}
use upbit_auto_trader.Float.{Float}
use upbit_auto_trader.Dict
use upbit_auto_trader.Dict.{Dict}
use upbit_auto_trader.Portfolio.Account.{
  Side, buying, selling, Result, ok, err, Trade, Position, Portfolio, equity,
}
use upbit_auto_trader.Market.Prices.{PriceState, MarketState, mark_prices}
use upbit_auto_trader.Risk.State.{RiskManager}
use upbit_auto_trader.Risk.Events.{record_trade}
use upbit_auto_trader.Risk.Exits.{ExitReason}
use upbit_auto_trader.Orders.Order.{
  OrderStatus, unknown, OrderError, duplicate_signal, OrderRequest, Order, is_filled,
}
use upbit_auto_trader.Backtest.Engine.{drop}
use upbit_auto_trader.Database.Repository.{Repository, save_order, record_fill, snapshot_balance}
use upbit_auto_trader.Notify.Event.{EventKind, order_filled, order_rejected, consecutive_loss_limit}

-- Whether a part of the engine came to its end or raised.
pub data Ended : Type 0 where
  completed failed : Ended

module _ ⦃fl : Float⦄ where
  -- What the follow-up of an unknown order gives: it raises, it is still open, or it is settled.
  pub data FollowUp : Type 0 where
    broke : FollowUp
    still_open : FollowUp
    settled : Order → FollowUp

  -- The broker, which shares the account with the engine. `execute` gives no order where it raises;
  -- `resolve_order` also gives the order as it leaves it, and is absent in the paper broker, like
  -- `reconcile`, which tells whether it went through. `mode` begins the ids of its orders.
  pub record Broker : Type 1 where
    pub State : Type 0
    pub mode : String
    pub account : State → Portfolio
    pub with_account : Portfolio → State → State
    pub execute : OrderRequest → Option PriceState → ℕ → State → Option Order × State
    pub resolve_order : Option (Order → ℕ → State → FollowUp × Order × State)
    pub reconcile :
        Option ((prices : Dict fl.Num) → (exclude : List String) → ℕ → State → Bool × State)

  -- The settings that the engine reads, with the name of its strategy.
  pub record EngineSettings : Type 0 where
    pub strategy : String
    pub interval : String
    pub interval_seconds : ℕ
    pub candle_grace_seconds : fl.Num
    pub price_max_age_seconds : fl.Num
    pub exit_confirm_ticks : ℕ

  pub record EngineStats : Type 0 where
    pub signals : ℕ
    pub actionable_signals : ℕ
    pub orders_filled : ℕ
    pub orders_rejected : ℕ
    pub orders_unknown : ℕ
    pub orders_resolved : ℕ
    pub stale_signals_skipped : ℕ
    pub anomalous_signals_held : ℕ
    pub loop_step_failures : ℕ
    pub risk_rejections : ℕ
    pub exits_triggered : ℕ
    pub risk_locks : ℕ
    pub commands_processed : ℕ
    pub snapshots : ℕ
    pub last_equity : Option fl.Num
    pub errors : ℕ

  -- `TradingEngine`. `notified` are the events that it gave to the notification manager.
  pub record Engine (b : Broker) : Type 0 where
    pub settings : EngineSettings
    pub broker : b.State
    pub risk : RiskManager
    pub market : MarketState
    pub repo : Repository
    pub pending_orders : Dict Order
    pub exit_backoff : Dict ℕ
    pub exit_failures : Dict ℕ
    pub exit_streak : Dict (ExitReason × ℕ)
    pub paused : Bool
    pub safe_mode : Bool
    pub step_failures : ℕ
    pub round_trips_saved : ℕ
    pub last_exit_check : Option ℕ
    pub last_trade_at : Option ℕ
    pub stopping : Bool
    pub reload_requested : Bool
    pub notified : List EventKind
    pub stats : EngineStats

  module _ (b : Broker) where
    abbrev pub portfolio_of : Engine b → Portfolio
    portfolio_of e = b.account e.broker

    -- `_notify`
    abbrev pub notify : EventKind → Engine b → Engine b
    notify kind e = record e { notified = e.notified ++ kind ∷ [] }

    -- Whether every position has a price.
    all_priced : Dict Position → Dict fl.Num → Bool
    all_priced [] prices = true
    all_priced ((market, _) ∷ rest) prices = Dict.contains market prices && all_priced rest prices

    abbrev pub value_of : Result fl.Num → Option fl.Num
    value_of (ok v) = some v
    value_of (err _) = none

    unfoldable pub current_equity : Engine b → Option fl.Num
    unfolding all_priced
    current_equity e =
        let prices = mark_prices e.market in
        if all_priced (portfolio_of e).positions prices
        then value_of (equity (portfolio_of e) prices)
        else none

    unfoldable pub snapshot : ℕ → Engine b → Engine b
    unfolding current_equity
    snapshot time e = elim (current_equity e) [
      | none ↦ e
      | some value ↦ record e {
        repo = snapshot_balance (portfolio_of e) value time e.repo;
        stats = record e.stats { snapshots = suc e.stats.snapshots; last_equity = some value };
      }
    ]

    abbrev pub is_duplicate : Option OrderError → Bool
    is_duplicate none = false
    is_duplicate (some e) = elim e [ duplicate_signal ↦ true | _ ↦ false ]

    -- `portfolio.trades[-1:]`
    abbrev pub last_trade : List Trade → Option Trade
    last_trade [] = none
    last_trade (t ∷ []) = some t
    last_trade (_ ∷ t ∷ ts) = last_trade (t ∷ ts)

    -- The risk manager's record of the sale; a new lock is told.
    unfoldable pub book_sale : Option Trade → ℕ → Engine b → Engine b
    book_sale none now e = e
    book_sale (some t) now e =
        let (lock, m) = record_trade t now e.risk in
        let e' : Engine b = record e { risk = m } in
        elim (is_some lock) [
          | true ↦
              notify consecutive_loss_limit
                (record e' { stats = record e.stats { risk_locks = suc e.stats.risk_locks } })
          | false ↦ e'
        ]

    -- The rows of a filled order.
    unfoldable pub save_filled : Order → ℕ → Engine b → Engine b
    save_filled o at e =
        let p = portfolio_of e in
        record e {
          repo = record_fill o (drop e.round_trips_saved p.trades) p e.repo;
          round_trips_saved = length p.trades;
          last_trade_at = some at;
          stats = record e.stats { orders_filled = suc e.stats.orders_filled };
        }

    unfoldable pub book_side : Side → ℕ → Engine b → Engine b
    unfolding book_sale
    book_side buying at e = e
    book_side selling at e = book_sale (last_trade (portfolio_of e).trades) at e

    -- A filled order. The clock's time is for an order without a time of its own.
    unfoldable pub record_filled : Order → ℕ → Engine b → Engine b
    unfolding save_filled book_side snapshot
    record_filled o now e =
        let at = or_else o.filled_at now in
        snapshot at (notify order_filled (book_side o.side at (save_filled o at e)))

    -- An order that the exchange may have: it is saved and waits for its follow-up.
    unfoldable pub record_unknown : Order → Engine b → Engine b
    record_unknown o e = notify order_rejected (record e {
      repo = save_order o e.repo;
      pending_orders = Dict.insert o.market o e.pending_orders;
      stats = record e.stats { orders_unknown = suc e.stats.orders_unknown };
    })

    unfoldable pub record_rejected : Order → Engine b → Engine b
    record_rejected o e = notify order_rejected (record e {
      repo = save_order o e.repo;
      stats = record e.stats { orders_rejected = suc e.stats.orders_rejected };
    })

    unfoldable pub count_rejected : Engine b → Engine b
    count_rejected e = record e {
      stats = record e.stats { orders_rejected = suc e.stats.orders_rejected };
    }

    -- What the status of an order that is not filled comes to.
    unfoldable pub record_open : OrderStatus → Order → Engine b → Engine b
    unfolding record_unknown record_rejected
    record_open unknown o e = record_unknown o e
    record_open _ o e = record_rejected o e

    -- `_record_order`. `now` is the clock's time.
    unfoldable pub record_order : Order → ℕ → Engine b → Engine b
    unfolding count_rejected record_filled record_open
    record_order o now e = elim (is_duplicate o.error) [
      | true ↦ count_rejected e
      | false ↦ elim (is_filled o) [
        | true ↦ record_filled o now e
        | false ↦ record_open o.status o e
      ]
    ]
