-- ===== src/Trading/Signals.antt =====
-- app/trading/engine.py: what the engine does with the signals of closed candles.
use upbit_auto_trader.Prelude.{
  ℕ, suc, ◌+◌, ◌*◌, Bool, true, false, ◌&&◌, ◌||◌, Option, none, some, List, [], ◌∷◌, if◌then◌else◌,
}
use upbit_auto_trader.Float.{Float, ◌⊕◌}
use upbit_auto_trader.Dict
use upbit_auto_trader.Portfolio.Account.{Side, buying, selling}
use upbit_auto_trader.Market.Prices.{PriceState, seconds_since}
use upbit_auto_trader.Risk.Entries.{Action, buy_now, hold, Signal, RiskDecision, evaluate}
use upbit_auto_trader.Orders.Order.{OrderRequest, Order}
use upbit_auto_trader.Database.Repository.{save_signal}
use upbit_auto_trader.Notify.Event.{buy, sell, api_error}
use upbit_auto_trader.Trading.Engine.{
  Broker, Engine, Ended, completed, failed, portfolio_of, notify, current_equity, record_order,
}

-- `is_actionable`
unfoldable pub is_actionable : Action → Bool
is_actionable hold = false
is_actionable _ = true

-- `action is BUY`
unfoldable pub is_buy : Action → Bool
is_buy buy_now = true
is_buy _ = false

abbrev pub side_of : Action → Side
side_of buy_now = buying
side_of _ = selling

module _ ⦃fl : Float⦄ where
  -- A closed candle with the signal of the strategy for it and the jump of its price from the close
  -- before, where that is an anomaly.
  pub record ClosedCandle : Type 0 where
    pub closed_time : ℕ
    pub signal : Signal
    pub jump : Option fl.Num

  module _ (b : Broker) where
    -- The order of an approved signal.
    unfoldable pub signal_request : Signal → RiskDecision → OrderRequest
    signal_request s d = record {
      market = s.market;
      side = side_of s.action;
      amount = d.amount;
      quantity = d.quantity;
      reason = s.reason;
      strategy = s.strategy;
      signal_time = some s.time;
      client_id = none;
    }

    -- `save_signal` of the repository; the signal is counted in any case.
    unfoldable pub take_in : Signal → Engine b → Bool × Engine b
    take_in s e =
        let (saved, repo) = save_signal e.settings.interval s e.repo in
        (saved, record e { repo = repo; stats = record e.stats { signals = suc e.stats.signals } })

    -- Whether the pause, the safe mode or an unresolved order of the market keeps the signal off.
    unfoldable pub is_kept_off : Signal → Engine b → Bool
    unfolding is_buy
    is_kept_off s e =
        e.paused && is_buy s.action
        || e.safe_mode && is_buy s.action
        || Dict.contains s.market e.pending_orders

    unfoldable pub after_order : ℕ → Option Order × b.State → Engine b → Ended × Engine b
    after_order now (none, s) e = (failed, record e { broker = s })
    after_order now (some o, s) e = (completed, record_order b o now (record e { broker = s }))

    -- The order of an approved signal goes to the broker.
    unfoldable pub send_order :
        Signal → RiskDecision → Option PriceState → ℕ → Engine b → Ended × Engine b
    unfolding signal_request after_order is_buy
    send_order s d price now e =
        after_order now (b.execute (signal_request s d) price now e.broker)
          (notify b (if is_buy s.action then buy else sell) e)

    -- What the risk manager's decision comes to.
    unfoldable pub decided :
        Signal → RiskDecision → Option PriceState → ℕ → Engine b → Ended × Engine b
    unfolding send_order
    decided s d price now e = elim d.approved as (λ _. Ended × Engine b) [
      | true ↦ send_order s d price now e
      | false ↦ (
        completed,
        record e { stats = record e.stats { risk_rejections = suc e.stats.risk_rejections } },
      )
    ]

    unfoldable pub put_to_risk : Signal → ℕ → Engine b → Ended × Engine b
    unfolding decided
    put_to_risk s now e =
        let price = Dict.lookup s.market e.market.prices in
        let (d, m) = evaluate s (portfolio_of b e) price now (current_equity b e) e.risk in
        decided s d price now (record e { risk = m })

    -- A new signal that asks for an order.
    unfoldable pub act_on : Signal → ℕ → Engine b → Ended × Engine b
    unfolding is_kept_off put_to_risk
    act_on s now e =
        let counted : Engine b = record e {
          stats = record e.stats { actionable_signals = suc e.stats.actionable_signals };
        } in
        elim (is_kept_off s e) as (λ _. Ended × Engine b) [
          | true ↦ (completed, counted)
          | false ↦ put_to_risk s now counted
        ]

    -- `_on_signal`
    unfoldable pub on_signal : Signal → ℕ → Engine b → Ended × Engine b
    unfolding take_in is_actionable act_on
    on_signal s now e =
        let (saved, e') = take_in s e in
        elim (saved && is_actionable s.action) as (λ _. Ended × Engine b) [
          | true ↦ act_on s now e'
          | false ↦ (completed, e')
        ]

    unfoldable pub skip_stale_signal : Signal → Engine b → Engine b
    skip_stale_signal s e = record e {
      repo = (save_signal e.settings.interval s e.repo).1;
      stats = record e.stats {
        signals = suc e.stats.signals;
        stale_signals_skipped = suc e.stats.stale_signals_skipped;
      };
    }

    unfoldable pub hold_anomalous_signal : Signal → Engine b → Engine b
    hold_anomalous_signal s e = notify b api_error (record e {
      repo = (save_signal e.settings.interval s e.repo).1;
      stats = record e.stats {
        signals = suc e.stats.signals;
        anomalous_signals_held = suc e.stats.anomalous_signals_held;
      };
    })

    -- Whether the last closed candle closed more than an interval and the grace ago.
    unfoldable pub is_late : ClosedCandle → ℕ → Engine b → Bool
    is_late c now e =
        fl.lt (fl.number e.settings.interval_seconds 0 ⊕ e.settings.candle_grace_seconds)
          (seconds_since now (c.closed_time + e.settings.interval_seconds * 1_000_000))

    -- The last of the candles that closed.
    unfoldable pub process_last : ClosedCandle → ℕ → Engine b → Ended × Engine b
    unfolding is_late skip_stale_signal hold_anomalous_signal on_signal
    process_last c now e = elim (is_late c now e) as (λ _. Ended × Engine b) [
      | true ↦ (completed, skip_stale_signal c.signal e)
      | false ↦ elim c.jump as (λ _. Ended × Engine b) [
        | some _ ↦ (completed, hold_anomalous_signal c.signal e)
        | none ↦ on_signal c.signal now e
      ]
    ]

    -- The loop over the closed candles of a market: the signals of all but the last are only saved.
    unfoldable pub process_closed : List ClosedCandle → ℕ → Engine b → Ended × Engine b
    unfolding process_last
    process_closed [] now e = (completed, e)
    process_closed (c ∷ []) now e = process_last c now e
    process_closed (c ∷ d ∷ cs) now e = process_closed (d ∷ cs) now (skip_stale_signal c.signal e)
