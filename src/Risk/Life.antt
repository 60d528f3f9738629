-- ===== src/Risk/Life.antt =====
-- app/risk/manager.py: the calls that a manager receives while it runs.
use upbit_auto_trader.Prelude.{ℕ, String, ◌≡◌, Option, List, [], ◌∷◌}
use upbit_auto_trader.Float.{Float}
use upbit_auto_trader.Portfolio.Account.{Portfolio, Position, Trade}
use upbit_auto_trader.Market.Prices.{PriceState}
use upbit_auto_trader.Risk.State.{RiskManager, blank_state, trading_day, update_equity}
use upbit_auto_trader.Risk.Events.{
  apply_cash_flow, set_cash_flow_cursor, record_trade, halt, resume, rebuild,
}
use upbit_auto_trader.Risk.Entries.{Signal, evaluate}
use upbit_auto_trader.Risk.Exits.{check_exits}

module _ ⦃fl : Float⦄ where
  pub data Event : Type 0 where
    saw_equity : (equity : fl.Num) (now : ℕ) → Event
    moved_cash : (amount : fl.Num) (flow_id : Option ℕ) (now : ℕ) → Event
    set_cursor : (flow_id : ℕ) → Event
    closed : (t : Trade) (now : ℕ) → Event
    asked :
        (signal : Signal) (portfolio : Portfolio) (price : Option PriceState) (now : ℕ)
        (equity : Option fl.Num)
        → Event
    watched : (pos : Position) (low high : fl.Num) → Event
    stopped : (reason : String) → Event
    resumed : Event
    -- The process is started again: a new manager over the same store, then `rebuild`.
    restarted : (trades : List Trade) (now : ℕ) (equity : Option fl.Num) → Event

  -- The manager after one call.
  unfoldable pub handle : Event → RiskManager → RiskManager
  handle (saw_equity equity now) m = (update_equity equity now m).1
  handle (moved_cash amount flow_id now) m = (apply_cash_flow amount flow_id now m).1
  handle (set_cursor flow_id) m = set_cash_flow_cursor flow_id m
  handle (closed t now) m = (record_trade t now m).1
  handle (asked signal portfolio price now equity) m =
      (evaluate signal portfolio price now equity m).1
  handle (watched pos low high) m = (check_exits pos low high m).2
  handle (stopped reason) m = halt reason m
  handle resumed m = resume m
  handle (restarted trades now equity) m =
      rebuild trades now equity (record m { state = blank_state })

  unfoldable pub live : List Event → RiskManager → RiskManager
  unfolding handle
  live [] m = m
  live (e ∷ es) m = live es (handle e m)

  -- A call other than a restart, whose time, if it carries one, lies on the day `d`.
  abbrev pub OnDay : ℕ → Event → Type 0
  OnDay d (saw_equity equity now) = trading_day now ≡ d
  OnDay d (moved_cash amount flow_id now) = trading_day now ≡ d
  OnDay d (closed t now) = trading_day now ≡ d
  OnDay d (asked signal portfolio price now equity) = trading_day now ≡ d
  OnDay d (restarted trades now equity) = ⊥
  OnDay d _ = Unit {0}

  abbrev pub IsNotResume : Event → Type 0
  IsNotResume resumed = ⊥
  IsNotResume _ = Unit {0}
