-- ===== src/Backtest/Engine.antt =====
-- app/backtest/engine.py: the loop of `run` over the candles, and the benchmark. A candle comes with
-- the action and the reason that the strategy gave for it. What the loop raises is its result.
use upbit_auto_trader.Prelude.{
  ℕ, zero, suc, String, Bool, true, false, ◌&&◌, Option, none, some, List, [], ◌∷◌, ◌++◌, length,
}
use upbit_auto_trader.Float.{Float, ◌⊕◌, ◌⊖◌, ◌⊗◌, one, min, max}
use upbit_auto_trader.Dict
use upbit_auto_trader.Portfolio.Account.{
  PortfolioError, Result, ok, err, Fill, text, Position, Trade, Portfolio, has_position, position,
  equity, new_portfolio,
}
use upbit_auto_trader.Portfolio.Trading.{buy, sell}
use upbit_auto_trader.Risk.State.{RiskManager, blank_state, start_day_if_needed, update_equity}
use upbit_auto_trader.Risk.Events.{record_trade}
use upbit_auto_trader.Risk.Entries.{
  Action, buy_now, sell_now, hold, Signal, Reason, RiskDecision, evaluate,
}
use upbit_auto_trader.Risk.Exits.{
  ExitReason, stop_loss, take_profit, trailing_stop, ExitCheck, check_exits,
}
use upbit_auto_trader.Backtest.Config.{BacktestConfig, risk_config}

infixl 5 ◌>>=◌
abbrev pub ◌>>=◌ : {A B : Type 0} → Result A → (A → Result B) → Result B
ok a >>= f = f a
err e >>= f = err e

-- `xs[n:]`
abbrev pub drop {ℓ} : {A : Type ℓ} → ℕ → List A → List A
drop zero xs = xs
drop (suc n) [] = []
drop (suc n) (_ ∷ xs) = drop n xs

-- The values of the exit reasons.
abbrev pub exit_text : ExitReason → String
exit_text stop_loss = "stop_loss"
exit_text take_profit = "take_profit"
exit_text trailing_stop = "trailing_stop"

module _ ⦃fl : Float⦄ where
  -- A candle with the strategy's answer.
  pub record Bar : Type 0 where
    pub time : ℕ
    pub opening : fl.Num
    pub high : fl.Num
    pub low : fl.Num
    pub closing : fl.Num
    pub action : Action
    pub reason : String

  -- `pending`: the order that waits for the next opening, with the budget of a purchase.
  pub data Pending : Type 0 where
    buy_next : Option fl.Num → Pending
    sell_next : Pending

  -- The variables of the loop. The counts by reason are the list of reasons that they count.
  pub record Run : Type 0 where
    pub portfolio : Portfolio
    pub risk : RiskManager
    pub pending : Option Pending
    pub curve : List fl.Num
    pub in_position : List Bool
    pub ignored_buy : ℕ
    pub ignored_sell : ℕ
    pub risk_rejections : List Reason
    pub rejected : List (ℕ × PortfolioError)
    pub trades_seen : ℕ
    pub last_equity : fl.Num

  unfoldable pub record_all : List Trade → ℕ → RiskManager → RiskManager
  record_all [] now m = m
  record_all (t ∷ ts) now m = record_all ts now (record_trade t now m).1

  unfoldable pub record_new_trades : ℕ → Run → Run
  unfolding record_all
  record_new_trades now r = record r {
    risk = record_all (drop r.trades_seen r.portfolio.trades) now r.risk;
    trades_seen = length r.portfolio.trades;
  }

  -- A sale of all that is held, after which the new trades are recorded.
  unfoldable pub sell_out : String → fl.Num → String → ℕ → Run → Result Run
  unfolding record_new_trades
  sell_out market price reason now r =
      let (sold, p) = sell market price now none (text reason) none true r.portfolio in
      sold >>= λ f. ok (record_new_trades now (record r { portfolio = p }))

  -- A purchase; its `PortfolioError` is noted.
  unfoldable pub bought_or_noted : ℕ → Result Fill × Portfolio → Run → Run
  bought_or_noted now (ok f, p) r = record r { portfolio = p }
  bought_or_noted now (err e, p) r = record r {
    portfolio = p;
    rejected = r.rejected ++ (now, e) ∷ [];
  }

  unfoldable pub fill_one : String → fl.Num → Bar → Pending → Run → Result Run
  unfolding sell_out bought_or_noted
  fill_one market slip bar (buy_next amount) r = elim (has_position r.portfolio market) [
    | true ↦ ok r
    | false ↦ ok (
        bought_or_noted bar.time
          (buy market (bar.opening ⊗ (one ⊕ slip)) bar.time amount none (text "signal") none true
            r.portfolio)
          r)
  ]
  fill_one market slip bar sell_next r = elim (has_position r.portfolio market) [
    | true ↦ sell_out market (bar.opening ⊗ (one ⊖ slip)) "signal" bar.time r
    | false ↦ ok r
  ]

  -- 1) The signal of the candle before, at this opening.
  unfoldable pub fill_pending : String → fl.Num → Bar → Run → Result Run
  unfolding fill_one
  fill_pending market slip bar r = elim r.pending [
    | none ↦ ok r
    | some p ↦ fill_one market slip bar p r >>= λ r'. ok (record r' { pending = none })
  ]

  -- The price of an exit: a target is a limit order, a stop is a market order.
  unfoldable pub exit_price : fl.Num → Bar → ExitCheck → fl.Num
  exit_price slip bar c = elim c.reason [
    | take_profit ↦ max bar.opening c.trigger_price
    | _ ↦ min bar.opening c.trigger_price ⊗ (one ⊖ slip)
  ]

  -- The run with the position and the manager as `check_exits` leaves them.
  unfoldable pub after_check : String → Position → RiskManager → Run → Run
  after_check market pos m r = record r {
    portfolio = record r.portfolio { positions = Dict.insert market pos r.portfolio.positions };
    risk = m;
  }

  -- 2) The exits of a held position by the low and the high of the candle.
  unfoldable pub watch_exits : String → fl.Num → Bar → Run → Result Run
  unfolding after_check exit_price sell_out
  watch_exits market slip bar r = elim (position r.portfolio market) [
    | none ↦ ok r
    | some pos ↦
        let (found, pos', m) = check_exits pos bar.low bar.high r.risk in
        let r' = after_check market pos' m r in
        elim found [
          | none ↦ ok r'
          | some c ↦ sell_out market (exit_price slip bar c) (exit_text c.reason) bar.time r'
        ]
  ]

  -- 3) The last candle closes what is held.
  unfoldable pub close_last : String → fl.Num → Bool → Bar → Run → Result Run
  unfolding sell_out
  close_last market slip last bar r = elim (last && has_position r.portfolio market) [
    | true ↦ sell_out market (bar.closing ⊗ (one ⊖ slip)) "end_of_data" bar.time r
    | false ↦ ok r
  ]

  -- 4) The value at the close.
  unfoldable pub value_bar : String → Bar → Run → Result Run
  value_bar market bar r = equity r.portfolio ((market, bar.closing) ∷ []) >>= λ value.
      ok (record r {
        curve = r.curve ++ value ∷ [];
        in_position = r.in_position ++ has_position r.portfolio market ∷ [];
        last_equity = value;
        risk = (update_equity value bar.time r.risk).1;
      })

  unfoldable pub entry_signal : String → String → Bar → Signal
  entry_signal market strategy bar = record {
    action = buy_now;
    market = market;
    time = bar.time;
    price = bar.closing;
    strategy = strategy;
    reason = bar.reason;
  }

  unfoldable pub take_decision : RiskDecision × RiskManager → Run → Run
  take_decision (d, m) r = elim d.approved [
    | true ↦ record r { risk = m; pending = some (buy_next d.amount) }
    | false ↦ record r { risk = m; risk_rejections = r.risk_rejections ++ d.reason ∷ [] }
  ]

  unfoldable pub note_action : String → String → Action → Bar → Run → Run
  unfolding entry_signal take_decision
  note_action market strategy buy_now bar r = elim (has_position r.portfolio market) [
    | true ↦ record r { ignored_buy = suc r.ignored_buy }
    | false ↦
        take_decision
          (evaluate (entry_signal market strategy bar) r.portfolio none bar.time
            (some r.last_equity) r.risk)
          r
  ]
  note_action market strategy sell_now bar r = elim (has_position r.portfolio market) [
    | true ↦ record r { pending = some sell_next }
    | false ↦ record r { ignored_sell = suc r.ignored_sell }
  ]
  note_action market strategy hold bar r = r

  -- 5) The signal of the candle, to be filled at the next opening.
  unfoldable pub note_signal : String → String → Bar → Run → Run
  unfolding note_action
  note_signal market strategy bar r = note_action market strategy bar.action bar r

  unfoldable pub begin_bar : Bar → Run → Run
  begin_bar bar r = record r { risk = (start_day_if_needed bar.time (some r.last_equity) r.risk).1 }

  -- One round of the loop.
  unfoldable pub step : (market strategy : String) → fl.Num → (last : Bool) → Bar → Run → Result Run
  unfolding begin_bar fill_pending watch_exits close_last value_bar note_signal
  step market strategy slip last bar r =
      fill_pending market slip bar (begin_bar bar r)
      >>= watch_exits market slip bar
      >>= close_last market slip last bar
      >>= value_bar market bar
      >>= λ r'. ok (note_signal market strategy bar r')

  abbrev pub is_last : List Bar → Bool
  is_last [] = true
  is_last (_ ∷ _) = false

  unfoldable pub steps : (market strategy : String) → fl.Num → List Bar → Run → Result Run
  steps market strategy slip [] r = ok r
  steps market strategy slip (bar ∷ bars) r =
      step market strategy slip (is_last bars) bar r >>= steps market strategy slip bars

  unfoldable pub start : BacktestConfig → Portfolio → Run
  start c p = record {
    portfolio = p;
    risk = record { config = risk_config c; state = blank_state; store = none };
    pending = none;
    curve = [];
    in_position = [];
    ignored_buy = 0;
    ignored_sell = 0;
    risk_rejections = [];
    rejected = [];
    trades_seen = 0;
    last_equity = c.initial_capital;
  }

  -- `run` from the evaluated candles on; `none` is a `ValueError`.
  unfoldable pub run : BacktestConfig → (market strategy : String) → List Bar → Option (Result Run)
  unfolding steps start
  run c market strategy [] = none
  run c market strategy (_ ∷ []) = none
  run c market strategy (a ∷ b ∷ bars) =
      elim (new_portfolio c.initial_capital c.fee_rate c.min_order_amount) [
        | none ↦ none
        | some p ↦ some (steps market strategy c.slippage_rate (a ∷ b ∷ bars) (start c p))
      ]
