-- ===== src/Backtest/Exited.antt =====
-- app/backtest/engine.py: when and at what price a position is sold by an exit, in words of the candle.
use upbit_auto_trader.Prelude.{String, ◌≡◌, ◌≢◌, refl, some}
use upbit_auto_trader.Float.{Float, ◌⊖◌, ◌⊗◌, one, max, min}
use upbit_auto_trader.Portfolio.Account.{ok, Fill, Position, position}
use upbit_auto_trader.Risk.Exits.{
  ExitReason, stop_loss, take_profit, trailing_stop, ExitCheck, check_exits,
}
use upbit_auto_trader.Backtest.Engine.{Bar, Run, fill_pending, begin_bar, exit_price}

module _ ⦃fl : Float⦄ where
  -- A target is sold at the better of the opening and the target; a stop at the worse of the opening
  -- and the stop, less the slippage.
  pub record IsExitPrice (slip : fl.Num) (bar : Bar) (c : ExitCheck) (price : fl.Num) : Type 0 where
    pub at_target : c.reason ≡ take_profit → price ≡ max bar.opening c.trigger_price
    pub at_stop : c.reason ≢ take_profit → price ≡ min bar.opening c.trigger_price ⊗ (one ⊖ slip)

  exit_price-IsExitPrice' :
      (slip : fl.Num) (bar : Bar) (c : ExitCheck) (reason : ExitReason)
      → c.reason ≡ reason
      → IsExitPrice slip bar c (exit_price slip bar c)
  unfolding exit_price
  exit_price-IsExitPrice' slip bar c stop_loss h = record {
    at_target = λ k. absurd (cc (h, k));
    at_stop = λ k. rw h refl;
  }
  exit_price-IsExitPrice' slip bar c take_profit h = record {
    at_target = λ k. rw h refl;
    at_stop = λ k. absurd (k h);
  }
  exit_price-IsExitPrice' slip bar c trailing_stop h = record {
    at_target = λ k. absurd (cc (h, k));
    at_stop = λ k. rw h refl;
  }

  pub exit_price-IsExitPrice :
      (slip : fl.Num) (bar : Bar) (c : ExitCheck) → IsExitPrice slip bar c (exit_price slip bar c)
  exit_price-IsExitPrice slip bar c = exit_price-IsExitPrice' slip bar c c.reason refl

  -- In the round of `bar` from the run `from` on: once the order that waited is filled, the position of
  -- the market is held, `check_exits` finds an exit of it in the low and the high of the candle, and
  -- the fill has the price of that exit.
  pub record IsExit (market : String) (slip : fl.Num) (bar : Bar) (from : Run) (f : Fill)
      : Type 0 where
    pub filled : Run
    pub held : Position
    pub check : ExitCheck
    pub after_filling : fill_pending market slip bar (begin_bar bar from) ≡ ok filled
    pub is_held : position filled.portfolio market ≡ some held
    pub found : (check_exits held bar.low bar.high filled.risk).0 ≡ some check
    pub has_price : IsExitPrice slip bar check f.price
