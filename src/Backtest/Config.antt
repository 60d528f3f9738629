-- ===== src/Backtest/Config.antt =====
-- app/backtest/engine.py and app/risk/config.py: the settings of a backtest and the risk limits that
-- they stand for.
use upbit_auto_trader.Prelude.{Bool, ◌&&◌, not, Option, none, some, leb}
use upbit_auto_trader.Float.{Float, nil, one}
use upbit_auto_trader.Risk.State.{RiskConfig}

module _ ⦃fl : Float⦄ where
  -- A number in the range of a field: `gt=0`, with `le=1`, `lt=1` or no upper bound.
  abbrev positive : fl.Num → Bool
  positive x = fl.lt nil x

  abbrev share : fl.Num → Bool
  share x = fl.lt nil x && fl.le x one

  abbrev below_one : fl.Num → Bool
  below_one x = fl.lt nil x && fl.lt x one

  abbrev where_given {ℓ} : {A : Type ℓ} → (A → Bool) → Option A → Bool
  where_given test none = Bool.true
  where_given test (some x) = test x

  -- `_check_relations`
  unfoldable pub sizes_fit : RiskConfig → Bool
  sizes_fit c = where_given (λ most. not (fl.lt most c.min_order_amount)) c.max_order_amount

  -- The validation of `RiskConfig`: its fields' ranges and `_check_relations`.
  unfoldable pub is_valid_config : RiskConfig → Bool
  unfolding sizes_fit
  is_valid_config c =
      share c.position_fraction
      && where_given positive c.max_order_amount
      && share c.max_position_ratio
      && leb 1 c.max_open_positions
      && leb c.max_open_positions 50
      && where_given below_one c.daily_loss_limit_pct
      && where_given (λ n. leb 1 n && leb n 100) c.max_consecutive_losses
      && where_given below_one c.stop_loss_pct
      && where_given positive c.take_profit_pct
      && where_given below_one c.trailing_stop_pct
      && where_given below_one c.price_deviation_limit
      && fl.le nil c.min_order_amount
      && fl.le nil c.cooldown_seconds
      && sizes_fit c

  pub record BacktestConfig : Type 0 where
    pub initial_capital : fl.Num
    pub fee_rate : fl.Num
    pub slippage_rate : fl.Num
    pub position_fraction : fl.Num
    pub min_order_amount : fl.Num
    pub stop_loss_pct : Option fl.Num
    pub take_profit_pct : Option fl.Num
    pub risk : Option RiskConfig

  -- `RiskConfig.unrestricted` with the overrides that a backtest gives.
  unfoldable pub unrestricted : BacktestConfig → RiskConfig
  unrestricted c = record {
    position_fraction = c.position_fraction;
    max_order_amount = none;
    max_position_ratio = one;
    max_open_positions = 1;
    daily_loss_limit_pct = none;
    max_consecutive_losses = none;
    stop_loss_pct = c.stop_loss_pct;
    take_profit_pct = c.take_profit_pct;
    trailing_stop_pct = none;
    price_deviation_limit = none;
    min_order_amount = c.min_order_amount;
    cooldown_seconds = nil;
  }

  -- `risk_config`
  unfoldable pub risk_config : BacktestConfig → RiskConfig
  unfolding unrestricted
  risk_config c = elim c.risk [ some r ↦ r | none ↦ unrestricted c ]
