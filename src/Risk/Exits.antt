-- ===== src/Risk/Exits.antt =====
-- app/risk/manager.py: the watch over an open position, `check_exits`.
use upbit_auto_trader.Prelude.{String, false, ◌&&◌, Option, none, some, or_else, if◌then◌else◌}
use upbit_auto_trader.Float.{Float, ◌⊕◌, ◌⊖◌, ◌⊗◌, nil, one, max}
use upbit_auto_trader.Dict
use upbit_auto_trader.Dict.{Dict}
use upbit_auto_trader.Portfolio.Account.{Position}
use upbit_auto_trader.Risk.State.{RiskManager}

pub data ExitReason : Type 0 where
  stop_loss take_profit trailing_stop : ExitReason

module _ ⦃fl : Float⦄ where
  pub record ExitCheck : Type 0 where
    pub market : String
    pub reason : ExitReason
    pub trigger_price : fl.Num

  abbrev pub exit_at : String → ExitReason → fl.Num → ExitCheck
  exit_at market reason price = record { market = market; reason = reason; trigger_price = price }

  -- The stop price that the low has reached.
  unfoldable pub stop_hit : Option fl.Num → fl.Num → fl.Num → Option fl.Num
  stop_hit none avg low = none
  stop_hit (some pct) avg low =
      let stop = avg ⊗ (one ⊖ pct) in if fl.le low stop then some stop else none

  -- The target price that the high has passed.
  unfoldable pub target_hit : Option fl.Num → fl.Num → fl.Num → Option fl.Num
  target_hit none avg high = none
  target_hit (some pct) avg high =
      let target = avg ⊗ (one ⊕ pct) in if fl.lt target high then some target else none

  -- The highest price so far, without this candle.
  unfoldable pub previous_peak : Dict fl.Num → Position → fl.Num
  previous_peak peaks pos = or_else (Dict.lookup pos.market peaks) pos.avg_price

  unfoldable pub trail_hit : fl.Num → fl.Num → fl.Num → fl.Num → Option fl.Num
  trail_hit pct peak avg low =
      let trail = peak ⊗ (one ⊖ pct) in
      if fl.le low trail && fl.lt avg peak then some trail else none

  unfoldable pub raise_peak : String → fl.Num → RiskManager → RiskManager
  raise_peak market peak m = record m {
    state = record m.state { peak_prices = Dict.insert market peak m.state.peak_prices };
  }

  -- The trailing stop looks at the peak of the candles before, and only then takes this high.
  unfoldable pub check_trailing :
      Option fl.Num → Position → fl.Num → fl.Num → RiskManager → Option ExitCheck × RiskManager
  unfolding previous_peak trail_hit raise_peak
  check_trailing none pos low high m = (none, m)
  check_trailing (some pct) pos low high m =
      let peak = previous_peak m.state.peak_prices pos in
      let m' = raise_peak pos.market (max peak high) m in
      elim (trail_hit pct peak pos.avg_price low) [
        | none ↦ (none, m')
        | some trail ↦ (some (exit_at pos.market trailing_stop trail), m')
      ]

  -- A position without a base price takes the first price that is seen.
  unfoldable pub adopt_price : Position → fl.Num → Position
  adopt_price pos high = record pos {
    avg_price = high;
    entry_amount = pos.quantity ⊗ high;
    cost_known = false;
  }

  -- The checks of a position that has a base price.
  unfoldable pub check_priced :
      Position → fl.Num → fl.Num → RiskManager → Option ExitCheck × RiskManager
  unfolding stop_hit target_hit check_trailing
  check_priced pos low high m = elim (stop_hit m.config.stop_loss_pct pos.avg_price low) [
    | some stop ↦ (some (exit_at pos.market stop_loss stop), m)
    | none ↦ elim (target_hit m.config.take_profit_pct pos.avg_price high) [
      | some target ↦ (some (exit_at pos.market take_profit target), m)
      | none ↦ check_trailing m.config.trailing_stop_pct pos low high m
    ]
  ]

  -- The result, the position as `check_exits` leaves it, and the manager.
  unfoldable pub check_exits :
      Position → (low high : fl.Num) → RiskManager → Option ExitCheck × Position × RiskManager
  unfolding adopt_price check_priced
  check_exits pos low high m =
      let (found, m') = check_priced pos low high m in
      if fl.le pos.avg_price nil then (none, adopt_price pos high, m) else (found, pos, m')
