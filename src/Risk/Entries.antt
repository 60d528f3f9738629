-- ===== src/Risk/Entries.antt =====
-- app/risk/manager.py: the decision on a signal, `evaluate`.
use upbit_auto_trader.Prelude.{
  ℕ, String, Bool, true, false, not, ◌&&◌, Option, none, some, or_else, leb, length, if◌then◌else◌,
}
use upbit_auto_trader.Float.{Float, ◌⊖◌, ◌⊗◌, ◌⊘◌, nil, one, truthy, min, abs}
use upbit_auto_trader.Dict
use upbit_auto_trader.Portfolio.Account.{Portfolio, has_position}
use upbit_auto_trader.Market.Prices.{PriceState, mark_price, seconds_since}
use upbit_auto_trader.Risk.State.{
  RiskConfig, LockReason, RiskState, RiskManager, start_day_if_needed,
}

pub data Action : Type 0 where
  buy_now sell_now hold : Action

module _ ⦃fl : Float⦄ where
  -- `Signal`, with the fields that the decision reads.
  pub record Signal : Type 0 where
    pub action : Action
    pub market : String
    pub time : ℕ
    pub price : fl.Num
    pub strategy : String
    pub reason : String

  -- `entries_blocked_reason`
  pub data Block : Type 0 where
    emergency : Option String → Block
    day_locked : LockReason → Block

  -- The reason of a decision, with the numbers that its text shows.
  pub data Reason : Type 0 where
    nothing_held : Reason
    sell_approved : Reason
    hold_signal : Reason
    entries_blocked : Block → Reason
    already_held : Reason
    too_many_positions : ℕ → Reason
    cooling_down : (elapsed cooldown : fl.Num) → Reason
    price_deviates : (deviation limit : fl.Num) → Reason
    ratio_reached : fl.Num → Reason
    budget_too_small : (budget least : fl.Num) → Reason
    entry_approved : fl.Num → Reason

  pub record RiskDecision : Type 0 where
    pub approved : Bool
    pub reason : Reason
    pub amount : Option fl.Num
    pub quantity : Option fl.Num

  unfoldable pub rejection : Reason → RiskDecision
  rejection r = record { approved = false; reason = r; amount = none; quantity = none }

  unfoldable pub entries_blocked_reason : RiskState → Option Block
  entries_blocked_reason s =
      if s.halted
      then some (emergency s.halt_reason)
      else elim s.lock_reason [ none ↦ none | some r ↦ some (day_locked r) ]

  -- The wait after an exit that is not over, as the seconds gone by.
  unfoldable pub cooling : RiskConfig → Option ℕ → ℕ → Option fl.Num
  cooling cfg none now = none
  cooling cfg (some last_exit) now =
      let elapsed = seconds_since now last_exit in
      if truthy cfg.cooldown_seconds && fl.lt elapsed cfg.cooldown_seconds
      then some elapsed
      else none

  -- The deviation of the mark from the signal's price that is over the limit, with the limit.
  unfoldable pub deviating : Option fl.Num → Option fl.Num → fl.Num → Option (fl.Num × fl.Num)
  deviating none mark signal_price = none
  deviating (some limit) none signal_price = none
  deviating (some limit) (some mark) signal_price =
      let deviation = abs (mark ⊘ signal_price ⊖ one) in
      if truthy mark && truthy signal_price && fl.lt limit deviation
      then some (deviation, limit)
      else none

  abbrev pub mark_of : Option PriceState → Option fl.Num
  mark_of none = none
  mark_of (some price) = mark_price price

  -- The checks of a BUY signal up to the budget: the first that fails gives the reason.
  unfoldable pub entry_refusal :
      RiskConfig → RiskState → Signal → Portfolio → Option PriceState → ℕ → Option Reason
  unfolding entries_blocked_reason cooling deviating
  entry_refusal cfg s signal portfolio price now = elim (entries_blocked_reason s) [
    | some b ↦ some (entries_blocked b)
    | none ↦
        if has_position portfolio signal.market
        then some already_held
        else if leb cfg.max_open_positions (length portfolio.positions)
        then some (too_many_positions cfg.max_open_positions)
        else elim (cooling cfg (Dict.lookup signal.market s.last_exit_at) now) [
          | some elapsed ↦ some (cooling_down elapsed cfg.cooldown_seconds)
          | none ↦ elim (deviating cfg.price_deviation_limit (mark_of price) signal.price) [
            | some (deviation, limit) ↦ some (price_deviates deviation limit)
            | none ↦ none
          ]
        ]
  ]

  abbrev pub first_some : Option fl.Num → Option fl.Num → Option fl.Num
  first_some (some a) b = some a
  first_some none b = b

  unfoldable pub cap_budget : Option fl.Num → fl.Num → fl.Num
  cap_budget none budget = budget
  cap_budget (some most) budget = min budget most

  -- The room that the ratio leaves: `ratio * total - invested`.
  unfoldable pub ratio_room : RiskConfig → RiskState → Portfolio → Option fl.Num → fl.Num
  ratio_room cfg s portfolio equity =
      let total = or_else (first_some equity s.last_equity) portfolio.cash in
      let invested = total ⊖ portfolio.cash in cfg.max_position_ratio ⊗ total ⊖ invested

  unfoldable pub final_size : RiskConfig → fl.Num → RiskDecision
  unfolding rejection
  final_size cfg budget =
      if fl.lt budget cfg.min_order_amount
      then rejection (budget_too_small budget cfg.min_order_amount)
      else record {
        approved = true;
        reason = entry_approved budget;
        amount = some budget;
        quantity = none;
      }

  unfoldable pub size_entry : RiskConfig → RiskState → Portfolio → Option fl.Num → RiskDecision
  unfolding cap_budget ratio_room final_size rejection
  size_entry cfg s portfolio equity =
      let budget = cap_budget cfg.max_order_amount (portfolio.cash ⊗ cfg.position_fraction) in
      let room = ratio_room cfg s portfolio equity in
      if fl.lt cfg.max_position_ratio one
      then if fl.le room nil
        then rejection (ratio_reached cfg.max_position_ratio)
        else final_size cfg (min budget room)
      else final_size cfg budget

  unfoldable pub decide :
      Action
      → RiskConfig
      → RiskState
      → Signal
      → Portfolio
      → Option PriceState
      → ℕ
      → Option fl.Num
      → RiskDecision
  unfolding rejection entry_refusal size_entry
  decide sell_now cfg s signal portfolio price now equity =
      if not (has_position portfolio signal.market)
      then rejection nothing_held
      else record { approved = true; reason = sell_approved; amount = none; quantity = none }
  decide hold cfg s signal portfolio price now equity = rejection hold_signal
  decide buy_now cfg s signal portfolio price now equity =
      elim (entry_refusal cfg s signal portfolio price now) [
        | some r ↦ rejection r
        | none ↦ size_entry cfg s portfolio equity
      ]

  unfoldable pub evaluate :
      Signal
      → Portfolio
      → Option PriceState
      → ℕ
      → Option fl.Num
      → RiskManager
      → RiskDecision × RiskManager
  unfolding start_day_if_needed decide
  evaluate signal portfolio price now equity m =
      let m' = (start_day_if_needed now (first_some equity m.state.last_equity) m).1 in
      (decide signal.action m.config m'.state signal portfolio price now equity, m')
