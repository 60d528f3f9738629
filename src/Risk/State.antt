-- ===== src/Risk/State.antt =====
-- app/risk/config.py, app/risk/state_store.py (the memory store) and the state changes of
-- app/risk/manager.py: the day, the equity, trades, locks, the emergency stop and the restart.
-- A text that is put together for a log or a person is a value that holds its parts. A saved
-- dict is the record of its entries, since only `to_persist_dict` writes it.
use upbit_auto_trader.Prelude.{
  ℕ, ◌+◌, ◌/◌, String, Bool, true, false, ◌&&◌, Option, none, some, [], is_some, or_else, ◌==◌,
  if◌then◌else◌,
}
use upbit_auto_trader.Float.{Float, ◌⊕◌, ◌⊖◌, ◌⊘◌, nil, one, truthy}
use upbit_auto_trader.Dict.{Dict}

module _ ⦃fl : Float⦄ where
  pub record RiskConfig : Type 0 where
    pub position_fraction : fl.Num
    pub max_order_amount : Option fl.Num
    pub max_position_ratio : fl.Num
    pub max_open_positions : ℕ
    pub daily_loss_limit_pct : Option fl.Num
    pub max_consecutive_losses : Option ℕ
    pub stop_loss_pct : Option fl.Num
    pub take_profit_pct : Option fl.Num
    pub trailing_stop_pct : Option fl.Num
    pub price_deviation_limit : Option fl.Num
    pub min_order_amount : fl.Num
    pub cooldown_seconds : fl.Num

  -- `lock_reason`, which keeps the numbers that its text shows.
  pub data LockReason : Type 0 where
    daily_loss : (start : Option fl.Num) (flow equity drawdown limit : fl.Num) → LockReason
    losses_in_a_row : (count limit : ℕ) → LockReason

  pub data LockKind : Type 0 where
    daily consecutive : LockKind

  pub record RiskState : Type 0 where
    pub day : Option ℕ
    pub day_start_equity : Option fl.Num
    pub last_equity : Option fl.Num
    pub daily_realized_pnl : fl.Num
    pub consecutive_losses : ℕ
    pub lock_reason : Option LockReason
    pub lock_kind : Option LockKind
    pub halted : Bool
    pub halt_reason : Option String
    pub peak_prices : Dict fl.Num
    pub last_exit_at : Dict ℕ
    pub day_cash_flow : fl.Num
    pub cash_flow_cursor : Option ℕ

  unfoldable pub blank_state : RiskState
  blank_state = record {
    day = none;
    day_start_equity = none;
    last_equity = none;
    daily_realized_pnl = nil;
    consecutive_losses = 0;
    lock_reason = none;
    lock_kind = none;
    halted = false;
    halt_reason = none;
    peak_prices = [];
    last_exit_at = [];
    day_cash_flow = nil;
    cash_flow_cursor = none;
  }

  -- `RiskManager`, with what its memory store holds.
  pub record RiskManager : Type 0 where
    pub config : RiskConfig
    pub state : RiskState
    pub store : Option RiskState

  -- `_persist`: the saved dict has an entry for every field of the state.
  unfoldable pub persist : RiskManager → RiskManager
  persist m = record m { store = some m.state }

  -- The date in Korea, as the number of days since the epoch: UTC + 9 hours.
  unfoldable pub trading_day : ℕ → ℕ
  trading_day now = (now + 32_400_000_000) / 86_400_000_000

  unfoldable pub is_day : Option ℕ → ℕ → Bool
  is_day none today = false
  is_day (some d) today = d == today

  unfoldable pub fresh_day : RiskState → ℕ → Option fl.Num → RiskState
  fresh_day s today equity = record s {
    day = some today;
    day_start_equity = equity;
    daily_realized_pnl = nil;
    day_cash_flow = nil;
    consecutive_losses = 0;
    lock_reason = none;
    lock_kind = none;
  }

  unfoldable pub start_day_if_needed : ℕ → Option fl.Num → RiskManager → Bool × RiskManager
  unfolding persist is_day fresh_day
  start_day_if_needed now equity m =
      let today = trading_day now in
      if is_day m.state.day today
      then (false, m)
      else (true, persist (record m { state = fresh_day m.state today equity }))

  unfoldable pub daily_base_equity : RiskState → Option fl.Num
  daily_base_equity s = elim s.day_start_equity [
    | none ↦ none
    | some start ↦ some (start ⊕ s.day_cash_flow)
  ]

  -- The loss that locks the day: `1 - equity / base` where it reaches the limit. A base of
  -- zero, like a missing one, is no base.
  unfoldable pub loss_over_limit : Option fl.Num → Option fl.Num → fl.Num → Option (fl.Num × fl.Num)
  loss_over_limit none base equity = none
  loss_over_limit (some limit) none equity = none
  loss_over_limit (some limit) (some base) equity =
      let drawdown = one ⊖ equity ⊘ base in
      if truthy base && fl.le limit drawdown then some (drawdown, limit) else none

  unfoldable pub lock_daily :
      fl.Num → fl.Num → fl.Num → RiskManager → Option LockReason × RiskManager
  unfolding persist
  lock_daily equity drawdown limit m =
      let reason =
        daily_loss m.state.day_start_equity m.state.day_cash_flow equity drawdown limit in
      (
        some reason,
        persist (record m {
          state = record m.state { lock_reason = some reason; lock_kind = some daily };
        }),
      )

  -- `update_equity` after the day has been started.
  unfoldable pub note_equity : fl.Num → RiskManager → Option LockReason × RiskManager
  unfolding lock_daily daily_base_equity
  note_equity equity m =
      let s : RiskState = record m.state {
        day_start_equity = some (or_else m.state.day_start_equity equity);
        last_equity = some equity;
      } in
      let m' : RiskManager = record m { state = s } in
      elim (loss_over_limit m.config.daily_loss_limit_pct (daily_base_equity s) equity) [
        | none ↦ (none, m')
        | some (drawdown, limit) ↦
            if is_some s.lock_reason then (none, m') else lock_daily equity drawdown limit m'
      ]

  unfoldable pub update_equity : fl.Num → ℕ → RiskManager → Option LockReason × RiskManager
  unfolding start_day_if_needed note_equity
  update_equity equity now m = note_equity equity (start_day_if_needed now (some equity) m).1
