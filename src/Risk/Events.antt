-- ===== src/Risk/Events.antt =====
-- app/risk/manager.py: cash flows, closed trades, the emergency stop and the restart.
use upbit_auto_trader.Prelude.{
  ℕ, suc, String, true, false, not, ◌&&◌, Option, none, some, List, [], ◌∷◌, is_some, or_else, ltb,
  leb, ◌==◌, if◌then◌else◌,
}
use upbit_auto_trader.Float.{Float, ◌⊕◌, nil}
use upbit_auto_trader.Dict
use upbit_auto_trader.Dict.{Dict}
use upbit_auto_trader.Portfolio.Account.{Trade}
use upbit_auto_trader.Risk.State.{
  LockReason, losses_in_a_row, daily, consecutive, RiskState, blank_state, RiskManager, persist,
  trading_day, is_day, start_day_if_needed, daily_base_equity,
}

module _ ⦃fl : Float⦄ where
  -- `max(cursor or 0, flow_id)`, or the cursor as it was where there is no id.
  unfoldable pub moved_cursor : Option ℕ → Option ℕ → Option ℕ
  moved_cursor cursor none = cursor
  moved_cursor cursor (some flow_id) =
      let old = or_else cursor 0 in some (if ltb old flow_id then flow_id else old)

  -- `apply_cash_flow` after the day has been started.
  unfoldable pub add_flow : fl.Num → Option ℕ → RiskManager → Option fl.Num × RiskManager
  unfolding persist moved_cursor daily_base_equity
  add_flow amount flow_id m =
      let s : RiskState = record m.state {
        day_cash_flow = m.state.day_cash_flow ⊕ amount;
        cash_flow_cursor = moved_cursor m.state.cash_flow_cursor flow_id;
      } in
      (daily_base_equity s, persist (record m { state = s }))

  unfoldable pub apply_cash_flow : fl.Num → Option ℕ → ℕ → RiskManager → Option fl.Num × RiskManager
  unfolding start_day_if_needed add_flow
  apply_cash_flow amount flow_id now m =
      add_flow amount flow_id (start_day_if_needed now m.state.last_equity m).1

  unfoldable pub set_cash_flow_cursor : ℕ → RiskManager → RiskManager
  unfolding persist
  set_cash_flow_cursor flow_id m =
      persist (record m { state = record m.state { cash_flow_cursor = some flow_id } })

  -- What a closed trade does to the counters, before the limit is looked at.
  unfoldable pub count_trade : Trade → RiskState → RiskState
  count_trade t s = record s {
    daily_realized_pnl = s.daily_realized_pnl ⊕ t.pnl;
    consecutive_losses = if fl.le t.pnl nil then suc s.consecutive_losses else 0;
    peak_prices = Dict.erase t.market s.peak_prices;
    last_exit_at = Dict.insert t.market t.exit_time s.last_exit_at;
  }

  -- The new lock of `record_trade`: the limit is reached, and there is no lock yet.
  unfoldable pub losing_lock : Option ℕ → RiskState → Option LockReason
  losing_lock none s = none
  losing_lock (some limit) s =
      if leb limit s.consecutive_losses && not (is_some s.lock_reason)
      then some (losses_in_a_row s.consecutive_losses limit)
      else none

  unfoldable pub lock_after : Option LockReason → RiskState → RiskState
  lock_after none s = s
  lock_after (some reason) s = record s { lock_reason = some reason; lock_kind = some consecutive }

  -- `record_trade` after the day has been started.
  unfoldable pub book_trade : Trade → RiskManager → Option LockReason × RiskManager
  unfolding persist count_trade losing_lock lock_after
  book_trade t m =
      let s = count_trade t m.state in
      let lock = losing_lock m.config.max_consecutive_losses s in
      (lock, persist (record m { state = lock_after lock s }))

  unfoldable pub record_trade : Trade → ℕ → RiskManager → Option LockReason × RiskManager
  unfolding start_day_if_needed book_trade
  record_trade t now m = book_trade t (start_day_if_needed now m.state.last_equity m).1

  unfoldable pub halt : String → RiskManager → RiskManager
  unfolding persist
  halt reason m =
      persist (record m { state = record m.state { halted = true; halt_reason = some reason } })

  unfoldable pub resume : RiskManager → RiskManager
  unfolding persist
  resume m = persist (record m { state = record m.state { halted = false; halt_reason = none } })

  -- `sorted(trades, key=lambda t: t.exit_time)`, which is stable.
  unfoldable pub insert_by_exit : Trade → List Trade → List Trade
  insert_by_exit t [] = t ∷ []
  insert_by_exit t (u ∷ us) =
      let rest = insert_by_exit t us in if leb t.exit_time u.exit_time then t ∷ u ∷ us else u ∷ rest

  unfoldable pub sort_by_exit : List Trade → List Trade
  unfolding insert_by_exit
  sort_by_exit [] = []
  sort_by_exit (t ∷ ts) = insert_by_exit t (sort_by_exit ts)

  -- The loop of `rebuild`: the trades that closed today are recorded again.
  unfoldable pub replay : ℕ → List Trade → RiskManager → RiskManager
  unfolding record_trade
  replay today [] m = m
  replay today (t ∷ ts) m =
      replay today ts
        (if trading_day t.exit_time == today then (record_trade t t.exit_time m).1 else m)

  -- What `rebuild` takes over from a dict that was saved today.
  unfoldable pub restored_day : ℕ → Option fl.Num → RiskState → RiskState
  unfolding blank_state
  restored_day today equity saved = record blank_state {
    day = some today;
    day_start_equity = elim saved.day_start_equity [ none ↦ equity | some e ↦ some e ];
    last_exit_at = saved.last_exit_at;
    day_cash_flow = saved.day_cash_flow;
    cash_flow_cursor = saved.cash_flow_cursor;
  }

  unfoldable pub other_day : ℕ → Option fl.Num → RiskState
  unfolding blank_state
  other_day today equity = record blank_state { day = some today; day_start_equity = equity }

  -- The emergency stop outlives the day.
  unfoldable pub with_halt : RiskState → RiskState → RiskState
  with_halt saved s =
      if saved.halted then record s { halted = true; halt_reason = saved.halt_reason } else s

  unfoldable pub restored : Option RiskState → ℕ → Option fl.Num → RiskState
  unfolding restored_day other_day with_halt is_day
  restored none today equity = other_day today equity
  restored (some saved) today equity =
      with_halt saved
        (if is_day saved.day today then restored_day today equity saved else other_day today equity)

  -- The lock that is put back after the replay: a daily one that was saved today.
  unfoldable pub kept_lock : Option RiskState → ℕ → Option LockReason
  unfolding is_day
  kept_lock none today = none
  kept_lock (some saved) today = elim saved.lock_kind [
    | some daily ↦ if is_day saved.day today then saved.lock_reason else none
    | some consecutive ↦ none
    | none ↦ none
  ]

  unfoldable pub put_back_lock : Option LockReason → RiskState → RiskState
  put_back_lock none s = s
  put_back_lock (some reason) s =
      if is_some s.lock_reason
      then s
      else record s { lock_reason = some reason; lock_kind = some daily }

  unfoldable pub with_equity : Option fl.Num → RiskState → RiskState
  with_equity none s = s
  with_equity (some e) s = record s { last_equity = some e }

  -- `rebuild`. The lock that a saved dict brings is set aside during the replay.
  unfoldable pub rebuild : List Trade → ℕ → Option fl.Num → RiskManager → RiskManager
  unfolding restored kept_lock put_back_lock with_equity persist replay
  rebuild trades now equity m =
      let today = trading_day now in
      let m' =
        replay today (sort_by_exit trades) (record m { state = restored m.store today equity }) in
      persist (record m' {
        state = with_equity equity (put_back_lock (kept_lock m.store today) m'.state);
      })
