-- ===== src/Risk/Halts.antt =====
-- app/risk/manager.py: how long the emergency stop lasts.
use upbit_auto_trader.Prelude.{
  ℕ, String, ◌≡◌, refl, Bool, true, false, Option, none, some, List, [], ◌∷◌, All, arith, ◌==◌, inl,
  inr, Bool-cases,
}
use upbit_auto_trader.Float.{Float}
use upbit_auto_trader.Portfolio.Account.{Portfolio, Position, Trade}
use upbit_auto_trader.Market.Prices.{PriceState}
use upbit_auto_trader.Risk.State.{
  RiskState, LockReason, RiskManager, blank_state, trading_day, start_day_if_needed, note_equity,
  update_equity,
}
use upbit_auto_trader.Risk.Events.{
  apply_cash_flow, set_cash_flow_cursor, book_trade, record_trade, halt, sort_by_exit, restored,
  kept_lock, put_back_lock, with_equity, replay, rebuild,
}
use upbit_auto_trader.Risk.Entries.{Signal, buy_now, entry_refusal, decide, evaluate, first_some}
use upbit_auto_trader.Risk.Exits.{check_exits}
use upbit_auto_trader.Risk.Life.{
  Event, saw_equity, moved_cash, set_cursor, closed, asked, watched, stopped, resumed, restarted,
  handle, live, IsNotResume,
}

module _ ⦃fl : Float⦄ where
  abbrev pub halt_saved : Option RiskState → Bool
  halt_saved none = false
  halt_saved (some saved) = saved.halted

  -- The stop is on, and the store knows it.
  pub record IsHalted (m : RiskManager) : Type 0 where
    pub on : m.state.halted ≡ true
    pub saved : halt_saved m.store ≡ true

  book_trade-IsHalted : (m : RiskManager) (t : Trade) → IsHalted m → IsHalted (book_trade t m).1
  unfolding book_trade
  book_trade-IsHalted m t h = ground arith

  start_day-IsHalted :
      (m : RiskManager) (now : ℕ) (equity : Option fl.Num)
      → IsHalted m
      → IsHalted (start_day_if_needed now equity m).1
  unfolding start_day_if_needed
  start_day-IsHalted m now equity h = ground arith

  note_equity-IsHalted :
      (m : RiskManager) (equity : fl.Num) → IsHalted m → IsHalted (note_equity equity m).1
  unfolding note_equity
  note_equity-IsHalted m equity h = ground arith

  check_exits-IsHalted :
      (m : RiskManager) (pos : Position) (low high : fl.Num)
      → IsHalted m
      → IsHalted (check_exits pos low high m).2
  unfolding check_exits
  check_exits-IsHalted m pos low high h = ground arith

  record_trade-IsHalted :
      (m : RiskManager) (t : Trade) (now : ℕ) → IsHalted m → IsHalted (record_trade t now m).1
  unfolding record_trade
  record_trade-IsHalted m t now h =
      book_trade-IsHalted (start_day_if_needed now m.state.last_equity m).1 t
        (start_day-IsHalted m now m.state.last_equity h)

  replay-IsHalted :
      (today : ℕ) (ts : List Trade) (m : RiskManager) → IsHalted m → IsHalted (replay today ts m)
  unfolding replay
  replay-IsHalted today [] m h = h
  replay-IsHalted today (t ∷ ts) m h = elim (Bool-cases (trading_day t.exit_time == today)) [
    | inl same ↦ rw same (
        replay-IsHalted today ts (record_trade t t.exit_time m).1
          (record_trade-IsHalted m t t.exit_time h))
    | inr other ↦ rw other (replay-IsHalted today ts m h)
  ]

  restored-halted :
      (store : Option RiskState) (today : ℕ) (equity : Option fl.Num)
      → halt_saved store ≡ true
      → (restored store today equity).halted ≡ true
  unfolding restored
  restored-halted store today equity h = ground arith

  -- What `rebuild` does after the replay leaves the stop alone.
  finish-halted :
      (equity : Option fl.Num) (kept : Option LockReason) (s : RiskState)
      → s.halted ≡ true
      → (with_equity equity (put_back_lock kept s)).halted ≡ true
  unfolding with_equity put_back_lock
  finish-halted equity kept s h = ground arith

  rebuild-IsHalted :
      (m : RiskManager) (ts : List Trade) (now : ℕ) (equity : Option fl.Num)
      → halt_saved m.store ≡ true
      → IsHalted (rebuild ts now equity m)
  unfolding rebuild
  rebuild-IsHalted m ts now equity h =
      let today = trading_day now in
      let r =
        replay-IsHalted today (sort_by_exit ts) (record m { state = restored m.store today equity })
          (record { on = restored-halted m.store today equity h; saved = h }) in
      let on = finish-halted equity (kept_lock m.store today) _ r.on in
      record { on = on; saved = on }

  handle-IsHalted :
      (e : Event) (m : RiskManager) → IsNotResume e → IsHalted m → IsHalted (handle e m)
  unfolding handle update_equity apply_cash_flow set_cash_flow_cursor evaluate halt
  handle-IsHalted (saw_equity equity now) m n h =
      note_equity-IsHalted (start_day_if_needed now (some equity) m).1 equity
        (start_day-IsHalted m now (some equity) h)
  handle-IsHalted (moved_cash amount flow_id now) m n h =
      let on = (start_day-IsHalted m now m.state.last_equity h).on in record { on = on; saved = on }
  handle-IsHalted (set_cursor flow_id) m n h = record { on = h.on; saved = h.on }
  handle-IsHalted (closed t now) m n h = record_trade-IsHalted m t now h
  handle-IsHalted (asked signal portfolio price now equity) m n h =
      start_day-IsHalted m now (first_some equity m.state.last_equity) h
  handle-IsHalted (watched pos low high) m n h = check_exits-IsHalted m pos low high h
  handle-IsHalted (stopped reason) m n h = record { on = refl; saved = refl }
  handle-IsHalted resumed m n h = elim n [ ]
  handle-IsHalted (restarted ts now equity) m n h =
      rebuild-IsHalted (record m { state = blank_state }) ts now equity h.saved

  live-IsHalted :
      (es : List Event) (m : RiskManager) → All IsNotResume es → IsHalted m → IsHalted (live es m)
  unfolding live
  live-IsHalted [] m n h = h
  live-IsHalted (e ∷ es) m n h = live-IsHalted es (handle e m) n.1 (handle-IsHalted e m n.0 h)

  refused_while_halted :
      (m : RiskManager) (signal : Signal) (portfolio : Portfolio) (price : Option PriceState)
      (now : ℕ) (equity : Option fl.Num)
      → signal.action ≡ buy_now
      → IsHalted m
      → (evaluate signal portfolio price now equity m).0.approved ≡ false
  unfolding evaluate decide entry_refusal
  refused_while_halted m signal portfolio price now equity buying h =
      ground (arith, (start_day-IsHalted m now (first_some equity m.state.last_equity) h).on)

  -- After an emergency stop no BUY signal is approved until the stop is resumed, whatever calls
  -- come in between: new days, trades, cash flows and restarts of the process included.
  pub halt_blocks_entries :
      (reason : String) (m : RiskManager) (es : List Event) (signal : Signal)
      (portfolio : Portfolio) (price : Option PriceState) (now : ℕ) (equity : Option fl.Num)
      → All IsNotResume es
      → signal.action ≡ buy_now
      → (evaluate signal portfolio price now equity (live es (halt reason m))).0.approved ≡ false
  unfolding halt
  halt_blocks_entries reason m es signal portfolio price now equity n buying =
      refused_while_halted (live es (halt reason m)) signal portfolio price now equity buying
        (live-IsHalted es (halt reason m) n (record { on = refl; saved = refl }))
