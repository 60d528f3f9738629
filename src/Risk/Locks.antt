-- ===== src/Risk/Locks.antt =====
-- app/risk/manager.py: how long a lock and the emergency stop last.
use upbit_auto_trader.Prelude.{ℕ, ◌≡◌, sym, Option, some, List, [], ◌∷◌, All, arith}
use mathlib.Core.Path.{subst}
use upbit_auto_trader.Float.{Float}
use upbit_auto_trader.Risk.State.{
  RiskManager, LockReason, trading_day, start_day_if_needed, note_equity, update_equity,
}
use upbit_auto_trader.Risk.Events.{
  add_flow, apply_cash_flow, set_cash_flow_cursor, book_trade, record_trade, halt, resume,
}
use upbit_auto_trader.Portfolio.Account.{Position, Trade}
use upbit_auto_trader.Risk.Entries.{evaluate, first_some}
use upbit_auto_trader.Risk.Exits.{check_exits}
use upbit_auto_trader.Risk.Life.{
  Event, saw_equity, moved_cash, set_cursor, closed, asked, watched, stopped, resumed, restarted,
  handle, live, OnDay,
}

module _ ⦃fl : Float⦄ where
  -- Locked on the day `d` for the reason `r`.
  pub record IsLocked (d : ℕ) (r : LockReason) (m : RiskManager) : Type 0 where
    pub on_day : m.state.day ≡ some d
    pub locked : m.state.lock_reason ≡ some r

  pub start_day_same :
      (d now : ℕ) (equity : Option fl.Num) (m : RiskManager)
      → m.state.day ≡ some d
      → trading_day now ≡ d
      → (start_day_if_needed now equity m).1 ≡ m
  unfolding start_day_if_needed
  start_day_same d now equity m on_day today = ground arith

  module _ (d : ℕ) (r : LockReason) (m : RiskManager) (h : IsLocked d r m) where
    note_equity-IsLocked : (equity : fl.Num) → IsLocked d r (note_equity equity m).1
    unfolding note_equity
    note_equity-IsLocked equity = ground arith

    book_trade-IsLocked : (t : Trade) → IsLocked d r (book_trade t m).1
    unfolding book_trade
    book_trade-IsLocked t = ground arith

    check_exits-IsLocked :
        (pos : Position) (low high : fl.Num) → IsLocked d r (check_exits pos low high m).2
    unfolding check_exits
    check_exits-IsLocked pos low high = ground arith

    cash_flow-IsLocked :
        (amount : fl.Num) (id : Option ℕ) (now : ℕ) → IsLocked d r (add_flow amount id m).1
    unfolding add_flow
    cash_flow-IsLocked amount id now = record { on_day = h.on_day; locked = h.locked }

    handle-IsLocked : (e : Event) → OnDay d e → IsLocked d r (handle e m)
    unfolding handle update_equity apply_cash_flow set_cash_flow_cursor record_trade evaluate halt
        resume
    handle-IsLocked (saw_equity equity now) t =
        subst (λ n. IsLocked d r (note_equity equity n).1)
          (sym (start_day_same d now (some equity) m h.on_day t)) (note_equity-IsLocked equity)
    handle-IsLocked (moved_cash amount flow_id now) t =
        subst (λ n. IsLocked d r (add_flow amount flow_id n).1)
          (sym (start_day_same d now m.state.last_equity m h.on_day t))
          (cash_flow-IsLocked amount flow_id now)
    handle-IsLocked (set_cursor flow_id) t = record { on_day = h.on_day; locked = h.locked }
    handle-IsLocked (closed u now) t =
        subst (λ n. IsLocked d r (book_trade u n).1)
          (sym (start_day_same d now m.state.last_equity m h.on_day t)) (book_trade-IsLocked u)
    handle-IsLocked (asked signal portfolio price now equity) t =
        subst (IsLocked d r)
          (sym (start_day_same d now (first_some equity m.state.last_equity) m h.on_day t)) h
    handle-IsLocked (watched pos low high) t = check_exits-IsLocked pos low high
    handle-IsLocked (stopped reason) t = record { on_day = h.on_day; locked = h.locked }
    handle-IsLocked (restarted trades now equity) t = elim t [ ]
    handle-IsLocked resumed t = record { on_day = h.on_day; locked = h.locked }

  -- A lock lasts for the rest of its day: no sequence of calls on that day, a resume of the
  -- emergency stop included, removes it or changes its reason.
  pub lock_lasts :
      (d : ℕ) (r : LockReason) (es : List Event) (m : RiskManager)
      → All (OnDay d) es
      → IsLocked d r m
      → IsLocked d r (live es m)
  unfolding live
  lock_lasts d r [] m days h = h
  lock_lasts d r (e ∷ es) m days h =
      lock_lasts d r es (handle e m) days.1 (handle-IsLocked d r m h e days.0)
