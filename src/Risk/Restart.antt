-- ===== src/Risk/Restart.antt =====
-- app/risk/manager.py: what `rebuild` recovers when the process is started again.
use upbit_auto_trader.Prelude.{
  ℕ, suc, ◌≡◌, refl, sym, ap, ◌∙◌, true, false, Option, some, List, [], ◌∷◌, ◌++◌, arith, ◌==◌, inl,
  inr, Bool-cases, if◌then◌else◌, is_some,
}
use mathlib.Core.List.{reverse, reverse-append, append-nil, append_assoc}
use mathlib.Core.Path.{subst}
use upbit_auto_trader.Float.{Float, ◌⊕◌, nil}
use upbit_auto_trader.Portfolio.Account.{Trade}
use upbit_auto_trader.Risk.State.{RiskState, LockReason, daily, RiskManager, trading_day}
use upbit_auto_trader.Risk.Events.{
  book_trade, record_trade, sort_by_exit, restored, kept_lock, put_back_lock, with_equity, replay,
  rebuild,
}
use upbit_auto_trader.Risk.Entries.{first_some}
use upbit_auto_trader.Risk.Chronology.{IsInOrder, sort_by_exit-IsInOrder}
use upbit_auto_trader.Risk.Locks.{start_day_same}

module _ ⦃fl : Float⦄ where
  -- The trades that closed on the day, in the order given.
  pub on_day : ℕ → List Trade → List Trade
  on_day d [] = []
  on_day d (t ∷ ts) =
      let rest = on_day d ts in if trading_day t.exit_time == d then t ∷ rest else rest

  -- The number of losses at the head of a list.
  pub leading_losses : List Trade → ℕ
  leading_losses [] = 0
  leading_losses (t ∷ ts) = let rest = leading_losses ts in if fl.le t.pnl nil then suc rest else 0

  -- The losses in a row at the end of a list.
  pub final_losses : List Trade → ℕ
  final_losses ts = leading_losses (reverse ts)

  pub realized : fl.Num → List Trade → fl.Num
  realized acc [] = acc
  realized acc (t ∷ ts) = realized (acc ⊕ t.pnl) ts

  final_losses-snoc :
      (past : List Trade) (t : Trade)
      → final_losses (past ++ t ∷ []) ≡ (if fl.le t.pnl nil then suc (final_losses past) else 0)
  unfolding final_losses leading_losses
  final_losses-snoc past t = rw (reverse-append past (t ∷ [])) refl

  book_trade_counts :
      (m : RiskManager) (t : Trade)
      → ((book_trade t m).1.state.day ≡ m.state.day)
        × ((book_trade t m).1.state.consecutive_losses
            ≡ (if fl.le t.pnl nil then suc m.state.consecutive_losses else 0))
        × ((book_trade t m).1.state.daily_realized_pnl ≡ m.state.daily_realized_pnl ⊕ t.pnl)
        × ((book_trade t m).1.state.halted ≡ m.state.halted)
        × ((book_trade t m).1.state.day_start_equity ≡ m.state.day_start_equity)
        × ((book_trade t m).1.state.day_cash_flow ≡ m.state.day_cash_flow)
        × ((book_trade t m).1.state.cash_flow_cursor ≡ m.state.cash_flow_cursor)
  unfolding book_trade
  book_trade_counts m t = ground arith

  of_eqb : (a b : ℕ) → (a == b) ≡ true → a ≡ b
  of_eqb a b h = ground arith

  -- A replay adds the day's trades to the counters, and leaves the day and its base alone.
  record HasSeen (d : ℕ) (past : List Trade) (origin : RiskState) (s : RiskState) : Type 0 where
    today : s.day ≡ some d
    streak : s.consecutive_losses ≡ final_losses past
    booked : s.daily_realized_pnl ≡ realized nil past
    start_kept : s.day_start_equity ≡ origin.day_start_equity
    flow_kept : s.day_cash_flow ≡ origin.day_cash_flow
    cursor_kept : s.cash_flow_cursor ≡ origin.cash_flow_cursor

  realized-snoc :
      (acc : fl.Num) (past : List Trade) (t : Trade)
      → realized acc (past ++ t ∷ []) ≡ realized acc past ⊕ t.pnl
  unfolding realized
  realized-snoc acc [] t = refl
  realized-snoc acc (u ∷ us) t = realized-snoc (acc ⊕ u.pnl) us t

  book_trade-HasSeen :
      (d : ℕ) (past : List Trade) (origin : RiskState) (t : Trade) (m : RiskManager)
      → HasSeen d past origin m.state
      → HasSeen d (past ++ t ∷ []) origin (book_trade t m).1.state
  book_trade-HasSeen d past origin t m h =
      let (day, streak, pnl, halted, start, flow, cursor) = book_trade_counts m t in
      record {
        today = day ∙ h.today;
        streak = rw (final_losses-snoc past t, streak, h.streak) refl;
        booked = rw (realized-snoc nil past t, pnl, h.booked) refl;
        start_kept = start ∙ h.start_kept;
        flow_kept = flow ∙ h.flow_kept;
        cursor_kept = cursor ∙ h.cursor_kept;
      }

  replay_step :
      (d : ℕ) (t : Trade) (ts : List Trade) (m : RiskManager)
      → ((trading_day t.exit_time == d) ≡ true
          → replay d (t ∷ ts) m ≡ replay d ts (record_trade t t.exit_time m).1)
        × ((trading_day t.exit_time == d) ≡ false → replay d (t ∷ ts) m ≡ replay d ts m)
  unfolding replay
  replay_step d t ts m = (λ h. rw h refl, λ h. rw h refl)

  replay-HasSeen :
      (d : ℕ) (past ts : List Trade) (origin : RiskState) (m : RiskManager)
      → HasSeen d past origin m.state
      → HasSeen d (past ++ on_day d ts) origin (replay d ts m).state
  unfolding on_day
  replay-HasSeen d past [] origin m h = rw append-nil (unfold replay in h)
  replay-HasSeen d past (t ∷ ts) origin m h = elim (Bool-cases (trading_day t.exit_time == d)) [
    | inr other ↦ rw ((replay_step d t ts m).1 other, other) (replay-HasSeen d past ts origin m h)
    | inl same ↦
        let is_same =
          start_day_same d t.exit_time m.state.last_equity m h.today (of_eqb _ d same) in
        let m' = (record_trade t t.exit_time m).1 in
        let seen : HasSeen d (past ++ t ∷ []) origin m'.state =
          unfold record_trade in
          subst (λ n. HasSeen d (past ++ t ∷ []) origin (book_trade t n).1.state) (sym is_same)
            (book_trade-HasSeen d past origin t m h) in
        rw ((replay_step d t ts m).0 same, same)
          (rw append_assoc at (replay-HasSeen d (past ++ t ∷ []) ts origin m' seen))
  ]

  restored-HasSeen :
      (store : Option RiskState) (d : ℕ) (equity : Option fl.Num)
      → HasSeen d [] (restored store d equity) (restored store d equity)
  unfolding restored final_losses leading_losses realized
  restored-HasSeen store d equity = record {
    today = ground arith;
    streak = ground arith;
    booked = ground arith;
    start_kept = refl;
    flow_kept = refl;
    cursor_kept = refl;
  }

  -- The state that `rebuild` ends in, field by field.
  finish_keeps :
      (equity : Option fl.Num) (kept : Option LockReason) (s : RiskState)
      → let s' = with_equity equity (put_back_lock kept s) in
        (s'.consecutive_losses ≡ s.consecutive_losses)
        × (s'.daily_realized_pnl ≡ s.daily_realized_pnl)
        × (s'.day_start_equity ≡ s.day_start_equity)
        × (s'.day_cash_flow ≡ s.day_cash_flow)
        × (s'.cash_flow_cursor ≡ s.cash_flow_cursor)
  unfolding with_equity put_back_lock
  finish_keeps equity kept s = ground arith

  finish_locks :
      (equity : Option fl.Num) (r : LockReason) (s : RiskState)
      → is_some (with_equity equity (put_back_lock (some r) s)).lock_reason ≡ true
  unfolding with_equity put_back_lock
  finish_locks equity r s = ground arith

  restored_today :
      (saved : RiskState) (d : ℕ) (equity : Option fl.Num)
      → saved.day ≡ some d
      → ((restored (some saved) d equity).day_start_equity
          ≡ first_some saved.day_start_equity equity)
        × ((restored (some saved) d equity).day_cash_flow ≡ saved.day_cash_flow)
        × ((restored (some saved) d equity).cash_flow_cursor ≡ saved.cash_flow_cursor)
  unfolding restored
  restored_today saved d equity h = ground arith

  kept_daily :
      (saved : RiskState) (d : ℕ) (r : LockReason)
      → saved.day ≡ some d
      → saved.lock_kind ≡ some daily
      → saved.lock_reason ≡ some r
      → kept_lock (some saved) d ≡ some r
  unfolding kept_lock
  kept_daily saved d r h k l = ground arith

  -- A restart on the day that was saved: the streak of losses and the realized profit are those of
  -- the day's trades in the order in which they closed, where trades that closed at one time keep the
  -- order given; and the equity at the start of the day, the cash flow and its cursor are the saved
  -- ones (the equity given, if none was saved).
  pub rebuild_same_day :
      (trades : List Trade) (now : ℕ) (equity : Option fl.Num) (m : RiskManager) (saved : RiskState)
      → m.store ≡ some saved
      → saved.day ≡ some (trading_day now)
      → let s = (rebuild trades now equity m).state in
        (closed : List Trade) × IsInOrder trades closed
        × let today = on_day (trading_day now) closed in
          (s.consecutive_losses ≡ final_losses today)
          × (s.daily_realized_pnl ≡ realized nil today)
          × (s.day_start_equity ≡ first_some saved.day_start_equity equity)
          × (s.day_cash_flow ≡ saved.day_cash_flow)
          × (s.cash_flow_cursor ≡ saved.cash_flow_cursor)
  unfolding rebuild
  rebuild_same_day trades now equity m saved stored today =
      let d = trading_day now in
      let base = restored m.store d equity in
      let end = replay d (sort_by_exit trades) (record m { state = base }) in
      let seen =
        replay-HasSeen d [] (sort_by_exit trades) base (record m { state = base })
          (restored-HasSeen m.store d equity) in
      let (streak, pnl, start, flow, cursor) =
        finish_keeps equity (kept_lock m.store d) end.state in
      let (start', flow', cursor') = restored_today saved d equity today in
      let is_base : base ≡ restored (some saved) d equity = ap (λ o. restored o d equity) stored in
      (
        sort_by_exit trades,
        sort_by_exit-IsInOrder trades,
        (
          streak ∙ seen.streak,
          pnl ∙ seen.booked,
          start ∙ seen.start_kept ∙ ap (λ (x : RiskState). x.day_start_equity) is_base ∙ start',
          flow ∙ seen.flow_kept ∙ ap (λ (x : RiskState). x.day_cash_flow) is_base ∙ flow',
          cursor ∙ seen.cursor_kept ∙ ap (λ (x : RiskState). x.cash_flow_cursor) is_base ∙ cursor',
        ),
      )

  -- A lock for the daily loss that was saved today is followed by a lock after a restart on the
  -- same day, whatever trades are replayed.
  pub rebuild_keeps_daily_lock :
      (trades : List Trade) (now : ℕ) (equity : Option fl.Num) (m : RiskManager) (saved : RiskState)
      (r : LockReason)
      → m.store ≡ some saved
      → saved.day ≡ some (trading_day now)
      → saved.lock_kind ≡ some daily
      → saved.lock_reason ≡ some r
      → is_some (rebuild trades now equity m).state.lock_reason ≡ true
  unfolding rebuild
  rebuild_keeps_daily_lock trades now equity m saved r stored today kind reason =
      let d = trading_day now in
      let end = replay d (sort_by_exit trades) (record m { state = restored m.store d equity }) in
      let kept : kept_lock m.store d ≡ some r =
        ap (λ o. kept_lock o d) stored ∙ kept_daily saved d r today kind reason in
      subst (λ k. is_some (with_equity equity (put_back_lock k end.state)).lock_reason ≡ true)
        (sym kept) (finish_locks equity r end.state)
