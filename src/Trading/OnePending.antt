-- ===== src/Trading/OnePending.antt =====
-- app/trading/engine.py: while the state of an order is not known, no other order of its market is sent.
use mathlib.Core.Path.{subst}
use upbit_auto_trader.Prelude.{
  ℕ, String, ◌≡◌, sym, Bool, true, false, ◌&&◌, ◌||◌, not, Option, none, some, List, [], ◌∷◌, inl,
  inr, arith, either, either_known, either_option, str_eq, eq_iff, is_some,
}
use upbit_auto_trader.Float.{Float}
use upbit_auto_trader.Dict
use upbit_auto_trader.Dict.{Dict}
use upbit_auto_trader.Portfolio.Account.{Portfolio, Position}
use upbit_auto_trader.Risk.Entries.{Signal}
use upbit_auto_trader.Risk.State.{RiskManager, update_equity}
use upbit_auto_trader.Risk.Exits as RiskExits
use upbit_auto_trader.Risk.Exits.{ExitReason, ExitCheck}
use upbit_auto_trader.Market.Prices.{PriceState, WsMessage, update_price}
use upbit_auto_trader.Orders.Order.{OrderRequest, Order, is_filled}
use upbit_auto_trader.Trading.Engine.{
  Broker, Engine, Ended, completed, failed, portfolio_of, current_equity, record_order,
}
use upbit_auto_trader.Trading.Exits.{
  exit_delay, note_exit_result, exit_request, after_exit, send_exit, looked, put_back, check_one,
  fresh_mark, backs_off, watch_one, watch_all, note_value, checked_recently, check_exits, reason_of,
  positions_empty, caught, handle_price_message,
}
use upbit_auto_trader.Trading.Signals.{on_signal, signal_request}
use upbit_auto_trader.Database.Repository.{BotCommand, pending_commands}
use upbit_auto_trader.Trading.Loop.{
  Command, pause, resume_trading, stop_now, halt_now, reload, resume_risk, unheard_of, command_of,
  obey, handle_command, handle_commands, poll_commands,
}
use upbit_auto_trader.Trading.Kept.{record_order-Keeps}
use upbit_auto_trader.Trading.Gate.{on_signal_gate, decision_on}
use upbit_auto_trader.Trading.Once.{on_signal-Leaves}

-- What can come between two follow-ups of the unknown orders: the signal of a closed candle, an exit
-- check, a message with a price, and the commands of the queue.
pub data Event ⦃fl : Float⦄ : Type 0 where
  closed_candle : Signal → ℕ → Event
  exit_check : (force : Bool) → ℕ → Event
  price_message : WsMessage → ℕ → Event
  commands : (lower : String → String) → (Command → String) → Event

module _ ⦃fl : Float⦄ (isoformat : ℕ → String) (b : Broker) where
  -- The engine after an event, whether its step raised or not.
  unfoldable pub handle : Event → Engine b → Engine b
  handle (closed_candle s now) e = (on_signal b s now e).1
  handle (exit_check force now) e = (check_exits isoformat b force now e).1
  handle (price_message m now) e = handle_price_message isoformat b m now e
  handle (commands lower outcome) e = poll_commands b lower outcome e

  unfoldable pub handle_all : List Event → Engine b → Engine b
  unfolding handle
  handle_all [] e = e
  handle_all (v ∷ vs) e = handle_all vs (handle v e)

module _ ⦃fl : Float⦄ (isoformat : ℕ → String) (b : Broker) (market : String)
    (I : b.State → Type 0) where
  -- `I` holds on of the broker as long as no order of the market is executed.
  pub record Spares : Type 0 where
    pub other_orders :
        (r : OrderRequest) (price : Option PriceState) (now : ℕ) (s : b.State)
        → str_eq r.market market ≡ false
        → I s
        → I (b.execute r price now s).1
    pub new_account : (p : Portfolio) (s : b.State) → I s → I (b.with_account p s)

  -- An order of the market waits, and `I` holds of the broker.
  abbrev pub Waits : Engine b → Type 0
  Waits e = (Dict.contains market e.pending_orders ≡ true) × I e.broker

  -- A market without an unresolved order is another one.
  other_market :
      (m : String) (pending : Dict Order)
      → Dict.contains m pending ≡ false
      → Dict.contains market pending ≡ true
      → str_eq m market ≡ false
  other_market m pending h k = ground (arith, eq_iff m market)

  -- The loop goes on unless the round raised.
  goes_on-Waits :
      (ended : Ended) (x y : Ended × Engine b)
      → Waits x.1
      → Waits y.1
      → Waits (elim ended as (λ _. Ended × Engine b) [ failed ↦ x | completed ↦ y ]).1
  goes_on-Waits completed x y h k = k
  goes_on-Waits failed x y h k = h

  caught-Waits : (x : Ended × Engine b) → Waits x.1 → Waits (caught isoformat b x)
  unfolding caught
  caught-Waits (completed, e) h = h
  caught-Waits (failed, e) h = h

  obey-Waits :
      (c : Command) (reason : Option String) (e : Engine b) → Waits e → Waits (obey b c reason e)
  unfolding obey
  obey-Waits pause reason e h = h
  obey-Waits resume_trading reason e h = h
  obey-Waits stop_now reason e h = h
  obey-Waits halt_now reason e h = h
  obey-Waits reload reason e h = h
  obey-Waits resume_risk reason e h = h
  obey-Waits unheard_of reason e h = h

  note_exit_result-Waits :
      (m : String) (o : Order) (now : ℕ) (e : Engine b)
      → Waits e
      → Waits (note_exit_result isoformat b m o now e).1
  unfolding note_exit_result
  note_exit_result-Waits m o now e h =
      let Goes = λ (out : Ended × Engine b). Waits out.1 in
      either Goes (is_filled o) h (either_option Goes (exit_delay _) h (λ d. h))

  after_exit-Waits :
      (m : String) (now : ℕ) (reply : Option Order × b.State) (e : Engine b)
      → Dict.contains market e.pending_orders ≡ true
      → I reply.1
      → Waits (after_exit isoformat b m now reply e).1
  unfolding after_exit
  after_exit-Waits m now (none, s) e h i = (h, i)
  after_exit-Waits m now (some o, s) e h i =
      let kept = record_order-Keeps b o now (record e { broker = s }) in
      note_exit_result-Waits m o now (record_order b o now (record e { broker = s }))
        (kept.5 market h, subst I (sym kept.0) i)

  send_exit-Waits :
      Spares
      → (m : String) (price : PriceState) (reason : ExitReason) (now : ℕ) (e : Engine b)
      → str_eq m market ≡ false
      → Waits e
      → Waits (send_exit isoformat b m price reason now e).1
  unfolding send_exit
  send_exit-Waits spares m price reason now e other h =
      let request = exit_request isoformat b m reason now e in
      after_exit-Waits m now (b.execute request (some price) now e.broker) _ h.0
        (spares.other_orders request (some price) now e.broker other h.1)

  looked-Waits :
      Spares
      → (force : Bool) (ticks : ℕ) (m : String)
        (checked : Option ExitCheck × Position × RiskManager) (e : Engine b)
      → Waits e
      → Waits (looked isoformat b force ticks m checked e).1
  unfolding looked
  looked-Waits spares force ticks m (found, pos, risk) e (h, i) =
      (h, spares.new_account (put_back m pos (portfolio_of b e)) e.broker i)

  check_one-Waits :
      Spares
      → (force : Bool) (now : ℕ) (m : String) (pos : Position) (price : PriceState) (mark : fl.Num)
        (e : Engine b)
      → str_eq m market ≡ false
      → Waits e
      → Waits (check_one isoformat b force now m pos price mark e).1
  unfolding check_one
  check_one-Waits spares force now m pos price mark e other h =
      let Goes = λ (out : Ended × Engine b). Waits out.1 in
      let checked = RiskExits.check_exits pos mark mark e.risk in
      let looks = looked isoformat b force e.settings.exit_confirm_ticks m checked e in
      let held = looked-Waits spares force e.settings.exit_confirm_ticks m checked e h in
      either Goes looks.0
        (either_option Goes (reason_of checked.0) held
          (λ reason. send_exit-Waits spares m price reason now looks.1 other held))
        held

  watch_one-Waits :
      Spares
      → (force : Bool) (now : ℕ) (m : String) (pos : Position) (e : Engine b) → Waits e
      → Waits (watch_one isoformat b force now m pos e).1
  unfolding watch_one
  watch_one-Waits spares force now m pos e h =
      let Goes = λ (out : Ended × Engine b). Waits out.1 in
      either_known Goes (Dict.contains m e.pending_orders || backs_off isoformat b m now e)
        (λ skipped. h)
        (λ free.
          let other : str_eq m market ≡ false =
            other_market m e.pending_orders (ground arith) h.0 in
          either_option Goes (fresh_mark isoformat b m now e) h
            (λ priced. check_one-Waits spares force now m pos priced.0 priced.1 e other h))

  watch_all-Waits :
      Spares
      → (force : Bool) (now : ℕ) (positions : Dict Position) (e : Engine b) → Waits e
      → Waits (watch_all isoformat b force now positions e).1
  unfolding watch_all
  watch_all-Waits spares force now [] e h = h
  watch_all-Waits spares force now ((m, pos) ∷ rest) e h =
      let (ended, e') = watch_one isoformat b force now m pos e in
      let h' = watch_one-Waits spares force now m pos e h in
      goes_on-Waits ended (failed, e') (watch_all isoformat b force now rest e') h'
        (watch_all-Waits spares force now rest e' h')

  note_value-Waits : (now : ℕ) (e : Engine b) → Waits e → Waits (note_value isoformat b now e)
  unfolding note_value
  note_value-Waits now e h =
      either_option Waits (current_equity b e) h
        (λ v. either Waits (is_some (update_equity v now e.risk).0) h h)

  pub check_exits-Waits :
      Spares
      → (force : Bool) (now : ℕ) (e : Engine b) → Waits e
      → Waits (check_exits isoformat b force now e).1
  unfolding check_exits
  check_exits-Waits spares force now e h =
      either (λ (out : Ended × Engine b). Waits out.1)
        (not force && checked_recently isoformat b now e) h
        (watch_all-Waits spares force now _ _
          (note_value-Waits now (record e { last_exit_check = some now }) h))

  on_signal-Waits :
      Spares → (s : Signal) (now : ℕ) (e : Engine b) → Waits e → Waits (on_signal b s now e).1
  unfolding signal_request
  on_signal-Waits spares s now e (h, i) = (
    (on_signal-Leaves b s now e).1 market h,
    elim (on_signal_gate b s now e) [
      | inl same ↦ subst I (sym same) i
      | inr (cleared, state) ↦
          let other = other_market s.market e.pending_orders cleared.nothing_pending h in
          subst I (sym state) (
            spares.other_orders (signal_request b s (decision_on b s now e))
              (Dict.lookup s.market e.market.prices) now e.broker other i)
    ],
  )

  handle_price_message-Waits :
      Spares
      → (m : WsMessage) (now : ℕ) (e : Engine b) → Waits e
      → Waits (handle_price_message isoformat b m now e)
  unfolding handle_price_message
  handle_price_message-Waits spares m now e h =
      let (updated, prices) = update_price m e.market in
      let e' : Engine b = record e { market = prices } in
      either Waits (not updated || positions_empty isoformat b (portfolio_of b e).positions) h (
        caught-Waits (check_exits isoformat b false now e')
          (check_exits-Waits spares false now e' h))

  handle_commands-Waits :
      (lower : String → String) (outcome : Command → String) (cs : List BotCommand) (e : Engine b)
      → Waits e
      → Waits (handle_commands b lower outcome cs e)
  unfolding handle_commands handle_command
  handle_commands-Waits lower outcome [] e h = h
  handle_commands-Waits lower outcome (c ∷ cs) e h =
      handle_commands-Waits lower outcome cs (handle_command b lower outcome c e)
        (obey-Waits (command_of (lower c.command)) c.reason e h)

  handle-Waits : Spares → (v : Event) (e : Engine b) → Waits e → Waits (handle isoformat b v e)
  unfolding handle poll_commands
  handle-Waits spares (closed_candle s now) e h = on_signal-Waits spares s now e h
  handle-Waits spares (exit_check force now) e h = check_exits-Waits spares force now e h
  handle-Waits spares (price_message m now) e h = handle_price_message-Waits spares m now e h
  handle-Waits spares (commands lower outcome) e h =
      handle_commands-Waits lower outcome (pending_commands e.repo) e h

  -- As long as an order of a market waits for its follow-up, whatever signals, exit checks, price
  -- messages and commands come, the order waits on, and the engine sends the broker no order of that
  -- market: what holds of the broker, and on through orders of other markets and new positions, holds
  -- at the end.
  pub none_while_pending :
      Spares
      → (events : List Event) (e : Engine b) → Dict.contains market e.pending_orders ≡ true
      → I e.broker
      → (Dict.contains market (handle_all isoformat b events e).pending_orders ≡ true)
        × I (handle_all isoformat b events e).broker
  unfolding handle_all
  none_while_pending spares [] e h i = (h, i)
  none_while_pending spares (v ∷ vs) e h i =
      let (h', i') = handle-Waits spares v e (h, i) in
      none_while_pending spares vs (handle isoformat b v e) h' i'
