-- ===== src/Trading/Exits.antt =====
-- app/trading/engine.py: the watch over the open positions, `check_exits`, and the back-off of the
-- exits that fail. Times are microseconds.
use Prim.Native.String.{◌++◌ as ◌++s◌}
use upbit_auto_trader.Prelude.{
  ℕ, suc, ◌+◌, ◌-◌, ◌*◌, ◌^◌, String, Bool, true, false, ◌&&◌, ◌||◌, not, Option, none, some, [],
  ◌∷◌, is_some, or_else, ltb, if◌then◌else◌,
}
use upbit_auto_trader.Float.{Float, one}
use upbit_auto_trader.Dict
use upbit_auto_trader.Dict.{Dict}
use upbit_auto_trader.Portfolio.Account.{selling, Position, Portfolio}
use upbit_auto_trader.Market.Prices.{
  WsMessage, update_price, PriceState, is_fresh, mark_price, given, seconds_since,
}
use upbit_auto_trader.Risk.State.{RiskManager, update_equity}
use upbit_auto_trader.Risk.Exits as RiskExits
use upbit_auto_trader.Risk.Exits.{ExitReason, ExitCheck}
use upbit_auto_trader.Orders.Order.{OrderRequest, Order, is_filled}
use upbit_auto_trader.Backtest.Engine.{exit_text}
use upbit_auto_trader.Notify.Event.{EventKind, daily_loss_limit, api_error}
use upbit_auto_trader.Trading.Engine.{
  Broker, Engine, Ended, completed, failed, portfolio_of, notify, current_equity, record_order,
}

-- The wait after the failures in a row, `exit_retry_base` of 5 s doubled up to `exit_retry_max` of
-- 300 s. The code multiplies a float by an int, which raises from 2 ** 1024 on: `none`.
unfoldable pub exit_delay : ℕ → Option ℕ
exit_delay failures =
    let doubled = 5_000_000 * 2 ^ (failures - 1) in
    if ltb 1024 failures
    then none
    else some (if ltb 300_000_000 doubled then 300_000_000 else doubled)

-- The exit reason that was seen, and how often in a row.
abbrev pub Streak : Type 0
Streak = Option (ExitReason × ℕ)

unfoldable pub same_reason : ExitReason → ExitReason → Bool
same_reason ExitReason.stop_loss ExitReason.stop_loss = true
same_reason ExitReason.take_profit ExitReason.take_profit = true
same_reason ExitReason.trailing_stop ExitReason.trailing_stop = true
same_reason _ _ = false

-- The streak with this reason.
unfoldable pub next_streak : Streak → ExitReason → ℕ
unfolding same_reason
next_streak none r = 1
next_streak (some (r', n)) r = elim (same_reason r' r) [ true ↦ suc n | false ↦ 1 ]

-- What an exit check does to the streak, and whether the exit is confirmed.
unfoldable pub observe : Bool → ℕ → Streak → Option ExitReason → Bool × Streak
unfolding next_streak
observe force ticks streak none = (false, none)
observe force ticks streak (some r) =
    let n = next_streak streak r in
    elim (not force && ltb n ticks) [ true ↦ (false, some (r, n)) | false ↦ (true, none) ]

-- `_exit_kind`
unfoldable pub exit_kind : ExitReason → EventKind
exit_kind ExitReason.stop_loss = EventKind.stop_loss
exit_kind ExitReason.take_profit = EventKind.take_profit
exit_kind ExitReason.trailing_stop = EventKind.trailing_stop

module _ ⦃fl : Float⦄ where
  -- `dict.pop` or an assignment of the streak of a market.
  unfoldable pub put_streak : String → Streak → Dict (ExitReason × ℕ) → Dict (ExitReason × ℕ)
  put_streak market none d = Dict.erase market d
  put_streak market (some x) d = Dict.insert market x d

  abbrev pub reason_of : Option ExitCheck → Option ExitReason
  reason_of none = none
  reason_of (some c) = some c.reason

  -- The account in which the position, where it is still held, is as `check_exits` left it.
  unfoldable pub put_back : String → Position → Portfolio → Portfolio
  put_back market pos p = elim (Dict.contains market p.positions) [
    | true ↦ record p { positions = Dict.insert market pos p.positions }
    | false ↦ p
  ]

  module _ (isoformat : ℕ → String) (b : Broker) where
    unfoldable pub note_exit_result : String → Order → ℕ → Engine b → Ended × Engine b
    unfolding exit_delay
    note_exit_result market o now e =
        let failures = suc (or_else (Dict.lookup market e.exit_failures) 0) in
        let counted : Engine b = record e {
          exit_failures = Dict.insert market failures e.exit_failures;
        } in
        elim (is_filled o) as (λ _. Ended × Engine b) [
          | true ↦ (
            completed,
            record e {
              exit_backoff = Dict.erase market e.exit_backoff;
              exit_failures = Dict.erase market e.exit_failures;
            },
          )
          | false ↦ elim (exit_delay failures) as (λ _. Ended × Engine b) [
            | none ↦ (failed, counted)
            | some delay ↦ (
              completed,
              record counted { exit_backoff = Dict.insert market (now + delay) e.exit_backoff },
            )
          ]
        ]

    unfoldable pub exit_request : String → ExitReason → ℕ → Engine b → OrderRequest
    exit_request market reason now e = record {
      market = market;
      side = selling;
      amount = none;
      quantity = none;
      reason = exit_text reason;
      strategy = e.settings.strategy;
      signal_time = some now;
      client_id =
          some
            (b.mode ++s ":" ++s market ++s ":SELL:" ++s exit_text reason ++s ":" ++s isoformat now);
    }

    -- What follows `broker.execute`.
    unfoldable pub after_exit : String → ℕ → Option Order × b.State → Engine b → Ended × Engine b
    unfolding note_exit_result
    after_exit market now (none, s) e = (failed, record e { broker = s })
    after_exit market now (some o, s) e =
        note_exit_result market o now (record_order b o now (record e { broker = s }))

    -- A confirmed exit: it is told, and the order goes to the broker.
    unfoldable pub send_exit : String → PriceState → ExitReason → ℕ → Engine b → Ended × Engine b
    unfolding exit_request after_exit exit_kind
    send_exit market price reason now e =
        let told : Engine b =
          notify b (exit_kind reason) (record e {
            stats = record e.stats { exits_triggered = suc e.stats.exits_triggered };
          }) in
        after_exit market now
          (b.execute (exit_request market reason now e) (some price) now e.broker) told

    -- The engine after the risk manager has looked at the position.
    unfoldable pub looked :
        Bool → ℕ → String → Option ExitCheck × Position × RiskManager → Engine b → Bool × Engine b
    unfolding put_back put_streak observe
    looked force ticks market (found, pos, m) e =
        let (confirmed, streak) =
          observe force ticks (Dict.lookup market e.exit_streak) (reason_of found) in
        (
          confirmed,
          record e {
            risk = m;
            broker = b.with_account (put_back market pos (portfolio_of b e)) e.broker;
            exit_streak = put_streak market streak e.exit_streak;
          },
        )

    -- The check of a position that has a price.
    unfoldable pub check_one :
        Bool → ℕ → String → Position → PriceState → fl.Num → Engine b → Ended × Engine b
    unfolding looked send_exit
    check_one force now market pos price mark e =
        let checked = RiskExits.check_exits pos mark mark e.risk in
        let (confirmed, e') = looked force e.settings.exit_confirm_ticks market checked e in
        elim confirmed as (λ _. Ended × Engine b) [
          | false ↦ (completed, e')
          | true ↦ elim (reason_of checked.0) as (λ _. Ended × Engine b) [
            | none ↦ (completed, e')
            | some reason ↦ send_exit market price reason now e'
          ]
        ]

    -- The mark of a market, where its price is fresh and not zero.
    unfoldable pub fresh_mark : String → ℕ → Engine b → Option (PriceState × fl.Num)
    fresh_mark market now e = elim (Dict.lookup market e.market.prices) [
      | none ↦ none
      | some price ↦ elim (mark_price price) [
        | none ↦ none
        | some mark ↦
            if is_fresh price now e.settings.price_max_age_seconds && given (some mark)
            then some (price, mark)
            else none
      ]
    ]

    -- Whether a market waits after an exit that failed.
    unfoldable pub backs_off : String → ℕ → Engine b → Bool
    backs_off market now e = elim (Dict.lookup market e.exit_backoff) [
      | none ↦ false
      | some retry_at ↦ ltb now retry_at
    ]

    -- One round of the loop over the positions.
    unfoldable pub watch_one : Bool → ℕ → String → Position → Engine b → Ended × Engine b
    unfolding check_one fresh_mark backs_off
    watch_one force now market pos e =
        elim (Dict.contains market e.pending_orders || backs_off market now e)
          as (λ _. Ended × Engine b) [
            | true ↦ (completed, e)
            | false ↦ elim (fresh_mark market now e) as (λ _. Ended × Engine b) [
              | none ↦ (completed, e)
              | some (price, mark) ↦ check_one force now market pos price mark e
            ]
          ]

    unfoldable pub watch_all : Bool → ℕ → Dict Position → Engine b → Ended × Engine b
    unfolding watch_one
    watch_all force now [] e = (completed, e)
    watch_all force now ((market, pos) ∷ rest) e =
        let (ended, e') = watch_one force now market pos e in
        elim ended as (λ _. Ended × Engine b) [
          | failed ↦ (failed, e')
          | completed ↦ watch_all force now rest e'
        ]

    -- The new equity goes to the risk manager; a new lock is told.
    unfoldable pub note_value : ℕ → Engine b → Engine b
    note_value now e = elim (current_equity b e) [
      | none ↦ e
      | some value ↦
          let (lock, m) = update_equity value now e.risk in
          elim (is_some lock) [
            | true ↦ notify b daily_loss_limit (record e {
              risk = m;
              stats = record e.stats { risk_locks = suc e.stats.risk_locks };
            })
            | false ↦ record e { risk = m }
          ]
    ]

    -- Less than `exit_check_interval` of a second has passed.
    unfoldable pub checked_recently : ℕ → Engine b → Bool
    checked_recently now e = elim e.last_exit_check [
      | none ↦ false
      | some t ↦ fl.lt (seconds_since now t) one
    ]

    unfoldable pub check_exits : Bool → ℕ → Engine b → Ended × Engine b
    unfolding checked_recently note_value watch_all
    check_exits force now e =
        elim (not force && checked_recently now e) as (λ _. Ended × Engine b) [
          | true ↦ (completed, e)
          | false ↦
              let e' = note_value now (record e { last_exit_check = some now }) in
              watch_all force now (portfolio_of b e').positions e'
        ]

    abbrev pub positions_empty : Dict Position → Bool
    positions_empty [] = true
    positions_empty (_ ∷ _) = false

    -- An exit check that raises is counted and told, and that is all.
    unfoldable pub caught : Ended × Engine b → Engine b
    caught (completed, e) = e
    caught (failed, e) =
        notify b api_error (record e { stats = record e.stats { errors = suc e.stats.errors } })

    -- `_handle_price_message`
    unfoldable pub handle_price_message : WsMessage → ℕ → Engine b → Engine b
    unfolding caught check_exits
    handle_price_message message now e =
        let (updated, market) = update_price message e.market in
        let e' : Engine b = record e { market = market } in
        elim (not updated || positions_empty (portfolio_of b e).positions) [
          | true ↦ e'
          | false ↦ caught (check_exits false now e')
        ]
