-- ===== src/Live/Execute.antt =====
-- app/trading/live_broker.py: `_execute_locked` and `_resolve_locked`.
use upbit_auto_trader.Prelude.{
  ℕ, String, true, false, Option, none, some, ◌∷◌, or_else, if◌then◌else◌,
}
use upbit_auto_trader.Float.{Float}
use upbit_auto_trader.Market.Prices.{PriceState, seconds_since}
use upbit_auto_trader.Exchange.Models.{OrderInfo, is_final}
use upbit_auto_trader.Exchange.Client.{answer, failed, by_uuid, by_identifier, OrderParams, Client}
use upbit_auto_trader.Orders.Guard.{assert_live_order_allowed}
use upbit_auto_trader.Orders.Order.{
  submitted, unknown, OrderStatus, duplicate_signal, not_prepared, confirmed_missing, not_confirmed,
  creation_failed, fill_not_confirmed, no_reference, OrderRequest, Order, resolved_client_id,
  new_order, reject, is_processed, given_id,
}
use upbit_auto_trader.Live.Broker.{
  Texts, Escape, trading_disabled, client_barred, Outcome, returned, raised, running, LiveBroker,
  price_guard, params, unprepared, build_params,
}
use upbit_auto_trader.Live.Submit.{
  Submission, created, missing, unconfirmed, refused, escaped, attempts, is_not_found,
}
use upbit_auto_trader.Live.Settle.{
  Waited, settled, broken, stopped, spent, wait_for_fill, refresh_trades, apply_fill,
}

module _ ⦃fl : Float⦄ where
  abbrev pub note_processed : String → LiveBroker → LiveBroker
  note_processed client_id b = record b { processed = client_id ∷ b.processed }

  -- After the wait for the fill.
  unfoldable pub finish :
      {W : Type 0}
      → Order
      → OrderInfo
      → ℕ
      → LiveBroker
      → Waited × W
      → Outcome Order × LiveBroker × W
  finish o info now b (settled final, w) =
      let (done, b') = apply_fill o final now b in (returned done, b', w)
  finish o info now b (broken _, w) =
      (returned (record o { status = unknown; error = some (fill_not_confirmed info.uuid) }), b, w)
  finish o info now b (stopped e, w) = (raised e, b, w)
  finish o info now b (spent, w) = (running, b, w)

  -- What follows the attempts.
  unfoldable pub after_attempts :
      (cl : Client)
      → (fuel : ℕ) → Order
      → ℕ
      → LiveBroker
      → Submission
      → cl.World
      → Outcome Order × LiveBroker × cl.World
  unfolding finish
  after_attempts cl fuel o now b (created info) w =
      let sent = record o { exchange_order_id = some info.uuid; status = submitted } in
      let b' = note_processed o.client_id b in
      finish sent info now b' (wait_for_fill cl fuel info b' w)
  after_attempts cl fuel o now b (missing identifier) w =
      (returned (reject o (confirmed_missing identifier)), b, w)
  after_attempts cl fuel o now b (unconfirmed identifier) w = (
    returned (record o { status = unknown; error = some (not_confirmed identifier) }),
    note_processed o.client_id b,
    w,
  )
  after_attempts cl fuel o now b (refused last_error) w =
      (returned (reject o (or_else last_error creation_failed)), b, w)
  after_attempts cl fuel o now b (escaped e) w = (raised e, b, w)

  unfoldable pub place :
      (cl : Client) (tx : Texts)
      → (fuel : ℕ) → Order
      → OrderParams
      → ℕ
      → LiveBroker
      → cl.World
      → Outcome Order × LiveBroker × cl.World
  unfolding after_attempts
  place cl tx fuel o ps now b w =
      let (end, noted, w') =
        attempts cl tx o.client_id ps b b.max_attempts 1 none o.exchange_identifier w in
      after_attempts cl fuel (record o { exchange_identifier = noted }) now b end w'

  -- From the parameters on.
  unfoldable pub send :
      (cl : Client) (tx : Texts)
      → (fuel : ℕ) → OrderRequest
      → Order
      → ℕ
      → LiveBroker
      → cl.World
      → Outcome Order × LiveBroker × cl.World
  unfolding place
  send cl tx fuel r o now b w =
      let ((ready, o'), b', w') = build_params cl r o b w in
      elim ready [
        | unprepared e ↦ (returned (reject o' (not_prepared e)), b', w')
        | params ps ↦ place cl tx fuel o' ps now b' w'
      ]

  -- `_execute_locked`. `stamp` and `id` are the two new `uuid4` values that it may need.
  unfoldable pub execute :
      (cl : Client) (tx : Texts)
      → (fuel : ℕ) (stamp id : String) → OrderRequest
      → Option PriceState
      → ℕ
      → LiveBroker
      → cl.World
      → Outcome Order × LiveBroker × cl.World
  unfolding send
  execute cl tx fuel stamp id r price now b w = elim (assert_live_order_allowed b.settings) [
    | some e ↦ (raised (trading_disabled e), b, w)
    | none ↦
        let client_id = resolved_client_id tx.isoformat stamp "live" r in
        let o = new_order id client_id "live" r now in
        elim (is_processed client_id b.processed) [
          | true ↦ (returned (reject o duplicate_signal), b, w)
          | false ↦
              let (stale, w') = price_guard cl r.market price now b w in
              elim stale [
                | some e ↦ (returned (reject o e), b, w')
                | none ↦ send cl tx fuel r o now b w'
              ]
        ]
  ]

  -- What `_resolve_locked` gives: the order, or `None`, or an exception.
  pub data Verdict : Type 0 where
    final_order : Verdict
    pending : Verdict
    broke_off : Escape → Verdict

  abbrev pub verdict_of : OrderStatus → Verdict
  verdict_of unknown = pending
  verdict_of _ = final_order

  -- The cancellation of an order that has waited too long; its `UpbitError` is suppressed.
  unfoldable pub cancel_late :
      (cl : Client) → Order → String → ℕ → LiveBroker → cl.World → Verdict × cl.World
  cancel_late cl o uuid now b w =
      if fl.le b.fill_timeout (seconds_since now o.created_at)
      then if cl.allow_orders
        then (pending, (cl.cancel_order uuid w).1)
        else (broke_off client_barred, w)
      else (pending, w)

  -- From the answer of the lookup on.
  unfoldable pub settle_found :
      (cl : Client)
      → Order
      → OrderInfo
      → ℕ
      → LiveBroker
      → cl.World
      → Verdict × Order × LiveBroker × cl.World
  unfolding cancel_late
  settle_found cl order info now b w =
      let o = record order { exchange_order_id = some info.uuid } in
      elim (is_final info) [
        | false ↦ let (v, w') = cancel_late cl o info.uuid now b w in (v, o, b, w')
        | true ↦
            let (full, w') = refresh_trades cl info.uuid b.trades_lookup_attempts info b w in
            let (done, b') = apply_fill o full now b in (verdict_of done.status, done, b', w')
      ]

  unfoldable pub resolve_by :
      (cl : Client)
      → (known missing_id : Option String) → Order
      → ℕ
      → LiveBroker
      → cl.World
      → Verdict × Order × LiveBroker × cl.World
  unfolding settle_found
  resolve_by cl (some uuid) ident o now b w =
      let (reply, w') = cl.get_order (by_uuid uuid) w in
      elim reply [ answer info ↦ settle_found cl o info now b w' | failed _ ↦ (pending, o, b, w') ]
  resolve_by cl none (some identifier) o now b w =
      let (reply, w') = cl.get_order (by_identifier identifier) w in
      elim reply [
        | answer info ↦ settle_found cl o info now b w'
        | failed f ↦ elim (is_not_found f) [
          | true ↦ (final_order, reject o (confirmed_missing identifier), b, w')
          | false ↦ (pending, o, b, w')
        ]
      ]
  resolve_by cl none none o now b w = (final_order, reject o no_reference, b, w)

  -- `_resolve_locked`: what it gives, and the order, which it changes in place.
  unfoldable pub resolve :
      (cl : Client) → Order → ℕ → LiveBroker → cl.World → Verdict × Order × LiveBroker × cl.World
  unfolding resolve_by
  resolve cl o now b w =
      resolve_by cl (given_id o.exchange_order_id) (given_id o.exchange_identifier) o now b w
