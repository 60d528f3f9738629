-- ===== src/Live/Settle.antt =====
-- app/trading/live_broker.py: `_wait_for_fill`, `_refresh_trades` and `_apply_fill`.
use Prim.Native.String.{◌++◌}
use upbit_auto_trader.Prelude.{
  ℕ, zero, suc, String, Bool, true, false, not, ◌&&◌, ◌||◌, Option, none, some, [], ◌∷◌,
  ◌++◌ as ◌++l◌, str_eq, if◌then◌else◌,
}
use upbit_auto_trader.Float.{Float, ◌⊕◌, ◌⊘◌, nil}
use upbit_auto_trader.Portfolio.Account.{
  buying, selling, Result, ok, err, Fill, Portfolio, Note, labelled, partly,
}
use upbit_auto_trader.Portfolio.Trading.{buy, sell}
use upbit_auto_trader.Exchange.Models.{OrderInfo, is_final, positive, has_trades, fill_funds}
use upbit_auto_trader.Exchange.Client.{
  Failure, api, unreachable, garbled, Reply, answer, failed, by_uuid, Client,
}
use upbit_auto_trader.Orders.Order.{
  filled, partial, cancelled, rejected, unknown, nothing_filled, funds_not_known, booking_failed,
  Order,
}
use upbit_auto_trader.Live.Broker.{take, Escape, client_barred, LiveBroker}

module _ ⦃fl : Float⦄ where
  -- The end of the wait: the final answer, a failed request, or an exception of another kind.
  -- `spent`: the fuel was too short.
  pub data Waited : Type 0 where
    settled : OrderInfo → Waited
    broken : Failure → Waited
    stopped : Escape → Waited
    spent : Waited

  -- The loop of `_refresh_trades`.
  unfoldable pub refresh_trades :
      (cl : Client) → String → ℕ → OrderInfo → LiveBroker → cl.World → OrderInfo × cl.World
  refresh_trades cl uuid zero current b w = (current, w)
  refresh_trades cl uuid (suc n) current b w =
      elim (has_trades current || not (positive current.executed_volume)) [
        | true ↦ (current, w)
        | false ↦
            let (reply, w') = cl.get_order (by_uuid uuid) (cl.sleep b.poll_interval w) in
            elim reply [
              | answer next ↦ refresh_trades cl uuid n next b w'
              | failed _ ↦ (current, w')
            ]
      ]

  -- The answer of a lookup that has to succeed.
  abbrev pub look : (cl : Client) → String → cl.World → Waited × cl.World
  look cl uuid w =
      let (reply, w') = cl.get_order (by_uuid uuid) w in
      elim reply [ answer info ↦ (settled info, w') | failed f ↦ (broken f, w') ]

  abbrev pub waits : OrderInfo → fl.Num → LiveBroker → Bool
  waits current elapsed b = not (is_final current) && fl.lt elapsed b.fill_timeout

  -- The loop of `_wait_for_fill`, on fuel.
  unfoldable pub poll :
      (cl : Client)
      → String
      → (fuel : ℕ) → fl.Num
      → OrderInfo
      → LiveBroker
      → cl.World
      → Waited × cl.World
  poll cl uuid zero elapsed current b w = elim (waits current elapsed b) [
    | true ↦ (spent, w)
    | false ↦ (settled current, w)
  ]
  poll cl uuid (suc fuel) elapsed current b w = elim (waits current elapsed b) [
    | false ↦ (settled current, w)
    | true ↦
        let (reply, w') = cl.get_order (by_uuid uuid) (cl.sleep b.poll_interval w) in
        elim reply [
          | answer next ↦ poll cl uuid fuel (elapsed ⊕ b.poll_interval) next b w'
          | failed f ↦ (broken f, w')
        ]
  ]

  -- After the cancellation: an `UpbitAPIError` is passed over, another error is not.
  unfoldable pub after_cancel :
      (cl : Client) → String → LiveBroker → Reply OrderInfo → cl.World → Waited × cl.World
  after_cancel cl uuid b (answer _) w = look cl uuid (cl.sleep b.poll_interval w)
  after_cancel cl uuid b (failed (api _ _)) w = look cl uuid (cl.sleep b.poll_interval w)
  after_cancel cl uuid b (failed unreachable) w = (broken unreachable, w)
  after_cancel cl uuid b (failed garbled) w = (broken garbled, w)

  -- The cancellation of an order that is not final, and the lookup after it.
  unfoldable pub cancel_and_look :
      (cl : Client) → String → LiveBroker → cl.World → Waited × cl.World
  unfolding after_cancel
  cancel_and_look cl uuid b w = elim cl.allow_orders [
    | false ↦ (stopped client_barred, w)
    | true ↦ let (reply, w') = cl.cancel_order uuid w in after_cancel cl uuid b reply w'
  ]

  -- After the loop: what was seen, or the answer after the cancellation.
  unfoldable pub give_up :
      (cl : Client) → String → LiveBroker → Waited × cl.World → Waited × cl.World
  unfolding cancel_and_look
  give_up cl uuid b (settled current, w) = elim (is_final current) [
    | true ↦ (settled current, w)
    | false ↦ cancel_and_look cl uuid b w
  ]
  give_up cl uuid b (broken f, w) = (broken f, w)
  give_up cl uuid b (stopped e, w) = (stopped e, w)
  give_up cl uuid b (spent, w) = (spent, w)

  unfoldable pub with_trades : (cl : Client) → LiveBroker → Waited × cl.World → Waited × cl.World
  unfolding refresh_trades
  with_trades cl b (settled info, w) =
      let (full, w') = refresh_trades cl info.uuid b.trades_lookup_attempts info b w in
      (settled full, w')
  with_trades cl b (broken f, w) = (broken f, w)
  with_trades cl b (stopped e, w) = (stopped e, w)
  with_trades cl b (spent, w) = (spent, w)

  unfoldable pub wait_for_fill :
      (cl : Client) → ℕ → OrderInfo → LiveBroker → cl.World → Waited × cl.World
  unfolding poll give_up with_trades
  wait_for_fill cl fuel info b w =
      with_trades cl b (give_up cl info.uuid b (poll cl info.uuid fuel nil info b w))

  abbrev pub is_cancelled : OrderInfo → Bool
  is_cancelled info = str_eq info.state "cancel"

  abbrev pub fill_note : Order → OrderInfo → Note
  fill_note o info = labelled o.reason ("upbit " ++ take 8 info.uuid)

  -- The call of the account with the amounts of the exchange.
  unfoldable pub book : Order → OrderInfo → fl.Num → ℕ → Portfolio → Result Fill × Portfolio
  book o info funds now p =
      let executed = fl.float_of info.executed_volume in
      let price = funds ⊘ executed in
      let fee = some (fl.float_of info.paid_fee) in
      let note = fill_note o info in
      elim o.side [
        | buying ↦ buy o.market price now none (some executed) note fee false p
        | selling ↦ sell o.market price now (some executed) note fee false p
      ]

  unfoldable pub with_fill : Order → OrderInfo → ℕ → Fill → Order
  with_fill o info now f =
      let note = fill_note o info in
      record o {
        status = if is_cancelled info then partial else filled;
        filled_at = some now;
        fill_price = some f.price;
        filled_quantity = some f.quantity;
        fee = f.fee;
        fills = o.fills ++l f ∷ [];
        reason = if is_cancelled info then partly note else note;
      }

  unfoldable pub booked :
      Result Fill × Portfolio → Order → OrderInfo → ℕ → LiveBroker → Order × LiveBroker
  unfolding with_fill
  booked (err e, p) o info now b = (
    record o { status = rejected; error = some (booking_failed e info.uuid) },
    record b { portfolio = p },
  )
  booked (ok f, p) o info now b = (with_fill o info now f, record b { portfolio = p })

  abbrev pub known_funds : Option fl.Decimal → Option fl.Num
  known_funds none = none
  known_funds (some d) = if positive d then some (fl.float_of d) else none

  unfoldable pub apply_fill : Order → OrderInfo → ℕ → LiveBroker → Order × LiveBroker
  unfolding book booked
  apply_fill o info now b = elim (fl.le (fl.float_of info.executed_volume) nil) [
    | true ↦ (
      record o {
        status = if is_cancelled info then cancelled else rejected;
        error = some (nothing_filled info.state info.uuid);
      },
      b,
    )
    | false ↦ elim (known_funds (fill_funds info)) [
      | none ↦ (record o { status = unknown; error = some (funds_not_known info.uuid) }, b)
      | some funds ↦ booked (book o info funds now b.portfolio) o info now b
    ]
  ]
