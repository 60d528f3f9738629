-- ===== src/Live/Submit.antt =====
-- app/trading/live_broker.py: placing the order. `_confirm_by_identifier` and the loop of
-- `_execute_locked` over the attempts.
use upbit_auto_trader.Prelude.{
  ℕ, zero, suc, String, Bool, true, false, Option, none, some, ◌==◌, str_eq, if◌then◌else◌,
}
use upbit_auto_trader.Float.{Float, ◌⊗◌, min}
use upbit_auto_trader.Exchange.Models.{OrderInfo}
use upbit_auto_trader.Exchange.Client.{
  Failure, api, unreachable, garbled, Reply, answer, failed, by_identifier, OrderParams, Client,
}
use upbit_auto_trader.Orders.Order.{OrderError, exchange_refused}
use upbit_auto_trader.Live.Broker.{
  Texts, make_identifier, Escape, client_barred, response_unreadable, LiveBroker,
}

abbrev pub is_not_found : Failure → Bool
is_not_found (api status _) = status == 404
is_not_found _ = false

abbrev pub is_duplicate : Option String → Bool
is_duplicate none = false
is_duplicate (some name) = str_eq name "duplicated_identifier"

module _ ⦃fl : Float⦄ where
  -- The wait between two lookups; none follows the last one.
  abbrev pub pause : (cl : Client) → ℕ → fl.Num → cl.World → cl.World
  pause cl zero delay w = w
  pause cl (suc _) delay w = cl.sleep delay w

  -- The lookups that are left of `_confirm_by_identifier`, with the count of 404 so far.
  unfoldable pub lookups :
      (cl : Client)
      → String
      → (left not_found : ℕ) → fl.Num
      → LiveBroker
      → cl.World
      → (Option OrderInfo × Bool) × cl.World
  lookups cl identifier zero not_found delay b w = ((none, not_found == b.lookup_attempts), w)
  lookups cl identifier (suc left) not_found delay b w =
      let (reply, w') = cl.get_order (by_identifier identifier) w in
      elim reply [
        | answer info ↦ ((some info, false), w')
        | failed f ↦
            lookups cl identifier left (if is_not_found f then suc not_found else not_found)
              (min (delay ⊗ fl.number 2 0) (fl.number 15 0)) b (pause cl left delay w')
      ]

  unfoldable pub confirm_by_identifier :
      (cl : Client) → String → LiveBroker → cl.World → (Option OrderInfo × Bool) × cl.World
  unfolding lookups
  confirm_by_identifier cl identifier b w =
      lookups cl identifier b.lookup_attempts 0 b.lookup_backoff b w

  -- How the attempts end: an order exists, none exists for certain, that cannot be told, the
  -- exchange refused it (with the last error, if any), or an exception leaves the method.
  pub data Submission : Type 0 where
    created : OrderInfo → Submission
    missing : (identifier : String) → Submission
    unconfirmed : (identifier : String) → Submission
    refused : Option OrderError → Submission
    escaped : Escape → Submission

  abbrev pub after_silence : String → Option OrderInfo × Bool → Submission
  after_silence identifier (some info, _) = created info
  after_silence identifier (none, true) = missing identifier
  after_silence identifier (none, false) = unconfirmed identifier

  -- What follows the answer to one attempt. `again` is the rest of the loop.
  unfoldable pub react :
      (cl : Client)
      → String
      → LiveBroker
      → (again : OrderError → cl.World → Submission × Option String × cl.World) → Reply OrderInfo
      → cl.World
      → Submission × Option String × cl.World
  unfolding confirm_by_identifier
  react cl identifier b again (answer info) w = (created info, some identifier, w)
  react cl identifier b again (failed unreachable) w =
      let (found, w') = confirm_by_identifier cl identifier b w in
      (after_silence identifier found, some identifier, w')
  react cl identifier b again (failed garbled) w = (escaped response_unreadable, some identifier, w)
  react cl identifier b again (failed (api status name)) w =
      let e = exchange_refused status name in
      elim (is_duplicate name) [ true ↦ again e w | false ↦ (refused (some e), some identifier, w) ]

  -- The attempts that are left, from the number `attempt` on: the end, the identifier that the
  -- order notes, and the exchange after it.
  unfoldable pub attempts :
      (cl : Client) (tx : Texts)
      → String
      → OrderParams
      → LiveBroker
      → (left attempt : ℕ) → Option OrderError
      → Option String
      → cl.World
      → Submission × Option String × cl.World
  unfolding react
  attempts cl tx client_id ps b zero attempt last_error noted w = (refused last_error, noted, w)
  attempts cl tx client_id ps b (suc left) attempt last_error noted w =
      let identifier = make_identifier tx client_id attempt in
      elim cl.allow_orders [
        | false ↦ (escaped client_barred, some identifier, w)
        | true ↦
            let (reply, w') = cl.create_order (record ps { identifier = some identifier }) w in
            react cl identifier b
              (λ e v. attempts cl tx client_id ps b left (suc attempt) (some e) (some identifier) v)
              reply w'
      ]
