-- ===== src/Live/OneOrder.antt =====
-- app/trading/live_broker.py: what one call of `execute` sends, read off the record of orders.
use upbit_auto_trader.Prelude.{
  ℕ, zero, suc, String, ◌≡◌, refl, sym, ◌∙◌, true, Option, none, some, [], ◌∷◌, either,
  either_known, either_option,
}
use mathlib.Core.Path.{subst}
use upbit_auto_trader.Float.{Float}
use upbit_auto_trader.Market.Prices.{PriceState}
use upbit_auto_trader.Exchange.Models.{OrderInfo}
use upbit_auto_trader.Exchange.Client.{
  api, unreachable, garbled, Reply, answer, failed, OrderParams, Client,
}
use upbit_auto_trader.Orders.Guard.{assert_live_order_allowed}
use upbit_auto_trader.Orders.Order.{
  OrderError, not_prepared, reject, OrderRequest, Order, resolved_client_id, is_processed,
}
use upbit_auto_trader.Live.Broker.{
  Texts, LiveBroker, price_guard, build_params, Prepared, params, unprepared, make_identifier,
  Outcome, returned,
}
use upbit_auto_trader.Live.Submit.{
  Submission, created, missing, unconfirmed, refused, escaped, is_duplicate, react, attempts,
}
use upbit_auto_trader.Live.Settle.{Waited, settled, broken, stopped, spent}
use upbit_auto_trader.Live.Execute.{finish, after_attempts, place, send, execute}
use upbit_auto_trader.Live.Record.{
  Sent, recorded, wait_for_fill_log, price_guard_log, build_params_log, confirm_log,
}

module _ ⦃fl : Float⦄ where
  -- The answer says that the identifier was used before: this order does not exist.
  abbrev pub RefusedAsUsed : Reply OrderInfo → Type 0
  RefusedAsUsed (failed (api _ name)) = is_duplicate name ≡ true
  RefusedAsUsed _ = ⊥

  abbrev pub AllRefusedAsUsed : Sent → Type 0
  AllRefusedAsUsed [] = Unit {0}
  AllRefusedAsUsed ((_, r) ∷ log) = RefusedAsUsed r × AllRefusedAsUsed log

  -- Of the orders sent, every one but the last was refused because its identifier was used.
  abbrev pub AtMostOneOpen : Sent → Type 0
  AtMostOneOpen [] = Unit {0}
  AtMostOneOpen (_ ∷ earlier) = AllRefusedAsUsed earlier

  open_of_refused : (log : Sent) → AllRefusedAsUsed log → AtMostOneOpen log
  open_of_refused [] h = tt
  open_of_refused ((ps, r) ∷ log) h = h.1

  -- An outcome whose record has at most one open order.
  abbrev Ends : {A B W : Type 0} → A × B × (Sent × W) → Type 0
  Ends z = AtMostOneOpen z.2.0

  react_open :
      (cl : Client) (i : String) (b : LiveBroker)
      → (again : OrderError → Sent × cl.World → Submission × Option String × (Sent × cl.World))
      → (ps : OrderParams) (r : Reply OrderInfo) (log : Sent) (w : cl.World) → AllRefusedAsUsed log
      → ((e : OrderError) (v : Sent × cl.World)
          → AllRefusedAsUsed v.0
          → AtMostOneOpen (again e v).2.0)
      → AtMostOneOpen (react (recorded cl) i b again r ((ps, r) ∷ log, w)).2.0
  unfolding react
  react_open cl i b again ps (answer info) log w h k = h
  react_open cl i b again ps (failed unreachable) log w h k =
      subst AtMostOneOpen (sym (confirm_log cl i b ((ps, failed unreachable) ∷ log, w))) h
  react_open cl i b again ps (failed garbled) log w h k = h
  react_open cl i b again ps (failed (api s name)) log w h k =
      either_known Ends (is_duplicate name) (λ e. k _ _ (e, h)) (λ e. h)

  attempts_open :
      (cl : Client) (tx : Texts) (c : String) (ps : OrderParams) (b : LiveBroker) (left n : ℕ)
      → (last : Option OrderError) (noted : Option String) (v : Sent × cl.World)
      → AllRefusedAsUsed v.0
      → AtMostOneOpen (attempts (recorded cl) tx c ps b left n last noted v).2.0
  unfolding attempts
  attempts_open cl tx c ps b zero n last noted v h = open_of_refused v.0 h
  attempts_open cl tx c ps b (suc left) n last noted v h =
      let i = make_identifier tx c n in
      let sent = record ps { identifier = some i } in
      let reply = cl.create_order sent v.1 in
      either Ends cl.allow_orders
        (react_open cl i b
          (λ e u. attempts (recorded cl) tx c ps b left (suc n) (some e) (some i) u) sent reply.0
          v.0 reply.1 h (λ e u. attempts_open cl tx c ps b left (suc n) (some e) (some i) u))
        (open_of_refused v.0 h)

  finish_log :
      {W : Type 0} (o : Order) (i : OrderInfo) (now : ℕ) (b : LiveBroker)
      → (z : Waited × (Sent × W)) → (finish o i now b z).2.0 ≡ z.1.0
  unfolding finish
  finish_log o i now b (settled f, v) = refl
  finish_log o i now b (broken f, v) = refl
  finish_log o i now b (stopped e, v) = refl
  finish_log o i now b (spent, v) = refl

  after_attempts_log :
      (cl : Client) (fuel : ℕ) (o : Order) (now : ℕ) (b : LiveBroker) (s : Submission)
      → (v : Sent × cl.World) → (after_attempts (recorded cl) fuel o now b s v).2.0 ≡ v.0
  unfolding after_attempts
  after_attempts_log cl fuel o now b (created i) v =
      finish_log _ i now _ _ ∙ wait_for_fill_log cl fuel i _ v
  after_attempts_log cl fuel o now b (missing i) v = refl
  after_attempts_log cl fuel o now b (unconfirmed i) v = refl
  after_attempts_log cl fuel o now b (refused e) v = refl
  after_attempts_log cl fuel o now b (escaped e) v = refl

  place_open :
      (cl : Client) (tx : Texts) (fuel : ℕ) (o : Order) (ps : OrderParams) (now : ℕ)
      → (b : LiveBroker) (v : Sent × cl.World) → v.0 ≡ []
      → AtMostOneOpen (place (recorded cl) tx fuel o ps now b v).2.0
  unfolding place
  place_open cl tx fuel o ps now b v h =
      subst AtMostOneOpen (sym (after_attempts_log cl fuel _ now b _ _)) (
        attempts_open cl tx o.client_id ps b b.max_attempts 1 none o.exchange_identifier v
          (subst AllRefusedAsUsed (sym h) tt))

  send_ready :
      (cl : Client) (tx : Texts) (fuel : ℕ) (now : ℕ) (b : LiveBroker) (ready : Prepared)
      (o : Order)
      → (v : Sent × cl.World) → v.0 ≡ []
      → Ends (elim ready as (λ _. Outcome Order × LiveBroker × (Sent × cl.World)) [
        | unprepared e ↦ (returned (reject o (not_prepared e)), b, v)
        | params ps ↦ place (recorded cl) tx fuel o ps now b v
      ])
  send_ready cl tx fuel now b (unprepared e) o v h = subst AtMostOneOpen (sym h) tt
  send_ready cl tx fuel now b (params ps) o v h = place_open cl tx fuel o ps now b v h

  send_open :
      (cl : Client) (tx : Texts) (fuel : ℕ) (r : OrderRequest) (o : Order) (now : ℕ)
      → (b : LiveBroker) (v : Sent × cl.World) → v.0 ≡ []
      → AtMostOneOpen (send (recorded cl) tx fuel r o now b v).2.0
  unfolding send
  send_open cl tx fuel r o now b v h =
      let made = build_params (recorded cl) r o b v in
      let same : made.2.0 ≡ [] = build_params_log cl r o b v ∙ h in
      send_ready cl tx fuel now made.1 made.0.0 made.0.1 made.2 same

  -- Whatever the exchange answers and however the requests fail, of the orders that one call of
  -- `execute` sends to it, every one but the last was refused because its identifier was used
  -- before.
  pub execute_at_most_one :
      (cl : Client) (tx : Texts) (fuel : ℕ) (stamp id : String) (r : OrderRequest)
      → (q : Option PriceState) (now : ℕ) (b : LiveBroker) (w : cl.World)
      → AtMostOneOpen (execute (recorded cl) tx fuel stamp id r q now b ([], w)).2.0
  unfolding execute
  execute_at_most_one cl tx fuel stamp id r q now b w =
      let guarded = price_guard (recorded cl) r.market q now b ([], w) in
      let same : guarded.1.0 ≡ [] = price_guard_log cl r.market q now b ([], w) in
      either_option Ends (assert_live_order_allowed b.settings)
        (either Ends (is_processed (resolved_client_id tx.isoformat stamp "live" r) b.processed) tt
          (either_option Ends guarded.0 (send_open cl tx fuel r _ now b guarded.1 same)
            (λ e. subst AtMostOneOpen (sym same) tt)))
        (λ e. tt)
