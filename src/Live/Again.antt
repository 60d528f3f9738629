-- ===== src/Live/Again.antt =====
-- app/trading/live_broker.py: `execute` as a whole. A signal whose order may exist is noted, and
-- calling `execute` with it again sends nothing.
use upbit_auto_trader.Prelude.{
  ℕ, String, ◌≡◌, ◌≢◌, refl, ◌∙◌, true, Option, none, some, inl, inr, ap, either_known,
  either_option, Option-cases,
}
use mathlib.Core.Path.{subst}
use upbit_auto_trader.Float.{Float}
use upbit_auto_trader.Market.Prices.{PriceState}
use upbit_auto_trader.Exchange.Client.{Client}
use upbit_auto_trader.Orders.Guard.{LiveTradingDisabled, assert_live_order_allowed}
use upbit_auto_trader.Orders.Order.{
  rejected, not_prepared, duplicate_signal, reject, OrderRequest, Order, resolved_client_id,
  is_processed, new_order,
}
use upbit_auto_trader.Live.Broker.{
  Texts, LiveBroker, price_guard, build_params, Prepared, params, unprepared, Outcome, returned,
  raised, running, trading_disabled,
}
use upbit_auto_trader.Live.Execute.{place, send, execute}
use upbit_auto_trader.Live.Noted.{Told, Accounted, Ready, place-Accounted, build_params-Ready}

module _ ⦃fl : Float⦄ where
  Accounted-since :
      {W : Type 0} (c : String) (b b1 : LiveBroker) (z : Outcome Order × LiveBroker × W)
      → b1.settings ≡ b.settings
      → b1.portfolio ≡ b.portfolio
      → b1.processed ≡ b.processed
      → Accounted c b1 z
      → Accounted c b z
  Accounted-since c b b1 (returned o, b', w) s p n (same, inl h) = (same ∙ s, inl h)
  Accounted-since c b b1 (returned o, b', w) s p n (same, inr (status, id, folio, ids)) =
      (same ∙ s, inr (status, id, folio ∙ p, ids ∙ n))
  Accounted-since c b b1 (raised e, b', w) s p n (same, h) = (same ∙ s, tt)
  Accounted-since c b b1 (running, b', w) s p n (same, h) = (same ∙ s, tt)

  Ready-Accounted :
      (cl : Client) (tx : Texts) (fuel : ℕ) (now : ℕ) (o : Order) (b : LiveBroker)
      → (z : (Prepared × Order) × LiveBroker × cl.World) → o.exchange_order_id ≡ none
      → Ready o b z
      → Accounted o.client_id b (elim z.0.0 as (λ _. Outcome Order × LiveBroker × cl.World) [
        | unprepared e ↦ (returned (reject z.0.1 (not_prepared e)), z.1, z.2)
        | params ps ↦ place cl tx fuel z.0.1 ps now z.1 z.2
      ])
  unfolding reject
  Ready-Accounted cl tx fuel now o b ((unprepared e, o1), b1, w) h ((c, i), s, p, n) =
      (s, inr (refl, i ∙ h, p, n))
  Ready-Accounted cl tx fuel now o b ((params ps, o1), b1, w) h ((c, i), s, p, n) =
      let placed = place cl tx fuel o1 ps now b1 w in
      Accounted-since o.client_id b b1 placed s p n
        (subst (λ id. Accounted id b1 placed) c (place-Accounted cl tx fuel o1 ps now b1 w (i ∙ h)))

  send-Accounted :
      (cl : Client) (tx : Texts) (fuel : ℕ) (r : OrderRequest) (o : Order) (now : ℕ)
      → (b : LiveBroker) (w : cl.World) → o.exchange_order_id ≡ none
      → Accounted o.client_id b (send cl tx fuel r o now b w)
  unfolding send
  send-Accounted cl tx fuel r o now b w h =
      Ready-Accounted cl tx fuel now o b (build_params cl r o b w) h (build_params-Ready cl r o b w)

  -- An order that `execute` gives back is one of two: its signal is noted as processed, or it is
  -- rejected and carries no order id of the exchange, and the account and the noted signals are
  -- unchanged. In every case the settings stay.
  pub execute-Accounted :
      (cl : Client) (tx : Texts) (fuel : ℕ) (stamp id : String) (r : OrderRequest)
      → (q : Option PriceState) (now : ℕ) (b : LiveBroker) (w : cl.World)
      → Accounted
          (resolved_client_id tx.isoformat stamp "live" r)
          b
          (execute cl tx fuel stamp id r q now b w)
  unfolding execute reject new_order
  execute-Accounted cl tx fuel stamp id r q now b w =
      let c = resolved_client_id tx.isoformat stamp "live" r in
      let o = new_order id c "live" r now in
      let guarded = price_guard cl r.market q now b w in
      either_option (Accounted c b) (assert_live_order_allowed b.settings)
        (either_known (Accounted c b) (is_processed c b.processed)
          (λ seen. (refl, inr (refl, refl, refl, refl)))
          (λ unseen.
            either_option (Accounted c b) guarded.0
              (send-Accounted cl tx fuel r o now b guarded.1 refl)
              (λ e. (refl, inr (refl, refl, refl, refl)))))
        (λ e. (refl, tt))

  -- With the gate closed nothing comes back; with it open and the signal noted, the call is refused.
  execute_closed :
      (cl : Client) (tx : Texts) (fuel : ℕ) (stamp id : String) (r : OrderRequest)
      → (q : Option PriceState) (now : ℕ) (b : LiveBroker) (w : cl.World) (e : LiveTradingDisabled)
      → assert_live_order_allowed b.settings ≡ some e
      → execute cl tx fuel stamp id r q now b w ≡ (raised (trading_disabled e), b, w)
  unfolding execute
  execute_closed cl tx fuel stamp id r q now b w e h = rw (h, execute) refl

  execute_seen :
      (cl : Client) (tx : Texts) (fuel : ℕ) (stamp id : String) (r : OrderRequest)
      → (q : Option PriceState) (now : ℕ) (b : LiveBroker) (w : cl.World)
      → assert_live_order_allowed b.settings ≡ none
      → is_processed (resolved_client_id tx.isoformat stamp "live" r) b.processed ≡ true
      → execute cl tx fuel stamp id r q now b w ≡ (
        returned (
            reject
              (new_order id (resolved_client_id tx.isoformat stamp "live" r) "live" r now)
              duplicate_signal),
        b,
        w,
      )
  unfolding execute
  execute_seen cl tx fuel stamp id r q now b w open_gate seen = rw (open_gate, seen, execute) refl

  gate_was_open :
      (cl : Client) (tx : Texts) (fuel : ℕ) (stamp id : String) (r : OrderRequest)
      → (q : Option PriceState) (now : ℕ) (b : LiveBroker) (w : cl.World) (o : Order)
      → (execute cl tx fuel stamp id r q now b w).0 ≡ returned o
      → assert_live_order_allowed b.settings ≡ none
  gate_was_open cl tx fuel stamp id r q now b w o h =
      elim (Option-cases (assert_live_order_allowed b.settings)) [
        | inl e ↦ e
        | inr (e, closed) ↦
            let raises = ap (λ z. z.0) (execute_closed cl tx fuel stamp id r q now b w e closed) in
            cc
      ]

  noted_of_Told :
      (c : String) (b : LiveBroker) (t : Outcome Order) (b' : LiveBroker) (o : Order)
      → t ≡ returned o
      → o.status ≢ rejected
      → Told c b t b'
      → is_processed c b'.processed ≡ true
  noted_of_Told c b t b' o h alive told = elim (subst (λ x. Told c b x b') h told) [
    | inl noted ↦ noted
    | inr (status, _, _, _) ↦ elim (alive status) [ ]
  ]

  -- Where `execute` gives back an order that is not rejected, one that is UNKNOWN included, a
  -- further call with the same client id on the broker that it left is refused as a duplicate: it
  -- changes nothing in the broker and sends nothing to the exchange, whatever the quote, the time
  -- and the state of the exchange.
  pub execute_again :
      (cl : Client) (tx : Texts) (fuel : ℕ) (stamp id : String) (r : OrderRequest)
      → (q : Option PriceState) (now : ℕ) (b : LiveBroker) (w : cl.World) (o : Order)
      → (execute cl tx fuel stamp id r q now b w).0 ≡ returned o
      → o.status ≢ rejected
      → (fuel' : ℕ) (stamp' id' : String) (q' : Option PriceState) (now' : ℕ) (w' : cl.World)
      → resolved_client_id tx.isoformat stamp' "live" r
        ≡ resolved_client_id tx.isoformat stamp "live" r
      → let b' = (execute cl tx fuel stamp id r q now b w).1 in
        execute cl tx fuel' stamp' id' r q' now' b' w' ≡ (
          returned (
              reject
                (new_order id' (resolved_client_id tx.isoformat stamp' "live" r) "live" r now')
                duplicate_signal),
          b',
          w',
        )
  execute_again cl tx fuel stamp id r q now b w o h alive fuel' stamp' id' q' now' w' same =
      let (settings, told) = execute-Accounted cl tx fuel stamp id r q now b w in
      let first = execute cl tx fuel stamp id r q now b w in
      let noted =
        noted_of_Told (resolved_client_id tx.isoformat stamp "live" r) b first.0 first.1 o h alive
          told in
      execute_seen cl tx fuel' stamp' id' r q' now' first.1 w'
        (ap assert_live_order_allowed settings ∙ gate_was_open cl tx fuel stamp id r q now b w o h)
        (ap (λ c. is_processed c first.1.processed) same ∙ noted)
