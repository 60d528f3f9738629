-- ===== src/Live/Ends.antt =====
-- app/trading/live_broker.py: the wait for the fill ends, and so does `execute`.
use upbit_auto_trader.Prelude.{
  ℕ, zero, suc, String, ◌≡◌, ◌≢◌, refl, false, Option, either, either_known, either_option, arith,
}
use upbit_auto_trader.Float.{Float, ◌⊕◌, nil}
use upbit_auto_trader.Market.Prices.{PriceState}
use upbit_auto_trader.Exchange.Models.{OrderInfo, is_final}
use upbit_auto_trader.Exchange.Client.{
  api, unreachable, garbled, Reply, answer, failed, either_reply, OrderParams, Client, by_uuid,
}
use upbit_auto_trader.Orders.Guard.{assert_live_order_allowed}
use upbit_auto_trader.Orders.Order.{
  OrderRequest, Order, resolved_client_id, is_processed, reject, not_prepared,
}
use upbit_auto_trader.Live.Broker.{
  Texts, LiveBroker, price_guard, build_params, Prepared, params, unprepared, Outcome, returned,
  running,
}
use upbit_auto_trader.Live.Submit.{Submission, created, missing, unconfirmed, refused, escaped}
use upbit_auto_trader.Live.Settle.{
  Waited, settled, broken, stopped, spent, look, waits, poll, after_cancel, cancel_and_look,
  give_up, with_trades, wait_for_fill,
}
use upbit_auto_trader.Live.Execute.{finish, after_attempts, place, send, execute}

module _ ⦃fl : Float⦄ where
  -- The time that the loop has added up after `n` further intervals.
  unfoldable pub elapsed_after : ℕ → fl.Num → fl.Num → fl.Num
  elapsed_after zero t step = t
  elapsed_after (suc n) t step = elapsed_after n (t ⊕ step) step

  abbrev Stops : {W : Type 0} → Waited × W → Type 0
  Stops z = z.0 ≢ spent

  poll-Stops :
      (cl : Client) (u : String) (n : ℕ) (t : fl.Num) (i : OrderInfo) (b : LiveBroker)
      → (w : cl.World) → fl.lt (elapsed_after n t b.poll_interval) b.fill_timeout ≡ false
      → Stops (poll cl u n t i b w)
  unfolding poll elapsed_after
  poll-Stops cl u zero t i b w h =
      either_known Stops (waits i t b) (λ e. ground arith) (λ e. ground arith)
  poll-Stops cl u (suc n) t i b w h =
      either Stops (waits i t b)
        (either_reply Stops (cl.get_order (by_uuid u) (cl.sleep b.poll_interval w)).0
          (λ next. poll-Stops cl u n (t ⊕ b.poll_interval) next b _ h) (λ f. ground arith))
        (ground arith)

  look-Stops : (cl : Client) (u : String) (w : cl.World) → Stops (look cl u w)
  look-Stops cl u w =
      either_reply Stops (cl.get_order (by_uuid u) w).0 (λ a. ground arith) (λ f. ground arith)

  after_cancel-Stops :
      (cl : Client) (u : String) (b : LiveBroker) (r : Reply OrderInfo) (w : cl.World)
      → Stops (after_cancel cl u b r w)
  unfolding after_cancel
  after_cancel-Stops cl u b (answer _) w = look-Stops cl u (cl.sleep b.poll_interval w)
  after_cancel-Stops cl u b (failed (api _ _)) w = look-Stops cl u (cl.sleep b.poll_interval w)
  after_cancel-Stops cl u b (failed unreachable) w = ground arith
  after_cancel-Stops cl u b (failed garbled) w = ground arith

  give_up-Stops :
      (cl : Client) (u : String) (b : LiveBroker) (z : Waited × cl.World)
      → Stops z
      → Stops (give_up cl u b z)
  unfolding give_up cancel_and_look
  give_up-Stops cl u b (settled i, w) h =
      either Stops (is_final i) (ground arith)
        (either Stops cl.allow_orders (after_cancel-Stops cl u b _ _) (ground arith))
  give_up-Stops cl u b (broken f, w) h = h
  give_up-Stops cl u b (stopped e, w) h = h
  give_up-Stops cl u b (spent, w) h = h

  with_trades-Stops :
      (cl : Client) (b : LiveBroker) (z : Waited × cl.World) → Stops z → Stops (with_trades cl b z)
  unfolding with_trades
  with_trades-Stops cl b (settled i, w) h = ground arith
  with_trades-Stops cl b (broken f, w) h = h
  with_trades-Stops cl b (stopped e, w) h = h
  with_trades-Stops cl b (spent, w) h = h

  abbrev pub EnoughFuel : ℕ → LiveBroker → Type 0
  EnoughFuel n b = fl.lt (elapsed_after n nil b.poll_interval) b.fill_timeout ≡ false

  wait-Stops :
      (cl : Client) (n : ℕ) (i : OrderInfo) (b : LiveBroker) (w : cl.World)
      → EnoughFuel n b
      → Stops (wait_for_fill cl n i b w)
  unfolding wait_for_fill
  wait-Stops cl n i b w h =
      with_trades-Stops cl b _ (give_up-Stops cl i.uuid b _ (poll-Stops cl i.uuid n nil i b w h))

  abbrev pub Ended : {A B W : Type 0} → Outcome A × B × W → Type 0
  Ended z = z.0 ≢ running

  finish_ends :
      {W : Type 0} (o : Order) (i : OrderInfo) (now : ℕ) (b : LiveBroker) (z : Waited × W)
      → Stops z
      → Ended (finish o i now b z)
  unfolding finish
  finish_ends o i now b (settled f, w) h = ground arith
  finish_ends o i now b (broken f, w) h = ground arith
  finish_ends o i now b (stopped e, w) h = ground arith
  finish_ends o i now b (spent, w) h = elim (h refl) [ ]

  after_attempts_ends :
      (cl : Client) (n : ℕ) (o : Order) (now : ℕ) (b : LiveBroker) (s : Submission) (w : cl.World)
      → EnoughFuel n b
      → Ended (after_attempts cl n o now b s w)
  unfolding after_attempts
  after_attempts_ends cl n o now b (created i) w h =
      finish_ends _ i now _ _ (wait-Stops cl n i _ w h)
  after_attempts_ends cl n o now b (missing i) w h = ground arith
  after_attempts_ends cl n o now b (unconfirmed i) w h = ground arith
  after_attempts_ends cl n o now b (refused e) w h = ground arith
  after_attempts_ends cl n o now b (escaped e) w h = ground arith

  place_ends :
      (cl : Client) (tx : Texts) (n : ℕ) (o : Order) (ps : OrderParams) (now : ℕ)
      → (b : LiveBroker) (w : cl.World) → EnoughFuel n b
      → Ended (place cl tx n o ps now b w)
  unfolding place
  place_ends cl tx n o ps now b w h = after_attempts_ends cl n _ now b _ _ h

  ready_ends :
      (cl : Client) (tx : Texts) (n : ℕ) (now : ℕ)
      → (z : (Prepared × Order) × LiveBroker × cl.World) → EnoughFuel n z.1
      → Ended (elim z.0.0 as (λ _. Outcome Order × LiveBroker × cl.World) [
        | unprepared e ↦ (returned (reject z.0.1 (not_prepared e)), z.1, z.2)
        | params ps ↦ place cl tx n z.0.1 ps now z.1 z.2
      ])
  ready_ends cl tx n now ((unprepared e, o), b, w) h = ground arith
  ready_ends cl tx n now ((params ps, o), b, w) h = place_ends cl tx n o ps now b w h

  abbrev KeepsFuel : ℕ → {A W : Type 0} → A × LiveBroker × W → Type 0
  KeepsFuel n z = EnoughFuel n z.1

  send_ends :
      (cl : Client) (tx : Texts) (n : ℕ) (r : OrderRequest) (o : Order) (now : ℕ)
      → (b : LiveBroker) (w : cl.World) → EnoughFuel n b
      → Ended (send cl tx n r o now b w)
  unfolding send build_params
  send_ends cl tx n r o now b w h =
      ready_ends cl tx n now _
        (either_reply (KeepsFuel n) (cl.get_order_chance r.market w).0 (λ c. h) (λ f. h))

  -- Where `n` intervals added up reach the time limit for a fill, `n` rounds of the waiting loop
  -- are enough: `execute` gives back an order or raises, whatever the exchange answers.
  pub execute_ends :
      (cl : Client) (tx : Texts) (n : ℕ) (stamp id : String) (r : OrderRequest)
      → (q : Option PriceState) (now : ℕ) (b : LiveBroker) (w : cl.World) → EnoughFuel n b
      → (execute cl tx n stamp id r q now b w).0 ≢ running
  unfolding execute
  execute_ends cl tx n stamp id r q now b w h =
      let guarded = price_guard cl r.market q now b w in
      either_option Ended (assert_live_order_allowed b.settings)
        (either Ended (is_processed (resolved_client_id tx.isoformat stamp "live" r) b.processed)
          (ground arith)
          (either_option Ended guarded.0 (send_ends cl tx n r _ now b guarded.1 h)
            (λ e. ground arith)))
        (λ e. ground arith)
