-- ===== src/Live/Record.antt =====
-- app/trading/live_broker.py: a client that keeps a record of the orders that it was asked to
-- create, for the theorems on what is sent. Every other call leaves the record alone.
use upbit_auto_trader.Prelude.{
  ℕ, zero, suc, String, ◌≡◌, refl, ◌∙◌, not, ◌||◌, either, Option, none, some, List, ◌∷◌,
}
use upbit_auto_trader.Float.{Float, nil}
use upbit_auto_trader.Market.Prices.{PriceState}
use upbit_auto_trader.Exchange.Models.{OrderInfo, has_trades, is_final, positive}
use upbit_auto_trader.Exchange.Client.{
  api, unreachable, garbled, Reply, answer, failed, either_reply, OrderParams, Client, by_uuid,
  by_identifier,
}
use upbit_auto_trader.Orders.Order.{OrderError, Order, OrderRequest}
use upbit_auto_trader.Live.Broker.{LiveBroker, price_guard, ticker_verdict, Prepared, build_params}
use upbit_auto_trader.Live.Submit.{lookups, pause, confirm_by_identifier}
use upbit_auto_trader.Live.Settle.{
  Waited, settled, broken, stopped, spent, refresh_trades, look, waits, poll, cancel_and_look,
  after_cancel, give_up, with_trades, wait_for_fill,
}

module _ ⦃fl : Float⦄ where
  -- The orders that were sent with their answers, the last one first.
  abbrev pub Sent : Type 0
  Sent = List (OrderParams × Reply OrderInfo)

  abbrev keep : {A W : Type 0} → (W → A × W) → Sent × W → A × (Sent × W)
  keep f v = let r = f v.1 in (r.0, (v.0, r.1))

  abbrev keep_ticker :
      {W : Type 0}
      → Option (String → W → Reply (Option fl.Num) × W)
      → Option (String → Sent × W → Reply (Option fl.Num) × (Sent × W))
  keep_ticker none = none
  keep_ticker (some fetch) = some (λ market. keep (fetch market))

  abbrev create_logged :
      (cl : Client) → OrderParams → Sent × cl.World → Reply OrderInfo × (Sent × cl.World)
  create_logged cl ps v = let r = cl.create_order ps v.1 in (r.0, ((ps, r.0) ∷ v.0, r.1))

  abbrev sleep_logged : (cl : Client) → fl.Num → Sent × cl.World → Sent × cl.World
  sleep_logged cl t v = (v.0, cl.sleep t v.1)

  abbrev pub recorded : Client → Client
  recorded cl = record {
    World = Sent × cl.World;
    allow_orders = cl.allow_orders;
    create_order = create_logged cl;
    get_order = λ key. keep (cl.get_order key);
    cancel_order = λ uuid. keep (cl.cancel_order uuid);
    get_order_chance = λ market. keep (cl.get_order_chance market);
    get_ticker = keep_ticker cl.get_ticker;
    get_accounts = keep cl.get_accounts;
    sleep = sleep_logged cl;
  }

  -- The record after a call is the one given.
  abbrev pub Keeps : {A W : Type 0} → Sent → A × (Sent × W) → Type 0
  Keeps log z = z.1.0 ≡ log

  pause_log :
      (cl : Client) (n : ℕ) (delay : fl.Num) (v : Sent × cl.World)
      → (pause (recorded cl) n delay v).0 ≡ v.0
  pause_log cl zero delay v = refl
  pause_log cl (suc n) delay v = refl

  lookups_log :
      (cl : Client) (i : String) (left nf : ℕ) (delay : fl.Num) (b : LiveBroker)
      → (v : Sent × cl.World) → (lookups (recorded cl) i left nf delay b v).1.0 ≡ v.0
  unfolding lookups
  lookups_log cl i zero nf delay b v = refl
  lookups_log cl i (suc left) nf delay b v =
      either_reply (Keeps v.0) (cl.get_order (by_identifier i) v.1).0 (λ info. refl)
        (λ f. lookups_log cl i left _ _ b _ ∙ pause_log cl left delay _)

  pub confirm_log :
      (cl : Client) (i : String) (b : LiveBroker) (v : Sent × cl.World)
      → (confirm_by_identifier (recorded cl) i b v).1.0 ≡ v.0
  unfolding confirm_by_identifier
  confirm_log cl i b v = lookups_log cl i b.lookup_attempts 0 b.lookup_backoff b v

  refresh_log :
      (cl : Client) (u : String) (n : ℕ) (i : OrderInfo) (b : LiveBroker) (v : Sent × cl.World)
      → (refresh_trades (recorded cl) u n i b v).1.0 ≡ v.0
  unfolding refresh_trades
  refresh_log cl u zero i b v = refl
  refresh_log cl u (suc n) i b v =
      either (Keeps v.0) (has_trades i || not (positive i.executed_volume)) refl (
        either_reply (Keeps v.0) (cl.get_order (by_uuid u) (cl.sleep b.poll_interval v.1)).0
          (λ next. refresh_log cl u n next b _) (λ f. refl))

  look_log : (cl : Client) (u : String) (v : Sent × cl.World) → (look (recorded cl) u v).1.0 ≡ v.0
  look_log cl u v =
      either_reply (Keeps v.0) (cl.get_order (by_uuid u) v.1).0 (λ a. refl) (λ f. refl)

  poll_log :
      (cl : Client) (u : String) (n : ℕ) (t : fl.Num) (i : OrderInfo) (b : LiveBroker)
      → (v : Sent × cl.World) → (poll (recorded cl) u n t i b v).1.0 ≡ v.0
  unfolding poll
  poll_log cl u zero t i b v = either (Keeps v.0) (waits i t b) refl refl
  poll_log cl u (suc n) t i b v =
      either (Keeps v.0) (waits i t b)
        (either_reply (Keeps v.0) (cl.get_order (by_uuid u) (cl.sleep b.poll_interval v.1)).0
          (λ next. poll_log cl u n _ next b _) (λ f. refl))
        refl

  after_cancel_log :
      (cl : Client) (u : String) (b : LiveBroker) (r : Reply OrderInfo) (v : Sent × cl.World)
      → (after_cancel (recorded cl) u b r v).1.0 ≡ v.0
  unfolding after_cancel
  after_cancel_log cl u b (answer _) v = look_log cl u (sleep_logged cl b.poll_interval v)
  after_cancel_log cl u b (failed (api _ _)) v = look_log cl u (sleep_logged cl b.poll_interval v)
  after_cancel_log cl u b (failed unreachable) v = refl
  after_cancel_log cl u b (failed garbled) v = refl

  give_up_log :
      (cl : Client) (u : String) (b : LiveBroker) (z : Waited × (Sent × cl.World))
      → (give_up (recorded cl) u b z).1.0 ≡ z.1.0
  unfolding give_up cancel_and_look
  give_up_log cl u b (settled i, v) = either (Keeps v.0) (is_final i) refl (
      either (Keeps v.0) cl.allow_orders
        (after_cancel_log cl u b (cl.cancel_order u v.1).0 (v.0, (cl.cancel_order u v.1).1)) refl)
  give_up_log cl u b (broken f, v) = refl
  give_up_log cl u b (stopped e, v) = refl
  give_up_log cl u b (spent, v) = refl

  with_trades_log :
      (cl : Client) (b : LiveBroker) (z : Waited × (Sent × cl.World))
      → (with_trades (recorded cl) b z).1.0 ≡ z.1.0
  unfolding with_trades
  with_trades_log cl b (settled i, v) = refresh_log cl i.uuid b.trades_lookup_attempts i b v
  with_trades_log cl b (broken f, v) = refl
  with_trades_log cl b (stopped e, v) = refl
  with_trades_log cl b (spent, v) = refl

  -- The wait for the fill sends no order.
  pub wait_for_fill_log :
      (cl : Client) (fuel : ℕ) (i : OrderInfo) (b : LiveBroker) (v : Sent × cl.World)
      → (wait_for_fill (recorded cl) fuel i b v).1.0 ≡ v.0
  unfolding wait_for_fill
  wait_for_fill_log cl fuel i b v =
      with_trades_log cl b _ ∙ give_up_log cl i.uuid b _ ∙ poll_log cl i.uuid fuel nil i b v

  guard_ticker :
      {W : Type 0} (t : Option (String → W → Reply (Option fl.Num) × W)) (m : String)
      → (v : Sent × W)
      → (elim (keep_ticker t) as (λ _. Option OrderError × (Sent × W)) [
        | none ↦ (none, v)
        | some fetch ↦ (ticker_verdict (fetch m v).0, (fetch m v).1)
      ]).1.0
        ≡ v.0
  guard_ticker none m v = refl
  guard_ticker (some fetch) m v = refl

  pub price_guard_log :
      (cl : Client) (m : String) (q : Option PriceState) (now : ℕ) (b : LiveBroker)
      → (v : Sent × cl.World) → (price_guard (recorded cl) m q now b v).1.0 ≡ v.0
  unfolding price_guard
  price_guard_log cl m (some q) now b v = refl
  price_guard_log cl m none now b v = guard_ticker cl.get_ticker m v

  pub build_params_log :
      (cl : Client) (r : OrderRequest) (o : Order) (b : LiveBroker) (v : Sent × cl.World)
      → (build_params (recorded cl) r o b v).2.0 ≡ v.0
  unfolding build_params
  build_params_log cl r o b v =
      either_reply (λ (z : (Prepared × Order) × LiveBroker × (Sent × cl.World)). z.2.0 ≡ v.0)
        (cl.get_order_chance r.market v.1).0 (λ c. refl) (λ f. refl)
