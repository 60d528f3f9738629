-- ===== src/Trading/LiveFollowUp.antt =====
-- app/trading/engine.py and app/trading/live_broker.py: the follow-up of the unknown orders when the engine
-- runs on the live broker, whose `resolve` is the one of Live/Execute.antt.
use upbit_auto_trader.Prelude.{
  if◌then◌else◌, ℕ, String, ◌≡◌, refl, ap, true, false, Option, none, some, List, either, Bool,
}
use upbit_auto_trader.Float.{Float}
use upbit_auto_trader.Dict
use upbit_auto_trader.Market.Prices.{seconds_since}
use upbit_auto_trader.Exchange.Models.{OrderInfo, is_final}
use upbit_auto_trader.Exchange.Client.{either_reply, Client, by_uuid, by_identifier}
use upbit_auto_trader.Orders.Order.{
  OrderStatus, new, submitted, filled, partial, cancelled, rejected, unknown, Order, given_id,
  reject,
}
use upbit_auto_trader.Database.Repository.{is_unknown}
use upbit_auto_trader.Live.Broker.{client_barred, LiveBroker, Texts}
use upbit_auto_trader.Live.Submit.{is_not_found}
use upbit_auto_trader.Live.Execute.{
  Verdict, final_order, pending, broke_off, verdict_of, cancel_late, settle_found, resolve_by,
  resolve,
}
use upbit_auto_trader.Trading.Engine.{Engine}
use upbit_auto_trader.Trading.Unresolved.{follow_up, resolve_pending_orders}
use upbit_auto_trader.Trading.Brokers.{live_trading, follow_up_of}
use upbit_auto_trader.Trading.Overdue.{Known, Settles, IsYoung, no_overdue_order}

module _ ⦃fl : Float⦄ where
  -- Where the verdict is that the order is final, its status is known.
  abbrev Final : Verdict → Order → Type 0
  Final final_order o = is_unknown o ≡ false
  Final pending o = Unit {0}
  Final (broke_off _) o = Unit {0}

  abbrev Finals : {W : Type 0} → Verdict × Order × LiveBroker × W → Type 0
  Finals z = Final z.0 z.1

  abbrev unknown_status : OrderStatus → Bool
  unknown_status s = elim s [ unknown ↦ true | _ ↦ false ]

  verdict_of-Final : (s : OrderStatus) (o : Order) → o.status ≡ s → Final (verdict_of s) o
  verdict_of-Final unknown o h = tt
  verdict_of-Final new o h = ap unknown_status h
  verdict_of-Final submitted o h = ap unknown_status h
  verdict_of-Final filled o h = ap unknown_status h
  verdict_of-Final partial o h = ap unknown_status h
  verdict_of-Final cancelled o h = ap unknown_status h
  verdict_of-Final rejected o h = ap unknown_status h

  either_cancelled-Final :
      {W : Type 0} (c d : Bool) (o : Order) (w w' : W)
      → (let z : Verdict × W =
            if c then if d then (pending, w') else (broke_off client_barred, w) else (pending, w) in
          Final z.0 o)
  either_cancelled-Final true true o w w' = tt
  either_cancelled-Final true false o w w' = tt
  either_cancelled-Final false d o w w' = tt

  cancel_late-Final :
      (cl : Client) (o o' : Order) (uuid : String) (now : ℕ) (b : LiveBroker) (w : cl.World)
      → Final (cancel_late cl o uuid now b w).0 o'
  unfolding cancel_late
  cancel_late-Final cl o o' uuid now b w =
      either_cancelled-Final (fl.le b.fill_timeout (seconds_since now o.created_at)) cl.allow_orders
        o' w (cl.cancel_order uuid w).1

  settle_found-Finals :
      (cl : Client) (o : Order) (i : OrderInfo) (now : ℕ) (b : LiveBroker) (w : cl.World)
      → Finals (settle_found cl o i now b w)
  unfolding settle_found
  settle_found-Finals cl order i now b w =
      let o = record order { exchange_order_id = some i.uuid } in
      either Finals (is_final i) (verdict_of-Final _ _ refl)
        (cancel_late-Final cl o o i.uuid now b w)

  resolve_by-Finals :
      (cl : Client) (known ident : Option String) (o : Order) (now : ℕ) (b : LiveBroker)
      → (w : cl.World) → Finals (resolve_by cl known ident o now b w)
  unfolding resolve_by reject
  resolve_by-Finals cl (some uuid) ident o now b w =
      either_reply Finals (cl.get_order (by_uuid uuid) w).0
        (λ i. settle_found-Finals cl o i now b _) (λ f. tt)
  resolve_by-Finals cl none (some i) o now b w =
      either_reply Finals (cl.get_order (by_identifier i) w).0
        (λ info. settle_found-Finals cl o info now b _)
        (λ f. either Finals (is_not_found f) refl tt)
  resolve_by-Finals cl none none o now b w = refl

  follow_up_of-Known :
      (fuel : ℕ) (cl : Client) (tx : Texts) (uuid : ℕ → String) (markets : List String) (now : ℕ)
      (v : Verdict) (o : Order)
      → Final v o
      → Known (live_trading cl tx uuid fuel markets) now (follow_up_of v o)
  follow_up_of-Known fuel cl tx uuid markets now final_order o h = h
  follow_up_of-Known fuel cl tx uuid markets now pending o h = tt
  follow_up_of-Known fuel cl tx uuid markets now (broke_off e) o h = tt

  live_trading-Settles :
      (cl : Client) (tx : Texts) (uuid : ℕ → String) (fuel : ℕ) (markets : List String) (now : ℕ)
      → Settles (live_trading cl tx uuid fuel markets) now
  unfolding follow_up resolve
  live_trading-Settles cl tx uuid fuel markets now o e =
      let (n, b, w) = e.broker in
      let z = resolve cl o now b w in
      follow_up_of-Known fuel cl tx uuid markets now z.0 z.1 (
        resolve_by-Finals cl (given_id o.exchange_order_id) (given_id o.exchange_identifier) o now b
          w)

  -- With the live broker, whatever the exchange answers, every order that still waits after a follow-up
  -- of the unknown orders is younger than pending_max_age.
  live_no_overdue_order :
      (cl : Client) (tx : Texts) (uuid : ℕ → String) (fuel : ℕ) (markets : List String) (now : ℕ)
      (e : Engine (live_trading cl tx uuid fuel markets)) (market : String) (o : Order)
      → Dict.lookup market
          (resolve_pending_orders (live_trading cl tx uuid fuel markets) now e).pending_orders
        ≡ some o
      → IsYoung (live_trading cl tx uuid fuel markets) now o
  live_no_overdue_order cl tx uuid fuel markets now e market o found =
      no_overdue_order (live_trading cl tx uuid fuel markets) now e
        (live_trading-Settles cl tx uuid fuel markets now) market o found
