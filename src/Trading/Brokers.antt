-- ===== src/Trading/Brokers.antt =====
-- app/trading/engine.py: its two brokers, the paper broker and the live broker, as the engine sees them.
use upbit_auto_trader.Prelude.{ℕ, suc, String, true, false, Option, none, some, List}
use upbit_auto_trader.Float.{Float}
use upbit_auto_trader.Exchange.Client.{Client}
use upbit_auto_trader.Orders.Order.{Order}
use upbit_auto_trader.Orders.Paper as Paper
use upbit_auto_trader.Orders.Paper.{PaperBroker}
use upbit_auto_trader.Live.Broker.{Texts, Outcome, returned, raised, running, LiveBroker}
use upbit_auto_trader.Live.Execute as Live
use upbit_auto_trader.Live.Execute.{Verdict, final_order, pending, broke_off}
use upbit_auto_trader.Live.Accounts as Accounts
use upbit_auto_trader.Live.Accounts.{Reconciled, reconciled, request_failed, bad_markets}
use upbit_auto_trader.Trading.Engine.{FollowUp, broke, still_open, settled, Broker}

module _ ⦃fl : Float⦄ where
  -- The paper broker with the number of orders so far; `uuid` gives the new ids.
  abbrev pub paper_trading : (isoformat uuid : ℕ → String) → Broker
  paper_trading isoformat uuid = record {
    State = ℕ × PaperBroker;
    mode = "paper";
    account = λ s. s.1.portfolio;
    with_account = λ p s. (s.0, record s.1 { portfolio = p });
    execute = λ r price now s.
        let (o, s') = Paper.execute isoformat (uuid s.0) (uuid s.0) r price now s.1 in
        (some o, (suc s.0, s'));
    resolve_order = none;
    reconcile = none;
  }

  abbrev pub order_of : Outcome Order → Option Order
  order_of (returned o) = some o
  order_of (raised _) = none
  order_of running = none

  abbrev pub follow_up_of : Verdict → Order → FollowUp
  follow_up_of final_order o = settled o
  follow_up_of pending o = still_open
  follow_up_of (broke_off _) o = broke

  -- The live broker with the exchange behind its client. `fuel` is the number of rounds of the wait for
  -- a fill.
  abbrev pub live_trading :
      (cl : Client) → Texts → (uuid : ℕ → String) → (fuel : ℕ) → (markets : List String) → Broker
  live_trading cl tx uuid fuel markets = record {
    State = ℕ × LiveBroker × cl.World;
    mode = "live";
    account = λ s. s.1.portfolio;
    with_account = λ p s. (s.0, record s.1 { portfolio = p }, s.2);
    execute = λ r price now s.
        let (out, b, w) = Live.execute cl tx fuel (uuid s.0) (uuid s.0) r price now s.1 s.2 in
        (order_of out, (suc s.0, b, w));
    resolve_order = some (λ o now s.
        let (verdict, o', b, w) = Live.resolve cl o now s.1 s.2 in
        (follow_up_of verdict o', o', (s.0, b, w)));
    reconcile = some (λ prices exclude now s.
        let (out, b, w) = Accounts.reconcile cl markets prices exclude now s.1 s.2 in
        (
          elim out [ reconciled ↦ true | request_failed _ ↦ false | bad_markets ↦ false ],
          (s.0, b, w),
        ));
  }
