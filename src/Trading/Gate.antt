-- ===== src/Trading/Gate.antt =====
-- app/trading/engine.py: what has to hold before the order of a signal goes to the broker.
use upbit_auto_trader.Prelude.{
  ℕ, suc, String, ◌≡◌, refl, Bool, true, false, ◌&&◌, Option, none, some, ◌⊎◌, inl, inr, arith,
  either_known, if◌then◌else◌,
}
use mathlib.Core.Bool.{false≢true}
use upbit_auto_trader.Float.{Float}
use upbit_auto_trader.Dict
use upbit_auto_trader.Risk.Entries.{Signal, RiskDecision, evaluate}
use upbit_auto_trader.Market.Prices.{PriceState}
use upbit_auto_trader.Orders.Order.{Order}
use upbit_auto_trader.Database.Repository.{has_signal, save_signal, Repository}
use upbit_auto_trader.Notify.Event.{buy, sell}
use upbit_auto_trader.Trading.Engine.{Broker, Engine, Ended, portfolio_of, current_equity, notify}
use upbit_auto_trader.Trading.Signals.{
  is_actionable, is_buy, signal_request, take_in, is_kept_off, after_order, send_order, decided,
  put_to_risk, act_on, on_signal,
}
use upbit_auto_trader.Trading.Kept.{record_order-Keeps}

module _ ⦃fl : Float⦄ (b : Broker) where
  -- The risk manager's decision on the signal.
  abbrev pub decision_on : Signal → ℕ → Engine b → RiskDecision
  decision_on s now e =
      (evaluate s (portfolio_of b e) (Dict.lookup s.market e.market.prices) now (current_equity b e)
        e.risk).0

  -- What the broker becomes by the order of the signal.
  abbrev pub ordered : Signal → ℕ → Engine b → b.State
  ordered s now e =
      (b.execute (signal_request b s (decision_on s now e)) (Dict.lookup s.market e.market.prices)
        now e.broker).1

  -- What holds of a signal that goes to the broker.
  pub record IsCleared (s : Signal) (now : ℕ) (e : Engine b) : Type 0 where
    pub is_new : has_signal e.settings.interval s e.repo.signals ≡ false
    pub asks : is_actionable s.action ≡ true
    pub buys_unpaused : is_buy s.action ≡ true → e.paused ≡ false
    pub buys_safely : is_buy s.action ≡ true → e.safe_mode ≡ false
    pub nothing_pending : Dict.contains s.market e.pending_orders ≡ false
    pub is_approved : (decision_on s now e).approved ≡ true

  -- The broker is as before, or the signal was cleared and its order is what the broker saw.
  abbrev pub Gated : Signal → ℕ → Engine b → b.State → Type 0
  Gated s now e state = (state ≡ e.broker) ⊎ (IsCleared s now e × (state ≡ ordered s now e))

  after_order-broker :
      (now : ℕ) (reply : Option Order × b.State) (e : Engine b)
      → (after_order b now reply e).1.broker ≡ reply.1
  unfolding after_order
  after_order-broker now (none, s) e = refl
  after_order-broker now (some o, s) e = (record_order-Keeps b o now (record e { broker = s })).0

  -- The order of a decision, where it is approved.
  abbrev Decided : Signal → RiskDecision → Option PriceState → ℕ → Engine b → b.State → Type 0
  Decided s d price now e state =
      (state ≡ e.broker)
      ⊎ ((d.approved ≡ true) × (state ≡ (b.execute (signal_request b s d) price now e.broker).1))

  decided-broker :
      (s : Signal) (d : RiskDecision) (price : Option PriceState) (now : ℕ) (e : Engine b)
      → Decided s d price now e (decided b s d price now e).1.broker
  unfolding decided send_order
  decided-broker s d price now e =
      either_known (λ (out : Ended × Engine b). Decided s d price now e out.1.broker) d.approved
        (λ approved. inr (
          approved,
          after_order-broker now (b.execute (signal_request b s d) price now e.broker)
              (notify b (if is_buy s.action then buy else sell) e),
        ))
        (λ refused. inl refl)

  put_to_risk-broker :
      (s : Signal) (now : ℕ) (e : Engine b)
      → Decided s
          (decision_on s now e)
          (Dict.lookup s.market e.market.prices)
          now
          e
          (put_to_risk b s now e).1.broker
  unfolding put_to_risk
  put_to_risk-broker s now e =
      let price = Dict.lookup s.market e.market.prices in
      let judged = evaluate s (portfolio_of b e) price now (current_equity b e) e.risk in
      decided-broker s judged.0 price now (record e { risk = judged.1 })

  save_signal-new :
      (interval : String) (s : Signal) (r : Repository)
      → (save_signal interval s r).0 ≡ true
      → has_signal interval s r.signals ≡ false
  unfolding save_signal
  save_signal-new interval s r =
      either_known
        (λ (out : Bool × Repository). out.0 ≡ true → has_signal interval s r.signals ≡ false)
        (has_signal interval s r.signals) (λ old e. elim (false≢true e) [ ]) (λ fresh e. fresh)

  abbrev counted : Engine b → Engine b
  counted e = record e {
    stats = record e.stats { actionable_signals = suc e.stats.actionable_signals };
  }

  -- An order for a signal goes to the broker only if the signal is new, asks for a purchase or a sale,
  -- is no purchase while the engine is paused or in safe mode, has no unresolved order in its market
  -- and is approved by the risk manager; and what the broker then executes is the request made of the
  -- signal and the decision.
  pub on_signal_gate :
      (s : Signal) (now : ℕ) (e : Engine b) → Gated s now e (on_signal b s now e).1.broker
  unfolding on_signal take_in act_on is_kept_off current_equity
  on_signal_gate s now e =
      let Goes = λ (out : Ended × Engine b). Gated s now e out.1.broker in
      let (saved, e') = take_in b s e in
      either_known Goes (saved && is_actionable s.action)
        (λ wanted.
          either_known Goes (is_kept_off b s e') (λ kept. inl refl)
            (λ free. elim (put_to_risk-broker s now (counted e')) [
              | inl same ↦ inl same
              | inr (approved, state) ↦ inr (
                record {
                  is_new = save_signal-new e.settings.interval s e.repo (ground arith);
                  asks = ground arith;
                  buys_unpaused = λ h. ground arith;
                  buys_safely = λ h. ground arith;
                  nothing_pending = ground arith;
                  is_approved = approved;
                },
                state,
              )
            ]))
        (λ unwanted. inl refl)
