-- ===== src/Trading/Once.antt =====
-- app/trading/engine.py: a signal that was taken in, in this session or before a restart, reaches the
-- broker no second time.
use mathlib.Core.Bool.{false≢true}
use upbit_auto_trader.Prelude.{
  ℕ, suc, String, ◌≡◌, refl, sym, ap, ◌∙◌, Bool, true, ◌&&◌, Option, none, some, List, [], ◌∷◌,
  ◌++◌, inl, inr, arith, either, either_known, str_eq, ◌==◌, if◌then◌else◌, eq_refl,
}
use upbit_auto_trader.Float.{Float}
use upbit_auto_trader.Dict
use upbit_auto_trader.Risk.Entries.{Signal, RiskDecision, evaluate}
use upbit_auto_trader.Market.Prices.{PriceState}
use upbit_auto_trader.Orders.Order.{Order}
use upbit_auto_trader.Database.Repository.{
  SignalRecord, has_signal, is_same_signal, save_signal, Repository,
}
use upbit_auto_trader.Notify.Event.{buy, sell}
use upbit_auto_trader.Trading.Engine.{Broker, Engine, Ended, portfolio_of, current_equity, notify}
use upbit_auto_trader.Trading.Signals.{
  is_actionable, is_buy, signal_request, take_in, is_kept_off, after_order, send_order, decided,
  put_to_risk, act_on, on_signal,
}
use upbit_auto_trader.Trading.Kept.{Covers, record_order-Keeps}
use upbit_auto_trader.Trading.Gate.{on_signal_gate}

module _ ⦃fl : Float⦄ where
  same_four :
      {a a' c c' : String} {n n' : ℕ} {x x' : Bool}
      → a ≡ a'
      → c ≡ c'
      → n ≡ n'
      → x ≡ x'
      → ◌≡◌ {A = String × String × ℕ × Bool} (a, c, n, x) (a', c', n', x')
  same_four e f g h = cc

  has_signal-append :
      (interval : String) (s : Signal) (rows more : List SignalRecord)
      → has_signal interval s rows ≡ true
      → has_signal interval s (rows ++ more) ≡ true
  unfolding has_signal
  has_signal-append interval s [] more h = elim (false≢true h) [ ]
  has_signal-append interval s (row ∷ rows) more h =
      ground (arith, has_signal-append interval s rows more)

  -- The test reads no more of a signal than its market, strategy and time.
  has_signal_same :
      (interval : String) (s s' : Signal) (rows : List SignalRecord)
      → s'.market ≡ s.market
      → s'.strategy ≡ s.strategy
      → s'.time ≡ s.time
      → has_signal interval s' rows ≡ has_signal interval s rows
  unfolding has_signal is_same_signal
  has_signal_same interval s s' [] market strategy time = refl
  has_signal_same interval s s' (row ∷ rows) market strategy time =
      let ih = has_signal_same interval s s' rows market strategy time in
      ap
        (λ (x : String × String × ℕ × Bool).
          if str_eq row.signal.market x.0
            && str_eq row.interval interval
            && str_eq row.signal.strategy x.1
            && row.signal.time == x.2
          then true
          else x.3)
        (same_four market strategy time ih)

  has_signal-last :
      (interval : String) (s : Signal) (rows : List SignalRecord) (row : SignalRecord)
      → is_same_signal interval s row ≡ true
      → has_signal interval s (rows ++ row ∷ []) ≡ true
  unfolding has_signal
  has_signal-last interval s [] row h = ground arith
  has_signal-last interval s (r ∷ rows) row h =
      ground (arith, has_signal-last interval s rows row h)

  same_signal_refl :
      (interval : String) (s : Signal)
      → is_same_signal interval s (record { interval = interval; signal = s }) ≡ true
  unfolding is_same_signal
  same_signal_refl interval s =
      ground (arith, eq_refl s.market, eq_refl interval, eq_refl s.strategy)

  -- A signal that was put to the repository is there.
  save_signal-has :
      (interval : String) (s : Signal) (r : Repository)
      → has_signal interval s (save_signal interval s r).1.signals ≡ true
  unfolding save_signal
  save_signal-has interval s r =
      either_known (λ (out : Bool × Repository). has_signal interval s out.1.signals ≡ true)
        (has_signal interval s r.signals) (λ old. old)
        (λ fresh. has_signal-last interval s r.signals _ (same_signal_refl interval s))

  module _ (b : Broker) where
    -- The orders that waited wait, and the saved signals are these.
    abbrev Leaves : Engine b → List SignalRecord → Engine b → Type 0
    Leaves e rows e' = (e'.repo.signals ≡ rows) × Covers b e.pending_orders e'.pending_orders

    after_order-Leaves :
        (now : ℕ) (reply : Option Order × b.State) (e : Engine b)
        → Leaves e e.repo.signals (after_order b now reply e).1
    unfolding after_order
    after_order-Leaves now (none, s) e = (refl, λ k h. h)
    after_order-Leaves now (some o, s) e =
        let kept = record_order-Keeps b o now (record e { broker = s }) in (kept.1, kept.5)

    decided-Leaves :
        (s : Signal) (d : RiskDecision) (price : Option PriceState) (now : ℕ) (e : Engine b)
        → Leaves e e.repo.signals (decided b s d price now e).1
    unfolding decided send_order
    decided-Leaves s d price now e =
        either (λ (out : Ended × Engine b). Leaves e e.repo.signals out.1) d.approved
          (after_order-Leaves now (b.execute (signal_request b s d) price now e.broker)
            (notify b (if is_buy s.action then buy else sell) e))
          (refl, λ k h. h)

    put_to_risk-Leaves :
        (s : Signal) (now : ℕ) (e : Engine b) → Leaves e e.repo.signals (put_to_risk b s now e).1
    unfolding put_to_risk
    put_to_risk-Leaves s now e =
        let price = Dict.lookup s.market e.market.prices in
        let judged = evaluate s (portfolio_of b e) price now (current_equity b e) e.risk in
        decided-Leaves s judged.0 price now (record e { risk = judged.1 })

    abbrev counted : Engine b → Engine b
    counted e = record e {
      stats = record e.stats { actionable_signals = suc e.stats.actionable_signals };
    }

    pub on_signal-Leaves :
        (s : Signal) (now : ℕ) (e : Engine b)
        → Leaves e (save_signal e.settings.interval s e.repo).1.signals (on_signal b s now e).1
    unfolding on_signal take_in act_on
    on_signal-Leaves s now e =
        let taken = take_in b s e in
        let Same = λ (out : Ended × Engine b).
          Leaves e (save_signal e.settings.interval s e.repo).1.signals out.1 in
        either Same (taken.0 && is_actionable s.action)
          (either Same (is_kept_off b s taken.1) (refl, λ k h. h)
            (put_to_risk-Leaves s now (counted taken.1)))
          (refl, λ k h. h)

    -- A second signal of the same market, strategy and candle time, on an engine of the same interval
    -- that has the signals which the first left saved and any others, leaves the broker as it is,
    -- whatever became of the first and whatever else has changed.
    pub on_signal_once :
        (s s' : Signal) (now later : ℕ) (e e' : Engine b) (more : List SignalRecord)
        → e'.repo.signals ≡ (on_signal b s now e).1.repo.signals ++ more
        → e'.settings.interval ≡ e.settings.interval
        → s'.market ≡ s.market
        → s'.strategy ≡ s.strategy
        → s'.time ≡ s.time
        → (on_signal b s' later e').1.broker ≡ e'.broker
    on_signal_once s s' now later e e' more saved interval market strategy time =
        elim (on_signal_gate b s' later e') [
          | inl same ↦ same
          | inr (cleared, _) ↦
              let old : has_signal e'.settings.interval s' e'.repo.signals ≡ true =
                ap (λ i. has_signal i s' e'.repo.signals) interval
                ∙ has_signal_same e.settings.interval s s' e'.repo.signals market strategy time
                ∙ ap (has_signal e.settings.interval s)
                    (saved ∙ ap (λ l. l ++ more) ((on_signal-Leaves s now e).0))
                ∙ has_signal-append e.settings.interval s
                    (save_signal e.settings.interval s e.repo).1.signals more
                    (save_signal-has e.settings.interval s e.repo) in
              elim (false≢true (sym cleared.is_new ∙ old)) [ ]
        ]
