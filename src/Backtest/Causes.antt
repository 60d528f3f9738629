-- ===== src/Backtest/Causes.antt =====
-- app/backtest/engine.py: where each fill of a candle comes from. A fill by a signal is at the opening
-- of a candle, for the signal of the candle before.
use upbit_auto_trader.Prelude.{
  String, ◌≡◌, refl, sym, Bool, true, false, Option, none, some, List, [], ◌∷◌, ◌++◌, All, either,
}
use mathlib.Core.Path.{subst}
use upbit_auto_trader.Float.{Float, ◌⊕◌, ◌⊖◌, ◌⊗◌, one}
use upbit_auto_trader.Portfolio.Account.{ok, buying, selling, Fill, has_position}
use upbit_auto_trader.Risk.Entries.{Action, buy_now, sell_now, hold, evaluate, RiskDecision}
use upbit_auto_trader.Risk.State.{RiskManager}
use upbit_auto_trader.Backtest.Engine.{
  Bar, Pending, buy_next, sell_next, Run, note_signal, note_action, take_decision, entry_signal,
  begin_bar, step,
}
use upbit_auto_trader.Backtest.Exited.{IsExit}
use upbit_auto_trader.Backtest.Rules.{Ensures, Ensures->>=, Ensures-ok}
use upbit_auto_trader.Backtest.Caused.{
  Cause, waited_buy, waited_sell, exited, ended, AddsTo, Caused, Filled, Filled-then,
  checked-Filled, close_last-Part, value_bar-Part,
}

module _ ⦃fl : Float⦄ where
  -- What waits after a candle, by the action of its signal.
  abbrev WaitsFor : Bar → Option Pending → Type 0
  WaitsFor bar none = Unit {0}
  WaitsFor bar (some (buy_next _)) = bar.action ≡ buy_now
  WaitsFor bar (some sell_next) = bar.action ≡ sell_now

  abbrev SameFills : Bar → Run → Run → Type 0
  SameFills bar r r' = WaitsFor bar r'.pending × (r'.portfolio.fills ≡ r.portfolio.fills)

  decision_waits :
      (bar : Bar) (d : RiskDecision × RiskManager) (r : Run)
      → bar.action ≡ buy_now
      → r.pending ≡ none
      → SameFills bar r (take_decision d r)
  unfolding take_decision
  decision_waits bar (d, m) r h free =
      either (SameFills bar r) d.approved (h, refl) (subst (WaitsFor bar) (sym free) tt, refl)

  action_waits :
      (market strategy : String) (a : Action) (bar : Bar) (r : Run)
      → bar.action ≡ a
      → r.pending ≡ none
      → SameFills bar r (note_action market strategy a bar r)
  unfolding note_action
  action_waits market strategy buy_now bar r h free =
      either (SameFills bar r) (has_position r.portfolio market)
        (subst (WaitsFor bar) (sym free) tt, refl)
        (decision_waits bar
          (evaluate (entry_signal market strategy bar) r.portfolio none bar.time
            (some r.last_equity) r.risk)
          r h free)
  action_waits market strategy sell_now bar r h free =
      either (SameFills bar r) (has_position r.portfolio market) (h, refl)
        (subst (WaitsFor bar) (sym free) tt, refl)
  action_waits market strategy hold bar r h free = (subst (WaitsFor bar) (sym free) tt, refl)

  -- A round adds fills of its candle, each with its cause, and lets wait what its signal says.
  abbrev Rounds : String → fl.Num → Bool → Bar → Run → Run → Type 0
  Rounds market slip last bar r r' =
      WaitsFor bar r'.pending
      × AddsTo market slip last bar r r.pending r.portfolio.fills r'.portfolio.fills

  step-Rounds :
      (market strategy : String) (slip : fl.Num) (last : Bool) (bar : Bar) (r : Run)
      → Ensures (Rounds market slip last bar r) (step market strategy slip last bar r)
  unfolding step note_signal begin_bar
  step-Rounds market strategy slip last bar r =
      let w = r.pending in
      let Goes = Filled market slip last bar r w r in
      Ensures->>= Goes (Rounds market slip last bar r) _ _
        (Ensures->>= Goes Goes _ _
          (Ensures->>= Goes Goes _ _ (checked-Filled market slip last bar r) (λ a h.
            Filled-then market slip last bar r w r a _ h
              (close_last-Part market slip last bar r w a)))
          (λ a h.
            Filled-then market slip last bar r w r a _ h
              (value_bar-Part market slip last bar r w a)))
        (λ a h.
          let (waits, same) = action_waits market strategy bar.action bar a refl h.0 in
          (waits, subst (AddsTo market slip last bar r w r.portfolio.fills) (sym same) h.1))

  -- The cause of a fill of `bar`, by the signal of the candle `prev` before it.
  pub data Origin (market : String) (slip : fl.Num) (last : Bool) (prev bar : Bar) (from : Run)
      (f : Fill) : Type 0 where
    by_buy_signal :
        prev.action ≡ buy_now
        → f.side ≡ buying
        → f.price ≡ bar.opening ⊗ (one ⊕ slip)
        → Origin market slip last prev bar from f
    by_sell_signal :
        prev.action ≡ sell_now
        → f.side ≡ selling
        → f.price ≡ bar.opening ⊗ (one ⊖ slip)
        → Origin market slip last prev bar from f
    by_exit :
        IsExit market slip bar from f → f.side ≡ selling → Origin market slip last prev bar from f
    by_end :
        last ≡ true
        → f.side ≡ selling
        → f.price ≡ bar.closing ⊗ (one ⊖ slip)
        → Origin market slip last prev bar from f

  Cause-Origin :
      (market : String) (slip : fl.Num) (last : Bool) (prev bar : Bar) (from : Run)
      (waiting : Option Pending) (f : Fill)
      → WaitsFor prev waiting
      → Cause market slip last from waiting bar f
      → Origin market slip last prev bar from f
  Cause-Origin market slip last prev bar from waiting f h (waited_buy amount e s p) =
      by_buy_signal (subst (WaitsFor prev) e h) s p
  Cause-Origin market slip last prev bar from waiting f h (waited_sell e s p) =
      by_sell_signal (subst (WaitsFor prev) e h) s p
  Cause-Origin market slip last prev bar from waiting f h (exited x s) = by_exit x s
  Cause-Origin market slip last prev bar from waiting f h (ended e s p) = by_end e s p

  abbrev pub Follows : String → fl.Num → Bool → Bar → Bar → Run → Fill → Type 0
  Follows market slip last prev bar from f =
      (f.time ≡ bar.time) × Origin market slip last prev bar from f

  All-follow :
      (market : String) (slip : fl.Num) (last : Bool) (prev bar : Bar) (from : Run)
      (waiting : Option Pending) (fs : List Fill)
      → WaitsFor prev waiting
      → All (Caused market slip last bar from waiting) fs
      → All (Follows market slip last prev bar from) fs
  All-follow market slip last prev bar from waiting [] h k = tt
  All-follow market slip last prev bar from waiting (f ∷ fs) h ((t, c), k) = (
    (t, Cause-Origin market slip last prev bar from waiting f h c),
    All-follow market slip last prev bar from waiting fs h k,
  )

  -- Of two candles in a row, the second adds only fills at its own time, each of which is one of
  -- these: a purchase or a sale at its opening with the slippage, for a BUY or SELL signal of the
  -- first candle; a sale by an exit that `check_exits` finds for the held position in the low and the
  -- high of the candle, at the better of opening and target, or at the worse of opening and stop less
  -- the slippage; or, in the last candle, a sale at its close less the slippage.
  pub fills_follow_signals :
      (market strategy : String) (slip : fl.Num) (last : Bool) (prev bar : Bar) (r0 r1 r2 : Run)
      → step market strategy slip false prev r0 ≡ ok r1
      → step market strategy slip last bar r1 ≡ ok r2
      → (new : List Fill) × (r2.portfolio.fills ≡ r1.portfolio.fills ++ new)
        × All (Follows market slip last prev bar r1) new
  fills_follow_signals market strategy slip last prev bar r0 r1 r2 h k =
      let (waits, _) =
        Ensures-ok (Rounds market slip false prev r0) _ r1 h
          (step-Rounds market strategy slip false prev r0) in
      let (_, (new, grown, causes)) =
        Ensures-ok (Rounds market slip last bar r1) _ r2 k
          (step-Rounds market strategy slip last bar r1) in
      (new, grown, All-follow market slip last prev bar r1 r1.pending new waits causes)
