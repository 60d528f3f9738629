-- ===== src/Backtest/Caused.antt =====
-- app/backtest/engine.py: what each part of the round of a candle adds to the fills, with its cause.
use upbit_auto_trader.Prelude.{
  String, ◌≡◌, refl, ◌∙◌, ap, sym, Bool, true, Option, none, some, List, [], ◌∷◌, ◌++◌, All, either,
  either_known, either_option_known, arith, ◌&&◌,
}
use mathlib.Core.Path.{subst}
use mathlib.Core.List.{append_assoc, append-nil}
use upbit_auto_trader.Float.{Float, ◌⊕◌, ◌⊖◌, ◌⊗◌, one}
use upbit_auto_trader.Portfolio.Account.{
  Result, ok, err, buying, selling, Fill, Position, position, has_position, equity,
}
use upbit_auto_trader.Portfolio.Trading.{settle_buy, settle_sell}
use upbit_auto_trader.Risk.Exits.{ExitCheck, check_exits}
use upbit_auto_trader.Backtest.Engine.{
  ◌>>=◌, Bar, Pending, buy_next, sell_next, Run, record_new_trades, sell_out, fill_one,
  fill_pending, exit_price, exit_text, after_check, watch_exits, close_last, value_bar, begin_bar,
}
use upbit_auto_trader.Backtest.Exited.{IsExitPrice, exit_price-IsExitPrice, IsExit}
use upbit_auto_trader.Backtest.Rules.{
  Ensures, Ensures-known, anything, Ensures->>=, All-append, sell_out_rule, bought_rule,
}

module _ ⦃fl : Float⦄ where
  -- Why a fill of `bar` was made: the order that waited, an exit, or the end.
  pub data Cause (market : String) (slip : fl.Num) (last : Bool) (from : Run)
      (waiting : Option Pending) (bar : Bar) (f : Fill) : Type 0 where
    waited_buy :
        (amount : Option fl.Num)
        → waiting ≡ some (buy_next amount)
        → f.side ≡ buying
        → f.price ≡ bar.opening ⊗ (one ⊕ slip)
        → Cause market slip last from waiting bar f
    waited_sell :
        waiting ≡ some sell_next
        → f.side ≡ selling
        → f.price ≡ bar.opening ⊗ (one ⊖ slip)
        → Cause market slip last from waiting bar f
    exited :
        IsExit market slip bar from f → f.side ≡ selling → Cause market slip last from waiting bar f
    ended :
        last ≡ true
        → f.side ≡ selling
        → f.price ≡ bar.closing ⊗ (one ⊖ slip)
        → Cause market slip last from waiting bar f

  module _ (market : String) (slip : fl.Num) (last : Bool) (bar : Bar) (from : Run) where
    abbrev pub Caused : Option Pending → Fill → Type 0
    Caused waiting f = (f.time ≡ bar.time) × Cause market slip last from waiting bar f

    -- From `r` to `r'` fills of this candle were added.
    abbrev Adds : Option Pending → Run → Run → Type 0
    Adds waiting r r' =
        (new : List Fill) × (r'.portfolio.fills ≡ r.portfolio.fills ++ new)
        × All (Caused waiting) new

    abbrev pub AddsTo : Option Pending → List Fill → List Fill → Type 0
    AddsTo waiting old fills = (new : List Fill) × (fills ≡ old ++ new) × All (Caused waiting) new

    adds_none : (waiting : Option Pending) (old : List Fill) → AddsTo waiting old old
    adds_none waiting old = ([], sym (append-nil old), tt)

    adds_both :
        (waiting : Option Pending) (a b c : List Fill)
        → AddsTo waiting a b
        → AddsTo waiting b c
        → AddsTo waiting a c
    adds_both waiting a b c (xs, e, hx) (ys, e', hy) = (
      xs ++ ys,
      e' ∙ ap (λ l. l ++ ys) e ∙ append_assoc a xs ys,
      All-append (Caused waiting) xs ys hx hy,
    )

    -- What a part of the round does: the order that waits stays, and fills are added.
    abbrev Part : Option Pending → Run → Run → Type 0
    Part waiting r r' =
        (r'.pending ≡ r.pending) × AddsTo waiting r.portfolio.fills r'.portfolio.fills

    sell_out-Part :
        (waiting : Option Pending) (price : fl.Num) (reason : String) (r : Run)
        → ((f : Fill)
            → f.side ≡ selling
            → f.price ≡ price
            → Cause market slip last from waiting bar f)
        → Ensures (Part waiting r) (sell_out market price reason bar.time r)
    unfolding record_new_trades settle_sell
    sell_out-Part waiting price reason r cause =
        sell_out_rule market price reason bar.time r (Part waiting r) (λ pos f sold.
          (refl, (f ∷ [], refl, ((sold.time_kept, cause f sold.side sold.price_kept), tt))))

    fill_one-Part :
        (p : Pending) (r : Run)
        → r.pending ≡ some p
        → Ensures (Part (some p) r) (fill_one market slip bar p r)
    unfolding fill_one settle_buy
    fill_one-Part (buy_next amount) r h =
        either (Ensures (Part (some (buy_next amount)) r)) (has_position r.portfolio market)
          (refl, adds_none _ _)
          (bought_rule market (bar.opening ⊗ (one ⊕ slip)) bar.time amount "signal" r
            (Part (some (buy_next amount)) r) (λ e. (refl, adds_none _ _))
            (λ f bought. (
              refl,
              (
                f ∷ [],
                refl,
                ((bought.time_kept, waited_buy amount refl bought.side bought.price_kept), tt),
              ),
            )))
    fill_one-Part sell_next r h =
        either (Ensures (Part (some sell_next) r)) (has_position r.portfolio market)
          (sell_out-Part _ _ "signal" r (λ f s e. waited_sell refl s e)) (refl, adds_none _ _)

    -- From the start of the round on: nothing waits any more, and fills are added.
    abbrev pub Filled : Option Pending → Run → Run → Type 0
    Filled waiting r r' = (r'.pending ≡ none) × AddsTo waiting r.portfolio.fills r'.portfolio.fills

    pub Filled-then :
        (waiting : Option Pending) (r r1 : Run) (m : Result Run)
        → Filled waiting r r1
        → Ensures (Part waiting r1) m
        → Ensures (Filled waiting r) m
    Filled-then waiting r r1 (ok r2) (p, a) (same, b) =
        (same ∙ p, adds_both waiting r.portfolio.fills r1.portfolio.fills r2.portfolio.fills a b)
    Filled-then waiting r r1 (err e) h k = tt

    pending_Filled :
        (r : Run) (waiting : Option Pending)
        → r.pending ≡ waiting
        → Ensures (Filled waiting r) (elim waiting as (λ _. Result Run) [
          | none ↦ ok r
          | some p ↦ fill_one market slip bar p r >>= λ r'. ok (record r' { pending = none })
        ])
    pending_Filled r none h = (h, adds_none _ _)
    pending_Filled r (some p) h =
        Ensures->>= (Part (some p) r) (Filled (some p) r) (fill_one market slip bar p r) _
          (fill_one-Part p r h) (λ r' part. (refl, part.1))

    fill_pending-Filled : (r : Run) → Ensures (Filled r.pending r) (fill_pending market slip bar r)
    unfolding fill_pending
    fill_pending-Filled r = pending_Filled r r.pending refl

    IsExit-of :
        (f : Fill) (r : Run) (pos : Position) (c : ExitCheck)
        → fill_pending market slip bar (begin_bar bar from) ≡ ok r
        → position r.portfolio market ≡ some pos
        → (check_exits pos bar.low bar.high r.risk).0 ≡ some c
        → f.price ≡ exit_price slip bar c
        → IsExit market slip bar from f
    IsExit-of f r pos c h held found e = record {
      filled = r;
      held = pos;
      check = c;
      after_filling = h;
      is_held = held;
      found = found;
      has_price = subst (IsExitPrice slip bar c) (sym e) (exit_price-IsExitPrice slip bar c);
    }

    watch_exits-Part :
        (waiting : Option Pending) (r : Run)
        → fill_pending market slip bar (begin_bar bar from) ≡ ok r
        → Ensures (Part waiting r) (watch_exits market slip bar r)
    unfolding watch_exits after_check
    watch_exits-Part waiting r h =
        either_option_known (Ensures (Part waiting r)) (position r.portfolio market)
          (λ free. (refl, adds_none _ _))
          (λ pos held.
            let checked = check_exits pos bar.low bar.high r.risk in
            either_option_known (Ensures (Part waiting r)) checked.0
              (λ stays. (refl, adds_none _ _))
              (λ c found.
                sell_out-Part waiting (exit_price slip bar c) (exit_text c.reason)
                  (after_check market checked.1 checked.2 r)
                  (λ f s e. exited (IsExit-of f r pos c h held found e) s)))

    -- The first two parts of the round.
    pub checked-Filled :
        Ensures
          (Filled (begin_bar bar from).pending (begin_bar bar from))
          (fill_pending market slip bar (begin_bar bar from) >>= watch_exits market slip bar)
    checked-Filled =
        let r = begin_bar bar from in
        let w = r.pending in
        let filled = fill_pending market slip bar r in
        Ensures->>= (λ a. Filled w r a × (filled ≡ ok a)) (Filled w r) filled
          (watch_exits market slip bar) (Ensures-known (Filled w r) filled (fill_pending-Filled r))
          (λ a h. Filled-then w r a _ h.0 (watch_exits-Part w a h.1))

    pub close_last-Part :
        (waiting : Option Pending) (r : Run)
        → Ensures (Part waiting r) (close_last market slip last bar r)
    unfolding close_last
    close_last-Part waiting r =
        either_known (Ensures (Part waiting r)) (last && has_position r.portfolio market)
          (λ ends. sell_out-Part waiting _ "end_of_data" r (λ f s e. ended (ground arith) s e))
          (λ stays. (refl, adds_none _ _))

    pub value_bar-Part :
        (waiting : Option Pending) (r : Run) → Ensures (Part waiting r) (value_bar market bar r)
    unfolding value_bar
    value_bar-Part waiting r =
        Ensures->>= (λ v. Unit {0}) (Part waiting r)
          (equity r.portfolio ((market, bar.closing) ∷ [])) _ (anything _)
          (λ v u. (refl, adds_none _ _))
