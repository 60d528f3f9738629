-- ===== src/Risk/Protection.antt =====
-- app/risk/manager.py: which exit `check_exits` reports, and the peak that the trailing stop uses.
use upbit_auto_trader.Prelude.{
  String, ◌≡◌, sym, refl, ap, ◌∙◌, true, false, ◌&&◌, Option, none, some, List, [], ◌∷◌, foldl,
  arith, inl, inr, ◌⊎◌, Bool-cases, Option-cases,
}
use mathlib.Core.Path.{subst}
use upbit_auto_trader.Float.{Float, ◌⊕◌, ◌⊖◌, ◌⊗◌, nil, one, max}
use upbit_auto_trader.Dict.{lookup-insert_self}
use upbit_auto_trader.Portfolio.Account.{Position}
use upbit_auto_trader.Risk.State.{RiskConfig, RiskManager}
use upbit_auto_trader.Risk.Exits.{
  ExitCheck, ExitReason, stop_loss, take_profit, trailing_stop, exit_at, previous_peak, check_exits,
  raise_peak, check_priced, check_trailing, stop_hit, target_hit,
}

module _ ⦃fl : Float⦄ where
  -- The price levels, as the settings give them, and whether the candle has reached them.
  abbrev pub StopReached : Option fl.Num → (avg low trigger : fl.Num) → Type 0
  StopReached none avg low trigger = ⊥
  StopReached (some pct) avg low trigger =
      (trigger ≡ avg ⊗ (one ⊖ pct)) × (fl.le low trigger ≡ true)

  abbrev pub StopClear : Option fl.Num → (avg low : fl.Num) → Type 0
  StopClear none avg low = Unit {0}
  StopClear (some pct) avg low = fl.le low (avg ⊗ (one ⊖ pct)) ≡ false

  abbrev pub TargetPassed : Option fl.Num → (avg high trigger : fl.Num) → Type 0
  TargetPassed none avg high trigger = ⊥
  TargetPassed (some pct) avg high trigger =
      (trigger ≡ avg ⊗ (one ⊕ pct)) × (fl.lt trigger high ≡ true)

  abbrev pub TargetClear : Option fl.Num → (avg high : fl.Num) → Type 0
  TargetClear none avg high = Unit {0}
  TargetClear (some pct) avg high = fl.lt (avg ⊗ (one ⊕ pct)) high ≡ false

  abbrev pub TrailReached : Option fl.Num → (avg peak low trigger : fl.Num) → Type 0
  TrailReached none avg peak low trigger = ⊥
  TrailReached (some pct) avg peak low trigger =
      (trigger ≡ peak ⊗ (one ⊖ pct)) × (fl.le low trigger ≡ true) × (fl.lt avg peak ≡ true)

  abbrev pub TrailClear : Option fl.Num → (avg peak low : fl.Num) → Type 0
  TrailClear none avg peak low = Unit {0}
  TrailClear (some pct) avg peak low = (fl.le low (peak ⊗ (one ⊖ pct)) && fl.lt avg peak) ≡ false

  stop_hit-some :
      (pct : Option fl.Num) (avg low : fl.Num) {trigger : fl.Num}
      → stop_hit pct avg low ≡ some trigger
      → StopReached pct avg low trigger
  unfolding stop_hit
  stop_hit-some none avg low h = cc
  stop_hit-some (some pct) avg low h = ground arith

  stop_hit-none :
      (pct : Option fl.Num) (avg low : fl.Num) → stop_hit pct avg low ≡ none → StopClear pct avg low
  unfolding stop_hit
  stop_hit-none none avg low h = tt
  stop_hit-none (some pct) avg low h = ground arith

  target_hit-some :
      (pct : Option fl.Num) (avg high : fl.Num) {trigger : fl.Num}
      → target_hit pct avg high ≡ some trigger
      → TargetPassed pct avg high trigger
  unfolding target_hit
  target_hit-some none avg high h = cc
  target_hit-some (some pct) avg high h = ground arith

  target_hit-none :
      (pct : Option fl.Num) (avg high : fl.Num)
      → target_hit pct avg high ≡ none
      → TargetClear pct avg high
  unfolding target_hit
  target_hit-none none avg high h = tt
  target_hit-none (some pct) avg high h = ground arith

  module _ (cfg : RiskConfig) (market : String) (avg peak low high : fl.Num) where
    -- Which exit is due: the stop first, then the target, then the trailing stop.
    abbrev pub IsDue : ExitReason → fl.Num → Type 0
    IsDue stop_loss trigger = StopReached cfg.stop_loss_pct avg low trigger
    IsDue take_profit trigger =
        StopClear cfg.stop_loss_pct avg low × TargetPassed cfg.take_profit_pct avg high trigger
    IsDue trailing_stop trigger =
        StopClear cfg.stop_loss_pct avg low
        × TargetClear cfg.take_profit_pct avg high
        × TrailReached cfg.trailing_stop_pct avg peak low trigger

    abbrev pub IsRightExit : Option ExitCheck → Type 0
    IsRightExit none =
        StopClear cfg.stop_loss_pct avg low
        × TargetClear cfg.take_profit_pct avg high
        × TrailClear cfg.trailing_stop_pct avg peak low
    IsRightExit (some x) = (x.market ≡ market) × IsDue x.reason x.trigger_price

  trailing_right :
      (pct : Option fl.Num) (pos : Position) (low high : fl.Num) (m : RiskManager)
      → let peak = previous_peak m.state.peak_prices pos in
        ((check_trailing pct pos low high m).0 ≡ none) × TrailClear pct pos.avg_price peak low
        ⊎ ((trigger : fl.Num) × ((check_trailing pct pos low high m).0
              ≡ some (exit_at pos.market trailing_stop trigger))
            × TrailReached pct pos.avg_price peak low trigger)
  unfolding check_trailing
  trailing_right none pos low high m = inl (refl, tt)
  trailing_right (some pct) pos low high m =
      let peak = previous_peak m.state.peak_prices pos in
      let trail = peak ⊗ (one ⊖ pct) in
      elim (Bool-cases (fl.le low trail && fl.lt pos.avg_price peak)) [
        | inl hit ↦ inr (trail, ground arith, (refl, ground arith, ground arith))
        | inr clear ↦ inl (ground arith, clear)
      ]

  check_priced_right :
      (pos : Position) (low high : fl.Num) (m : RiskManager)
      → (found : Option ExitCheck) × ((check_priced pos low high m).0 ≡ found)
        × IsRightExit m.config pos.market pos.avg_price
            (previous_peak m.state.peak_prices pos)
            low
            high
            found
  unfolding check_priced
  check_priced_right pos low high m =
      let cfg = m.config in
      let avg = pos.avg_price in
      elim (Option-cases (stop_hit cfg.stop_loss_pct avg low)) [
        | inr (stop, s) ↦ (
          some (exit_at pos.market stop_loss stop),
          rw (s, check_priced) refl,
          (refl, stop_hit-some cfg.stop_loss_pct avg low s),
        )
        | inl s ↦
            let stop_clear = stop_hit-none cfg.stop_loss_pct avg low s in
            elim (Option-cases (target_hit cfg.take_profit_pct avg high)) [
              | inr (target, t) ↦ (
                some (exit_at pos.market take_profit target),
                rw (s, t, check_priced) refl,
                (refl, (stop_clear, target_hit-some cfg.take_profit_pct avg high t)),
              )
              | inl t ↦
                  let target_clear = target_hit-none cfg.take_profit_pct avg high t in
                  elim (trailing_right cfg.trailing_stop_pct pos low high m) [
                    | inl (e, clear) ↦
                        (none, rw (s, t, check_priced) e, (stop_clear, target_clear, clear))
                    | inr (trigger, e, reached) ↦ (
                      some (exit_at pos.market trailing_stop trigger),
                      rw (s, t, check_priced) e,
                      (refl, (stop_clear, target_clear, reached)),
                    )
                  ]
            ]
      ]

  -- Of a position with a base price, `check_exits` reports the stop loss if the low has reached
  -- it, else the target if the high has passed it, else the trailing stop if the low has
  -- reached it and the highest price before this candle was above the base price; each with its
  -- price. It reports nothing exactly where none of them is so. The position is left alone.
  pub check_exits_right :
      (pos : Position) (low high : fl.Num) (m : RiskManager)
      → fl.le pos.avg_price nil ≡ false
      → let (found, pos', m') = check_exits pos low high m in
        IsRightExit m.config pos.market pos.avg_price
          (previous_peak m.state.peak_prices pos)
          low
          high
          found
        × (pos' ≡ pos)
  unfolding check_exits
  check_exits_right pos low high m priced =
      let (found, e, right) = check_priced_right pos low high m in
      rw priced (
        subst
            (IsRightExit m.config pos.market pos.avg_price (previous_peak m.state.peak_prices pos)
              low high)
            (sym e) right,
        refl,
      )

  -- The highest of the highs so far, from the base price of the position.
  abbrev pub peak_after : fl.Num → List (fl.Num × fl.Num) → fl.Num
  peak_after avg candles = foldl (λ peak candle. max peak candle.1) avg candles

  -- The manager after it has watched the candles (low, high) in turn.
  pub watch : Position → List (fl.Num × fl.Num) → RiskManager → RiskManager
  watch pos [] m = m
  watch pos ((low, high) ∷ rest) m = watch pos rest (check_exits pos low high m).2

  -- No candle reached the stop loss or passed the target.
  abbrev pub Quiet : RiskConfig → fl.Num → List (fl.Num × fl.Num) → Type 0
  Quiet cfg avg [] = Unit {0}
  Quiet cfg avg ((low, high) ∷ rest) =
      (stop_hit cfg.stop_loss_pct avg low ≡ none)
      × (target_hit cfg.take_profit_pct avg high ≡ none)
      × Quiet cfg avg rest

  check_exits_raises_peak :
      (pct low high : fl.Num) (pos : Position) (m : RiskManager)
      → fl.le pos.avg_price nil ≡ false
      → m.config.trailing_stop_pct ≡ some pct
      → stop_hit m.config.stop_loss_pct pos.avg_price low ≡ none
      → target_hit m.config.take_profit_pct pos.avg_price high ≡ none
      → (check_exits pos low high m).2
        ≡ raise_peak pos.market (max (previous_peak m.state.peak_prices pos) high) m
  unfolding check_exits check_priced check_trailing
  check_exits_raises_peak pct low high pos m priced on quiet_stop quiet_target = ground arith

  previous_peak-raise :
      (pos : Position) (peak : fl.Num) (m : RiskManager)
      → previous_peak (raise_peak pos.market peak m).state.peak_prices pos ≡ peak
  unfolding previous_peak raise_peak
  previous_peak-raise pos peak m = rw lookup-insert_self

  -- While the trailing stop is on and no candle reaches the stop loss or passes the target, the
  -- peak that the next check uses is the highest of the highs of the candles watched so far,
  -- from the peak before them.
  pub watch_peak :
      (pct : fl.Num) (pos : Position) (candles : List (fl.Num × fl.Num)) (m : RiskManager)
      → fl.le pos.avg_price nil ≡ false
      → m.config.trailing_stop_pct ≡ some pct
      → Quiet m.config pos.avg_price candles
      → previous_peak (watch pos candles m).state.peak_prices pos
        ≡ peak_after (previous_peak m.state.peak_prices pos) candles
  unfolding watch
  watch_peak pct pos [] m priced on quiet = refl
  watch_peak pct pos ((low, high) ∷ rest) m priced on quiet =
      let peak = max (previous_peak m.state.peak_prices pos) high in
      let raised = check_exits_raises_peak pct low high pos m priced on quiet.0 quiet.1 in
      rw (raised, watch)
        (watch_peak pct pos rest (raise_peak pos.market peak m) priced (unfold raise_peak in on)
            (unfold raise_peak in quiet.2)
          ∙ ap (λ p. peak_after p rest) (previous_peak-raise pos peak m))
