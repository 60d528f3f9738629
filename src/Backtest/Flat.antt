-- ===== src/Backtest/Flat.antt =====
-- app/backtest/engine.py: a backtest ends with nothing held, and its result is what its fills come to.
use upbit_auto_trader.Prelude.{
  ℕ, String, ◌≡◌, refl, ◌∙◌, ap, sym, true, false, Option, none, some, ◌⊎◌, inl, inr, List, [], ◌∷◌,
  foldl, Option-cases, either, either_known, either_option, either_option_known, arith, eq_refl,
  eq_iff,
}
use mathlib.Core.Path.{subst}
use upbit_auto_trader.Float.{Float, ◌⊕◌, ◌⊗◌, nil, one}
use upbit_auto_trader.Dict
use upbit_auto_trader.Dict.{Dict}
use upbit_auto_trader.Portfolio.Account.{
  Result, ok, err, Fill, Position, Portfolio, new_portfolio, position, has_position, equity,
}
use upbit_auto_trader.Portfolio.Trading.{bought_position, settle_buy, settle_sell}
use upbit_auto_trader.Portfolio.Ledger.{
  IsAudited, apply_cash, apply_fee, settle_buy-IsAudited, settle_sell-IsAudited,
}
use upbit_auto_trader.Risk.Entries.{Action, buy_now, sell_now, hold, evaluate, RiskDecision}
use upbit_auto_trader.Risk.Exits.{check_exits}
use upbit_auto_trader.Risk.State.{RiskManager}
use upbit_auto_trader.Backtest.Config.{BacktestConfig}
use upbit_auto_trader.Backtest.Engine.{
  Bar, Pending, buy_next, sell_next, Run, record_new_trades, sell_out, fill_one, fill_pending,
  exit_text, after_check, watch_exits, close_last, value_bar, note_signal, note_action,
  take_decision, entry_signal, begin_bar, step, steps, start, run,
}
use upbit_auto_trader.Backtest.Rules.{Ensures, anything, Ensures->>=, sell_out_rule, bought_rule}

module _ ⦃fl : Float⦄ where
  -- Nothing is held but a position of the market, once at most.
  abbrev pub AtMostOne : String → Portfolio → Type 0
  AtMostOne market p = (p.positions ≡ []) ⊎ ((pos : Position) × (p.positions ≡ (market, pos) ∷ []))

  module _ (market : String) (cash : fl.Num) where
    -- The positions are as said, and the fills account for the money.
    abbrev pub IsSound : Run → Type 0
    IsSound r = AtMostOne market r.portfolio × IsAudited cash nil r.portfolio

    abbrev pub IsClosed : Run → Type 0
    IsClosed r = (r.portfolio.positions ≡ []) × IsAudited cash nil r.portfolio

    insert_empty :
        (m : String) (pos : Position) (ps : Dict Position)
        → m ≡ market
        → ps ≡ []
        → Dict.insert m pos ps ≡ (market, pos) ∷ []
    unfolding Dict.insert
    insert_empty m pos ps e flat = rw (flat, e) refl

    settle_buy-AtMostOne :
        (p : Portfolio) (f : Fill)
        → f.market ≡ market
        → p.positions ≡ []
        → AtMostOne market (settle_buy p f)
    unfolding settle_buy
    settle_buy-AtMostOne p f e flat =
        let new =
          bought_position (Dict.lookup f.market p.positions) f.market f.quantity f.price f.time
            f.amount f.fee in
        inr (new, insert_empty f.market new p.positions e flat)

    erase_single :
        (ps : Dict Position)
        → (ps ≡ []) ⊎ ((pos : Position) × (ps ≡ (market, pos) ∷ []))
        → Dict.erase market ps ≡ []
    unfolding Dict.erase
    erase_single ps (inl flat) = rw flat refl
    erase_single ps (inr (pos, one)) = rw (one, eq_refl) refl

    flat_of_missing :
        (p : Portfolio) → AtMostOne market p → has_position p market ≡ false → p.positions ≡ []
    unfolding Dict.lookup
    flat_of_missing p (inl flat) h = flat
    flat_of_missing p (inr (pos, one)) h = ground (arith, eq_iff market market)

    sell_out-IsClosed :
        (price : fl.Num) (reason : String) (now : ℕ) (r : Run)
        → IsSound r
        → Ensures IsClosed (sell_out market price reason now r)
    unfolding record_new_trades settle_sell
    sell_out-IsClosed price reason now r (shape, audit) =
        sell_out_rule market price reason now r IsClosed (λ pos f sold. (
          subst (λ m. Dict.erase m r.portfolio.positions ≡ []) (sym sold.market_kept)
              (erase_single r.portfolio.positions shape),
          settle_sell-IsAudited cash nil r.portfolio f pos true sold.side audit,
        ))

    IsSound-closed : (m : Result Run) → Ensures IsClosed m → Ensures IsSound m
    IsSound-closed (ok r) (flat, audit) = (inl flat, audit)
    IsSound-closed (err e) h = tt

    fill_one-IsSound :
        (slip : fl.Num) (bar : Bar) (p : Pending) (r : Run)
        → IsSound r
        → Ensures IsSound (fill_one market slip bar p r)
    unfolding fill_one
    fill_one-IsSound slip bar (buy_next amount) r (shape, audit) =
        either_known (Ensures IsSound) (has_position r.portfolio market) (λ held. (shape, audit))
          (λ flat.
            bought_rule market (bar.opening ⊗ (one ⊕ slip)) bar.time amount "signal" r IsSound
              (λ e. (shape, audit))
              (λ f bought. (
                settle_buy-AtMostOne r.portfolio f bought.market_kept
                    (flat_of_missing r.portfolio shape flat),
                settle_buy-IsAudited cash nil r.portfolio f bought.side audit,
              )))
    fill_one-IsSound slip bar sell_next r h =
        either (Ensures IsSound) (has_position r.portfolio market)
          (IsSound-closed _ (sell_out-IsClosed _ "signal" bar.time r h)) h

    fill_pending-IsSound :
        (slip : fl.Num) (bar : Bar) (r : Run)
        → IsSound r
        → Ensures IsSound (fill_pending market slip bar r)
    unfolding fill_pending
    fill_pending-IsSound slip bar r h = either_option (Ensures IsSound) r.pending h (λ p.
        Ensures->>= IsSound IsSound (fill_one market slip bar p r) _
          (fill_one-IsSound slip bar p r h) (λ r' h'. h'))

    after_check-IsSound :
        (pos pos' : Position) (m : RiskManager) (r : Run)
        → position r.portfolio market ≡ some pos
        → IsSound r
        → IsSound (after_check market pos' m r)
    unfolding after_check Dict.insert Dict.lookup
    after_check-IsSound pos pos' m r held (inl flat, audit) = (
      inl (ground arith),
      record { cash_replayed = audit.cash_replayed; fees_replayed = audit.fees_replayed },
    )
    after_check-IsSound pos pos' m r held (inr (old, single), audit) = (
      inr (pos', rw single (rw eq_refl refl)),
      record { cash_replayed = audit.cash_replayed; fees_replayed = audit.fees_replayed },
    )

    watch_exits-IsSound :
        (slip : fl.Num) (bar : Bar) (r : Run)
        → IsSound r
        → Ensures IsSound (watch_exits market slip bar r)
    unfolding watch_exits
    watch_exits-IsSound slip bar r h = elim (Option-cases (position r.portfolio market)) [
      | inl flat ↦ rw (flat, watch_exits) h
      | inr (pos, held) ↦
          let checked = check_exits pos bar.low bar.high r.risk in
          let h' = after_check-IsSound pos checked.1 checked.2 r held h in
          rw (held, watch_exits)
            (either_option (Ensures IsSound) checked.0 h'
              (λ c. IsSound-closed _ (sell_out-IsClosed _ (exit_text c.reason) bar.time _ h')))
    ]

    equity_flat :
        (p : Portfolio) (prices : Dict fl.Num)
        → p.positions ≡ []
        → Ensures (λ v. v ≡ p.cash) (equity p prices)
    unfolding equity
    equity_flat p prices flat = rw flat refl

    abbrev SameAccount : Run → Run → Type 0
    SameAccount r r' = (r'.portfolio ≡ r.portfolio) × (r'.last_equity ≡ r.last_equity)

    take_decision_account :
        (d : RiskDecision × RiskManager) (r : Run) → SameAccount r (take_decision d r)
    unfolding take_decision
    take_decision_account (d, m) r = either (SameAccount r) d.approved (refl, refl) (refl, refl)

    note_action_account :
        (strategy : String) (a : Action) (bar : Bar) (r : Run)
        → SameAccount r (note_action market strategy a bar r)
    unfolding note_action
    note_action_account strategy buy_now bar r =
        either (SameAccount r) (has_position r.portfolio market) (refl, refl)
          (take_decision_account
            (evaluate (entry_signal market strategy bar) r.portfolio none bar.time
              (some r.last_equity) r.risk)
            r)
    note_action_account strategy sell_now bar r =
        either (SameAccount r) (has_position r.portfolio market) (refl, refl) (refl, refl)
    note_action_account strategy hold bar r = (refl, refl)

    -- The end of a round: what holds of the account goes on, and a flat account is worth its cash.
    abbrev IsDone : Run → Type 0
    IsDone r = IsClosed r × (r.last_equity ≡ r.portfolio.cash)

    IsSound-since : (r r' : Run) → SameAccount r r' → IsSound r → IsSound r'
    IsSound-since r r' (p, e) h =
        subst (λ (x : Portfolio). AtMostOne market x × IsAudited cash nil x) (sym p) h

    IsDone-since : (r r' : Run) → SameAccount r r' → IsDone r → IsDone r'
    IsDone-since r r' (p, e) (h, v) = (
      subst (λ (x : Portfolio). (x.positions ≡ []) × IsAudited cash nil x) (sym p) h,
      e ∙ v ∙ ap (λ (x : Portfolio). x.cash) (sym p),
    )

    close_last-IsClosed :
        (slip : fl.Num) (bar : Bar) (r : Run)
        → IsSound r
        → Ensures IsClosed (close_last market slip true bar r)
    unfolding close_last
    close_last-IsClosed slip bar r (shape, audit) =
        either_known (Ensures IsClosed) (has_position r.portfolio market)
          (λ held. sell_out-IsClosed _ "end_of_data" bar.time r (shape, audit))
          (λ flat. (flat_of_missing r.portfolio shape flat, audit))

    value_bar-IsSound : (bar : Bar) (r : Run) → IsSound r → Ensures IsSound (value_bar market bar r)
    unfolding value_bar
    value_bar-IsSound bar r h =
        Ensures->>= (λ v. Unit {0}) IsSound (equity r.portfolio ((market, bar.closing) ∷ [])) _
          (anything _) (λ v u. h)

    value_bar-IsDone : (bar : Bar) (r : Run) → IsClosed r → Ensures IsDone (value_bar market bar r)
    unfolding value_bar
    value_bar-IsDone bar r h =
        Ensures->>= (λ v. v ≡ r.portfolio.cash) IsDone
          (equity r.portfolio ((market, bar.closing) ∷ [])) _ (equity_flat r.portfolio _ h.0)
          (λ v e. (h, e))

    note_signal_account :
        (strategy : String) (bar : Bar) (r : Run)
        → SameAccount r (note_signal market strategy bar r)
    unfolding note_signal
    note_signal_account strategy bar r = note_action_account strategy bar.action bar r

    step-IsSound :
        (strategy : String) (slip : fl.Num) (bar : Bar) (r : Run)
        → IsSound r
        → Ensures IsSound (step market strategy slip false bar r)
    unfolding step begin_bar close_last
    step-IsSound strategy slip bar r h =
        Ensures->>= IsSound IsSound _ _
          (Ensures->>= IsSound IsSound _ _
            (Ensures->>= IsSound IsSound _ _
              (Ensures->>= IsSound IsSound _ _ (fill_pending-IsSound slip bar (begin_bar bar r) h)
                (watch_exits-IsSound slip bar))
              (λ r1 h1. h1))
            (value_bar-IsSound bar))
          (λ r1 h1.
            IsSound-since r1 (note_signal market strategy bar r1)
              (note_signal_account strategy bar r1) h1)

    step-IsDone :
        (strategy : String) (slip : fl.Num) (bar : Bar) (r : Run)
        → IsSound r
        → Ensures IsDone (step market strategy slip true bar r)
    unfolding step begin_bar
    step-IsDone strategy slip bar r h =
        Ensures->>= IsDone IsDone _ _
          (Ensures->>= IsClosed IsDone _ _
            (Ensures->>= IsSound IsClosed _ _
              (Ensures->>= IsSound IsSound _ _ (fill_pending-IsSound slip bar (begin_bar bar r) h)
                (watch_exits-IsSound slip bar))
              (close_last-IsClosed slip bar))
            (value_bar-IsDone bar))
          (λ r1 h1.
            IsDone-since r1 (note_signal market strategy bar r1)
              (note_signal_account strategy bar r1) h1)

    steps-IsDone :
        (strategy : String) (slip : fl.Num) (bar : Bar) (bars : List Bar) (r : Run)
        → IsSound r
        → Ensures IsDone (steps market strategy slip (bar ∷ bars) r)
    unfolding steps
    steps-IsDone strategy slip bar [] r h =
        Ensures->>= IsDone IsDone _ _ (step-IsDone strategy slip bar r h) (λ r1 h1. h1)
    steps-IsDone strategy slip bar (next ∷ bars) r h =
        Ensures->>= IsSound IsDone _ _ (step-IsSound strategy slip bar r h)
          (steps-IsDone strategy slip next bars)

  new_portfolio-IsSound :
      (market : String) (cash rate least : fl.Num) (p : Portfolio)
      → new_portfolio cash rate least ≡ some p
      → AtMostOne market p × IsAudited cash nil p
  unfolding new_portfolio
  new_portfolio-IsSound market cash rate least p made =
      (inl (ground arith), record { cash_replayed = ground arith; fees_replayed = ground arith })

  -- What holds of the run, where one is returned.
  abbrev pub Finishes : (Run → Type 0) → Option (Result Run) → Type 0
  Finishes P none = Unit {0}
  Finishes P (some m) = Ensures P m

  run-IsDone :
      (c : BacktestConfig) (market strategy : String) (bars : List Bar)
      → Finishes (IsDone market c.initial_capital) (run c market strategy bars)
  unfolding run start
  run-IsDone c market strategy [] = tt
  run-IsDone c market strategy (a ∷ []) = tt
  run-IsDone c market strategy (a ∷ b ∷ bars) =
      either_option_known (Finishes (IsDone market c.initial_capital))
        (new_portfolio c.initial_capital c.fee_rate c.min_order_amount) (λ bad. tt)
        (λ p made.
          steps-IsDone market c.initial_capital strategy c.slippage_rate a (b ∷ bars) (start c p)
            (new_portfolio-IsSound market c.initial_capital c.fee_rate c.min_order_amount p made))

  -- A backtest that runs to its end holds nothing; its last value is the cash, which is what its
  -- fills come to from the initial capital, and its fees are those of the fills.
  pub run_ends_flat :
      (c : BacktestConfig) (market strategy : String) (bars : List Bar) (r : Run)
      → run c market strategy bars ≡ some (ok r)
      → (r.portfolio.positions ≡ [])
        × (r.last_equity ≡ foldl apply_cash c.initial_capital r.portfolio.fills)
        × (r.portfolio.fees_paid ≡ foldl apply_fee nil r.portfolio.fills)
  run_ends_flat c market strategy bars r h =
      let ((flat, audit), value) =
        subst (Finishes (IsDone market c.initial_capital)) h (run-IsDone c market strategy bars) in
      (flat, value ∙ audit.cash_replayed, audit.fees_replayed)
