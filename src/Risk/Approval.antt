-- ===== src/Risk/Approval.antt =====
-- app/risk/manager.py: what an approved entry has passed.
use upbit_auto_trader.Prelude.{
  ℕ, ◌<◌, ◌≡◌, true, false, ◌&&◌, Option, none, some, arith, length, ◌⊎◌, inl, inr, Bool-cases,
  Option-cases,
}
use upbit_auto_trader.Float.{Float, ◌⊖◌, ◌⊗◌, ◌⊘◌, nil, one, truthy, min, abs}
use upbit_auto_trader.Float.Laws.{FloatLaws}
use upbit_auto_trader.Dict
use upbit_auto_trader.Portfolio.Account.{Portfolio, position}
use upbit_auto_trader.Market.Prices.{PriceState, seconds_since}
use upbit_auto_trader.Risk.State.{RiskConfig, RiskState, RiskManager}
use upbit_auto_trader.Risk.Entries.{
  Action, buy_now, Signal, entry_refusal, cooling, deviating, mark_of, cap_budget, ratio_room,
  final_size, size_entry, decide, evaluate,
}

module _ ⦃fl : Float⦄ where
  -- No bound, or a bound that holds.
  abbrev pub AtMost : Option fl.Num → fl.Num → Type 0
  AtMost none budget = Unit {0}
  AtMost (some most) budget = fl.le budget most ≡ true

  -- The wait after the last exit from the market is off, was not started, or is over.
  abbrev pub IsRested : RiskConfig → Option ℕ → ℕ → Type 0
  IsRested cfg none now = Unit {0}
  IsRested cfg (some last_exit) now =
      truthy cfg.cooldown_seconds && fl.lt (seconds_since now last_exit) cfg.cooldown_seconds
      ≡ false

  -- The mark and the signal's price, where both are there, are within the limit of each other.
  abbrev pub IsNear : Option fl.Num → Option fl.Num → fl.Num → Type 0
  IsNear none mark signal_price = Unit {0}
  IsNear (some limit) none signal_price = Unit {0}
  IsNear (some limit) (some mark) signal_price =
      truthy mark && truthy signal_price && fl.lt limit (abs (mark ⊘ signal_price ⊖ one)) ≡ false

  IsRested-of_cooling :
      (cfg : RiskConfig) (last : Option ℕ) (now : ℕ)
      → cooling cfg last now ≡ none
      → IsRested cfg last now
  unfolding cooling
  IsRested-of_cooling cfg none now h = tt
  IsRested-of_cooling cfg (some last) now h = ground arith

  IsNear-of_deviating :
      (limit mark : Option fl.Num) (signal_price : fl.Num)
      → deviating limit mark signal_price ≡ none
      → IsNear limit mark signal_price
  unfolding deviating
  IsNear-of_deviating none mark p h = tt
  IsNear-of_deviating (some limit) none p h = tt
  IsNear-of_deviating (some limit) (some mark) p h = ground arith

  module _ (cfg : RiskConfig) (s : RiskState) (signal : Signal) (portfolio : Portfolio)
      (price : Option PriceState) (now : ℕ) where
    -- What a BUY signal has passed before its size is computed.
    pub record IsClear : Type 0 where
      pub not_halted : s.halted ≡ false
      pub not_locked : s.lock_reason ≡ none
      pub not_held : position portfolio signal.market ≡ none
      pub has_slot : length portfolio.positions < cfg.max_open_positions
      pub rested : IsRested cfg (Dict.lookup signal.market s.last_exit_at) now
      pub near : IsNear cfg.price_deviation_limit (mark_of price) signal.price

    entry_refusal-IsClear : entry_refusal cfg s signal portfolio price now ≡ none → IsClear
    unfolding entry_refusal
    entry_refusal-IsClear h = record {
      not_halted = ground arith;
      not_locked = ground arith;
      not_held = ground arith;
      has_slot = ground arith;
      rested =
          IsRested-of_cooling cfg (Dict.lookup signal.market s.last_exit_at) now (ground arith);
      near =
          IsNear-of_deviating cfg.price_deviation_limit (mark_of price) signal.price (ground arith);
    }

  -- An approved size: at least the minimum, and within each bound.
  pub record IsSized (cfg : RiskConfig) (s : RiskState) (portfolio : Portfolio)
      (equity : Option fl.Num) (budget : fl.Num) : Type 0 where
    pub large_enough : fl.le cfg.min_order_amount budget ≡ true
    pub within_cash : fl.le budget (portfolio.cash ⊗ cfg.position_fraction) ≡ true
    pub within_order : AtMost cfg.max_order_amount budget
    pub within_ratio :
        (fl.lt cfg.max_position_ratio one ≡ false)
        ⊎ (fl.le budget (ratio_room cfg s portfolio equity) ≡ true)

  module _ (laws : FloatLaws) where
    min_le_left : (a b : fl.Num) → fl.le (min a b) a ≡ true
    min_le_left a b = elim (Bool-cases (fl.lt b a)) [
      | inl h ↦ rw h (laws.le_of_lt b a h)
      | inr h ↦ rw h (laws.le_refl a)
    ]

    min_le_right : (a b : fl.Num) → fl.le (min a b) b ≡ true
    min_le_right a b = elim (Bool-cases (fl.lt b a)) [
      | inl h ↦ rw h (laws.le_refl b)
      | inr h ↦ rw h (laws.le_of_lt_false b a h)
    ]

    cap-le : (most : Option fl.Num) (budget : fl.Num) → fl.le (cap_budget most budget) budget ≡ true
    unfolding cap_budget
    cap-le none budget = laws.le_refl budget
    cap-le (some most) budget = min_le_left budget most

    cap-AtMost :
        (most : Option fl.Num) (budget b : fl.Num)
        → fl.le b (cap_budget most budget) ≡ true
        → AtMost most b
    unfolding cap_budget
    cap-AtMost none budget b h = tt
    cap-AtMost (some most) budget b h =
        laws.le_trans b (min budget most) most h (min_le_right budget most)

    final_size_approved :
        (cfg : RiskConfig) (budget : fl.Num)
        → (final_size cfg budget).approved ≡ true
        → ((final_size cfg budget).amount ≡ some budget)
          × (fl.le cfg.min_order_amount budget ≡ true)
    unfolding final_size
    final_size_approved cfg budget h =
        ground (arith, laws.le_of_lt_false budget cfg.min_order_amount)

    module _ (cfg : RiskConfig) (s : RiskState) (portfolio : Portfolio)
        (equity : Option fl.Num) where
      IsSized-by :
          (budget : fl.Num)
          → fl.le budget (cap_budget cfg.max_order_amount (portfolio.cash ⊗ cfg.position_fraction))
            ≡ true
          → (fl.lt cfg.max_position_ratio one ≡ false)
            ⊎ (fl.le budget (ratio_room cfg s portfolio equity) ≡ true)
          → (final_size cfg budget).approved ≡ true
          → (b : fl.Num) × ((final_size cfg budget).amount ≡ some b)
            × IsSized cfg s portfolio equity b
      IsSized-by budget capped room ok =
          let cash = portfolio.cash ⊗ cfg.position_fraction in
          let (amount, large) = final_size_approved cfg budget ok in
          (
            budget,
            amount,
            record {
              large_enough = large;
              within_cash =
                  laws.le_trans budget (cap_budget cfg.max_order_amount cash) cash capped
                    (cap-le cfg.max_order_amount cash);
              within_order = cap-AtMost cfg.max_order_amount cash budget capped;
              within_ratio = room;
            },
          )

      size_entry_approved :
          (size_entry cfg s portfolio equity).approved ≡ true
          → (b : fl.Num) × ((size_entry cfg s portfolio equity).amount ≡ some b)
            × IsSized cfg s portfolio equity b
      unfolding size_entry
      size_entry_approved h =
          let capped = cap_budget cfg.max_order_amount (portfolio.cash ⊗ cfg.position_fraction) in
          let room = ratio_room cfg s portfolio equity in
          elim (Bool-cases (fl.lt cfg.max_position_ratio one)) [
            | inr free ↦ rw free (IsSized-by capped (laws.le_refl capped) (inl free) (rw free at h))
            | inl bounded ↦ elim (Bool-cases (fl.le room nil)) [
              | inl full ↦ cc (rw (bounded, full) at h)
              | inr open_room ↦
                  rw (bounded, open_room)
                    (IsSized-by (min capped room) (min_le_left capped room)
                      (inr (min_le_right capped room)) (rw (bounded, open_room) at h))
            ]
          ]

  decide_approved :
      (laws : FloatLaws) (a : Action) (cfg : RiskConfig) (s : RiskState) (signal : Signal)
      (portfolio : Portfolio) (price : Option PriceState) (now : ℕ) (equity : Option fl.Num)
      → a ≡ buy_now
      → (decide a cfg s signal portfolio price now equity).approved ≡ true
      → (b : fl.Num) × ((decide a cfg s signal portfolio price now equity).amount ≡ some b)
        × IsClear cfg s signal portfolio price now
        × IsSized cfg s portfolio equity b
  unfolding decide
  decide_approved laws buy_now cfg s signal portfolio price now equity buying ok =
      elim (Option-cases (entry_refusal cfg s signal portfolio price now)) [
        | inr (r, refused) ↦ cc (rw (refused, decide) at ok)
        | inl clear ↦
            let (b, amount, sized) =
              size_entry_approved laws cfg s portfolio equity (rw (clear, decide) at ok) in
            (
              b,
              rw (clear, decide) amount,
              entry_refusal-IsClear cfg s signal portfolio price now clear,
              sized,
            )
      ]
  decide_approved laws _ cfg s signal portfolio price now equity buying ok = cc

  -- A BUY signal is approved only if, on the day that the decision is made on, the emergency
  -- stop is off and there is no lock, the market is not held and a slot is free, the wait after
  -- the last exit is over and the mark is near the signal's price. The approved amount is at
  -- least the minimum, and at most the cash share, the order limit and the room of the ratio.
  pub evaluate_approved_entry :
      (laws : FloatLaws) (signal : Signal) (portfolio : Portfolio) (price : Option PriceState)
      (now : ℕ) (equity : Option fl.Num) (m : RiskManager)
      → signal.action ≡ buy_now
      → (evaluate signal portfolio price now equity m).0.approved ≡ true
      → let (decision, m') = evaluate signal portfolio price now equity m in
        (b : fl.Num) × (decision.amount ≡ some b)
        × IsClear m.config m'.state signal portfolio price now
        × IsSized m.config m'.state portfolio equity b
  unfolding evaluate
  evaluate_approved_entry laws signal portfolio price now equity m buying ok =
      decide_approved laws signal.action m.config
        (evaluate signal portfolio price now equity m).1.state signal portfolio price now equity
        buying ok
