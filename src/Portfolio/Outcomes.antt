-- ===== src/Portfolio/Outcomes.antt =====
-- app/trading/portfolio.py: how a call of `buy` or `sell` can end.
use upbit_auto_trader.Prelude.{
  ℕ, String, ◌≡◌, refl, ◌⊎◌, Bool, false, Option, none, some, inl, inr, Bool-cases, Option-cases,
}
use upbit_auto_trader.Float.{Float, ◌⊗◌, nil}
use upbit_auto_trader.Portfolio.Account.{
  Note, buying, selling, ok, err, PortfolioError, bad_price, no_position, Fill, Position, Portfolio,
  position,
}
use upbit_auto_trader.Portfolio.Trading.{
  buy, buy_refusal, bought_fill, settle_buy, sell, sell_from, sells_all, sell_quantity, sold_fill,
  sell_refusal, settle_sell,
}

module _ ⦃fl : Float⦄ where
  -- A purchase that went through: what is known of its fill.
  pub record IsBought (market : String) (price : fl.Num) (time : ℕ) (limits : Bool) (p : Portfolio)
      (f : Fill) : Type 0 where
    pub side : f.side ≡ buying
    pub market_kept : f.market ≡ market
    pub price_kept : f.price ≡ price
    pub time_kept : f.time ≡ time
    pub amount_lem : f.amount ≡ f.quantity ⊗ f.price
    pub price_positive : fl.le f.price nil ≡ false
    pub accepted : buy_refusal p f.quantity f.amount f.fee limits ≡ none

  pub record IsSold (market : String) (price : fl.Num) (time : ℕ) (quantity : Option fl.Num)
      (limits : Bool) (p : Portfolio) (pos : Position) (f : Fill) : Type 0 where
    pub side : f.side ≡ selling
    pub market_kept : f.market ≡ market
    pub price_kept : f.price ≡ price
    pub time_kept : f.time ≡ time
    pub amount_lem : f.amount ≡ f.quantity ⊗ f.price
    pub quantity_lem : f.quantity ≡ sell_quantity pos quantity
    pub held : position p market ≡ some pos
    pub accepted : sell_refusal p pos (sells_all pos quantity) f limits ≡ none

  module _ (market : String) (price : fl.Num) (time : ℕ) (amount quantity : Option fl.Num)
      (reason : Note) (fee : Option fl.Num) (limits : Bool) (p : Portfolio) where
    -- `buy` raises with the portfolio as it was, or it settles one fill.
    pub buy_outcome :
        let r = buy market price time amount quantity reason fee limits p in
        ((e : PortfolioError) × (r ≡ (err e, p)))
        ⊎ ((f : Fill) × (r ≡ (ok f, settle_buy p f)) × IsBought market price time limits p f)
    unfolding buy
    buy_outcome =
        let f = bought_fill market price time amount quantity reason fee p in
        elim (Bool-cases (fl.le price nil)) [
          | inl bad ↦ inl (bad_price, rw bad)
          | inr fine ↦ elim (Option-cases (buy_refusal p f.quantity f.amount f.fee limits)) [
            | inr (e, refused) ↦ inl (e, rw (fine, refused))
            | inl accepted ↦ inr (
              f,
              rw (fine, accepted),
              record {
                side = refl;
                market_kept = refl;
                price_kept = refl;
                time_kept = refl;
                amount_lem = refl;
                price_positive = fine;
                accepted = accepted;
              },
            )
          ]
        ]

  module _ (market : String) (price : fl.Num) (time : ℕ) (quantity : Option fl.Num) (reason : Note)
      (fee : Option fl.Num) (limits : Bool) (p : Portfolio) where
    -- `sell` raises with the portfolio as it was, or it settles one fill out of a position.
    pub sell_outcome :
        let r = sell market price time quantity reason fee limits p in
        ((e : PortfolioError) × (r ≡ (err e, p)))
        ⊎ ((pos : Position) × (f : Fill) × (r
              ≡ (ok f, settle_sell p pos (sells_all pos quantity) f))
            × IsSold market price time quantity limits p pos f)
    unfolding sell sell_from sold_fill
    sell_outcome = elim (Option-cases (position p market)) [
      | inl missing ↦ inl (no_position, rw (missing, sell))
      | inr (pos, held) ↦
          let f = sold_fill pos market price time quantity reason fee p in
          elim (Option-cases (sell_refusal p pos (sells_all pos quantity) f limits)) [
            | inr (e, refused) ↦ inl (e, rw (held, sell) (rw (refused, sell_from)))
            | inl accepted ↦ inr (
              pos,
              f,
              rw (held, sell) (rw (accepted, sell_from)),
              record {
                side = refl;
                market_kept = refl;
                price_kept = refl;
                time_kept = refl;
                amount_lem = refl;
                quantity_lem = refl;
                held = held;
                accepted = accepted;
              },
            )
          ]
    ]
