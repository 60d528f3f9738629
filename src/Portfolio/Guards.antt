-- ===== src/Portfolio/Guards.antt =====
-- app/trading/portfolio.py: what a settled purchase has passed, and what is left of the cash.
use upbit_auto_trader.Prelude.{ℕ, String, ◌≡◌, true, false, Option, none, arith, inl, inr}
use upbit_auto_trader.Float.{Float, ◌⊕◌, ◌⊖◌, nil}
use upbit_auto_trader.Float.Laws.{FloatLaws}
use upbit_auto_trader.Portfolio.Account.{Note, Portfolio, Fill, ok}
use upbit_auto_trader.Portfolio.Trading.{buy, buy_refusal, settle_buy}
use upbit_auto_trader.Portfolio.Outcomes.{buy_outcome}

module _ ⦃fl : Float⦄ where
  -- The checks of an accepted purchase, read off `buy_refusal`.
  accepted_with_limits :
      (p : Portfolio) (quantity cost fee : fl.Num)
      → buy_refusal p quantity cost fee true ≡ none
      → (fl.le quantity nil ≡ false)
        × (fl.lt cost p.min_order_amount ≡ false)
        × (fl.lt (p.cash ⊕ fl.number 1 6) (cost ⊕ fee) ≡ false)
  unfolding buy_refusal
  accepted_with_limits p quantity cost fee h = ground arith

  -- A purchase that settles under `enforce_limits` is of a positive quantity at a positive
  -- price, for at least the minimum order amount; its cost and fee are within 1e-6 of the cash,
  -- and the cash that is left is no less than `cash - (cash + 1e-6)`.
  pub buy_within_limits :
      (laws : FloatLaws) (market : String) (price : fl.Num) (time : ℕ)
      (amount quantity : Option fl.Num) (reason : Note) (fee : Option fl.Num) (p : Portfolio)
      {f : Fill} {p' : Portfolio}
      → buy market price time amount quantity reason fee true p ≡ (ok f, p')
      → (fl.lt nil f.price ≡ true)
        × (fl.lt nil f.quantity ≡ true)
        × (fl.le p.min_order_amount f.amount ≡ true)
        × (fl.le (f.amount ⊕ f.fee) (p.cash ⊕ fl.number 1 6) ≡ true)
        × (fl.le (p.cash ⊖ (p.cash ⊕ fl.number 1 6)) p'.cash ≡ true)
  buy_within_limits laws market price time amount quantity reason fee p {f} {p'} h =
      elim (buy_outcome market price time amount quantity reason fee true p) [
        | inl (e, r) ↦ cc
        | inr (g, r, bought) ↦
            let (positive, large, covered) =
              accepted_with_limits p g.quantity g.amount g.fee bought.accepted in
            let fits = laws.le_of_lt_false (p.cash ⊕ fl.number 1 6) (g.amount ⊕ g.fee) covered in
            let same : f ≡ g = cc in
            let after : p' ≡ settle_buy p g = cc in
            rw (same, after)
              (
                laws.lt_of_le_false g.price nil bought.price_positive,
                laws.lt_of_le_false g.quantity nil positive,
                laws.le_of_lt_false g.amount p.min_order_amount large,
                fits,
                unfold settle_buy in
                    laws.sub_mono (g.amount ⊕ g.fee) (p.cash ⊕ fl.number 1 6) p.cash fits,
              )
      ]
