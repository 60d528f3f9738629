-- ===== src/Portfolio/Examples.antt =====
-- Tests of the account, and its theorems at concrete inputs.
use upbit_auto_trader.Prelude.{String, ◌≡◌, ◌≢◌, refl, true, none, some, List, [], ◌∷◌, eq_iff}
use mathlib.Core.Bool.{false≢true}
use upbit_auto_trader.Prelude.Int.{ℤ, pos, ◌+ℤ◌, ◌-ℤ◌}
use upbit_auto_trader.Float.{◌⊕◌, ◌⊖◌}
use upbit_auto_trader.Float.Fixed.{fixed, fixed-FloatLaws}
use upbit_auto_trader.Dict
use upbit_auto_trader.Portfolio.Account.{
  text, Portfolio, Position, Fill, ok, err, below_minimum, new_portfolio, floor_quantity,
}
use upbit_auto_trader.Portfolio.Trading.{
  Call, buy_call, sell_call, buy, buy_refusal, buy_quantity, bought_fill, settle_buy, sell, run,
}
use upbit_auto_trader.Portfolio.Ledger.{IsAudited, fills_account_for_cash}
use upbit_auto_trader.Portfolio.Guards.{buy_within_limits}
use upbit_auto_trader.Portfolio.Positions.{sell-buy}

abbrev price : ℤ
price = fixed.number 50000 0

-- One million won, 0.05 % fees, 5,000 won at least.
abbrev account : Portfolio
account = record {
  initial_cash = fixed.number 1000000 0;
  fee_rate = fixed.number 5 4;
  min_order_amount = fixed.number 5000 0;
  cash = fixed.number 1000000 0;
  positions = [];
  fills = [];
  trades = [];
  fees_paid = fixed.number 0 0;
  dust = [];
}

abbrev purchase : Fill
purchase =
    bought_fill "KRW-BTC" price 7 (some (fixed.number 100000 0)) none (text "signal") none account

-- 100,000 won at 50,000 each and 0.05 % fees buy 1.99900049 coins.
purchase_quantity : purchase.quantity ≡ pos 1_999_000_490_000
unfolding bought_fill buy_quantity floor_quantity ◌+ℤ◌
purchase_quantity = refl

abbrev bought : Portfolio
bought = settle_buy account purchase

buys :
    buy "KRW-BTC" price 7 (some (fixed.number 100000 0)) none (text "signal") none true account
    ≡ (ok purchase, bought)
unfolding buy buy_refusal buy_quantity floor_quantity ◌+ℤ◌
buys = refl

-- 4,999 won are under the minimum order.
buy_too_small :
    buy "KRW-BTC" price 7 (some (fixed.number 4999 0)) none (text "signal") none true account
    ≡ (err below_minimum, account)
unfolding buy buy_refusal buy_quantity floor_quantity ◌+ℤ◌
buy_too_small = refl

abbrev calls : List Call
calls =
    buy_call "KRW-BTC" price 7 (some (fixed.number 100000 0)) none (text "signal") none true
    ∷ sell_call "KRW-ETH" price 8 none (text "signal") none true
    ∷ sell_call "KRW-BTC" price 9 (some (fixed.number 1 0)) (text "signal") none true
    ∷ []

fills_account_for_cash_example :
    IsAudited (fixed.number 1000000 0) (fixed.number 0 0) (run calls account)
unfolding new_portfolio ◌+ℤ◌ ◌-ℤ◌
fills_account_for_cash_example =
    fills_account_for_cash (fixed.number 1000000 0) (fixed.number 5 4) (fixed.number 5000 0) calls
      refl

buy_within_limits_example :
    (fixed.lt (fixed.number 0 0) purchase.price ≡ true)
    × (fixed.lt (fixed.number 0 0) purchase.quantity ≡ true)
    × (fixed.le (fixed.number 5000 0) purchase.amount ≡ true)
    × (fixed.le (purchase.amount ⊕ purchase.fee) (fixed.number 1000000 0 ⊕ fixed.number 1 6) ≡ true)
    × (fixed.le (fixed.number 1000000 0 ⊖ (fixed.number 1000000 0 ⊕ fixed.number 1 6)) bought.cash
        ≡ true)
buy_within_limits_example =
    buy_within_limits fixed-FloatLaws "KRW-BTC" price 7 (some (fixed.number 100000 0)) none
      (text "signal") none account buys

other_market : ◌≢◌ {A = String} "KRW-BTC" "KRW-ETH"
other_market e = false≢true ((eq_iff "KRW-BTC" "KRW-ETH").1 e)

-- 1.5 coins that cost 75,000 won and 37.5 won in fees.
abbrev coins : Position
coins = record {
  market = "KRW-BTC";
  quantity = fixed.number 15 1;
  avg_price = price;
  opened_at = 7;
  entry_amount = fixed.number 75000 0;
  entry_fee = fixed.number 375 1;
  cost_known = true;
}

abbrev holding : Portfolio
holding = record account { positions = ("KRW-BTC", coins) ∷ [] }

sell-buy_example :
    (g : Fill) × (q : Portfolio) × (sell "KRW-BTC"
        (fixed.number 49000 0)
        9
        none
        (text "stop")
        none
        true
        bought
      ≡ (ok g, q))
    × (g.quantity ≡ purchase.quantity)
    × (q.positions ≡ account.positions)
unfolding Dict.lookup
sell-buy_example =
    sell-buy fixed-FloatLaws "KRW-BTC" price 7 (some (fixed.number 100000 0)) none (text "signal")
      none true account (fixed.number 49000 0) 9 (text "stop") none true refl buys refl
