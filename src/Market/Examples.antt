-- ===== src/Market/Examples.antt =====
-- The theorems on prices at concrete inputs.
use upbit_auto_trader.Prelude.{◌≡◌, refl, some, [], ◌∷◌}
use upbit_auto_trader.Prelude.Int.{◌+ℤ◌}
use upbit_auto_trader.Float.Fixed.{fixed}
use upbit_auto_trader.Market.Prices.{PriceState, MarketState, mark_price}

-- A book that is 60 seconds old when the price is corrected, with a limit of 30 seconds.
abbrev stale : PriceState
stale = record {
  market = "KRW-BTC";
  last_price = some (fixed.number 50000 0);
  last_time = some 1_000_000;
  best_bid = some (fixed.number 49990 0);
  best_ask = some (fixed.number 50010 0);
  book_time = some 2_000_000;
  book_max_age_seconds = fixed.number 30 0;
}

abbrev market : MarketState
market = record { price_max_age_seconds = fixed.number 30 0; prices = ("KRW-BTC", stale) ∷ [] }

-- Before the correction the market is valued at the middle of the book.
mark_of_book : mark_price stale ≡ some (fixed.number 50000 0)
unfolding mark_price ◌+ℤ◌
mark_of_book = refl
