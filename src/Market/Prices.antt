-- ===== src/Market/Prices.antt =====
-- app/trading/market_state.py: `PriceState` and the price half of `MarketState`, with the
-- messages of app/exchange/ws_models.py that it reads. Times are microseconds.
use upbit_auto_trader.Prelude.{
  ℕ, String, Bool, true, false, ◌&&◌, Option, none, some, List, [], ◌∷◌, ltb, if◌then◌else◌,
}
use upbit_auto_trader.Prelude.Int.{sub_ℕ}
use upbit_auto_trader.Float.{Float, ◌⊕◌, ◌⊘◌, truthy}
use upbit_auto_trader.Dict
use upbit_auto_trader.Dict.{Dict}

module _ ⦃fl : Float⦄ where
  pub record PriceState : Type 0 where
    pub market : String
    pub last_price : Option fl.Num
    pub last_time : Option ℕ
    pub best_bid : Option fl.Num
    pub best_ask : Option fl.Num
    pub book_time : Option ℕ
    pub book_max_age_seconds : fl.Num

  -- `bool(x)` of an optional number
  abbrev pub given : Option fl.Num → Bool
  given none = false
  given (some x) = truthy x

  -- `(now - then).total_seconds()`
  abbrev pub seconds_since : ℕ → ℕ → fl.Num
  seconds_since now then' = fl.total_seconds (sub_ℕ now then')

  -- `max((t for t in (a, b) if t is not None), default=None)`
  unfoldable pub latest : Option ℕ → Option ℕ → Option ℕ
  latest none b = b
  latest (some a) none = some a
  latest (some a) (some b) = some (if ltb a b then b else a)

  unfoldable pub is_fresh : PriceState → ℕ → fl.Num → Bool
  unfolding latest
  is_fresh s now max_age_seconds = elim (latest s.last_time s.book_time) [
    | none ↦ false
    | some t ↦ fl.le (seconds_since now t) max_age_seconds
  ]

  -- The age test of `book_usable`: it passes where either time is missing.
  unfoldable pub book_keeps_up : Option ℕ → Option ℕ → fl.Num → Bool
  book_keeps_up none last limit = true
  book_keeps_up (some book) none limit = true
  book_keeps_up (some book) (some last) limit = fl.le (seconds_since last book) limit

  unfoldable pub book_usable : PriceState → Bool
  unfolding book_keeps_up
  book_usable s =
      given s.best_bid
      && given s.best_ask
      && book_keeps_up s.book_time s.last_time s.book_max_age_seconds

  -- `(best_bid + best_ask) / 2`
  unfoldable pub middle : Option fl.Num → Option fl.Num → Option fl.Num
  middle (some bid) (some ask) = some ((bid ⊕ ask) ⊘ fl.number 2 0)
  middle _ _ = none

  unfoldable pub mark_price : PriceState → Option fl.Num
  unfolding book_usable middle
  mark_price s = if book_usable s then middle s.best_bid s.best_ask else s.last_price

  -- The WebSocket messages, with the fields that the prices are taken from; `other` is any of
  -- the remaining kinds. The units of an order book are (bid, ask), best first.
  pub data WsMessage : Type 0 where
    ticker : (code : String) (trade_price : fl.Num) (received_at : ℕ) → WsMessage
    trade :
        (code : String) (trade_price : fl.Num) (traded_at : ℕ) (best_bid best_ask : Option fl.Num)
        (received_at : ℕ)
        → WsMessage
    orderbook : (code : String) (units : List (fl.Num × fl.Num)) (received_at : ℕ) → WsMessage
    other : WsMessage

  pub record MarketState : Type 0 where
    pub price_max_age_seconds : fl.Num
    pub prices : Dict PriceState

  abbrev pub blank : String → fl.Num → PriceState
  blank market limit = record {
    market = market;
    last_price = none;
    last_time = none;
    best_bid = none;
    best_ask = none;
    book_time = none;
    book_max_age_seconds = limit;
  }

  -- `_state(market)`: the state that is there, or a new one. The code puts a new one in the
  -- dict at once, and every caller of it here writes the state back.
  unfoldable pub state_of : MarketState → String → PriceState
  state_of s market = elim (Dict.lookup market s.prices) [
    | none ↦ blank market s.price_max_age_seconds
    | some p ↦ p
  ]

  abbrev pub put : MarketState → String → PriceState → MarketState
  put s market p = record s { prices = Dict.insert market p s.prices }

  unfoldable pub set_last_price : String → fl.Num → ℕ → MarketState → MarketState
  unfolding state_of
  set_last_price market price time s =
      put s market (record (state_of s market) { last_price = some price; last_time = some time })

  -- The book part of a trade message, taken only where both prices are there and not zero.
  unfoldable pub with_book : Option fl.Num → Option fl.Num → ℕ → PriceState → PriceState
  with_book bid ask at p =
      if given bid && given ask
      then record p { best_bid = bid; best_ask = ask; book_time = some at }
      else p

  unfoldable pub with_units : List (fl.Num × fl.Num) → ℕ → PriceState → PriceState
  with_units [] at p = p
  with_units ((bid, ask) ∷ rest) at p = record p {
    best_bid = some bid;
    best_ask = some ask;
    book_time = some at;
  }

  unfoldable pub update_price : WsMessage → MarketState → Bool × MarketState
  unfolding state_of set_last_price with_book with_units
  update_price (ticker code price at) s = (true, set_last_price code price at s)
  update_price (trade code price traded bid ask at) s = (
    true,
    put s code (
        with_book bid ask at
          (record (state_of s code) { last_price = some price; last_time = some traded })),
  )
  update_price (orderbook code units at) s =
      (true, put s code (with_units units at (state_of s code)))
  update_price other s = (false, s)

  -- `{m: s.mark_price for m, s in prices.items() if s.mark_price}`
  add_mark : String → Option fl.Num → Dict fl.Num → Dict fl.Num
  add_mark market none rest = rest
  add_mark market (some x) rest = if truthy x then (market, x) ∷ rest else rest

  marks_of : Dict PriceState → Dict fl.Num
  unfolding add_mark mark_price
  marks_of [] = []
  marks_of ((market, p) ∷ rest) = add_mark market (mark_price p) (marks_of rest)

  unfoldable pub mark_prices : MarketState → Dict fl.Num
  unfolding marks_of
  mark_prices s = marks_of s.prices
