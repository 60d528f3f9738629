-- ===== src/Market/Marks.antt =====
-- app/trading/market_state.py: which price a market is valued at.
use upbit_auto_trader.Prelude.{
  ℕ, String, ◌≡◌, refl, false, Option, none, some, ◌⊎◌, inl, inr, arith, eq_iff, str_eq, ap,
  Bool-cases,
}
use upbit_auto_trader.Float.{Float}
use upbit_auto_trader.Dict
use upbit_auto_trader.Dict.{Dict, lookup-insert, lookup-insert_self}
use upbit_auto_trader.Market.Prices.{
  PriceState, MarketState, WsMessage, ticker, trade, orderbook, other, seconds_since, mark_price,
  set_last_price, state_of, update_price, put,
}

module _ ⦃fl : Float⦄ where
  -- The book is behind the last price by more than its age limit.
  abbrev pub IsBehind : PriceState → Type 0
  IsBehind s =
      (last : ℕ) × (book : ℕ) × (s.last_time ≡ some last)
      × (s.book_time ≡ some book)
      × (fl.le (seconds_since last book) s.book_max_age_seconds ≡ false)

  mark_price_behind : (s : PriceState) → IsBehind s → mark_price s ≡ s.last_price
  unfolding mark_price
  mark_price_behind s (last, book, l, b, old) = ground arith

  -- The state that a price correction by REST leaves for its market.
  set_last_price_self :
      (market : String) (price : fl.Num) (time : ℕ) (s : MarketState)
      → Dict.lookup market (set_last_price market price time s).prices
        ≡ some (record (state_of s market) { last_price = some price; last_time = some time })
  unfolding set_last_price
  set_last_price_self market price time s = rw lookup-insert_self refl

  -- After a price correction by REST whose time is more than the age limit later than the book,
  -- the market is valued at the corrected price, and not by the book of before.
  pub rest_price_replaces_old_book :
      (market : String) (price : fl.Num) (time book : ℕ) (s : MarketState)
      → (state_of s market).book_time ≡ some book
      → fl.le (seconds_since time book) (state_of s market).book_max_age_seconds ≡ false
      → (p : PriceState) × (Dict.lookup market (set_last_price market price time s).prices ≡ some p)
        × (mark_price p ≡ some price)
  rest_price_replaces_old_book market price time book s b old = (
    record (state_of s market) { last_price = some price; last_time = some time },
    set_last_price_self market price time s,
    mark_price_behind
        (record (state_of s market) { last_price = some price; last_time = some time })
        (time, book, refl, b, old),
  )

  abbrev pub market_of : WsMessage → Option String
  market_of (ticker code price at) = some code
  market_of (trade code price traded bid ask at) = some code
  market_of (orderbook code units at) = some code
  market_of other = none

  put_others :
      (code market : String) (p : PriceState) (s : MarketState)
      → (Dict.lookup market (put s code p).prices ≡ Dict.lookup market s.prices) ⊎ (code ≡ market)
  put_others code market p s = elim (Bool-cases (str_eq code market)) [
    | inl same ↦ inr ((eq_iff code market).0 same)
    | inr differ ↦ inl (rw lookup-insert (rw differ refl))
  ]

  -- A message changes at most the price of the market that it names; one of another kind
  -- changes none.
  pub update_price_others :
      (message : WsMessage) (s : MarketState) (market : String)
      → (Dict.lookup market (update_price message s).1.prices ≡ Dict.lookup market s.prices)
        ⊎ (market_of message ≡ some market)
  unfolding update_price
  update_price_others (ticker code price at) s market = elim (put_others code market _ s) [
    | inl e ↦ inl e
    | inr e ↦ inr (ap some e)
  ]
  update_price_others (trade code price traded bid ask at) s market =
      elim (put_others code market _ s) [ inl e ↦ inl e | inr e ↦ inr (ap some e) ]
  update_price_others (orderbook code units at) s market = elim (put_others code market _ s) [
    | inl e ↦ inl e
    | inr e ↦ inr (ap some e)
  ]
  update_price_others other s market = inl refl
