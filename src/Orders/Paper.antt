-- ===== src/Orders/Paper.antt =====
-- app/trading/orders.py: `PaperBroker`, which fills against the quotes and sends nothing.
use upbit_auto_trader.Prelude.{
  ℕ, String, Bool, true, false, ◌&&◌, Option, none, some, List, [], ◌∷◌, ◌++◌, if◌then◌else◌,
}
use upbit_auto_trader.Float.{Float, ◌⊕◌, ◌⊖◌, ◌⊗◌, nil, one}
use upbit_auto_trader.Portfolio.Account.{
  Side, buying, selling, Result, ok, err, Fill, Portfolio, text, labelled,
}
use upbit_auto_trader.Portfolio.Trading.{buy, sell}
use upbit_auto_trader.Market.Prices.{PriceState, given, seconds_since}
use upbit_auto_trader.Orders.Order.{
  filled, OrderError, duplicate_signal, no_price_information, price_too_old, account_refused,
  OrderRequest, Order, resolved_client_id, new_order, reject, is_processed,
}

module _ ⦃fl : Float⦄ where
  pub record PaperBroker : Type 0 where
    pub portfolio : Portfolio
    pub slippage_rate : fl.Num
    pub max_price_age : fl.Num
    pub processed : List String

  -- `PaperBroker(portfolio, ...)`; `none` is the `ValueError`.
  unfoldable pub paper_broker : Portfolio → fl.Num → fl.Num → List String → Option PaperBroker
  paper_broker portfolio slippage_rate max_price_age processed =
      if fl.le nil slippage_rate && fl.lt slippage_rate (fl.number 1 1)
      then some (record {
        portfolio = portfolio;
        slippage_rate = slippage_rate;
        max_price_age = max_price_age;
        processed = processed;
      })
      else none

  -- A reference price with the source that it is from, or why there is none.
  pub data Reference : Type 0 where
    found : fl.Num → (source : String) → Reference
    missing : OrderError → Reference

  -- A time that is known and not older than the limit.
  unfoldable pub is_recent : Option ℕ → ℕ → fl.Num → Bool
  is_recent none now limit = false
  is_recent (some t) now limit = fl.le (seconds_since now t) limit

  -- The best price of the side, where the book is recent and the price is not missing or zero.
  unfoldable pub book_price : Side → PriceState → ℕ → fl.Num → Option fl.Num
  unfolding is_recent
  book_price side s now limit =
      let ref : Option fl.Num = elim side [ buying ↦ s.best_ask | selling ↦ s.best_bid ] in
      if is_recent s.book_time now limit && given ref then ref else none

  unfoldable pub trade_price : PriceState → ℕ → fl.Num → Option fl.Num
  unfolding is_recent
  trade_price s now limit =
      if given s.last_price && is_recent s.last_time now limit then s.last_price else none

  unfoldable pub reference_price : Side → Option PriceState → ℕ → fl.Num → Reference
  unfolding book_price trade_price
  reference_price side none now limit = missing no_price_information
  reference_price side (some s) now limit = elim (book_price side s now limit) [
    | some ref ↦ found ref "orderbook"
    | none ↦ elim (trade_price s now limit) [
      | some ref ↦ found ref "last_trade"
      | none ↦ missing price_too_old
    ]
  ]

  -- The price with the slippage against the side.
  unfoldable pub slipped : Side → fl.Num → fl.Num → fl.Num
  slipped buying rate ref = ref ⊗ (one ⊕ rate)
  slipped selling rate ref = ref ⊗ (one ⊖ rate)

  unfoldable pub fill_on_account :
      Side → OrderRequest → fl.Num → ℕ → Portfolio → Result Fill × Portfolio
  fill_on_account buying r price now p =
      buy r.market price now r.amount none (text r.reason) none true p
  fill_on_account selling r price now p =
      sell r.market price now r.quantity (text r.reason) none true p

  unfoldable pub fill_order : Order → Fill → ℕ → String → String → Order
  fill_order o f now reason source = record o {
    status = filled;
    filled_at = some now;
    fill_price = some f.price;
    filled_quantity = some f.quantity;
    fee = f.fee;
    fills = o.fills ++ f ∷ [];
    reason = labelled (text reason) source;
  }

  -- What follows the call of the account.
  unfoldable pub conclude :
      Result Fill × Portfolio
      → Order
      → OrderRequest
      → ℕ
      → String
      → PaperBroker
      → Order × PaperBroker
  unfolding fill_order reject
  conclude (err e, p) o r now source b = (reject o (account_refused e), record b { portfolio = p })
  conclude (ok f, p) o r now source b = (
    fill_order o f now r.reason source,
    record b { portfolio = p; processed = o.client_id ∷ b.processed },
  )

  -- `execute`. `stamp` and `id` are the two new `uuid4` values that it may need.
  unfoldable pub execute :
      (isoformat : ℕ → String) (stamp id : String)
      → OrderRequest
      → Option PriceState
      → ℕ
      → PaperBroker
      → Order × PaperBroker
  unfolding new_order reject is_processed reference_price slipped fill_on_account conclude
  execute isoformat stamp id r price now b =
      let client_id = resolved_client_id isoformat stamp "paper" r in
      let o = new_order id client_id "paper" r now in
      if is_processed client_id b.processed
      then (reject o duplicate_signal, b)
      else elim (reference_price r.side price now b.max_price_age) [
        | missing e ↦ (reject o e, b)
        | found ref source ↦
            conclude (fill_on_account r.side r (slipped r.side b.slippage_rate ref) now b.portfolio)
              o r now source b
      ]
