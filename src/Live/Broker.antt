-- ===== src/Live/Broker.antt =====
-- app/trading/live_broker.py: the state of `LiveBroker`, the identifiers of its orders, and the
-- checks and parameters before an order. What a method raises is a value.
use Prim.Native.String.{◌++◌, ◌∷◌ as ◌∷c◌, [] as no_text, count}
use upbit_auto_trader.Prelude.{
  ℕ, zero, suc, ◌+◌, ◌-◌, String, Bool, true, false, ◌&&◌, not, Option, none, some, List, [], ◌∷◌,
  ltb, str_eq, or_else, if◌then◌else◌,
}
use upbit_auto_trader.Float.{Float, nil, min, truthy}
use upbit_auto_trader.Portfolio.Account.{buying, selling, Portfolio, position}
use upbit_auto_trader.Market.Prices.{PriceState, is_fresh}
use upbit_auto_trader.Exchange.Models.{OrderChance}
use upbit_auto_trader.Exchange.Client.{
  Reply, answer, failed, OrderParams, Client, market_buy_params, market_sell_params,
}
use upbit_auto_trader.Orders.Guard.{LiveFlags, LiveTradingDisabled}
use upbit_auto_trader.Orders.Order.{
  PrepareError, chance_failed, market_closed, no_amount, amount_too_small, price_type_missing,
  nothing_to_sell, market_type_missing, bad_params, OrderError, quote_stale, quote_failed,
  quote_empty, OrderRequest, Order,
}

-- The texts that the standard library makes: `datetime.isoformat`, `str` of an attempt's number
-- and the first 16 characters of the SHA-1 digest.
pub record Texts : Type 0 where
  pub isoformat : ℕ → String
  pub show : ℕ → String
  pub digest : String → String

-- `text[:n]`
unfoldable pub take : ℕ → String → String
take zero s = no_text
take (suc n) no_text = no_text
take (suc n) (c ∷c s) = c ∷c take n s

abbrev pub max_identifier_length : ℕ
max_identifier_length = 64

unfoldable pub attempt_suffix : Texts → ℕ → String
attempt_suffix tx attempt = if ltb 1 attempt then "-r" ++ tx.show attempt else ""

unfoldable pub make_identifier : Texts → String → ℕ → String
unfolding attempt_suffix take
make_identifier tx client_id attempt =
    let suffix = attempt_suffix tx attempt in
    if ltb max_identifier_length (count client_id + count suffix)
    then (take (max_identifier_length - count suffix - 17) client_id ++ "-" ++ tx.digest client_id)
      ++ suffix
    else client_id ++ suffix

-- What leaves a method as an exception that nothing catches.
pub data Escape : Type 0 where
  trading_disabled : LiveTradingDisabled → Escape
  client_barred : Escape
  response_unreadable : Escape

-- `running`: the loop that waits for the fill was cut off, which is not a behaviour of the code.
pub data Outcome (A : Type 0) : Type 0 where
  returned : A → Outcome A
  raised : Escape → Outcome A
  running : Outcome A

-- `x in xs` of texts
unfoldable pub includes : String → List String → Bool
includes x [] = false
includes x (y ∷ ys) = let rest = includes x ys in if str_eq y x then true else rest

module _ ⦃fl : Float⦄ where
  pub record LiveBroker : Type 0 where
    pub portfolio : Portfolio
    pub settings : LiveFlags
    pub price_max_age_seconds : fl.Num
    pub processed : List String
    pub poll_interval : fl.Num
    pub fill_timeout : fl.Num
    pub max_attempts : ℕ
    pub lookup_attempts : ℕ
    pub lookup_backoff : fl.Num
    pub trades_lookup_attempts : ℕ
    pub last_chance : Option OrderChance

  unfoldable pub ticker_verdict : Reply (Option fl.Num) → Option OrderError
  ticker_verdict (failed _) = some quote_failed
  ticker_verdict (answer none) = some quote_empty
  ticker_verdict (answer (some price)) = if truthy price then none else some quote_empty

  -- `_price_guard`: why the order has to wait.
  unfoldable pub price_guard :
      (cl : Client)
      → String
      → Option PriceState
      → ℕ
      → LiveBroker
      → cl.World
      → Option OrderError × cl.World
  unfolding ticker_verdict
  price_guard cl market (some price) now b w =
      (if is_fresh price now b.price_max_age_seconds then none else some quote_stale, w)
  price_guard cl market none now b w = elim cl.get_ticker [
    | none ↦ (none, w)
    | some fetch ↦ let (reply, w') = fetch market w in (ticker_verdict reply, w')
  ]

  -- What `_build_params` gives: the parameters or the error that it raises.
  pub data Prepared : Type 0 where
    params : OrderParams → Prepared
    unprepared : PrepareError → Prepared

  abbrev pub checked_params : Option OrderParams → Prepared
  checked_params none = unprepared bad_params
  checked_params (some ps) = params ps

  -- The amount after the balance and the exchange's largest order.
  unfoldable pub buy_amount : OrderChance → fl.Num → fl.Num
  buy_amount chance wanted =
      let amount = min wanted (fl.float_of chance.bid_account.balance) in
      let max_total : fl.Num = elim chance.max_total [ some d ↦ fl.float_of d | none ↦ nil ] in
      if fl.lt nil max_total && fl.lt max_total amount then max_total else amount

  -- A purchase, with the order that notes its amount.
  unfoldable pub prepare_buy : OrderChance → OrderRequest → Order → Prepared × Order
  unfolding buy_amount
  prepare_buy chance r o = elim r.amount [
    | none ↦ (unprepared no_amount, o)
    | some wanted ↦
        let amount = buy_amount chance wanted in
        if fl.le wanted nil
        then (unprepared no_amount, o)
        else if fl.lt amount (fl.float_of (or_else chance.min_total_bid fl.dec_zero))
        then (unprepared amount_too_small, o)
        else if not (includes "price" chance.bid_types)
        then (unprepared price_type_missing, o)
        else (checked_params (market_buy_params r.market amount), record o { amount = some amount })
  ]

  -- The quantity of a sale: what is asked for or held, within the balance.
  unfoldable pub sell_amount : OrderChance → OrderRequest → Portfolio → fl.Num
  sell_amount chance r p =
      let held : fl.Num = elim (position p r.market) [ some pos ↦ pos.quantity | none ↦ nil ] in
      min (or_else r.quantity held) (fl.float_of chance.ask_account.balance)

  unfoldable pub prepare_sell : OrderChance → OrderRequest → Portfolio → Order → Prepared × Order
  unfolding sell_amount
  prepare_sell chance r p o =
      let quantity = sell_amount chance r p in
      if fl.le quantity nil
      then (unprepared nothing_to_sell, o)
      else if not (includes "market" chance.ask_types)
      then (unprepared market_type_missing, o)
      else (
        checked_params (market_sell_params r.market quantity),
        record o { quantity = some quantity },
      )

  abbrev pub is_active : Option String → Bool
  is_active none = true
  is_active (some state) = str_eq state "active"

  -- `_build_params` once the chance is known.
  unfoldable pub prepare : OrderChance → OrderRequest → Portfolio → Order → Prepared × Order
  unfolding prepare_buy prepare_sell
  prepare chance r p o =
      if not (is_active chance.market_state)
      then (unprepared market_closed, o)
      else elim r.side [ buying ↦ prepare_buy chance r o | selling ↦ prepare_sell chance r p o ]

  unfoldable pub build_params :
      (cl : Client)
      → OrderRequest
      → Order
      → LiveBroker
      → cl.World
      → (Prepared × Order) × LiveBroker × cl.World
  unfolding prepare
  build_params cl r o b w =
      let (reply, w') = cl.get_order_chance r.market w in
      elim reply [
        | failed _ ↦ ((unprepared chance_failed, o), b, w')
        | answer chance ↦
            (prepare chance r b.portfolio o, record b { last_chance = some chance }, w')
      ]
