-- ===== src/Live/Bounds.antt =====
-- app/trading/live_broker.py: the length of an identifier, and the amounts of an order against the
-- limits that the exchange tells.
use Prim.Native.String.{◌∷◌ as ◌∷c◌, [] as no_text, count}
use text.Mathlib.TextLemmas.{length-append, length-cons, length-nil}
use upbit_auto_trader.Prelude.{
  ℕ, zero, suc, ◌≤◌, String, ◌≡◌, true, false, none, some, arith, or_else,
}
use upbit_auto_trader.Float.{Float, nil}
use upbit_auto_trader.Float.Laws.{FloatLaws}
use upbit_auto_trader.Portfolio.Account.{Portfolio, position}
use upbit_auto_trader.Exchange.Models.{OrderChance}
use upbit_auto_trader.Exchange.Client.{OrderParams, market_buy_params, market_sell_params}
use upbit_auto_trader.Orders.Order.{OrderRequest, Order}
use upbit_auto_trader.Live.Broker.{
  Texts, take, attempt_suffix, make_identifier, includes, buy_amount, sell_amount, prepare_buy,
  prepare_sell, params,
}

take-count : (n : ℕ) (s : String) → count (take n s) ≤ n
unfolding take
take-count zero s = ground (arith, length-nil)
take-count (suc n) no_text = ground (arith, length-nil)
take-count (suc n) (c ∷c s) = ground (arith, take-count n s, length-cons c (take n s))

-- An identifier has at most 64 characters, whatever the client id, where the digest has 16 and the
-- number of the attempt at most 45 digits.
pub make_identifier_within :
    (tx : Texts) (client_id : String) (attempt : ℕ)
    → count (tx.digest client_id) ≡ 16
    → count (tx.show attempt) ≤ 45
    → count (make_identifier tx client_id attempt) ≤ 64
unfolding make_identifier attempt_suffix
make_identifier_within tx client_id attempt h k = grind (arith, length-append, take-count)

module _ ⦃fl : Float⦄ (laws : FloatLaws) where
  buy_amount_within :
      (chance : OrderChance) (wanted : fl.Num)
      → (fl.le (buy_amount chance wanted) wanted ≡ true)
        × (fl.le (buy_amount chance wanted) (fl.float_of chance.bid_account.balance) ≡ true)
  unfolding buy_amount
  buy_amount_within chance wanted =
      let free = fl.float_of chance.bid_account.balance in
      let most : fl.Num = elim chance.max_total [ some d ↦ fl.float_of d | none ↦ nil ] in
      (
        ground (
          arith,
          laws.le_refl wanted,
          laws.le_of_lt free wanted,
          laws.le_of_lt most wanted,
          laws.le_of_lt most free,
          laws.le_trans most free wanted,
        ),
        ground (
          arith,
          laws.le_refl free,
          laws.le_of_lt_false free wanted,
          laws.le_of_lt most wanted,
          laws.le_of_lt most free,
          laws.le_trans most wanted free,
        ),
      )

  -- A purchase that is sent has a positive budget; its amount is noted in the order, is no more
  -- than the budget and the balance, not below the smallest order, and no more than the largest
  -- order where one is set; the exchange supports the kind of order.
  pub prepare_buy_within :
      (chance : OrderChance) (r : OrderRequest) (o : Order) (wanted : fl.Num) (ps : OrderParams)
      → r.amount ≡ some wanted
      → (prepare_buy chance r o).0 ≡ params ps
      → let amount = buy_amount chance wanted in
        ((prepare_buy chance r o).1.amount ≡ some amount)
        × (fl.lt nil wanted ≡ true)
        × (fl.le amount wanted ≡ true)
        × (fl.le amount (fl.float_of chance.bid_account.balance) ≡ true)
        × (fl.lt amount (fl.float_of (or_else chance.min_total_bid fl.dec_zero)) ≡ false)
        × (includes "price" chance.bid_types ≡ true)
        × (ps.price ≡ some (fl.show_round amount))
        × (ps.identifier ≡ none)
  unfolding prepare_buy buy_amount market_buy_params
  prepare_buy_within chance r o wanted ps h k = (
    ground arith,
    ground (arith, laws.lt_of_le_false wanted nil),
    (buy_amount_within chance wanted).0,
    (buy_amount_within chance wanted).1,
    ground arith,
    ground arith,
    ground arith,
    ground arith,
  )

  sell_amount_within :
      (chance : OrderChance) (r : OrderRequest) (p : Portfolio)
      → fl.le (sell_amount chance r p) (fl.float_of chance.ask_account.balance) ≡ true
  unfolding sell_amount
  sell_amount_within chance r p =
      let free = fl.float_of chance.ask_account.balance in
      let held : fl.Num = elim (position p r.market) [ some pos ↦ pos.quantity | none ↦ nil ] in
      let wanted = or_else r.quantity held in
      ground (arith, laws.le_refl free, laws.le_of_lt_false free wanted)

  -- A sale that is sent is for a positive quantity, which is noted in the order and no more than
  -- the balance; the exchange supports the kind of order.
  pub prepare_sell_within :
      (chance : OrderChance) (r : OrderRequest) (p : Portfolio) (o : Order) (ps : OrderParams)
      → (prepare_sell chance r p o).0 ≡ params ps
      → let quantity = sell_amount chance r p in
        ((prepare_sell chance r p o).1.quantity ≡ some quantity)
        × (fl.lt nil quantity ≡ true)
        × (fl.le quantity (fl.float_of chance.ask_account.balance) ≡ true)
        × (includes "market" chance.ask_types ≡ true)
        × (ps.volume ≡ some (fl.show_dec (fl.quantize_down quantity)))
        × (ps.price ≡ none)
  unfolding prepare_sell sell_amount market_sell_params
  prepare_sell_within chance r p o ps k = (
    ground arith,
    ground (arith, laws.lt_of_le_false (sell_amount chance r p) nil),
    sell_amount_within chance r p,
    ground arith,
    ground arith,
    ground arith,
  )
