-- ===== src/Portfolio/Trading.antt =====
-- app/trading/portfolio.py: `buy` and `sell`. A method returns its result or the error that it
-- raises beside the portfolio, since what was written before a raise would stay written. The
-- position that the code mutates in place is the object in the dict, so a write to it is
-- `Dict.insert`.
use upbit_auto_trader.Prelude.{
  ℕ, String, Bool, true, not, ◌&&◌, Option, none, some, List, [], ◌∷◌, ◌++◌, or_else, if◌then◌else◌,
}
use upbit_auto_trader.Float.{Float, ◌⊕◌, ◌⊖◌, ◌⊗◌, ◌⊘◌, nil, one, min, truthy}
use upbit_auto_trader.Dict
use upbit_auto_trader.Portfolio.Account.{
  Note, buying, selling, PortfolioError, bad_price, zero_quantity, below_minimum, short_cash,
  no_position, Result, ok, err, Fill, Position, Trade, Portfolio, floor_quantity,
}

module _ ⦃fl : Float⦄ where
  -- The quantity that a purchase is for: that of the caller, or what the budget pays for.
  unfoldable pub buy_quantity : Portfolio → fl.Num → Option fl.Num → Option fl.Num → fl.Num
  buy_quantity p price amount none =
      let budget : fl.Num = elim amount [ none ↦ p.cash | some a ↦ min a p.cash ] in
      floor_quantity (budget ⊘ (price ⊗ (one ⊕ p.fee_rate)))
  buy_quantity p price amount (some quantity) = floor_quantity quantity

  -- The checks of `buy` between the sizes and the first write.
  unfoldable pub buy_refusal : Portfolio → fl.Num → fl.Num → fl.Num → Bool → Option PortfolioError
  buy_refusal p quantity cost fee enforce_limits =
      if fl.le quantity nil
      then some zero_quantity
      else if enforce_limits && fl.lt cost p.min_order_amount
      then some below_minimum
      else if enforce_limits && fl.lt (p.cash ⊕ fl.number 1 6) (cost ⊕ fee)
      then some short_cash
      else none

  unfoldable pub bought_position :
      Option Position → String → fl.Num → fl.Num → ℕ → fl.Num → fl.Num → Position
  bought_position none market quantity price time cost fee = record {
    market = market;
    quantity = quantity;
    avg_price = price;
    opened_at = time;
    entry_amount = cost;
    entry_fee = fee;
    cost_known = true;
  }
  bought_position (some pos) market quantity price time cost fee =
      let total_qty = pos.quantity ⊕ quantity in
      record pos {
        avg_price = (pos.avg_price ⊗ pos.quantity ⊕ cost) ⊘ total_qty;
        quantity = total_qty;
        entry_amount = pos.entry_amount ⊕ cost;
        entry_fee = pos.entry_fee ⊕ fee;
      }

  -- The writes of `buy`, which come after its last check.
  unfoldable pub settle_buy : Portfolio → Fill → Portfolio
  settle_buy p f = record p {
    cash = p.cash ⊖ (f.amount ⊕ f.fee);
    fees_paid = p.fees_paid ⊕ f.fee;
    positions =
        Dict.insert f.market
          (bought_position (Dict.lookup f.market p.positions) f.market f.quantity f.price f.time
            f.amount f.fee)
          p.positions;
    fills = p.fills ++ f ∷ [];
  }

  -- The fill of a purchase: its sizes, and the fee that the exchange reports or that is charged.
  unfoldable pub bought_fill :
      String → fl.Num → ℕ → Option fl.Num → Option fl.Num → Note → Option fl.Num → Portfolio → Fill
  bought_fill market price time amount quantity reason fee p =
      let qty = buy_quantity p price amount quantity in
      let cost = qty ⊗ price in
      record {
        time = time;
        market = market;
        side = buying;
        price = price;
        quantity = qty;
        amount = cost;
        fee = or_else fee (cost ⊗ p.fee_rate);
        reason = reason;
      }

  unfoldable pub buy :
      String
      → fl.Num
      → ℕ
      → Option fl.Num
      → Option fl.Num
      → Note
      → Option fl.Num
      → Bool
      → Portfolio
      → Result Fill × Portfolio
  unfolding settle_buy bought_fill
  buy market price time amount quantity reason fee enforce_limits p =
      if fl.le price nil
      then (err bad_price, p)
      else let f = bought_fill market price time amount quantity reason fee p in
        elim (buy_refusal p f.quantity f.amount f.fee enforce_limits) [
          | some e ↦ (err e, p)
          | none ↦ (ok f, settle_buy p f)
        ]

  -- Whether `sell` closes the position: no quantity given, or all of it but for 1e-12.
  unfoldable pub sells_all : Position → Option fl.Num → Bool
  sells_all pos none = true
  sells_all pos (some quantity) = fl.le (pos.quantity ⊖ fl.number 1 12) quantity

  unfoldable pub sell_quantity : Position → Option fl.Num → fl.Num
  unfolding sells_all
  sell_quantity pos none = pos.quantity
  sell_quantity pos (some quantity) =
      if sells_all pos (some quantity) then pos.quantity else floor_quantity quantity

  -- The round trip that a sale of `f.quantity` out of `pos` records.
  unfoldable pub closed_trade : Position → Fill → Trade
  closed_trade pos f =
      let fraction = f.quantity ⊘ pos.quantity in
      let entry_amount = pos.entry_amount ⊗ fraction in
      let entry_fee = pos.entry_fee ⊗ fraction in
      let pnl = f.amount ⊖ f.fee ⊖ entry_amount ⊖ entry_fee in
      let basis = entry_amount ⊕ entry_fee in
      record {
        market = f.market;
        entry_time = pos.opened_at;
        entry_price = pos.avg_price;
        quantity = f.quantity;
        entry_amount = entry_amount;
        entry_fee = entry_fee;
        exit_time = f.time;
        exit_price = f.price;
        exit_amount = f.amount;
        exit_fee = f.fee;
        exit_reason = f.reason;
        pnl = pnl;
        pnl_pct = if truthy basis then pnl ⊘ basis else nil;
      }

  unfoldable pub sold_position : Position → Fill → Trade → Position
  sold_position pos f t = record pos {
    quantity = pos.quantity ⊖ f.quantity;
    entry_amount = pos.entry_amount ⊖ t.entry_amount;
    entry_fee = pos.entry_fee ⊖ t.entry_fee;
  }

  -- The writes of `sell`, which come after its last check.
  unfoldable pub settle_sell : Portfolio → Position → Bool → Fill → Portfolio
  unfolding closed_trade sold_position
  settle_sell p pos full f =
      let trade = closed_trade pos f in
      record p {
        cash = p.cash ⊕ (f.amount ⊖ f.fee);
        fees_paid = p.fees_paid ⊕ f.fee;
        positions =
            if full
            then Dict.erase f.market p.positions
            else Dict.insert f.market (sold_position pos f trade) p.positions;
        fills = p.fills ++ f ∷ [];
        trades = p.trades ++ trade ∷ [];
      }

  unfoldable pub sold_fill :
      Position → String → fl.Num → ℕ → Option fl.Num → Note → Option fl.Num → Portfolio → Fill
  sold_fill pos market price time quantity reason fee p =
      let qty = sell_quantity pos quantity in
      let proceeds = qty ⊗ price in
      record {
        time = time;
        market = market;
        side = selling;
        price = price;
        quantity = qty;
        amount = proceeds;
        fee = or_else fee (proceeds ⊗ p.fee_rate);
        reason = reason;
      }

  -- The checks of `sell` on the position that it found.
  unfoldable pub sell_refusal : Portfolio → Position → Bool → Fill → Bool → Option PortfolioError
  sell_refusal p pos full f enforce_limits =
      if fl.le pos.quantity nil
      then some no_position
      else if fl.le f.price nil
      then some bad_price
      else if fl.le f.quantity nil
      then some zero_quantity
      else if enforce_limits && (not full && fl.lt f.amount p.min_order_amount)
      then some below_minimum
      else none

  -- `sell` once the position is found.
  unfoldable pub sell_from :
      Position
      → String
      → fl.Num
      → ℕ
      → Option fl.Num
      → Note
      → Option fl.Num
      → Bool
      → Portfolio
      → Result Fill × Portfolio
  unfolding settle_sell sell_quantity sold_fill sell_refusal
  sell_from pos market price time quantity reason fee enforce_limits p =
      let full = sells_all pos quantity in
      let f = sold_fill pos market price time quantity reason fee p in
      elim (sell_refusal p pos full f enforce_limits) [
        | some e ↦ (err e, p)
        | none ↦ (ok f, settle_sell p pos full f)
      ]

  unfoldable pub sell :
      String
      → fl.Num
      → ℕ
      → Option fl.Num
      → Note
      → Option fl.Num
      → Bool
      → Portfolio
      → Result Fill × Portfolio
  unfolding sell_from
  sell market price time quantity reason fee enforce_limits p =
      elim (Dict.lookup market p.positions) [
        | none ↦ (err no_position, p)
        | some pos ↦ sell_from pos market price time quantity reason fee enforce_limits p
      ]

  -- One call of the account's two methods.
  pub data Call : Type 0 where
    buy_call :
        String → fl.Num → ℕ → Option fl.Num → Option fl.Num → Note → Option fl.Num → Bool → Call
    sell_call : String → fl.Num → ℕ → Option fl.Num → Note → Option fl.Num → Bool → Call

  unfoldable pub call : Call → Portfolio → Result Fill × Portfolio
  call (buy_call m price t amount q reason fee lim) = buy m price t amount q reason fee lim
  call (sell_call m price t q reason fee lim) = sell m price t q reason fee lim

  -- The portfolio after the calls in turn, a caller going on after each `PortfolioError`.
  unfoldable pub run : List Call → Portfolio → Portfolio
  unfolding call
  run [] p = p
  run (c ∷ cs) p = run cs (call c p).1
