-- ===== src/Live/Accounts.antt =====
-- app/trading/live_broker.py: the account as the exchange tells it. `portfolio_from_accounts`,
-- `merge_saved_positions` and `_reconcile_locked`.
use upbit_auto_trader.Prelude.{
  ℕ, String, Bool, true, false, not, ◌&&◌, Option, none, some, List, [], ◌∷◌, str_eq, or_else,
  if◌then◌else◌,
}
use upbit_auto_trader.Float.{Float, ◌⊖◌, ◌⊗◌, nil, max, abs, truthy}
use upbit_auto_trader.Dict
use upbit_auto_trader.Dict.{Dict}
use upbit_auto_trader.Portfolio.Account.{Position, Portfolio, new_portfolio}
use upbit_auto_trader.Exchange.Models.{Balance, total, positive, base_currency}
use upbit_auto_trader.Exchange.Client.{Failure, answer, failed, Client}
use upbit_auto_trader.Live.Broker.{LiveBroker, includes}

module _ ⦃fl : Float⦄ where
  -- `next((a for a in accounts if a.currency == "KRW"), None)`
  unfoldable pub first_of : String → List Balance → Option Balance
  first_of currency [] = none
  first_of currency (a ∷ accounts) =
      if str_eq a.currency currency then some a else first_of currency accounts

  -- `by_currency.get(base)`: a later balance of the same currency replaces an earlier one.
  unfoldable pub last_of : String → List Balance → Option Balance
  last_of currency [] = none
  last_of currency (a ∷ accounts) = elim (last_of currency accounts) [
    | some later ↦ some later
    | none ↦ if str_eq a.currency currency then some a else none
  ]

  -- `(reference_prices or {}).get(market) or 0.0`, and a price that counts as none.
  unfoldable pub reference_of : Dict fl.Num → String → fl.Num
  reference_of references market = or_else (Dict.lookup market references) nil

  -- The position that a balance stands for, at the average price or else the reference.
  unfoldable pub balance_position : String → Balance → fl.Num → ℕ → Position
  balance_position market a reference now =
      let quantity = fl.float_of (total a) in
      let avg = fl.float_of a.avg_buy_price in
      let cost_known = fl.lt nil avg in
      let price = if cost_known then avg else reference in
      record {
        market = market;
        quantity = quantity;
        avg_price = price;
        opened_at = now;
        entry_amount = quantity ⊗ price;
        entry_fee = nil;
        cost_known = cost_known;
      }

  -- Whether a balance is worth less than the smallest order.
  unfoldable pub is_dust : Balance → fl.Num → fl.Num → Bool
  is_dust a reference min_order_amount =
      let valuation = if truthy reference then reference else fl.float_of a.avg_buy_price in
      fl.lt nil valuation && fl.lt (fl.float_of (total a) ⊗ valuation) min_order_amount

  -- One market of the loop.
  unfoldable pub add_balance :
      String → Option Balance → Dict fl.Num → fl.Num → ℕ → Portfolio → Portfolio
  unfolding balance_position is_dust
  add_balance market none references min_order_amount now p = p
  add_balance market (some a) references min_order_amount now p =
      let reference = reference_of references market in
      if not (positive (total a))
      then p
      else if is_dust a reference min_order_amount
      then record p { dust = Dict.insert market (fl.float_of (total a)) p.dust }
      else record p {
        positions = Dict.insert market (balance_position market a reference now) p.positions;
      }

  -- The loop over the markets; `none` is the `IndexError` of a market without a dash.
  unfoldable pub add_balances :
      List Balance → List String → Dict fl.Num → fl.Num → ℕ → Portfolio → Option Portfolio
  add_balances accounts [] references min_order_amount now p = some p
  add_balances accounts (market ∷ markets) references min_order_amount now p =
      elim (base_currency market) [
        | none ↦ none
        | some base ↦
            add_balances accounts markets references min_order_amount now
              (add_balance market (last_of base accounts) references min_order_amount now p)
      ]

  unfoldable pub cash_of : List Balance → fl.Num
  cash_of accounts = elim (first_of "KRW" accounts) [ some a ↦ fl.float_of (total a) | none ↦ nil ]

  -- `portfolio_from_accounts`; `none` is a `ValueError` or an `IndexError`.
  unfoldable pub portfolio_from_accounts :
      List Balance
      → List String
      → (fee_rate : fl.Num) → (initial_cash : Option fl.Num) → ℕ
      → Dict fl.Num
      → (min_order_amount : fl.Num) → Option Portfolio
  unfolding cash_of add_balances
  portfolio_from_accounts accounts markets fee_rate initial_cash now references min_order_amount =
      let cash = cash_of accounts in
      let wanted = or_else initial_cash nil in
      let start = max (if truthy wanted then wanted else cash) (fl.number 1 9) in
      elim (new_portfolio start fee_rate min_order_amount) [
        | none ↦ none
        | some p ↦
            add_balances accounts markets references min_order_amount now (record p { cash = cash })
      ]

  -- Whether the saved position is of the same quantity, but for the tolerance.
  unfoldable pub is_same_size : Position → Position → fl.Num → Bool
  is_same_size pos old tolerance =
      fl.lt nil old.quantity
      && not (fl.lt (tolerance ⊗ max pos.quantity old.quantity) (abs (pos.quantity ⊖ old.quantity)))

  -- A position with what was saved of it.
  unfoldable pub merged : Position → Position → Position
  merged pos old =
      let known = record pos { opened_at = old.opened_at; entry_fee = old.entry_fee } in
      if not pos.cost_known && fl.lt nil old.avg_price
      then record known {
        avg_price = old.avg_price;
        entry_amount = pos.quantity ⊗ old.avg_price;
        cost_known = old.cost_known;
      }
      else known

  -- The position of one market after the merge, and whether it is restored.
  unfoldable pub merge_one : Position → Option Position → fl.Num → Position × Bool
  unfolding is_same_size merged
  merge_one pos none tolerance = (pos, false)
  merge_one pos (some old) tolerance =
      if is_same_size pos old tolerance then (merged pos old, true) else (pos, false)

  -- The loop of `merge_saved_positions`: the positions and the restored markets.
  unfoldable pub merge_all : Dict Position → Dict Position → fl.Num → Dict Position × List String
  unfolding merge_one
  merge_all [] saved tolerance = ([], [])
  merge_all ((market, pos) ∷ rest) saved tolerance =
      let (pos', restored) = merge_one pos (Dict.lookup market saved) tolerance in
      let (rest', markets) = merge_all rest saved tolerance in
      ((market, pos') ∷ rest', if restored then market ∷ markets else markets)

  unfoldable pub merge_saved_positions :
      Dict Position → fl.Num → Portfolio → List String × Portfolio
  unfolding merge_all
  merge_saved_positions saved tolerance p =
      let (positions, markets) = merge_all p.positions saved tolerance in
      (markets, record p { positions = positions })

  -- The reference prices: those given, and the base prices that positions already have.
  unfoldable pub with_bases : Dict Position → Dict fl.Num → Dict fl.Num
  with_bases [] references = references
  with_bases ((market, mine) ∷ rest) references = with_bases rest (
      if not mine.cost_known && fl.lt nil mine.avg_price
      then Dict.insert market mine.avg_price references
      else references)

  -- `{m: q for m, q in dust.items() if m not in exclude}`
  unfoldable pub without : List String → Dict fl.Num → Dict fl.Num
  without exclude [] = []
  without exclude ((market, q) ∷ rest) =
      let later = without exclude rest in
      if includes market exclude then later else (market, q) ∷ later

  -- The positions that the exchange does not have are deleted, but for the excluded markets.
  unfoldable pub drop_gone : List String → Dict Position → Dict Position → Dict Position
  drop_gone exclude theirs [] = []
  drop_gone exclude theirs ((market, pos) ∷ rest) =
      let later = drop_gone exclude theirs rest in
      if not (Dict.contains market theirs) && not (includes market exclude)
      then later
      else (market, pos) ∷ later

  -- A position that is held keeps its times and its fee.
  unfoldable pub adjusted : Option Position → Position → Position
  adjusted none pos = pos
  adjusted (some mine) pos = record mine {
    quantity = pos.quantity;
    avg_price = pos.avg_price;
    cost_known = pos.cost_known;
    entry_amount = pos.quantity ⊗ pos.avg_price;
  }

  unfoldable pub take_over : List String → Dict Position → Dict Position → Dict Position
  unfolding adjusted
  take_over exclude [] mine = mine
  take_over exclude ((market, pos) ∷ rest) mine = take_over exclude rest (
      if includes market exclude
      then mine
      else Dict.insert market (adjusted (Dict.lookup market mine) pos) mine)

  -- The writes of `_reconcile_locked`.
  unfoldable pub adopt : List String → Portfolio → Portfolio → Portfolio
  unfolding without drop_gone take_over
  adopt exclude exchange p = record p {
    cash = elim exclude [ [] ↦ exchange.cash | _ ∷ _ ↦ p.cash ];
    dust = without exclude exchange.dust;
    positions =
        take_over exclude exchange.positions (drop_gone exclude exchange.positions p.positions);
  }

  -- How a reconciliation ends: done, or an error of the request or of a market's name.
  pub data Reconciled : Type 0 where
    reconciled : Reconciled
    request_failed : Failure → Reconciled
    bad_markets : Reconciled

  -- `_reconcile_locked`; the report of the differences is left out.
  unfoldable pub reconcile :
      (cl : Client)
      → List String
      → (prices : Dict fl.Num) → (exclude : List String) → ℕ
      → LiveBroker
      → cl.World
      → Reconciled × LiveBroker × cl.World
  unfolding with_bases portfolio_from_accounts adopt
  reconcile cl markets prices exclude now b w =
      let (reply, w') = cl.get_accounts w in
      let p = b.portfolio in
      elim reply [
        | failed f ↦ (request_failed f, b, w')
        | answer accounts ↦
            let made =
              portfolio_from_accounts accounts markets p.fee_rate none now
                (with_bases p.positions prices) p.min_order_amount in
            elim made [
              | none ↦ (bad_markets, b, w')
              | some exchange ↦ (reconciled, record b { portfolio = adopt exclude exchange p }, w')
            ]
      ]
