-- ===== src/Orders/PaperLaws.antt =====
-- app/trading/orders.py: how `PaperBroker.execute` ends, and one fill for one signal.
use upbit_auto_trader.Prelude.{
  ℕ, String, ◌≡◌, refl, true, false, Option, none, ◌∷◌, ◌⊎◌, inl, inr, Bool-cases,
}
use upbit_auto_trader.Float.{Float}
use upbit_auto_trader.Portfolio.Account.{
  Side, buying, selling, ok, err, PortfolioError, Fill, Portfolio, text,
}
use upbit_auto_trader.Portfolio.Outcomes.{buy_outcome, sell_outcome}
use upbit_auto_trader.Portfolio.Trading.{settle_buy, settle_sell, sells_all}
use upbit_auto_trader.Market.Prices.{PriceState}
use upbit_auto_trader.Orders.Order.{
  OrderError, duplicate_signal, account_refused, OrderRequest, Order, resolved_client_id, new_order,
  reject, is_processed,
}
use upbit_auto_trader.Orders.Paper.{
  PaperBroker, Reference, found, missing, reference_price, slipped, fill_on_account, fill_order,
  conclude, execute,
}

module _ ⦃fl : Float⦄ where
  -- Either the account settles the fill, or it raises and is as it was.
  fill_on_account_outcome :
      (s : Side) (r : OrderRequest) (price : fl.Num) (now : ℕ) (p : Portfolio)
      → ((e : PortfolioError) × (fill_on_account s r price now p ≡ (err e, p)))
        ⊎ ((f : Fill) × (p' : Portfolio) × (fill_on_account s r price now p ≡ (ok f, p')))
  unfolding fill_on_account
  fill_on_account_outcome buying r price now p =
      elim (buy_outcome r.market price now r.amount none (text r.reason) none true p) [
        | inl (e, h) ↦ inl (e, h)
        | inr (f, h, _) ↦ inr (f, settle_buy p f, h)
      ]
  fill_on_account_outcome selling r price now p =
      elim (sell_outcome r.market price now r.quantity (text r.reason) none true p) [
        | inl (e, h) ↦ inl (e, h)
        | inr (pos, f, h, _) ↦ inr (f, settle_sell p pos (sells_all pos r.quantity) f, h)
      ]

  module _ (isoformat : ℕ → String) (stamp id : String) (r : OrderRequest)
      (price : Option PriceState) (now : ℕ) (b : PaperBroker) where
    abbrev pub client_id : String
    client_id = resolved_client_id isoformat stamp "paper" r

    abbrev pub start : Order
    start = new_order id client_id "paper" r now

    abbrev pub Refused : Type 0
    Refused = (e : OrderError) × (execute isoformat stamp id r price now b ≡ (reject start e, b))

    -- A fill at a reference price, of a signal that was not processed before.
    pub record IsFilled (o : Order) (b' : PaperBroker) : Type 0 where
      pub fill : Fill
      pub ref : fl.Num
      pub source : String
      pub order : o ≡ fill_order start fill now r.reason source
      pub unseen : is_processed client_id b.processed ≡ false
      pub referred : reference_price r.side price now b.max_price_age ≡ found ref source
      pub settled :
          fill_on_account r.side r (slipped r.side b.slippage_rate ref) now b.portfolio
          ≡ (ok fill, b'.portfolio)
      pub noted : b'.processed ≡ client_id ∷ b.processed

    abbrev pub Outcome : Type 0
    Outcome =
        Refused
        ⊎ IsFilled (execute isoformat stamp id r price now b).0
            (execute isoformat stamp id r price now b).1

    settle :
        (ref : fl.Num) (source : String)
        → is_processed client_id b.processed ≡ false
        → reference_price r.side price now b.max_price_age ≡ found ref source
        → Outcome
    unfolding execute conclude
    settle ref source unseen referred =
        let at = slipped r.side b.slippage_rate ref in
        elim (fill_on_account_outcome r.side r at now b.portfolio) [
          | inl (e, h) ↦ inl (account_refused e, rw (unseen, referred, h, execute) refl)
          | inr (f, p', h) ↦
              let result : execute isoformat stamp id r price now b ≡ (
                fill_order start f now r.reason source,
                record b { portfolio = p'; processed = client_id ∷ b.processed },
              ) =
                rw (unseen, referred, h, execute) refl in
              inr (
                rw result (record {
                  fill = f;
                  ref = ref;
                  source = source;
                  order = refl;
                  unseen = unseen;
                  referred = referred;
                  settled = h;
                  noted = refl;
                }))
        ]

    -- `execute` refuses the order and leaves the broker alone, or it fills it.
    pub execute_outcome : Outcome
    unfolding execute
    execute_outcome = elim (Bool-cases (is_processed client_id b.processed)) [
      | inl seen ↦ inl (duplicate_signal, rw (seen, execute) refl)
      | inr unseen ↦ priced unseen (reference_price r.side price now b.max_price_age) refl
    ]
      where
        priced :
            is_processed client_id b.processed ≡ false
            → (x : Reference) → reference_price r.side price now b.max_price_age ≡ x
            → Outcome
        priced unseen (found ref source) h = settle ref source unseen h
        priced unseen (missing e) h = inl (e, rw (unseen, h, execute) refl)
