-- ===== src/Live/Excluded.antt =====
-- app/trading/live_broker.py: a reconciliation leaves the markets of unresolved orders alone.
use upbit_auto_trader.Prelude.{
  ℕ, String, ◌≡◌, refl, ◌∙◌, true, none, List, [], ◌∷◌, arith, eq_iff, if◌then◌else◌, either_option,
}
use upbit_auto_trader.Float.{Float}
use upbit_auto_trader.Dict
use upbit_auto_trader.Dict.{Dict, lookup-insert}
use upbit_auto_trader.Portfolio.Account.{Position, Portfolio}
use upbit_auto_trader.Exchange.Client.{either_reply, Client}
use upbit_auto_trader.Live.Broker.{LiveBroker, includes}
use upbit_auto_trader.Live.Accounts.{
  drop_gone, adjusted, take_over, adopt, with_bases, portfolio_from_accounts, reconcile,
}

module _ ⦃fl : Float⦄ where
  lookup-drop_gone :
      (m : String) (exclude : List String) (theirs ps : Dict Position)
      → includes m exclude ≡ true
      → Dict.lookup m (drop_gone exclude theirs ps) ≡ Dict.lookup m ps
  unfolding drop_gone Dict.lookup
  lookup-drop_gone m exclude theirs [] h = refl
  lookup-drop_gone m exclude theirs ((k, pos) ∷ rest) h =
      ground (arith, lookup-drop_gone m exclude theirs rest, eq_iff k m)

  lookup-take_over :
      (m : String) (exclude : List String) (theirs ps : Dict Position)
      → includes m exclude ≡ true
      → Dict.lookup m (take_over exclude theirs ps) ≡ Dict.lookup m ps
  unfolding take_over
  lookup-take_over m exclude [] ps h = refl
  lookup-take_over m exclude ((k, pos) ∷ rest) ps h =
      let next = adjusted (Dict.lookup k ps) pos in
      lookup-take_over m exclude rest (if includes k exclude then ps else Dict.insert k next ps) h
      ∙ ground (arith, lookup-insert k m next ps, eq_iff k m)

  -- The account with the position of one market and the cash as they were.
  abbrev pub Untouched : {A W : Type 0} → String → LiveBroker → A × LiveBroker × W → Type 0
  Untouched m b z =
      (Dict.lookup m z.1.portfolio.positions ≡ Dict.lookup m b.portfolio.positions)
      × (z.1.portfolio.cash ≡ b.portfolio.cash)

  adopt_excluded :
      (m : String) (exclude : List String) (exchange p : Portfolio)
      → includes m exclude ≡ true
      → (Dict.lookup m (adopt exclude exchange p).positions ≡ Dict.lookup m p.positions)
        × ((adopt exclude exchange p).cash ≡ p.cash)
  unfolding adopt includes
  adopt_excluded m exclude exchange p h = (
    lookup-take_over m exclude exchange.positions _ h
        ∙ lookup-drop_gone m exclude exchange.positions p.positions h,
    ground arith,
  )

  -- While a market is excluded because an order of it is unresolved, a reconciliation changes
  -- neither the position of that market nor the cash, whatever the exchange answers.
  pub reconcile_excluded :
      (cl : Client) (markets : List String) (prices : Dict fl.Num) (exclude : List String) (now : ℕ)
      → (b : LiveBroker) (w : cl.World) (m : String) → includes m exclude ≡ true
      → Untouched m b (reconcile cl markets prices exclude now b w)
  unfolding reconcile
  reconcile_excluded cl markets prices exclude now b w m h =
      either_reply (Untouched m b) (cl.get_accounts w).0
        (λ accounts.
          either_option (Untouched m b)
            (portfolio_from_accounts accounts markets b.portfolio.fee_rate none now
              (with_bases b.portfolio.positions prices) b.portfolio.min_order_amount)
            (refl, refl) (λ exchange. adopt_excluded m exclude exchange b.portfolio h))
        (λ f. (refl, refl))
