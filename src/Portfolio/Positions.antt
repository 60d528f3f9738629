-- ===== src/Portfolio/Positions.antt =====
-- app/trading/portfolio.py: what the methods do to the positions.
use upbit_auto_trader.Prelude.{
  ◌∙◌, ℕ, String, ◌≡◌, ◌≢◌, refl, Bool, true, false, Option, none, some, [], ◌∷◌, ◌++◌, arith, inl,
  inr, eq_iff,
}
use upbit_auto_trader.Float.{Float, ◌⊖◌, nil}
use upbit_auto_trader.Float.Laws.{FloatLaws}
use upbit_auto_trader.Dict
use upbit_auto_trader.Dict.{
  dict_laws, lookup-insert, lookup-erase, lookup-insert_self, erase-insert,
}
use upbit_auto_trader.Portfolio.Account.{Note, Portfolio, Position, Trade, Fill, ok, position}
use upbit_auto_trader.Portfolio.Trading.{
  buy, buy_refusal, bought_position, settle_buy, sell, sell_from, sells_all, sell_quantity,
  sell_refusal, sold_fill, closed_trade, settle_sell, Call, buy_call, sell_call, call,
}
use upbit_auto_trader.Portfolio.Outcomes.{buy_outcome, sell_outcome}

module _ ⦃fl : Float⦄ where
  abbrev pub market_of : Call → String
  market_of (buy_call m price t amount q reason fee lim) = m
  market_of (sell_call m price t q reason fee lim) = m

  settle_buy_others :
      (p : Portfolio) (f : Fill) (j : String)
      → f.market ≢ j
      → position (settle_buy p f) j ≡ position p j
  unfolding settle_buy
  settle_buy_others p f j ne = rw lookup-insert (ground (arith, eq_iff f.market j))

  settle_sell_others :
      (p : Portfolio) (pos : Position) (full : Bool) (f : Fill) (j : String)
      → f.market ≢ j
      → position (settle_sell p pos full f) j ≡ position p j
  unfolding settle_sell
  settle_sell_others p pos true f j ne = rw lookup-erase (ground (arith, eq_iff f.market j))
  settle_sell_others p pos false f j ne = rw lookup-insert (ground (arith, eq_iff f.market j))

  -- A call for one market, settled or refused, leaves the position of every other market alone.
  pub call_others :
      (c : Call) (p : Portfolio) (j : String)
      → market_of c ≢ j
      → position (call c p).1 j ≡ position p j
  unfolding call
  call_others (buy_call m price t amount q reason fee lim) p j ne =
      elim (buy_outcome m price t amount q reason fee lim p) [
        | inl (e, r) ↦ rw r refl
        | inr (f, r, bought) ↦ rw r (settle_buy_others p f j (λ e. ne (cc (bought.market_kept))))
      ]
  call_others (sell_call m price t q reason fee lim) p j ne =
      elim (sell_outcome m price t q reason fee lim p) [
        | inl (e, r) ↦ rw r refl
        | inr (pos, f, r, sold) ↦
            rw r (settle_sell_others p pos _ f j (λ e. ne (cc (sold.market_kept))))
      ]

  -- The trade that closing all of `pos` records books the whole entry cost and entry fee.
  closed_trade_all :
      (laws : FloatLaws) (pos : Position) (f : Fill)
      → f.quantity ≡ pos.quantity
      → fl.lt nil pos.quantity ≡ true
      → (closed_trade pos f).pnl ≡ f.amount ⊖ f.fee ⊖ pos.entry_amount ⊖ pos.entry_fee
  unfolding closed_trade
  closed_trade_all laws pos f e h =
      rw
        (e, laws.div_self pos.quantity h, laws.mul_one pos.entry_amount, laws.mul_one pos.entry_fee)

  sell_refusal_all :
      (p : Portfolio) (pos : Position) (f : Fill) (limits : Bool)
      → fl.le pos.quantity nil ≡ false
      → fl.le f.price nil ≡ false
      → fl.le f.quantity nil ≡ false
      → sell_refusal p pos true f limits ≡ none
  unfolding sell_refusal
  sell_refusal_all p pos f limits a b c = ground arith

  -- A held position of a positive quantity can be sold in full at any positive price, with no
  -- regard to the minimum order amount. The sale deletes the position, sells its whole
  -- quantity, and appends one trade whose profit is the proceeds less the fee and the whole
  -- entry cost and fee.
  pub sell_all_closes :
      (laws : FloatLaws) (market : String) (price : fl.Num) (time : ℕ) (reason : Note)
      (fee : Option fl.Num) (limits : Bool) (p : Portfolio) (pos : Position)
      → position p market ≡ some pos
      → fl.le pos.quantity nil ≡ false
      → fl.le price nil ≡ false
      → (f : Fill) × (p' : Portfolio) × (t : Trade) × (sell market price time none reason fee limits
            p
          ≡ (ok f, p'))
        × (f.quantity ≡ pos.quantity)
        × (p'.positions ≡ Dict.erase market p.positions)
        × (p'.trades ≡ p.trades ++ t ∷ [])
        × (t.pnl ≡ f.amount ⊖ f.fee ⊖ pos.entry_amount ⊖ pos.entry_fee)
  unfolding sell sell_from sold_fill sell_quantity settle_sell sells_all
  sell_all_closes laws market price time reason fee limits p pos held some_held paid =
      let f : Fill = sold_fill pos market price time none reason fee p in
      (
        f,
        settle_sell p pos true f,
        closed_trade pos f,
        rw (held, sell)
            (rw (sell_refusal_all p pos f limits some_held paid some_held, sell_from) refl),
        refl,
        refl,
        refl,
        closed_trade_all laws pos f refl (laws.lt_of_le_false pos.quantity nil some_held),
      )

  bought_into_flat :
      (p : Portfolio) (f : Fill)
      → position p f.market ≡ none
      → (position (settle_buy p f) f.market
          ≡ some (bought_position none f.market f.quantity f.price f.time f.amount f.fee))
        × (Dict.erase f.market (settle_buy p f).positions ≡ p.positions)
  unfolding settle_buy
  bought_into_flat p f flat =
      (rw lookup-insert_self (rw flat), rw flat (erase-insert f.market _ p.positions flat))

  bought_quantity_positive :
      (p : Portfolio) (quantity cost fee : fl.Num) (limits : Bool)
      → buy_refusal p quantity cost fee limits ≡ none
      → fl.le quantity nil ≡ false
  unfolding buy_refusal
  bought_quantity_positive p quantity cost fee limits h = ground arith

  -- Buying into a flat market and then selling all of it gives the old positions back.
  pub sell-buy :
      (laws : FloatLaws) (market : String) (price : fl.Num) (time : ℕ)
      (amount quantity : Option fl.Num) (reason : Note) (fee : Option fl.Num) (limits : Bool)
      (p : Portfolio) {f : Fill} {p' : Portfolio} (price' : fl.Num) (time' : ℕ) (reason' : Note)
      (fee' : Option fl.Num) (limits' : Bool)
      → position p market ≡ none
      → buy market price time amount quantity reason fee limits p ≡ (ok f, p')
      → fl.le price' nil ≡ false
      → (g : Fill) × (q : Portfolio) × (sell market price' time' none reason' fee' limits' p'
          ≡ (ok g, q))
        × (g.quantity ≡ f.quantity)
        × (q.positions ≡ p.positions)
  unfolding bought_position
  sell-buy laws market price time amount quantity reason fee limits p {f} {p'} price' time' reason'
        fee' limits' flat h paid =
      elim (buy_outcome market price time amount quantity reason fee limits p) [
        | inl (e, r) ↦ cc
        | inr (g, r, bought) ↦
            let same : f ≡ g = cc in
            let after : p' ≡ settle_buy p g = cc in
            let (held, gone) = bought_into_flat p g (rw bought.market_kept flat) in
            let positive =
              bought_quantity_positive p g.quantity g.amount g.fee limits bought.accepted in
            let (s, q, t, sold, all_sold, erased, _, _) =
              sell_all_closes laws g.market price' time' reason' fee' limits' (settle_buy p g) _
                held positive paid in
            (s, q, rw (after, ← bought.market_kept) sold, rw same all_sold, erased ∙ gone)
      ]
