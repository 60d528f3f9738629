-- ===== src/Portfolio/Ledger.antt =====
-- app/trading/portfolio.py: the list of fills against the account's money.
use upbit_auto_trader.Prelude.{
  ◌≡◌, Bool, some, List, [], ◌∷◌, foldl, arith, inl, inr, foldl-append_one,
}
use upbit_auto_trader.Float.{Float, ◌⊕◌, ◌⊖◌, nil}
use upbit_auto_trader.Portfolio.Account.{buying, selling, Fill, Position, Portfolio, new_portfolio}
use upbit_auto_trader.Portfolio.Trading.{
  settle_buy, settle_sell, Call, buy_call, sell_call, call, run,
}
use upbit_auto_trader.Portfolio.Outcomes.{buy_outcome, sell_outcome}

module _ ⦃fl : Float⦄ where
  -- What one fill does to the cash, by its side.
  abbrev pub apply_cash : fl.Num → Fill → fl.Num
  apply_cash cash f = elim f.side [
    | buying ↦ cash ⊖ (f.amount ⊕ f.fee)
    | selling ↦ cash ⊕ (f.amount ⊖ f.fee)
  ]

  abbrev pub apply_fee : fl.Num → Fill → fl.Num
  apply_fee fees f = fees ⊕ f.fee

  -- Replaying the fills in their order, with the rounding of each step, gives cash and fees.
  pub record IsAudited (cash_base fees_base : fl.Num) (p : Portfolio) : Type 0 where
    pub cash_replayed : p.cash ≡ foldl apply_cash cash_base p.fills
    pub fees_replayed : p.fees_paid ≡ foldl apply_fee fees_base p.fills

  module _ (cash_base fees_base : fl.Num) (p : Portfolio) (f : Fill) where
    pub settle_buy-IsAudited :
        f.side ≡ buying
        → IsAudited cash_base fees_base p
        → IsAudited cash_base fees_base (settle_buy p f)
    unfolding settle_buy
    settle_buy-IsAudited e h = record {
      cash_replayed = rw foldl-append_one (ground (arith, h.cash_replayed));
      fees_replayed = rw foldl-append_one (ground (arith, h.fees_replayed));
    }

    pub settle_sell-IsAudited :
        (pos : Position) (full : Bool)
        → f.side ≡ selling
        → IsAudited cash_base fees_base p
        → IsAudited cash_base fees_base (settle_sell p pos full f)
    unfolding settle_sell
    settle_sell-IsAudited pos full e h = record {
      cash_replayed = rw foldl-append_one (ground (arith, h.cash_replayed));
      fees_replayed = rw foldl-append_one (ground (arith, h.fees_replayed));
    }

  call-IsAudited :
      (a b : fl.Num) (c : Call) (p : Portfolio) → IsAudited a b p → IsAudited a b (call c p).1
  unfolding call
  call-IsAudited a b (buy_call m price t amount q reason fee lim) p h =
      elim (buy_outcome m price t amount q reason fee lim p) [
        | inl (e, r) ↦ rw r h
        | inr (f, r, bought) ↦ rw r (settle_buy-IsAudited a b p f bought.side h)
      ]
  call-IsAudited a b (sell_call m price t q reason fee lim) p h =
      elim (sell_outcome m price t q reason fee lim p) [
        | inl (e, r) ↦ rw r h
        | inr (pos, f, r, sold) ↦ rw r (settle_sell-IsAudited a b p f pos _ sold.side h)
      ]

  -- Every call of `buy` or `sell`, whether it settles or raises, keeps the replay of the fills
  -- equal to the cash and to the fees paid; so does any sequence of calls.
  pub run-IsAudited :
      (a b : fl.Num) (cs : List Call) (p : Portfolio) → IsAudited a b p → IsAudited a b (run cs p)
  unfolding run
  run-IsAudited a b [] p h = h
  run-IsAudited a b (c ∷ cs) p h = run-IsAudited a b cs (call c p).1 (call-IsAudited a b c p h)

  -- A new portfolio that is accepted has, after any calls of `buy` and `sell`, failing ones
  -- included, exactly the cash and the fees that its list of fills replays to from the initial
  -- cash and from zero, in the rounding of the arithmetic.
  pub fills_account_for_cash :
      (cash rate least : fl.Num) {p : Portfolio} (cs : List Call)
      → new_portfolio cash rate least ≡ some p
      → IsAudited cash nil (run cs p)
  unfolding new_portfolio
  fills_account_for_cash cash rate least {p} cs made =
      run-IsAudited cash nil cs p
        (record { cash_replayed = ground arith; fees_replayed = ground arith })
