-- ===== src/Database/Restore.antt =====
-- app/database/repository.py: what a restart reads back of the account that a fill left saved.
use mathlib.Core.Path.{subst}
use upbit_auto_trader.Prelude.{
  ℕ, String, ◌≡◌, refl, ap, ◌∙◌, Bool, true, false, Option, none, some, List, [], ◌∷◌, arith,
  str_eq, eq_iff, if◌then◌else◌,
}
use upbit_auto_trader.Float.{Float}
use upbit_auto_trader.Dict
use upbit_auto_trader.Dict.{Dict, lookup-insert}
use upbit_auto_trader.Portfolio.Account.{Trade, Position, Portfolio, new_portfolio}
use upbit_auto_trader.Orders.Order.{Order, is_processed}
use upbit_auto_trader.Orders.OnceOnly.{Distinct}
use upbit_auto_trader.Database.Repository.{
  Repository, record_fill, sync_portfolio, account_record, position_record, position_rows,
  is_not_false, restored_position, restore_positions, restore_portfolio,
}

module _ ⦃fl : Float⦄ where
  abbrev pub markets : Dict Position → List String
  markets [] = []
  markets ((market, _) ∷ rest) = market ∷ markets rest

  -- The same position, under the name of its market.
  abbrev pub at_market : String → Position → Position
  at_market market pos = record pos { market = market }

  -- The position of a market, where there is one, or what was there before.
  abbrev pub at_market_or : String → Option Position → Option Position → Option Position
  at_market_or market none before = before
  at_market_or market (some pos) before = some (at_market market pos)

  kept_flag : (c : Bool) → is_not_false (some c) ≡ c
  kept_flag true = refl
  kept_flag false = refl

  -- No column is lost on the way into a row and back.
  restored_position-position_record :
      (now : ℕ) (market : String) (pos : Position)
      → restored_position now (position_record market pos) ≡ at_market market pos
  unfolding restored_position position_record
  restored_position-position_record now market pos =
      ap (λ c. record (at_market market pos) { cost_known = c }) (kept_flag pos.cost_known)

  not_there :
      (market : String) (rows : Dict Position)
      → is_processed market (markets rows) ≡ false
      → Dict.lookup market rows ≡ none
  unfolding Dict.lookup is_processed
  not_there market [] h = refl
  not_there market ((k, pos) ∷ rows) h = ground (arith, not_there market rows)

  at_market_or_if :
      (c : Bool) (k market : String) (pos : Position) (o before : Option Position)
      → (c ≡ true → (k ≡ market) × (o ≡ none))
      → at_market_or market o (if c then some (at_market k pos) else before)
        ≡ at_market_or market (if c then some pos else o) before
  at_market_or_if true k market pos o before h =
      let (path, gone) = h refl in
      ap (λ x. at_market_or market x (some (at_market k pos))) gone
      ∙ ap (λ m. some (at_market m pos)) path
  at_market_or_if false k market pos o before h = refl

  lookup-restore_positions :
      (now : ℕ) (market : String) (rows held : Dict Position)
      → Distinct (markets rows)
      → Dict.lookup market (restore_positions now (position_rows rows) held)
        ≡ at_market_or market (Dict.lookup market rows) (Dict.lookup market held)
  unfolding Dict.lookup restore_positions position_rows
  lookup-restore_positions now market [] held h = refl
  lookup-restore_positions now market ((k, pos) ∷ rows) held (once, h) =
      lookup-restore_positions now market rows
        (Dict.insert k (restored_position now (position_record k pos)) held) h
      ∙ ap
          (λ x.
            at_market_or market (Dict.lookup market rows)
              (Dict.lookup market (Dict.insert k x held)))
          (restored_position-position_record now k pos)
      ∙ ap (at_market_or market (Dict.lookup market rows))
          (lookup-insert k market (at_market k pos) held)
      ∙ at_market_or_if (str_eq k market) k market pos (Dict.lookup market rows)
          (Dict.lookup market held)
          (λ same.
            let path : k ≡ market = ground (arith, eq_iff k market) in
            (path, subst (λ m. Dict.lookup m rows ≡ none) path (not_there k rows once)))

  -- What a restart gives back of the account `p`: its cash, initial cash and fees, and every position.
  pub record IsRestored (p q : Portfolio) : Type 0 where
    pub same_cash : q.cash ≡ p.cash
    pub same_initial_cash : q.initial_cash ≡ p.initial_cash
    pub same_fees : q.fees_paid ≡ p.fees_paid
    pub same_positions :
        (market : String)
        → Dict.lookup market q.positions ≡ at_market_or market (Dict.lookup market p.positions) none

  new_portfolio-empty :
      (cash rate least : fl.Num) (p : Portfolio)
      → new_portfolio cash rate least ≡ some p
      → p.positions ≡ []
  unfolding new_portfolio
  new_portfolio-empty cash rate least p made = ground arith

  -- What a restart makes of a saved account and of the account `fresh` of its own settings.
  abbrev restart_of : ℕ → Portfolio → Portfolio → Portfolio
  restart_of now p fresh = record fresh {
    initial_cash = p.initial_cash;
    cash = p.cash;
    fees_paid = p.fees_paid;
    positions = restore_positions now (position_rows p.positions) fresh.positions;
  }

  restore_portfolio-record_fill :
      (o : Order) (trades : List Trade) (p fresh : Portfolio) (r : Repository)
      (initial_cash fee_rate min_order_amount : fl.Num) (now : ℕ)
      → new_portfolio initial_cash fee_rate min_order_amount ≡ some fresh
      → restore_portfolio initial_cash fee_rate min_order_amount now (record_fill o trades p r)
        ≡ some (restart_of now p fresh, true)
  unfolding restore_portfolio record_fill sync_portfolio account_record
  restore_portfolio-record_fill o trades p fresh r initial_cash fee_rate min_order_amount now made =
      rw (restore_portfolio, made) refl

  -- After a fill was recorded, a restart at any time whose account settings are valid gives back a
  -- portfolio and says that it was restored. The portfolio has the cash, the initial cash and the fees
  -- of the saved account and, for every market, its position with the name of the market and every
  -- other field of the saved one, where no market stands twice in the saved account.
  pub restore-record_fill :
      (o : Order) (trades : List Trade) (p fresh : Portfolio) (r : Repository)
      (initial_cash fee_rate min_order_amount : fl.Num) (now : ℕ)
      → Distinct (markets p.positions)
      → new_portfolio initial_cash fee_rate min_order_amount ≡ some fresh
      → (q : Portfolio) × (restore_portfolio initial_cash fee_rate min_order_amount now
            (record_fill o trades p r)
          ≡ some (q, true))
        × IsRestored p q
  unfolding Dict.lookup
  restore-record_fill o trades p fresh r initial_cash fee_rate min_order_amount now h made = (
    restart_of now p fresh,
    restore_portfolio-record_fill o trades p fresh r initial_cash fee_rate min_order_amount now
        made,
    record {
      same_cash = refl;
      same_initial_cash = refl;
      same_fees = refl;
      same_positions = λ market.
          lookup-restore_positions now market p.positions fresh.positions h
          ∙ ap (λ d. at_market_or market (Dict.lookup market p.positions) (Dict.lookup market d))
              (new_portfolio-empty initial_cash fee_rate min_order_amount fresh made);
    },
  )
