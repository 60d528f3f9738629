-- ===== src/Portfolio/Account.antt =====
-- app/trading/portfolio.py: the data of the account that the backtest, the paper broker and the
-- live broker share, and its queries. Times are microseconds.
use upbit_auto_trader.Prelude.{
  ℕ, String, Bool, not, ◌&&◌, Option, none, some, List, [], ◌∷◌, if◌then◌else◌,
}
use upbit_auto_trader.Float.{Float, ◌⊕◌, ◌⊖◌, ◌⊗◌, ◌⊘◌, nil}
use upbit_auto_trader.Dict
use upbit_auto_trader.Dict.{Dict}

pub data Side : Type 0 where
  buying selling : Side

-- `PortfolioError`, by what its message says.
pub data PortfolioError : Type 0 where
  bad_price zero_quantity below_minimum short_cash no_position no_mark : PortfolioError

pub data Result (A : Type 0) : Type 0 where
  ok : A → Result A
  err : PortfolioError → Result A

-- The reason of a fill or an order: a text, `f"{note} [{label}]".strip()`, or a note with the
-- remark that the rest was cancelled.
pub data Note : Type 0 where
  text : String → Note
  labelled : Note → String → Note
  partly : Note → Note

module _ ⦃fl : Float⦄ where
  pub record Fill : Type 0 where
    pub time : ℕ
    pub market : String
    pub side : Side
    pub price : fl.Num
    pub quantity : fl.Num
    pub amount : fl.Num
    pub fee : fl.Num
    pub reason : Note

  pub record Position : Type 0 where
    pub market : String
    pub quantity : fl.Num
    pub avg_price : fl.Num
    pub opened_at : ℕ
    pub entry_amount : fl.Num
    pub entry_fee : fl.Num
    pub cost_known : Bool

  pub record Trade : Type 0 where
    pub market : String
    pub entry_time : ℕ
    pub entry_price : fl.Num
    pub quantity : fl.Num
    pub entry_amount : fl.Num
    pub entry_fee : fl.Num
    pub exit_time : ℕ
    pub exit_price : fl.Num
    pub exit_amount : fl.Num
    pub exit_fee : fl.Num
    pub exit_reason : Note
    pub pnl : fl.Num
    pub pnl_pct : fl.Num

  pub record Portfolio : Type 0 where
    pub initial_cash : fl.Num
    pub fee_rate : fl.Num
    pub min_order_amount : fl.Num
    pub cash : fl.Num
    pub positions : Dict Position
    pub fills : List Fill
    pub trades : List Trade
    pub fees_paid : fl.Num
    pub dust : Dict fl.Num

  unfoldable pub cost_basis : Position → fl.Num
  cost_basis pos = pos.entry_amount ⊕ pos.entry_fee

  unfoldable pub market_value : Position → fl.Num → fl.Num
  market_value pos price = pos.quantity ⊗ price

  unfoldable pub unrealized_pnl : Position → fl.Num → fl.Num
  unfolding market_value cost_basis
  unrealized_pnl pos price = market_value pos price ⊖ cost_basis pos

  -- `math.floor(quantity * scale + 1e-9) / scale` with `scale = 10 ** 8`
  unfoldable pub floor_quantity : fl.Num → fl.Num
  floor_quantity quantity =
      let scale = fl.number 100000000 0 in
      fl.from_ℤ (fl.floor (quantity ⊗ scale ⊕ fl.number 1 9)) ⊘ scale

  -- `Portfolio(initial_cash, fee_rate, min_order_amount)`; `none` is the `ValueError`.
  unfoldable pub new_portfolio : fl.Num → fl.Num → fl.Num → Option Portfolio
  new_portfolio initial_cash fee_rate min_order_amount =
      if fl.le initial_cash nil
      then none
      else if not (fl.le nil fee_rate && fl.lt fee_rate (fl.number 1 1))
      then none
      else some (record {
        initial_cash = initial_cash;
        fee_rate = fee_rate;
        min_order_amount = min_order_amount;
        cash = initial_cash;
        positions = [];
        fills = [];
        trades = [];
        fees_paid = nil;
        dust = [];
      })

  abbrev pub position : Portfolio → String → Option Position
  position p market = Dict.lookup market p.positions

  abbrev pub has_position : Portfolio → String → Bool
  has_position p market = Dict.contains market p.positions

  -- The loop of `equity` from the value reached so far.
  equity_from : fl.Num → Dict Position → Dict fl.Num → Result fl.Num
  equity_from value [] prices = ok value
  equity_from value ((market, pos) ∷ rest) prices = elim (Dict.lookup market prices) [
    | none ↦ err no_mark
    | some price ↦ equity_from (value ⊕ market_value pos price) rest prices
  ]

  unfoldable pub equity : Portfolio → Dict fl.Num → Result fl.Num
  unfolding equity_from market_value
  equity p prices = equity_from p.cash p.positions prices
