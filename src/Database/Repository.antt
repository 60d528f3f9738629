-- ===== src/Database/Repository.antt =====
-- app/database/repository.py: the operations that the engine calls, on the rows of one mode. A
-- database that answers is taken for granted; a column that nothing here reads is left out.
use upbit_auto_trader.Prelude.{
  ℕ, String, Bool, true, false, ◌&&◌, Option, none, some, List, [], ◌∷◌, ◌++◌, foldl, is_some,
  or_else, str_eq, ◌==◌, ltb, leb, if◌then◌else◌,
}
use upbit_auto_trader.Float.{Float}
use upbit_auto_trader.Dict
use upbit_auto_trader.Dict.{Dict}
use upbit_auto_trader.Portfolio.Account.{Fill, Trade, Position, Portfolio, new_portfolio}
use upbit_auto_trader.Risk.Entries.{Signal}
use upbit_auto_trader.Orders.Order.{unknown, Order}

module _ ⦃fl : Float⦄ where
  -- A row of `signals`.
  pub record SignalRecord : Type 0 where
    pub interval : String
    pub signal : Signal

  -- A row of `positions`. A time and a flag may be missing in an old row.
  pub record PositionRecord : Type 0 where
    pub market : String
    pub quantity : fl.Num
    pub avg_price : fl.Num
    pub entry_amount : fl.Num
    pub entry_fee : fl.Num
    pub opened_at : Option ℕ
    pub cost_known : Option Bool

  -- The row of `accounts` with the rows of `positions`.
  pub record AccountRecord : Type 0 where
    pub initial_cash : fl.Num
    pub cash : fl.Num
    pub fees_paid : fl.Num
    pub positions : List PositionRecord

  -- A row of `bot_commands`. `result` is there once the command has been processed.
  pub record BotCommand : Type 0 where
    pub id : ℕ
    pub command : String
    pub reason : Option String
    pub result : Option String

  -- A row of `cash_flows`.
  pub record CashFlow : Type 0 where
    pub id : ℕ
    pub amount : fl.Num
    pub currency : String

  -- A row of `balances`.
  pub record Balance : Type 0 where
    pub time : ℕ
    pub cash : fl.Num
    pub equity : fl.Num

  -- The rows of one mode, each table in the order in which the rows came.
  pub record Repository : Type 0 where
    pub signals : List SignalRecord
    pub orders : Dict Order
    pub fills : List (String × Fill)
    pub round_trips : List Trade
    pub account : Option AccountRecord
    pub balances : List Balance
    pub commands : List BotCommand
    pub cash_flows : List CashFlow

  -- The unique key of a signal: market, interval, strategy and time.
  unfoldable pub is_same_signal : String → Signal → SignalRecord → Bool
  is_same_signal interval s row =
      str_eq row.signal.market s.market
      && str_eq row.interval interval
      && str_eq row.signal.strategy s.strategy
      && row.signal.time == s.time

  unfoldable pub has_signal : String → Signal → List SignalRecord → Bool
  unfolding is_same_signal
  has_signal interval s [] = false
  has_signal interval s (row ∷ rows) =
      let rest = has_signal interval s rows in if is_same_signal interval s row then true else rest

  unfoldable pub save_signal : String → Signal → Repository → Bool × Repository
  unfolding has_signal
  save_signal interval s r = elim (has_signal interval s r.signals) [
    | true ↦ (false, r)
    | false ↦ (
      true,
      record r { signals = r.signals ++ (record { interval = interval; signal = s }) ∷ [] },
    )
  ]

  -- `merge`: the row of the same id is replaced.
  unfoldable pub save_order : Order → Repository → Repository
  save_order o r = record r { orders = Dict.insert o.id o r.orders }

  -- The row of a position, which stands under `market` in the portfolio. A time is in UTC here and there.
  unfoldable pub position_record : String → Position → PositionRecord
  position_record market pos = record {
    market = market;
    quantity = pos.quantity;
    avg_price = pos.avg_price;
    entry_amount = pos.entry_amount;
    entry_fee = pos.entry_fee;
    opened_at = some pos.opened_at;
    cost_known = some pos.cost_known;
  }

  unfoldable pub position_rows : Dict Position → List PositionRecord
  unfolding position_record
  position_rows [] = []
  position_rows ((market, pos) ∷ held) = position_record market pos ∷ position_rows held

  unfoldable pub account_record : Portfolio → AccountRecord
  unfolding position_rows
  account_record p = record {
    initial_cash = p.initial_cash;
    cash = p.cash;
    fees_paid = p.fees_paid;
    positions = position_rows p.positions;
  }

  unfoldable pub sync_portfolio : Portfolio → Repository → Repository
  unfolding account_record
  sync_portfolio p r = record r { account = some (account_record p) }

  abbrev pub fill_rows : String → List Fill → List (String × Fill)
  fill_rows id [] = []
  fill_rows id (f ∷ fs) = (id, f) ∷ fill_rows id fs

  unfoldable pub record_fill : Order → List Trade → Portfolio → Repository → Repository
  unfolding save_order sync_portfolio
  record_fill o trades p r = sync_portfolio p (record (save_order o r) {
    fills = r.fills ++ fill_rows o.id o.fills;
    round_trips = r.round_trips ++ trades;
  })

  -- The row of a balance, for the equity that the prices came to.
  unfoldable pub snapshot_balance : Portfolio → fl.Num → ℕ → Repository → Repository
  snapshot_balance p equity time r = record r {
    balances = r.balances ++ (record { time = time; cash = p.cash; equity = equity }) ∷ [];
  }

  -- `is not False`
  abbrev pub is_not_false : Option Bool → Bool
  is_not_false (some false) = false
  is_not_false _ = true

  -- The position of a row, at the time of the restart.
  unfoldable pub restored_position : ℕ → PositionRecord → Position
  restored_position now row = record {
    market = row.market;
    quantity = row.quantity;
    avg_price = row.avg_price;
    opened_at = or_else row.opened_at now;
    entry_amount = row.entry_amount;
    entry_fee = row.entry_fee;
    cost_known = is_not_false row.cost_known;
  }

  unfoldable pub restore_positions : ℕ → List PositionRecord → Dict Position → Dict Position
  unfolding restored_position
  restore_positions now [] held = held
  restore_positions now (row ∷ rows) held =
      restore_positions now rows (Dict.insert row.market (restored_position now row) held)

  -- `restore_portfolio`, with whether there was an account; `none` is the `ValueError`.
  unfoldable pub restore_portfolio :
      (initial_cash fee_rate min_order_amount : fl.Num) → ℕ → Repository → Option (Portfolio × Bool)
  unfolding restore_positions
  restore_portfolio initial_cash fee_rate min_order_amount now r =
      elim (new_portfolio initial_cash fee_rate min_order_amount) [
        | none ↦ none
        | some p ↦ elim r.account [
          | none ↦ some (p, false)
          | some a ↦ some (
            record p {
              initial_cash = a.initial_cash;
              cash = a.cash;
              fees_paid = a.fees_paid;
              positions = restore_positions now a.positions p.positions;
            },
            true,
          )
        ]
      ]

  abbrev pub is_unknown : Order → Bool
  is_unknown o = elim o.status [ unknown ↦ true | _ ↦ false ]

  -- The orders that are UNKNOWN, the earliest first.
  insert_by_creation : Order → List Order → List Order
  insert_by_creation o [] = o ∷ []
  insert_by_creation o (x ∷ xs) =
      let rest = insert_by_creation o xs in
      if leb o.created_at x.created_at then o ∷ x ∷ xs else x ∷ rest

  unknown_orders : Dict Order → List Order
  unfolding insert_by_creation
  unknown_orders [] = []
  unknown_orders ((_, o) ∷ rows) =
      let rest = unknown_orders rows in if is_unknown o then insert_by_creation o rest else rest

  unfoldable pub load_unknown_orders : Repository → List Order
  unfolding unknown_orders
  load_unknown_orders r = unknown_orders r.orders

  pending_of : List BotCommand → List BotCommand
  pending_of [] = []
  pending_of (c ∷ cs) = let rest = pending_of cs in if is_some c.result then rest else c ∷ rest

  unfoldable pub pending_commands : Repository → List BotCommand
  unfolding pending_of
  pending_commands r = pending_of r.commands

  unfoldable pub mark_one : ℕ → String → List BotCommand → List BotCommand
  mark_one id result [] = []
  mark_one id result (c ∷ cs) =
      let rest = mark_one id result cs in
      if c.id == id then record c { result = some result } ∷ cs else c ∷ rest

  unfoldable pub mark_command : ℕ → String → Repository → Repository
  unfolding mark_one
  mark_command id result r = record r { commands = mark_one id result r.commands }

  unfoldable pub discard_all : String → List BotCommand → List BotCommand
  discard_all result [] = []
  discard_all result (c ∷ cs) =
      let rest = discard_all result cs in
      if is_some c.result then c ∷ rest else record c { result = some result } ∷ rest

  unfoldable pub discard_pending_commands : String → Repository → Repository
  unfolding discard_all
  discard_pending_commands result r = record r { commands = discard_all result r.commands }

  after : ℕ → List CashFlow → List CashFlow
  after id [] = []
  after id (f ∷ fs) = let rest = after id fs in if ltb id f.id then f ∷ rest else rest

  unfoldable pub load_cash_flows : ℕ → Repository → List CashFlow
  unfolding after
  load_cash_flows after_id r = after after_id r.cash_flows

  larger : ℕ → CashFlow → ℕ
  larger n f = if ltb n f.id then f.id else n

  unfoldable pub max_cash_flow_id : Repository → ℕ
  unfolding larger
  max_cash_flow_id r = foldl larger 0 r.cash_flows
