-- ===== src/Database/Examples.antt =====
-- Tests of the database's rows, and their theorems at concrete inputs.
use upbit_auto_trader.Prelude.{◌≡◌, refl, true, false, none, some, [], ◌∷◌}
use upbit_auto_trader.Float.Fixed.{fixed}
use upbit_auto_trader.Prelude.Int.{◌+ℤ◌, ◌-ℤ◌}
use upbit_auto_trader.Dict
use upbit_auto_trader.Portfolio.Account.{Portfolio, Position, text, buying, new_portfolio}
use upbit_auto_trader.Risk.Entries.{Signal, buy_now}
use upbit_auto_trader.Orders.Order.{Order, filled, is_processed}
use upbit_auto_trader.Database.Repository.{
  Repository, save_signal, has_signal, is_same_signal, record_fill, save_order, sync_portfolio,
  account_record, position_record, position_rows, restored_position, restore_positions,
  restore_portfolio,
}
use upbit_auto_trader.Database.Restore.{IsRestored, restore-record_fill}

abbrev no_rows : Repository
no_rows = record {
  signals = [];
  orders = [];
  fills = [];
  round_trips = [];
  account = none;
  balances = [];
  commands = [];
  cash_flows = [];
}

abbrev holding : Position
holding = record {
  market = "KRW-BTC";
  quantity = fixed.number 1 0;
  avg_price = fixed.number 60000 0;
  opened_at = 500_000;
  entry_amount = fixed.number 60000 0;
  entry_fee = fixed.number 30 0;
  cost_known = true;
}

abbrev account : Portfolio
account = record {
  initial_cash = fixed.number 1000000 0;
  fee_rate = fixed.number 5 4;
  min_order_amount = fixed.number 5000 0;
  cash = fixed.number 939970 0;
  positions = ("KRW-BTC", holding) ∷ [];
  fills = [];
  trades = [];
  fees_paid = fixed.number 30 0;
  dust = [];
}

abbrev bought : Order
bought = record {
  id = "o1";
  client_id = "c1";
  mode = "paper";
  market = "KRW-BTC";
  side = buying;
  amount = none;
  quantity = none;
  status = filled;
  created_at = 500_000;
  reason = text "oversold";
  strategy = "rsi";
  signal_time = none;
  filled_at = some 500_000;
  fill_price = some (fixed.number 60000 0);
  filled_quantity = some (fixed.number 1 0);
  fee = fixed.number 30 0;
  error = none;
  exchange_order_id = none;
  exchange_identifier = none;
  fills = [];
}

abbrev entry : Signal
entry = record {
  action = buy_now;
  market = "KRW-BTC";
  time = 1_000_000;
  price = fixed.number 50000 0;
  strategy = "rsi";
  reason = "oversold";
}

-- The second row of the same key is refused.
saved_once : (save_signal "1h" entry (save_signal "1h" entry no_rows).1).0 ≡ false
unfolding save_signal has_signal is_same_signal
saved_once = refl

-- The account of a start with other settings.
abbrev back : Portfolio
back = record account { min_order_amount = fixed.number 6000 0 }

comes_back :
    restore_portfolio
      (fixed.number 500000 0)
      (fixed.number 5 4)
      (fixed.number 6000 0)
      900_000
      (record_fill bought [] account no_rows)
    ≡ some (back, true)
unfolding restore_portfolio new_portfolio restore_positions restored_position record_fill save_order
    sync_portfolio account_record position_rows position_record Dict.insert ◌+ℤ◌ ◌-ℤ◌
comes_back = refl

abbrev blank_account : Portfolio
blank_account = record {
  initial_cash = fixed.number 500000 0;
  fee_rate = fixed.number 5 4;
  min_order_amount = fixed.number 6000 0;
  cash = fixed.number 500000 0;
  positions = [];
  fills = [];
  trades = [];
  fees_paid = fixed.number 0 0;
  dust = [];
}

restore-record_fill_example :
    (q : Portfolio) × (restore_portfolio
        (fixed.number 500000 0)
        (fixed.number 5 4)
        (fixed.number 6000 0)
        900_000
        (record_fill bought [] account no_rows)
      ≡ some (q, true))
    × IsRestored account q
unfolding is_processed new_portfolio ◌+ℤ◌ ◌-ℤ◌
restore-record_fill_example =
    restore-record_fill bought [] account blank_account no_rows (fixed.number 500000 0)
      (fixed.number 5 4) (fixed.number 6000 0) 900_000 (refl, tt) refl
