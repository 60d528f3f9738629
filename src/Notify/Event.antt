-- ===== src/Notify/Event.antt =====
-- app/notify/base.py: the kinds of notification and the two sets of kinds that the manager asks for.
use upbit_auto_trader.Prelude.{String, Bool, true, false, Option}

pub data EventKind : Type 0 where
  buy sell order_filled order_rejected stop_loss take_profit trailing_stop daily_loss_limit
        consecutive_loss_limit risk_halt api_error bot_start bot_stop settings account :
      EventKind

-- `BURST_KINDS`
unfoldable pub is_burst : EventKind → Bool
is_burst order_rejected = true
is_burst api_error = true
is_burst _ = false

-- `PRIORITY_KINDS`
unfoldable pub is_priority : EventKind → Bool
is_priority stop_loss = true
is_priority take_profit = true
is_priority trailing_stop = true
is_priority risk_halt = true
is_priority daily_loss_limit = true
is_priority consecutive_loss_limit = true
is_priority order_filled = true
is_priority bot_start = true
is_priority bot_stop = true
is_priority _ = false

-- `NotificationEvent`, with the value of `auto_key()`.
pub record NotificationEvent : Type 0 where
  pub kind : EventKind
  pub title : String
  pub message : String
  pub key : Option String
  pub auto_key : String
