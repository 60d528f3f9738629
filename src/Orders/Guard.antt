-- ===== src/Orders/Guard.antt =====
-- app/trading/live_guard.py: the gate before every real order.
use upbit_auto_trader.Prelude.{
  ◌≡◌, ◌↔◌, Bool, true, false, ◌&&◌, Option, none, some, arith, if◌then◌else◌,
}

pub data TradingMode : Type 0 where
  backtest paper live : TradingMode

-- `Settings`, the two flags that the gate reads.
pub record LiveFlags : Type 0 where
  pub trading_mode : TradingMode
  pub live_trading_enabled : Bool

abbrev pub is_live : TradingMode → Bool
is_live live = true
is_live _ = false

unfoldable pub is_live_order_allowed : LiveFlags → Bool
is_live_order_allowed s = is_live s.trading_mode && s.live_trading_enabled

-- `LiveTradingDisabledError`, by its reason.
pub data LiveTradingDisabled : Type 0 where
  not_live : TradingMode → LiveTradingDisabled
  not_enabled : LiveTradingDisabled

-- `assert_live_order_allowed`: the error that it raises.
unfoldable pub assert_live_order_allowed : LiveFlags → Option LiveTradingDisabled
assert_live_order_allowed s =
    if is_live s.trading_mode
    then if s.live_trading_enabled then none else some not_enabled
    else some (not_live s.trading_mode)

-- The assertion passes exactly where the mode is LIVE and the flag is set.
pub assert_live_iff_allowed :
    (s : LiveFlags)
    → (assert_live_order_allowed s ≡ none)
      ↔ ((s.trading_mode ≡ live) × (s.live_trading_enabled ≡ true))
unfolding assert_live_order_allowed
assert_live_iff_allowed s = (λ h. (ground arith, ground arith), λ h. ground arith)
