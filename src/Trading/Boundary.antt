-- ===== src/Trading/Boundary.antt =====
-- app/trading/engine.py: the time of the next candle.
use upbit_auto_trader.Prelude.{ℕ, ◌+◌, ◌/◌, ◌%◌, ◌<◌, ◌≤◌, ◌≡◌, arith}
use upbit_auto_trader.Trading.Loop.{next_boundary}

-- The next boundary of candles of at least one second is a whole number of intervals after the epoch,
-- later than now and no more than an interval later than the second that began last.
pub next_boundary_lem :
    (now interval_seconds : ℕ)
    → 0 < interval_seconds
    → (now / 1_000_000 < next_boundary now interval_seconds)
      × (next_boundary now interval_seconds ≤ now / 1_000_000 + interval_seconds)
      × (next_boundary now interval_seconds % interval_seconds ≡ 0)
unfolding next_boundary
next_boundary_lem now interval_seconds pos = (grind arith, grind arith, grind arith)
