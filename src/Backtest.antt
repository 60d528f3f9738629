-- ===== src/Backtest.antt =====
-- app/backtest: the replay of candles against the account and the risk manager, and its metrics.
pub mod Config
pub mod Engine
pub mod Rules
pub mod Flat
pub mod Exited
pub mod Caused
pub mod Causes
mod Examples
