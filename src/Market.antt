-- ===== src/Market.antt =====
-- app/trading/market_state.py, the prices of the markets.
pub mod Prices
pub mod Marks
pub mod Candles
pub mod Frames
pub mod Tables
pub mod Merging
pub mod Sound
pub mod Merged
pub mod Kept
pub mod Gaps
mod Examples
mod Filled
