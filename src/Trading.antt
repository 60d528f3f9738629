-- ===== src/Trading.antt =====
-- app/trading/engine.py: the trading engine over a broker, the risk manager and the database.
pub mod Engine
pub mod Exits
pub mod Signals
pub mod Unresolved
pub mod Loop
pub mod Confirm
pub mod Backoff
pub mod Kept
pub mod Gate
pub mod Once
pub mod OnePending
pub mod SafeMode
pub mod Overdue
pub mod Boundary
pub mod Feed
pub mod Lost
pub mod Rounds
pub mod Punctual
pub mod Reload
pub mod Changed
pub mod InEffect
pub mod Reverted
pub mod LiveFollowUp
pub mod Brokers
mod Examples
mod Fed
mod Reloads
