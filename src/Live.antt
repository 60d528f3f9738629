-- ===== src/Live.antt =====
-- app/trading/live_broker.py: the broker that places real orders.
pub mod Broker
pub mod Submit
pub mod Settle
pub mod Execute
pub mod Record
pub mod OneOrder
pub mod Noted
pub mod Again
pub mod Ends
pub mod Bounds
pub mod Accounts
pub mod Excluded
pub mod Resolve
mod Examples
