-- ===== src/Exchange.antt =====
-- app/exchange: the answers of the exchange, the calls of its client, and the limits on their rate.
pub mod Models
pub mod Client
pub mod Limiter
pub mod Interval
pub mod Errors
pub mod Window
pub mod Request
pub mod Sends
mod Examples
