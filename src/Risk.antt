-- ===== src/Risk.antt =====
-- app/risk: the limits on entries and the exits that protect a position.
pub mod State
pub mod Events
pub mod Entries
pub mod Exits
pub mod Life
pub mod Approval
pub mod Locks
pub mod Halts
pub mod Chronology
pub mod Restart
pub mod Protection
mod Examples
