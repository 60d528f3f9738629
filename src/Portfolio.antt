-- ===== src/Portfolio.antt =====
-- app/trading/portfolio.py, the simulated account.
pub mod Account
pub mod Trading
pub mod Outcomes
pub mod Ledger
pub mod Guards
pub mod Positions
mod Examples
