-- ===== src/Orders.antt =====
-- app/trading/orders.py and app/trading/live_guard.py: orders, the paper broker and the gate.
pub mod Guard
pub mod Order
pub mod Paper
pub mod PaperLaws
pub mod OnceOnly
mod Examples
