-- ===== src/Notify.antt =====
-- app/notify: the notifications of the engine, their queue and their delivery.
pub mod Event
pub mod Manager
pub mod Queue
pub mod Delivery
mod Examples
