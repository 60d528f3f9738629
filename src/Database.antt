-- ===== src/Database.antt =====
-- app/database: the rows of one mode in the database, and what the engine reads back from them.
pub mod Repository
pub mod Restore
mod Examples
