-- ===== src/Store.antt =====
-- The database, and what runs against it.
pub mod World
pub mod Accounts
pub mod Users
pub mod Orders
pub mod Trades
pub mod Outbox
pub mod Locks
pub mod Cache
