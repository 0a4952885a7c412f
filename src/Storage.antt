-- ===== src/Storage.antt =====
-- storage/redis.go: the pool's books in Redis.
pub mod Types
pub mod Redis
pub mod Payments
pub mod Shares
pub mod Blocks
pub mod Rows
pub mod Payees
pub mod Stats
pub mod Gathered
pub mod Reports
pub mod Overview
pub mod Luck
pub mod Stale
pub mod Lookups
pub mod Books
pub mod Ledger
mod Tests
pub mod RoundTrips
