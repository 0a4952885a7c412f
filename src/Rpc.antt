-- ===== src/Rpc.antt =====
-- rpc/rpc.go: the client of a Monero daemon, and the health that it keeps of it.
pub mod Client
pub mod Health
pub mod Calls
mod Tests
