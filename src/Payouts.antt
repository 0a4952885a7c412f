-- ===== src/Payouts.antt =====
-- payouts/unlocker.go: found blocks are checked against the chain and credited to the miners.
pub mod Fractions
pub mod Rewards
pub mod Candidates
pub mod Unlocker
pub mod Bounds
pub mod Verdicts
pub mod Halts
mod Tests
