-- ===== src/Util.antt =====
-- util/*.go: difficulties, targets and passwords.
pub mod Difficulty
pub mod Ae64
mod Tests
