-- ===== src/Stratum.antt =====
-- stratum/*.go: the mining server.
pub mod Upstreams
pub mod MinersMap
pub mod Types
pub mod Blob
pub mod Jobs
pub mod Refresh
pub mod Share
pub mod Handlers
pub mod Messages
pub mod Runs
pub mod Connections
pub mod Api
mod Tests
