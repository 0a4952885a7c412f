-- ===== src/Blocktemplate.antt =====
-- blocktemplate/*.go: the binary form of a Monero block template.
pub mod Wire
pub mod VarInt
pub mod Crypto
pub mod Loops
pub mod Transaction
pub mod Block
pub mod Encoding
pub mod Packing
pub mod Unpacking
pub mod RoundTrip
mod Tests
