-- ===== src/Tests.antt =====
-- Tests, and the theorems at concrete inputs.
pub mod World
pub mod Texts
pub mod Accounts
pub mod Transactions
pub mod Chain
pub mod Node
mod Mining
pub mod Recovery
mod Miner
mod Replay
pub mod Messages
pub mod Peers
mod Handshakes
mod Pools
