-- ===== src/Relayer.antt =====
-- The relayer: omni-relayer/src.
pub mod Nonces
pub mod Events
pub mod Services
pub mod Task
pub mod Rules
pub mod Redis
pub mod Fees
pub mod Workers
pub mod Bumping
pub mod Indexer
mod Witnesses
