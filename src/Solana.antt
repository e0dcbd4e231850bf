-- ===== src/Solana.antt =====
-- The Solana program bridge_token_factory: solana/bridge_token_factory/programs.
pub mod State
pub mod Messages
pub mod Nonces
pub mod Transfers
pub mod Admin
pub mod Frame
pub mod Once
pub mod Calls
pub mod Instructions
pub mod Bystanders
pub mod Replay
pub mod Reserve
pub mod Access
mod Witnesses
