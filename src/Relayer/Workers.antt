-- ===== src/Relayer/Workers.antt =====
-- The workers that handle the events: omni-relayer/src/workers.
pub mod Common
pub mod Near
pub mod Storage
pub mod Deliver
pub mod Fast
pub mod Evm
pub mod Solana
pub mod Utxo
pub mod Dispatch
pub mod Due
mod Witnesses
pub mod Handled
