-- ===== src/Bridge.antt =====
-- The token bridge contract: near/omni-bridge/src.
pub mod State
pub mod Guards
pub mod Decimals
pub mod Balances
pub mod Records
pub mod Tokens
pub mod Init
pub mod Sign
pub mod Settle
pub mod Fin
pub mod Fast
pub mod Claim
pub mod Utxo
pub mod Connector
pub mod Deploy
pub mod Admin
pub mod Migrate
pub mod Runs
mod Witnesses
pub mod Frame
