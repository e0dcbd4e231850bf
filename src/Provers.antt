-- ===== src/Provers.antt =====
-- The provers on NEAR: near/omni-prover.
pub mod Slices
pub mod Trie
pub mod Events
pub mod Evm
pub mod Vaa
pub mod Wormhole
mod Witnesses
