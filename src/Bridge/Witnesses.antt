-- ===== src/Bridge/Witnesses.antt =====
-- Runs of the contract on concrete data, with the theorems applied to them.
mod Sample
mod Accounts
mod Payments
mod Registry
mod Transfers
