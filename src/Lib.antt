-- ===== src/Lib.antt =====
-- Omni Bridge: the token bridge contract on NEAR, near/omni-bridge, the types that it shares with the
-- other programs, near/omni-types, the program on Solana, the provers on NEAR, the bridged tokens, and
-- the relayer.
--
-- The parts. Tokens leave NEAR by `ft_on_transfer`, which stores a pending transfer and takes its
-- storage from the sender's balance; `sign_transfer` asks the signer for a signature of the payload;
-- the payout on the other chain is proved back by `claim_fee`, which removes the transfer and pays the
-- fee. Tokens enter NEAR by `fin_transfer`: a prover's answer is read by a callback, which finalises
-- the transfer and sends or mints tokens, or stores a transfer onwards to a third chain. Relayers may
-- pay earlier by fast transfers. UTXO chains are reached through connectors. A registry maps tokens
-- to their addresses and decimals on each chain.
--
-- The files.
--   Prelude      numbers, words, equality tests, look-up maps, results
--   Types        near/omni-types/src: chain kinds, addresses, transfers, messages; and the stored
--                values of near/omni-bridge/src/storage.rs
--   Host         what the contract is given: libraries, the receipt, the promises that it makes
--   Exec         a call as a function of the state, which may panic; Exec/Keeps and Exec/Triples have
--                the rules to reason about calls
--   Bridge       near/omni-bridge/src. State is `Contract`; Guards the attributes of methods;
--                Decimals the amounts; Balances is storage.rs and the balance functions of lib.rs;
--                Records the `add_` and `remove_` functions; Tokens the registry and token promises;
--                Init the transfers out of NEAR; Sign the signing; Settle and Fin the transfers into
--                NEAR; Fast the fast transfers; Claim the fee claims; Utxo and Connector (btc.rs) the
--                UTXO chains; Deploy the deployment, binding and migration of tokens; Admin the
--                setters and `ft_on_transfer`; Migrate the migration (migrate.rs).
--                Frame says what calls leave alone. Runs takes runs
--                apart. Bridge/Witnesses has concrete runs. The other child modules hold proofs.
--   Solana       solana/bridge_token_factory/programs/bridge_token_factory/src. State has the
--                configuration and the runtime; Messages the payloads and signatures; Nonces the
--                bitmaps and the rent reserve of use_nonce; Transfers and Admin the instructions; Calls
--                and Instructions their dispatch and sequences of transactions. Once, Bystanders,
--                Replay, Reserve, Access and Frame hold proofs.
--   Provers      near/omni-prover, and near/omni-types/src/evm/events.rs: Trie the check of a
--                Merkle-Patricia proof, Evm the prover of EVM events, Vaa and Wormhole the proxy of the
--                Wormhole prover
--   Relayer      omni-relayer/src. Nonces is utils/nonce.rs; Events the stored events; Services the
--                clients, Redis and JSON; Task the state and effects of a task; Redis utils/redis.rs;
--                Fees utils/bridge_api.rs; Workers the handlers and their round (Dispatch); Bumping
--                the fee bumping; Indexer utils/near.rs. Rules has the rules to reason about tasks
--   Token        near/omni-token/src/lib.rs: the bridged token, whose balances near-contract-standards
--                keeps; Calls its methods as data; Deployer is near/token-deployer/src/lib.rs
-- A function keeps the name it has in the source. A part of a function that branches is a definition
-- of its own, next to it.
--
-- How the code is read. A method is a function from the state to a value and a state, or to a panic,
-- after which the runtime drops what was written. Promises are values: a method returns them or
-- detaches them, and a callback is a method that reads results from its receipt. `u128` and `u64` are
-- natural numbers with checked or saturating operations, as in the source. A look-up map is the
-- function of its look-ups. Storage costs are taken from the length of the key and of the value of
-- each record, by a function `record_bytes`. No definition uses fuel: all recursion is structural.
--
-- On Solana, what the other programs store is one value, and a call of them is a function that gives the
-- new one or fails; the accounts of an instruction are arguments, and those that Anchor derives from
-- seeds are parameters. A failed transaction writes nothing. An account is written back only where it is
-- declared mut. The bytes of a string are its UTF-8. RLP, Borsh and the hashes are parameters.
--
-- A task of the relayer is a function from the state to a result and a state: an error takes nothing
-- back. The world outside is one value, which each call of a client changes as it likes. Redis is a
-- server whose requests may fail; its laws are stated in Redis/Laws. The decimals of rust_decimal are
-- parameters: a power that overflows panics, and the panic ends the round, as an error of its task.
--
-- Not modelled: gas, plain log lines and the arguments formatted into panic messages; the JSON of
-- events; the state of near-plugins (roles, paused methods, upgrades), which is read through
-- parameters; the order of `HashMap` iteration, a parameter too; the getters that list all provers
-- and connectors; migrate.rs of near/omni-token and near/token-deployer; the RLP decoding
-- of headers, receipts and logs of near/omni-types/src/evm;
-- the Solidity contracts; the indexers of the relayer, and the side by side of its tasks.
pub mod Prelude
pub mod Types
pub mod Host
pub mod Exec
pub mod Bridge
pub mod Solana
pub mod Provers
pub mod Relayer
pub mod Token
