-- ===== src/Types.antt =====
-- near/omni-types: the data that the contracts exchange.
pub mod Chain
pub mod Codecs
pub mod Address
pub mod Transfer
pub mod Messages
pub mod Parse
pub mod Stored
