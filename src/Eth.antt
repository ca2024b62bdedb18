-- ===== src/Eth.antt =====
-- agents/eth/server: the transfers of a transaction (`Transfers`), the conversion and listing of
-- blocks (`Blocks`).
pub mod Transfers
pub mod Blocks
pub mod Construct
pub mod Send
pub mod Converter
pub mod Currencies
pub mod Chains
pub mod Types
pub mod Info
pub mod Tests
