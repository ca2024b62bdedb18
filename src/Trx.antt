-- ===== src/Trx.antt =====
-- The Tron agent: its prices and fees (`Fees`), its addresses (`Addresses`), the HTTP interface of a Tron node (`Api`),
-- and the transfers (`Transfers`).
pub mod Fees
pub mod Addresses
pub mod Api
pub mod Transfers
pub mod Server
pub mod Tests
