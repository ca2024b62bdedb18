-- ===== src/Am.antt =====
-- am: the account manager, with the encryption of private keys (`Encryption`) and the server (`Server`).
pub mod Encryption
pub mod Server
pub mod Accounts
pub mod Chains
pub mod Tests
