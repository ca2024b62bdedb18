-- ===== src/Cmd.antt =====
-- cmd: the commands of agent-eth (`Agents`), am (`Accounts`) and am-pkcs (`Pkcs`), and the levels of their logs
-- (`Logging`).
pub mod Accounts
pub mod Agents
pub mod Pkcs
pub mod Logging
