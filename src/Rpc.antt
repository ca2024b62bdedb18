-- ===== src/Rpc.antt =====
-- The Ethereum node's JSON-RPC interface: the arguments (`Args`) and methods (`Backend`) of agents/eth/rpc/backend.go, and
-- the typed calls, alone, in batches (`Calls`) and through the balancer (`Balanced`), of commons/jsonrpc and
-- agents/eth/rpc/calls.go.
pub mod Args
pub mod Backend
pub mod Calls
pub mod Balanced
pub mod Tests
