-- ===== src/Lib.antt =====
-- A model of the UBT agents, a gRPC service that gives one interface to several blockchains, and its
-- correctness.
--
-- The program. A server (proxy) takes each request, finds the agent of the request's chain by the
-- chain's text (commons) and passes the request on. The Ethereum agent (agents/eth/server) asks nodes
-- for blocks, through a balancer of their clients (commons/balancer), repairs the fields of their
-- answers (commons/fixer), and converts blocks, transactions and logs to the common form, with the
-- numbers and bytes of commons/conv. Currencies are named by texts (blockchain/currency). The account
-- manager (am) keeps private keys in encrypted form and signs with them; another (pkcs) keeps them on a token. The Tron agent (agents/trx) is
-- the Ethereum agent with addresses of its own (blockchain/trx) and with transfers that a node of Tron's
-- HTTP interface makes; it keeps the prices of a fee in a cache (commons/cache). The Ethereum agent calls
-- its nodes by JSON-RPC (agents/eth/rpc, commons/jsonrpc), each call through the balancer.
--
-- The files.
--   Prelude: Boolean tests, lists and texts over the native numbers; calls that fail (Results), and calls
--     on a state that fail (Runs), with `do`.
--   Balancer: commons/balancer/balancer.go. `Balancer` is `ClientBalancer`; `select_client`,
--     `connect_clients`, `mark_disconnected`, `start` and `new_balancer` are the operations of the same
--     names, and Balancer/Calls has `Call`, `CallW`, `CallEveryUpstream` and `Close`. A record is named by
--     its place in `clients`; the function `clients` is the store that `connected` points into. Below
--     it: what one selection does (Outcome, Choice, Selection), the flags and the list (Connected, Dialling),
--     histories (History), the budget (Budget, RateLimit), two overlapping operations (Race), the start
--     (Starting), and the pool of clients that the balancer refines (Spec, Pools, Refinement).
--   Conv/Hex, Conv/Uint256: commons/conv/hexconv/hexconv.go and commons/conv/uint256conv/uint256conv.go.
--   Commons: commons/commons.go, with `Hex2Int`, `UInt64HexString`, `ChainIdToString`, `StringToChainId`.
--   Currency: blockchain/currency.go, the identifiers, their texts and `Normalize`.
--   Proxy: proxy/proxy.go, each handler by its name; an agent is a record of functions.
--   Eth/Transfers: agents/eth/server/transaction.go, `TxConverter` with its four methods, and what its
--     transfers hold (Contents).
--   Eth/Blocks: agents/eth/server/block.go, and `ListBlocks` of agents/eth/server/server.go.
--   Eth/Converter: `EthBlockToProto` of block.go, with `GetBlock` of server.go.
--   Eth/Construct, Eth/Send: agents/eth/server/construct.go, its four handlers, and `AddressFromString` of
--     server.go.
--   Eth/Currencies: agents/eth/server/currency.go, `GetCurrency` with its cache.
--   Config: agent/config.go, `GetChainConfig`, with `GetBlockchain` of blockchain/common.go. Eth/Chains:
--     `InitServer`, `GetChain` and `ListChains` of server.go, and agents/eth/server/accounts.go.
--   Fixer: commons/fixer.go, `FixField`, `FixJsonFields` and the fixers.
--   Am/Encryption, Am/Server: am/encryption.go and am/server.go, `Encrypt`, `Decrypt`, `CreateAccount`,
--     `GetAccount`, `ListAccounts` and `SignPayload`.
--   Cache: commons/cache/cache.go, `SimpleExpirationCache`.
--   Pkcs: pkcs/server.go, `CreateAccount`, `GetAccount`, `ListAccounts` and `SignPayload` on a token.
--   Chain: blockchain/eth/eth.go, keys, addresses and signatures.
--   Trx/Addresses: blockchain/trx/trx.go, and `TrxExtensions` of agents/trx/server.go. Trx/Fees and
--     Trx/Transfers: `GetFeePrices`, `estimateFee`, `CreateTransfer` and `Send` of agents/trx/server.go.
--     Trx/Transfers/Delivery joins them with `SignTransaction` of the Ethereum server.
--     Trx/Api: agents/trx/api.go, `DoPost` and the methods on top of it.
--   Rpc/Args, Rpc/Backend: agents/eth/rpc/backend.go, the arguments and the methods. Rpc/Calls:
--     commons/jsonrpc/jsonrpc.go with the calls of agents/eth/rpc/calls.go. Rpc/Balanced:
--     commons/jsonrpc/client/balancedclient.go, the balancer's client but its
--     `Dial` and `Start`.
--   Cmd: cmd/agent-eth/main.go, `InitServerProxy` (Cmd/Agents, and with `GetChain`
--     and `ListChains` of the agents in Cmd/Agents/Serving), cmd/am/main.go, the actions of `gen`, `import`,
--     `delete` and `list` (Cmd/Accounts), cmd/am-pkcs/main.go (Cmd/Pkcs) and cmd/cmdutil/cmdutil.go (Cmd/Logging).
--   Eth/Types: agents/eth/types/block.go, the two `UnmarshalJSON`. Eth/Info: `Info` of server.go. Am/Chains: the
--     entries ETH and TRX of the table of blockchains for the account manager. Config/Table: that table. Trx/Server:
--     `InitServer` of agents/trx/server.go, and the table of agent factories. Commons/Labels: commons/util.go.
--   The modules called Tests run the code on concrete inputs.
--
-- Bounds and fuel. A uint64 that can wrap around is written with `% 2 ^ 64`; a bucket is an int64 that
-- stays between 0 and `math.MaxInt64`. Digits are emitted on fuel, which is the number itself and so
-- enough: every division makes a number that is not 0 smaller. `CallW` waits without a bound, so its
-- model takes the clock readings of its rounds, and what it does if they run out is a reply of its
-- own. Times are nanoseconds since Go's zero time; the clock may also go back.
--
-- Arguments of the model: the dialer, the operation that is called and its errors, the node's answers, the stream that
-- blocks are sent to, go-ethereum's conversions, hashes, signatures and encodings, base58, the HTTP and JSON packages,
-- what agents do behind the proxy but `GetChain` and `ListChains`, and the cipher, the database and the random bytes of
-- the account manager.
--
-- Not modelled: the generated contract bindings; the flags of the commands, their listening and their gRPC servers;
-- the metrics and the log, and with them `Dial` and `Start` of the balanced client, which register metrics; and JSON,
-- YAML and protobuf encoding.
pub mod Prelude
pub mod Balancer
pub mod Conv
pub mod Commons
pub mod Currency
pub mod Proxy
pub mod Eth
pub mod Fixer
pub mod Am
pub mod Cache
pub mod Chain
pub mod Config
pub mod Pkcs
pub mod Cmd
pub mod Trx
pub mod Rpc
