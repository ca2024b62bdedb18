-- ===== src/Eth/Chains.antt =====
-- agents/eth/server/server.go: `GetChain` and `ListChains`, with the start of `InitServer`, and accounts.go. The errors
-- are those of the stream, with `ErrInvalidChainId` and the code `Unimplemented`.
pub mod Announced
pub mod Tests
use agents_go.Prelude.{
  ℕ, ◌+◌, ◌^◌, ◌%◌, Bool, true, false, Option, none, some, List, [], ◌∷◌, ◌++◌, Text, text_eq,
  is_empty, if◌then◌else◌, Result, ok, err, ◌>>=◌, map_err,
}
use agents_go.Commons.{ChainId, either_str}
use agents_go.Config.{UrlConfig, ChainConfig, Blockchain, get_blockchain}

-- `Chain_ChainSupportedServices`, those that the agent names.
pub data Service : Type 0 where
  block_service construct_service currencies_service : Service

-- `proto.Chain`.
pub record ChainInfo : Type 0 where
  pub id : ChainId
  pub bip44_id : Option ℕ
  pub testnet : Bool
  pub finalized_height : ℕ
  pub ms_per_block : ℕ
  pub supported_services : List Service

pub data ChainError (E : Type 0) : Type 0 where
  invalid_chain_id unimplemented : ChainError E
  stream_error : E → ChainError E

-- `proto.Account`, with the number of the kind `STANDARD` of accounts.
pub record AccountInfo : Type 0 where
  pub id : Text
  pub kind : ℕ

-- `Config` and `Chain` of `EthServer`.
pub record ChainServer : Type 0 where
  pub config : ChainConfig
  pub chain : Blockchain

-- `ClientConfig` of a peer; of its labels the last, the upstream.
pub record Peer : Type 0 where
  pub url : Text
  pub limit_rps : ℕ
  pub upstream : Text

unfoldable pub peer_of : UrlConfig → Peer
peer_of url = record {
  url = url.url;
  limit_rps = url.limit_rps;
  upstream = either_str url.name url.url;
}

unfoldable pub peers_of : List UrlConfig → List Peer
unfolding peer_of
peers_of [] = []
peers_of (url ∷ urls) = peer_of url ∷ peers_of urls

-- The panics of `InitServer`; `unsupported_chain` names the chain.
pub data InitFault (E : Type 0) : Type 0 where
  no_peers : InitFault E
  no_chain_id : E → InitFault E
  unsupported_chain : Text → InitFault E

module _ {E : Type 0} where
  some_peers : List Peer → Result (InitFault E) (List Peer)
  some_peers [] = err no_peers
  some_peers (peer ∷ peers) = ok (peer ∷ peers)

  supported : ChainConfig → Option Blockchain → Result (InitFault E) ChainServer
  supported config none = err (unsupported_chain config.chain_type)
  supported config (some b) = ok (record { config = config; chain = b })

  -- `InitServer`: the balanced client that is started on the peers asks for the chain's number first, with `ask_chain_id`.
  unfoldable pub init_server :
      List (Text × Blockchain)
      → (List Peer → Result E ℕ)
      → ChainConfig
      → Result (InitFault E) (ℕ × ChainServer)
  unfolding peers_of some_peers supported
  init_server blockchains ask_chain_id config = do
    peers ← some_peers (peers_of config.rpc_urls)
    chain_id ← map_err no_chain_id (ask_chain_id peers)
    srv ← supported config (get_blockchain blockchains config.chain_type)
    ok (chain_id, srv)

-- What `GetChain` answers.
described : ChainServer → ChainId → ChainInfo
described srv id = record {
  id = id;
  bip44_id = some (srv.chain.type_num % 2 ^ 32);
  testnet = false;
  finalized_height = 20;
  ms_per_block = 3000;
  supported_services = block_service ∷ construct_service ∷ currencies_service ∷ [];
}

-- What `ListChains` sends.
unfoldable pub announced : ChainServer → ChainInfo
announced srv = record {
  id = record { chain_type = srv.config.chain_type; network = srv.config.chain_network };
  bip44_id = none;
  testnet = srv.config.testnet;
  finalized_height = 20;
  ms_per_block = 3000;
  supported_services = block_service ∷ construct_service ∷ currencies_service ∷ [];
}

-- The guard of `ListChains`: no type is asked for, or the server's.
unfoldable pub wanted : ChainServer → Option Text → Bool
wanted srv none = true
wanted srv (some chain_type) = text_eq chain_type srv.chain.chain_type

module _ {E S : Type 0} (send : ChainInfo → S → Result E S) where
  -- `ListChains` on a stream with states of the type `S`.
  unfoldable pub list_chains : ChainServer → Option Text → S → Result (ChainError E) S
  unfolding announced wanted
  list_chains srv chain_type s =
      if wanted srv chain_type then map_err stream_error (send (announced srv) s) else ok s

module _ {E : Type 0} where
  -- `GetChain`.
  unfoldable pub get_chain : ChainServer → ChainId → Result (ChainError E) ChainInfo
  unfolding described
  get_chain srv id =
      if text_eq id.chain_type srv.chain.chain_type
      then ok (described srv id)
      else err invalid_chain_id

  -- accounts.go; `Account_STANDARD` is an argument.
  unfoldable pub get_account : ℕ → Text → Result (ChainError E) AccountInfo
  get_account standard address = ok (record { id = address; kind = standard })

  unfoldable pub derive_account : Text → Result (ChainError E) AccountInfo
  derive_account chain = err unimplemented
