-- ===== src/Cmd/Agents/Serving.antt =====
-- The agents that cmd/agent-eth starts, behind the proxy: the factories of the agents' `init` functions, and `GetChain` and
-- `ListChains` of the Ethereum server, which Tron's agent takes over. The other methods of the agents are an argument.
pub mod Started
pub mod Answers
pub mod Listing
pub mod Tests
pub mod Walks
use agents_go.Prelude.{Option, none, some, List, [], ◌∷◌, ◌++◌, Text, Result, ok, err, ◌>>=◌}
use agents_go.Commons.{ChainId}
use agents_go.Eth.Chains.{
  Peer, ChainInfo, ChainError, ChainServer, InitFault, get_chain, list_chains,
}
use agents_go.Proxy.{Agent, Reply, Request, agent_error}
use agents_go.Proxy as Proxy
use agents_go.Trx.Api.{Http, Json}
use agents_go.Trx.Server.{StartedAgent, eth_agent, trx_agent, agent_factories}
use agents_go.Cmd.Agents.{AgentFactory}

-- The embedded `EthServer`.
unfoldable pub server_of : {E : Type 0} → StartedAgent E → ChainServer
server_of (eth_agent chain_id srv) = srv
server_of (trx_agent chain_id agent) = agent.eth_server

-- The messages and the stream of the generated code: the reply with a chain, the type that a request to list chains may
-- have, and a stream, which takes a chain or fails.
pub record Wire (C B F R : Type 0) : Type 0 where
  pub wrap : ChainInfo → R
  pub fail : ChainError C → F
  pub asked : B → Option Text
  pub accept : ChainInfo → Result C R

module _ {C B F R : Type 0} (wire : Wire C B F R) where
  unfoldable pub reply_of : Result (ChainError C) ChainInfo → Reply F R
  reply_of (ok info) = Proxy.ok (wire.wrap info)
  reply_of (err e) = Proxy.err (agent_error (wire.fail e))

  -- `Send` of the stream, on what was sent before.
  unfoldable pub send_chain : ChainInfo → List R → Result C (List R)
  send_chain info sent = do r ← wire.accept info; ok (sent ++ r ∷ [])

  unfoldable pub listed_by : Result (ChainError C) (List R) → List R × Option F
  listed_by (ok sent) = (sent, none)
  listed_by (err e) = ([], some (wire.fail e))

  -- `GetChain` of an agent; the proxy does not pass a nil identifier on.
  unfoldable pub chain_reply : Agent B F R → ChainServer → Request B → Reply F R
  unfolding reply_of
  chain_reply others srv req = elim req.chain_id [
    | none ↦ others.get_chain req
    | some id ↦ reply_of (get_chain srv id)
  ]

  unfoldable pub agent_of :
      {E : Type 0} → (StartedAgent E → Agent B F R) → StartedAgent E → Agent B F R
  unfolding server_of chain_reply send_chain listed_by
  agent_of others agent = record (others agent) {
    get_chain = chain_reply (others agent) (server_of agent);
    list_chains = λ body. listed_by (list_chains send_chain (server_of agent) (wire.asked body) []);
  }

  -- A factory with its agents behind the interface.
  unfoldable pub serving :
      {E G : Type 0}
      → (StartedAgent E → Agent B F R)
      → Option (AgentFactory G (StartedAgent E))
      → Option (AgentFactory G (Agent B F R))
  unfolding agent_of
  serving others none = none
  serving others (some factory) = some (λ config. factory config >>= λ a. ok (agent_of others a))
