-- ===== src/Cmd/Agents.antt =====
-- cmd/agent-eth/main.go: `InitServerProxy`, with the table `AgentFactories` of agent/agent.go. Maps are lists of their
-- entries, in the order in which Go happens to walk them. A factory may panic, with an error of the type `E`.
pub mod Rounds
pub mod Routes
pub mod Starting
pub mod Table
pub mod Serving
pub mod Tests
use agents_go.Prelude.{
  Option, none, some, List, [], ◌∷◌, ◌++◌, Text, text_eq, if◌then◌else◌, Result, ok, err, ◌>>=◌,
  map_err,
}
use agents_go.Commons.{put}
use agents_go.Config.{ChainConfig, ChainTypeConfig}

-- How the start ends early: `log.Fatalf` for a chain type without agents, or the panic of a factory.
pub data StartFault (E : Type 0) : Type 0 where
  no_agents : Text → StartFault E
  panicked : E → StartFault E

-- `UbtAgentFactory`.
abbrev pub AgentFactory : Type 0 → Type 0 → Type 0
AgentFactory E A = ChainConfig → Result E A

-- `nv` with the names that it stands under.
unfoldable pub named : Text → Text → ChainConfig → ChainConfig
named k nk nv = record nv { chain_type = k; chain_network = nk }

unfoldable pub server_key : ChainConfig → Text
server_key config = config.chain_type ++ b':' ∷ config.chain_network

module _ {E A : Type 0} (factories : Text → Option (AgentFactory E A)) where
  -- A network of the chain type `k`: it is left out where there is no factory.
  found_agent :
      Option (AgentFactory E A)
      → ChainConfig
      → List (AgentFactory E A × ChainConfig)
      → List (AgentFactory E A × ChainConfig)
  found_agent none config later = later
  found_agent (some factory) config later = (factory, config) ∷ later

  unfoldable pub found_agents :
      Text → List (Text × ChainConfig) → List (AgentFactory E A × ChainConfig)
  unfolding found_agent named
  found_agents k [] = []
  found_agents k ((nk, nv) ∷ rest) = found_agent (factories k) (named k nk nv) (found_agents k rest)

  -- Each agent that was found is made and set into the table.
  unfoldable pub start_agents :
      List (AgentFactory E A × ChainConfig) → List (Text × A) → Result E (List (Text × A))
  unfolding put server_key
  start_agents [] servers = ok servers
  start_agents ((factory, config) ∷ rest) servers = do
    agent ← factory config
    start_agents rest (put (server_key config) agent servers)

  some_found :
      Text
      → List (AgentFactory E A × ChainConfig)
      → Result (StartFault E) (List (AgentFactory E A × ChainConfig))
  some_found k [] = err (no_agents k)
  some_found k (a ∷ found) = ok (a ∷ found)

  -- A round of the outer loop.
  unfoldable pub start_type :
      Text → ChainTypeConfig → List (Text × A) → Result (StartFault E) (List (Text × A))
  unfolding found_agents start_agents some_found
  start_type k v servers = do
    found ← some_found k (found_agents k v.networks)
    map_err panicked (start_agents found servers)

  unfoldable pub start_types :
      List (Text × ChainTypeConfig) → List (Text × A) → Result (StartFault E) (List (Text × A))
  unfolding start_type
  start_types [] servers = ok servers
  start_types ((k, v) ∷ rest) servers = do
    servers' ← start_type k v servers
    start_types rest servers'

  -- `InitServerProxy`: the table that the proxy is given.
  unfoldable pub init_server_proxy :
      List (Text × ChainTypeConfig) → Result (StartFault E) (List (Text × A))
  unfolding start_types
  init_server_proxy configs = start_types configs []
