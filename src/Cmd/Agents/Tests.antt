-- ===== src/Cmd/Agents/Tests.antt =====
-- A concrete configuration, for cmd/agent-eth: two chain types with one factory, which answers with the number of the
-- chain's nodes and fails where there is none.
use agents_go.Prelude.{
  ℕ, ◌≡◌, refl, false, Option, none, some, List, [], ◌∷◌, Text, codes, text_eq, text_eq_iff, length,
  if◌then◌else◌, arith, ok, err,
}
use agents_go.Config.{UrlConfig, ChainConfig, ChainTypeConfig}
use agents_go.Proxy.{Agent}
use agents_go.Proxy.Routing.{block, handle, method}
use agents_go.Proxy.Tests.{agent}
use agents_go.Cmd.Agents.{AgentFactory, no_agents, panicked, named, init_server_proxy}
use agents_go.Cmd.Agents.Routes.{network_id, handle-init_server_proxy}
use agents_go.Cmd.Agents.Starting.{IsServed, init_server_proxy_iff}

abbrev factory : AgentFactory Text (Agent ℕ ℕ ℕ)
factory config = elim config.rpc_urls [
  | [] ↦ err config.chain_network
  | _ ↦ ok (agent (length config.rpc_urls) none)
]

abbrev factories : Text → Option (AgentFactory Text (Agent ℕ ℕ ℕ))
factories k = if text_eq k (codes "E") then some factory else none

abbrev node : UrlConfig
node = record { name = []; url = codes "u"; limit_rps = 1 }

abbrev chain : List UrlConfig → ChainConfig
chain urls = record {
  testnet = false;
  chain_type = [];
  chain_network = [];
  rpc_urls = urls;
  http_urls = [];
}

abbrev networks : List (Text × ChainConfig)
networks = (codes "M", chain (node ∷ node ∷ [])) ∷ (codes "S", chain (node ∷ [])) ∷ []

abbrev configs : List (Text × ChainTypeConfig)
configs = (codes "E", record { networks = networks; default_network = codes "M" }) ∷ []

abbrev table : List (Text × Agent ℕ ℕ ℕ)
table = (codes "E:M", agent 2 none) ∷ (codes "E:S", agent 1 none) ∷ []

started : init_server_proxy factories configs ≡ ok table
unfolding init_server_proxy
started = refl

not_supported :
    init_server_proxy factories (
      (codes "E", record { networks = networks; default_network = [] })
      ∷ (codes "T", record { networks = networks; default_network = [] })
      ∷ [])
    ≡ err (no_agents (codes "T"))
unfolding init_server_proxy
not_supported = refl

without_nodes :
    init_server_proxy factories
      ((codes "E", record { networks = (codes "M", chain []) ∷ []; default_network = [] }) ∷ [])
    ≡ err (panicked (codes "M"))
unfolding init_server_proxy
without_nodes = refl

handle-init_server_proxy_example :
    (srv : Agent ℕ ℕ ℕ) × (factory (named (codes "E") (codes "M") (chain (node ∷ node ∷ [])))
      ≡ ok srv)
    × (handle block table
          (record { chain_id = some (network_id (codes "E") (codes "M")); body = 5 })
        ≡ method block srv
            (record { chain_id = some (network_id (codes "E") (codes "M")); body = 5 }))
handle-init_server_proxy_example =
    handle-init_server_proxy factories block [] [] (codes "E") (codes "M") (codes "M") []
      ((codes "S", chain (node ∷ [])) ∷ []) (chain (node ∷ node ∷ [])) factory table 5 refl
      ((ground arith, tt), (ground arith, tt))
      ((differ, ((ground arith, tt), (ground arith, tt))), tt) tt started
  where
    differ : codes "S" ≡ codes "M" → ⊥
    differ h = let same = (text_eq_iff (codes "S") (codes "M")).1 h in cc

served : IsServed factories (codes "E") networks
served = (
  unequal,
  (
    factory,
    refl,
    ((agent 2 none, unfold named in refl), ((agent 1 none, unfold named in refl), tt)),
  ),
)
  where
    unequal : networks ≡ [] → ⊥
    unequal h = cc

init_server_proxy_iff_example :
    (servers : List (Text × Agent ℕ ℕ ℕ)) × (init_server_proxy factories configs ≡ ok servers)
init_server_proxy_iff_example = (init_server_proxy_iff factories configs).0 (served, tt)
