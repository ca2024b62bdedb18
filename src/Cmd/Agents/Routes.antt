-- ===== src/Cmd/Agents/Routes.antt =====
-- Which agent of cmd/agent-eth answers for a configured chain.
use agents_go.Prelude.{◌≡◌, ◌≢◌, ap, Option, some, List, ◌∷◌, ◌++◌, Text, All, All-map, ok}
use agents_go.Commons.{ChainId, chain_id_to_string}
use agents_go.Commons.ChainText.{chain_id_to_string-injective}
use agents_go.Config.{ChainConfig, ChainTypeConfig}
use agents_go.Proxy.{Agent}
use agents_go.Proxy.Routing.{Method, IsPlain, handle, method, handle_known}
use agents_go.Cmd.Agents.{AgentFactory, named, server_key, init_server_proxy}
use agents_go.Cmd.Agents.Rounds.{init_server_proxy-lookup}

abbrev pub network_id : Text → Text → ChainId
network_id k nk = record { chain_type = k; network = nk }

-- The keys of two networks differ where their names do.
server_key_ne :
    (c d : ChainId) (nv mv : ChainConfig)
    → IsPlain c
    → IsPlain d
    → c ≢ d
    → server_key (named c.chain_type c.network nv) ≢ server_key (named d.chain_type d.network mv)
unfolding server_key named chain_id_to_string
server_key_ne c d nv mv (ct, cn) (dt, dn) differs h =
    differs (chain_id_to_string-injective c d ct cn dt dn h)

module _ {F B E R : Type 0} (factories : Text → Option (AgentFactory F (Agent B E R))) where
  -- In the proxy that is started from a configuration, every handler passes a request for a configured chain on to the agent
  -- that the factory of the chain's type made of the chain's configuration, with its type and network set, and returns
  -- what that agent's method of the same name returns. No name holds a separator, and a map has each key once: the later
  -- entries have other keys.
  pub handle-init_server_proxy :
      (m : Method) (types_before types_after : List (Text × ChainTypeConfig)) (k default nk : Text)
      (before after : List (Text × ChainConfig)) (nv : ChainConfig)
      (factory : AgentFactory F (Agent B E R)) (servers : List (Text × Agent B E R)) (body : B)
      → factories k ≡ some factory
      → IsPlain (network_id k nk)
      → All (λ n. (n.0 ≢ nk) × IsPlain (network_id k n.0)) after
      → All (λ r. (r.0 ≢ k) × All (λ n. IsPlain (network_id r.0 n.0)) r.1.networks) types_after
      → init_server_proxy factories (
          types_before
          ++ (k, record { networks = before ++ (nk, nv) ∷ after; default_network = default })
            ∷ types_after)
        ≡ ok servers
      → (srv : Agent B E R) × (factory (named k nk nv) ≡ ok srv)
        × (handle m servers (record { chain_id = some (network_id k nk); body = body })
            ≡ method m srv (record { chain_id = some (network_id k nk); body = body }))
  unfolding server_key named chain_id_to_string
  handle-init_server_proxy m types_before types_after k default nk before after nv factory servers
        body e plain later types_later h =
      let other_networks =
        All-map
          (λ n r.
            server_key_ne (network_id k n.0) (network_id k nk) n.1 nv r.1 plain
              (λ same. r.0 (ap (λ (c : ChainId). c.network) same)))
          after later in
      let other_types =
        All-map
          (λ t r.
            All-map
              (λ n p.
                server_key_ne (network_id t.0 n.0) (network_id k nk) n.1 nv p plain
                  (λ same. r.0 (ap (λ (c : ChainId). c.chain_type) same)))
              t.1.networks r.1)
          types_after types_later in
      let (srv, made, there) =
        init_server_proxy-lookup factories types_before types_after k default nk before after nv
          factory servers e other_networks other_types h in
      (srv, made, handle_known m servers (network_id k nk) body srv there)
