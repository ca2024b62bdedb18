-- ===== src/Cmd/Agents/Serving/Answers.antt =====
-- What the proxy of cmd/agent-eth answers to `GetChain`.
use agents_go.Prelude.{
  ℕ, ◌%◌, ◌^◌, ◌≡◌, ◌≢◌, sym, ap, ◌∙◌, Option, some, List, ◌∷◌, ◌++◌, Text, All, Result, ok, ◌>>=◌,
  >>=-eq-ok, ok_path,
}
use agents_go.Commons.{ChainId}
use agents_go.Config.{ChainConfig, ChainTypeConfig, Blockchain, get_blockchain}
use agents_go.Config.Table.{blockchains, blockchains_named}
use agents_go.Eth.Chains.{Peer, ChainInfo, InitFault}
use agents_go.Eth.Chains.Announced.{get_chain_own}
use agents_go.Proxy.{Agent, Reply}
use agents_go.Proxy as Proxy
use agents_go.Proxy.Routing.{IsPlain, handle, chain}
use agents_go.Trx.Api.{Http, Json}
use agents_go.Trx.Server.{StartedAgent, agent_factories}
use agents_go.Cmd.Agents.{AgentFactory, named, init_server_proxy}
use agents_go.Cmd.Agents.Routes.{network_id, handle-init_server_proxy}
use agents_go.Cmd.Agents.Serving.Started.{agent_factories-HasChain}
use agents_go.Cmd.Agents.Serving.{Wire, server_of, reply_of, chain_reply, agent_of, serving}

module _ {E H D : Type 0} (http : Http E H D) (json : Json E)
    (ask_chain_id : List Peer → Result E ℕ) {C B F R : Type 0} (wire : Wire C B F R)
    (others : StartedAgent E → Agent B F R) where
  -- `GetChain` of an agent whose blockchain has the type that is asked for.
  agent_of-get_chain :
      (a : StartedAgent E) (id : ChainId) (body : B)
      → (server_of a).chain.chain_type ≡ id.chain_type
      → (info : ChainInfo) × (info.id ≡ id)
        × (info.bip44_id ≡ some ((server_of a).chain.type_num % 2 ^ 32))
        × ((agent_of wire others a).get_chain (record { chain_id = some id; body = body })
            ≡ Proxy.ok (wire.wrap info))
  unfolding agent_of chain_reply
  agent_of-get_chain a id body typed =
      let (info, answer, own, number) = get_chain_own {E = C} (server_of a) id typed in
      (info, own, number, ap (reply_of wire) answer)

  -- In the proxy of cmd/agent-eth, with the factories of its agents and the table of its blockchains, `GetChain` for a
  -- configured chain answers with the chain that was asked for and with the number of its type from the table, whichever
  -- agent serves it. No name holds a separator, and a map has each key once: the later entries have other keys.
  pub get_chain-init_server_proxy :
      (types_before types_after : List (Text × ChainTypeConfig)) (k default nk : Text)
      (before after : List (Text × ChainConfig)) (nv : ChainConfig)
      (factory : AgentFactory (InitFault E) (StartedAgent E)) (servers : List (Text × Agent B F R))
      (body : B)
      → agent_factories http json ask_chain_id k ≡ some factory
      → IsPlain (network_id k nk)
      → All (λ n. (n.0 ≢ nk) × IsPlain (network_id k n.0)) after
      → All (λ r. (r.0 ≢ k) × All (λ n. IsPlain (network_id r.0 n.0)) r.1.networks) types_after
      → init_server_proxy
          (λ t. serving wire others (agent_factories http json ask_chain_id t))
          (types_before
            ++ (k, record { networks = before ++ (nk, nv) ∷ after; default_network = default })
              ∷ types_after)
        ≡ ok servers
      → (info : ChainInfo) × (b : Blockchain) × (get_blockchain blockchains k ≡ some b)
        × (info.id ≡ network_id k nk)
        × (info.bip44_id ≡ some (b.type_num % 2 ^ 32))
        × (handle chain servers (record { chain_id = some (network_id k nk); body = body })
            ≡ Proxy.ok (wire.wrap info))
  unfolding serving named
  get_chain-init_server_proxy types_before types_after k default nk before after nv factory servers
        body e plain later types_later h =
      let finish : StartedAgent E → Result (InitFault E) (Agent B F R) =
        λ a. ok (agent_of wire others a) in
      let factories : Text → Option (AgentFactory (InitFault E) (Agent B F R)) =
        λ t. serving wire others (agent_factories http json ask_chain_id t) in
      let (srv, made, handled) =
        handle-init_server_proxy factories chain types_before types_after k default nk before after
          nv (λ config. factory config >>= finish) servers body (ap (serving wire others) e) plain
          later types_later h in
      let (a, started, same) = >>=-eq-ok (factory (named k nk nv)) finish srv made in
      let (of_config, of_table) =
        agent_factories-HasChain http json ask_chain_id k factory (named k nk nv) a e started in
      let (info, own, number, answer) =
        agent_of-get_chain a (network_id k nk) body
          (blockchains_named k (server_of a).chain of_table) in
      (
        info,
        (server_of a).chain,
        of_table,
        own,
        number,
        handled
            ∙ ap
                (λ (s : Agent B F R).
                  s.get_chain (record { chain_id = some (network_id k nk); body = body }))
                (sym (ok_path same))
            ∙ answer,
      )
