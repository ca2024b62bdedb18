-- ===== src/Cmd/Agents/Serving/Started.antt =====
-- What the agents that cmd/agent-eth starts have of the configuration and of the table of blockchains.
use agents_go.Prelude.{
  ℕ, ◌≡◌, refl, ap, ◌∙◌, subst, ◌⊎◌, inl, inr, Bool, true, false, Option, none, some, some_path,
  List, Text, codes, text_eq, if◌then◌else◌, Result, ok, >>=-eq-ok, ok_path,
}
use agents_go.Config.{ChainConfig, get_blockchain}
use agents_go.Config.Table.{blockchains}
use agents_go.Eth.Chains.{Peer, ChainServer, InitFault, init_server}
use agents_go.Eth.Chains.Announced.{init_server-ok}
use agents_go.Proxy.{Agent}
use agents_go.Trx.Api.{Http, Json}
use agents_go.Trx.Server.{
  StartedAgent, eth_agent, trx_agent, trx_agent_of, start_eth, start_trx, agent_factories,
}
use agents_go.Cmd.Agents.{AgentFactory}
use agents_go.Cmd.Agents.Serving.{Wire, server_of, agent_of, serving}

-- An agent has its configuration, and the blockchain of the table for the type in it.
abbrev pub HasChain : {E : Type 0} → ChainConfig → StartedAgent E → Type 0
HasChain config a =
    ((server_of a).config ≡ config)
    × (get_blockchain blockchains config.chain_type ≡ some (server_of a).chain)

module _ {E H D : Type 0} (http : Http E H D) (json : Json E)
    (ask_chain_id : List Peer → Result E ℕ) where
  start_eth-HasChain :
      (config : ChainConfig) (a : StartedAgent E)
      → start_eth http json ask_chain_id config ≡ ok a
      → HasChain config a
  unfolding start_eth server_of
  start_eth-HasChain config a h =
      let finish : ℕ × ChainServer → Result (InitFault E) (StartedAgent E) =
        λ r. ok (eth_agent r.0 r.1) in
      let (r, is_r, same) = >>=-eq-ok (init_server blockchains ask_chain_id config) finish a h in
      subst (HasChain config) (ok_path same)
        (init_server-ok blockchains ask_chain_id config r.0 r.1 is_r)

  start_trx-HasChain :
      (config : ChainConfig) (a : StartedAgent E)
      → start_trx http json ask_chain_id config ≡ ok a
      → HasChain config a
  unfolding start_trx trx_agent_of server_of
  start_trx-HasChain config a h =
      let finish : ℕ × ChainServer → Result (InitFault E) (StartedAgent E) =
        λ r. ok (trx_agent r.0 (trx_agent_of http json ask_chain_id config r.1)) in
      let (r, is_r, same) = >>=-eq-ok (init_server blockchains ask_chain_id config) finish a h in
      subst (HasChain config) (ok_path same)
        (init_server-ok blockchains ask_chain_id config r.0 r.1 is_r)

  -- A factory of the table is one of the two.
  one_factory :
      (a b c : Bool) (factory : AgentFactory (InitFault E) (StartedAgent E))
      → (if a
          then some (start_eth http json ask_chain_id)
          else if b
          then some (start_eth http json ask_chain_id)
          else if c
          then some (start_trx http json ask_chain_id)
          else none)
        ≡ some factory
      → (start_eth http json ask_chain_id ≡ factory) ⊎ (start_trx http json ask_chain_id ≡ factory)
  one_factory true b c factory h = inl (some_path h)
  one_factory false true c factory h = inl (some_path h)
  one_factory false false true factory h = inr (some_path h)
  one_factory false false false factory h = cc

  pub agent_factories-HasChain :
      (k : Text) (factory : AgentFactory (InitFault E) (StartedAgent E)) (config : ChainConfig)
      (a : StartedAgent E)
      → agent_factories http json ask_chain_id k ≡ some factory
      → factory config ≡ ok a
      → HasChain config a
  unfolding agent_factories
  agent_factories-HasChain k factory config a e h =
      elim (one_factory (text_eq k (codes "ETH")) (text_eq k (codes "BNB"))
        (text_eq k (codes "TRX")) factory e) [
          | inl same ↦ start_eth-HasChain config a (ap (λ f. f config) same ∙ h)
          | inr same ↦ start_trx-HasChain config a (ap (λ f. f config) same ∙ h)
        ]

-- An agent behind the interface is one that a factory made.
pub serving-ok :
    {E C B F R G : Type 0} (wire : Wire C B F R) (others : StartedAgent E → Agent B F R)
    (o : Option (AgentFactory G (StartedAgent E))) (served : AgentFactory G (Agent B F R))
    (config : ChainConfig) (srv : Agent B F R)
    → serving wire others o ≡ some served
    → served config ≡ ok srv
    → (factory : AgentFactory G (StartedAgent E)) × (a : StartedAgent E) × (o ≡ some factory)
      × (factory config ≡ ok a)
      × (agent_of wire others a ≡ srv)
unfolding serving
serving-ok wire others none served config srv e h = cc
serving-ok {E} {B = B} {F = F} {R = R} {G = G} wire others (some factory) served config srv e h =
    let finish : StartedAgent E → Result G (Agent B F R) = λ a. ok (agent_of wire others a) in
    let (a, made, same) =
      >>=-eq-ok (factory config) finish srv (ap (λ f. f config) (some_path e) ∙ h) in
    (factory, a, refl, made, ok_path same)
