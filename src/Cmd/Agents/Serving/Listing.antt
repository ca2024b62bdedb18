-- ===== src/Cmd/Agents/Serving/Listing.antt =====
-- What the proxy of cmd/agent-eth answers to `ListChains`.
use agents_go.Prelude.{
  ℕ, ◌≡◌, refl, sym, ap, ◌∙◌, Bool, true, false, Option, none, some, List, [], ◌∷◌, ◌++◌, Text,
  text_eq, Result, ok, err, ◌>>=◌, map_err, if◌then◌else◌,
}
use mathlib.Core.List.{Permᴰ}
use agents_go.Config.{ChainConfig, ChainTypeConfig}
use agents_go.Config.Table.{blockchains_named}
use agents_go.Eth.Chains.{
  Peer, ChainInfo, ChainServer, InitFault, stream_error, block_service, construct_service,
  currencies_service, announced, wanted, list_chains,
}
use agents_go.Proxy.{Agent}
use agents_go.Proxy as Proxy
use agents_go.Trx.Api.{Http, Json}
use agents_go.Trx.Server.{StartedAgent, agent_factories}
use agents_go.Cmd.Agents.{AgentFactory, init_server_proxy}
use agents_go.Cmd.Agents.Table.{
  named_configs, HasDistinctKeys, IsTableOf, init_server_proxy-IsTableOf,
}
use agents_go.Cmd.Agents.Serving.{Wire, server_of, send_chain, listed_by, agent_of, serving}
use agents_go.Cmd.Agents.Serving.Walks.{IsTableOf-walk}
use agents_go.Cmd.Agents.Serving.Started.{HasChain, agent_factories-HasChain, serving-ok}

-- What is announced of a configured network.
abbrev pub announcement : ChainConfig → ChainInfo
announcement config = record {
  id = record { chain_type = config.chain_type; network = config.chain_network };
  bip44_id = none;
  testnet = config.testnet;
  finalized_height = 20;
  ms_per_block = 3000;
  supported_services = block_service ∷ construct_service ∷ currencies_service ∷ [];
}

abbrev pub is_asked : Option Text → ChainConfig → Bool
is_asked none config = true
is_asked (some chain_type) config = text_eq chain_type config.chain_type

module _ {C B F R : Type 0} (wire : Wire C B F R) where
  -- The chain of one network goes onto the stream, and the others after it, unless the stream fails.
  abbrev deliver : Result C R → List R × Option F → List R × Option F
  deliver (ok r) (later, last) = (r ∷ later, last)
  deliver (err e) later = ([], some (wire.fail (stream_error e)))

  -- The networks of the type that is asked for, or all, each in turn up to the first that the stream refuses.
  abbrev pub announce : Option Text → List ChainConfig → List R × Option F
  announce asked [] = ([], none)
  announce asked (config ∷ configs) =
      if is_asked asked config
      then deliver (wire.accept (announcement config)) (announce asked configs)
      else announce asked configs

  wanted-is_asked :
      (srv : ChainServer) (config : ChainConfig) (asked : Option Text)
      → srv.chain.chain_type ≡ config.chain_type
      → wanted srv asked ≡ is_asked asked config
  unfolding wanted
  wanted-is_asked srv config none typed = refl
  wanted-is_asked srv config (some t) typed = ap (text_eq t) typed

  -- What an agent sends of one chain.
  abbrev one_chain : Result C R → List R × Option F
  one_chain (ok r) = (r ∷ [], none)
  one_chain (err e) = ([], some (wire.fail (stream_error e)))

  listed_by-send_chain :
      (asked : Bool) (info : ChainInfo)
      → listed_by wire (if asked then map_err stream_error (send_chain wire info []) else ok [])
        ≡ (if asked then one_chain (wire.accept info) else ([], none))
  unfolding listed_by send_chain
  listed_by-send_chain asked info = by_result asked (wire.accept info)
    where
      by_result :
          (wanted : Bool) (r : Result C R)
          → listed_by wire
              (if wanted then map_err stream_error (r >>= λ (x : R). ok ([] ++ x ∷ [])) else ok [])
            ≡ (if wanted then one_chain r else ([], none))
      by_result true (ok r) = refl
      by_result true (err e) = refl
      by_result false r = refl

  agent_of-list_chains :
      {E : Type 0} (others : StartedAgent E → Agent B F R) (a : StartedAgent E)
      (config : ChainConfig) (body : B)
      → HasChain config a
      → (agent_of wire others a).list_chains body ≡ (
          if is_asked (wire.asked body) config
          then one_chain (wire.accept (announcement config))
          else ([], none))
  unfolding agent_of list_chains announced
  agent_of-list_chains others a config body (of_config, of_table) =
      let typed = blockchains_named config.chain_type (server_of a).chain of_table in
      let sent : announced (server_of a) ≡ announcement config = ap announcement of_config in
      rw (wanted-is_asked (server_of a) config (wire.asked body) typed)
        (rw sent (listed_by-send_chain (is_asked (wire.asked body) config) (announcement config)))

  list_chains_cons :
      (sent : List R) (last : Option F) (key : Text) (srv : Agent B F R)
      (servers : List (Text × Agent B F R)) (body : B)
      → srv.list_chains body ≡ (sent, last)
      → Proxy.list_chains ((key, srv) ∷ servers) body ≡ elim last [
        | some e ↦ (sent, some e)
        | none ↦ (sent ++ (Proxy.list_chains servers body).0, (Proxy.list_chains servers body).1)
      ]
  unfolding Proxy.list_chains
  list_chains_cons sent none key srv servers body h =
      rw (ap (λ (x : List R × Option F). x.1) h) (rw (ap (λ (x : List R × Option F). x.0) h) refl)
  list_chains_cons sent (some e) key srv servers body h =
      rw (ap (λ (x : List R × Option F). x.1) h) (rw (ap (λ (x : List R × Option F). x.0) h) refl)

  -- The proxy on a table whose first agent sends one chain or none.
  list_chains_next :
      (asked : Bool) (r : Result C R) (key : Text) (srv : Agent B F R)
      (servers : List (Text × Agent B F R)) (body : B)
      → srv.list_chains body ≡ (if asked then one_chain r else ([], none))
      → Proxy.list_chains ((key, srv) ∷ servers) body ≡ (
          if asked
          then deliver r (Proxy.list_chains servers body)
          else Proxy.list_chains servers body)
  list_chains_next false r key srv = list_chains_cons [] none key srv
  list_chains_next true (ok r) key srv = list_chains_cons (r ∷ []) none key srv
  list_chains_next true (err e) key srv =
      list_chains_cons [] (some (wire.fail (stream_error e))) key srv

  list_chains-announce :
      {E H D : Type 0} (http : Http E H D) (json : Json E) (ask_chain_id : List Peer → Result E ℕ)
      (others : StartedAgent E → Agent B F R) (configs : List ChainConfig)
      (servers : List (Text × Agent B F R)) (body : B)
      → IsTableOf
          (λ t. serving wire others (agent_factories http json ask_chain_id t))
          configs
          servers
      → Proxy.list_chains servers body ≡ announce (wire.asked body) configs
  list_chains-announce http json ask_chain_id others [] [] body h = unfold Proxy.list_chains in refl
  list_chains-announce http json ask_chain_id others [] (r ∷ servers) body no_entry =
      absurd no_entry
  list_chains-announce http json ask_chain_id others (config ∷ configs) [] body no_entry =
      absurd no_entry
  list_chains-announce http json ask_chain_id others (config ∷ configs) ((key, srv) ∷ servers) body
        (named, (served, known, made), rest) =
      let (factory, a, found, started, same) =
        serving-ok wire others (agent_factories http json ask_chain_id config.chain_type) served
          config srv known made in
      let here =
        agent_factories-HasChain http json ask_chain_id config.chain_type factory config a found
          started in
      list_chains_next (is_asked (wire.asked body) config) (wire.accept (announcement config)) key
        srv servers body
        (ap (λ (x : Agent B F R). x.list_chains body) (sym same)
          ∙ agent_of-list_chains others a config body here)
      ∙ ap
          (λ x.
            if is_asked (wire.asked body) config
            then deliver (wire.accept (announcement config)) x
            else x)
          (list_chains-announce http json ask_chain_id others configs servers body rest)

  -- In the proxy of cmd/agent-eth, with the factories of its agents and the table of its blockchains, `ListChains` sends
  -- the configured networks of the type that is asked for, or all, each once and in whatever order Go walks the map of
  -- agents, and ends with the error of the first that the stream refuses. No two networks of the configuration have the
  -- same key.
  pub list_chains-init_server_proxy :
      {E H D : Type 0} (http : Http E H D) (json : Json E) (ask_chain_id : List Peer → Result E ℕ)
      (others : StartedAgent E → Agent B F R) (configs : List (Text × ChainTypeConfig))
      (servers walk : List (Text × Agent B F R)) (body : B)
      → HasDistinctKeys (named_configs configs)
      → init_server_proxy
          (λ t. serving wire others (agent_factories http json ask_chain_id t))
          configs
        ≡ ok servers
      → Permᴰ servers walk
      → (walked : List ChainConfig) × Permᴰ (named_configs configs) walked
        × (Proxy.list_chains walk body ≡ announce (wire.asked body) walked)
  list_chains-init_server_proxy {E} http json ask_chain_id others configs servers walk body distinct
        h any_order =
      let factories : Text → Option (AgentFactory (InitFault E) (Agent B F R)) =
        λ t. serving wire others (agent_factories http json ask_chain_id t) in
      let (walked, moved, of_walk) =
        IsTableOf-walk factories (named_configs configs) any_order
          (init_server_proxy-IsTableOf factories configs servers distinct h) in
      (walked, moved, list_chains-announce http json ask_chain_id others walked walk body of_walk)
