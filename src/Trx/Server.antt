-- ===== src/Trx/Server.antt =====
-- agents/trx/server.go: `InitServer`, on top of the Ethereum server, and the table `AgentFactories` that it and the other
-- agents fill: agents/eth/server/server.go, agents/bnb/server.go.
use agents_go.Prelude.{
  ℕ, ◌*◌, Option, none, some, List, Text, codes, text_eq, if◌then◌else◌, map, Result, ok, ◌>>=◌,
}
use agents_go.Cache.{SimpleExpirationCache, new_cache}
use agents_go.Config.{UrlConfig, ChainConfig}
use agents_go.Config.Table.{blockchains}
use agents_go.Eth.Chains.{Peer, ChainServer, InitFault, init_server}
use agents_go.Trx.Api.{Http, Json}
use agents_go.Trx.Fees.{FeePrices}
use agents_go.Trx.Transfers.{TrxApiClient, client_of}
use agents_go.Cmd.Agents.{AgentFactory}

-- `TrxAgent`; the hooks `TrxExtensions` are those of `Trx.Addresses`.
pub record TrxAgent (E : Type 0) : Type 0 where
  pub eth_server : ChainServer
  pub client : Option (TrxApiClient E)
  pub fee_prices_cache : SimpleExpirationCache FeePrices

-- An agent of `AgentFactories`: of the Ethereum server, with the number of the chain, or of Tron.
pub data StartedAgent (E : Type 0) : Type 0 where
  eth_agent : ℕ → ChainServer → StartedAgent E
  trx_agent : ℕ → TrxAgent E → StartedAgent E

abbrev no_prices : FeePrices
no_prices = record { energy_price = none; bandwidth_price = none }

abbrev cache_expiration : ℕ
cache_expiration = 10 * 1_000_000_000

module _ {E H B : Type 0} (http : Http E H B) (json : Json E)
    (ask_chain_id : List Peer → Result E ℕ) where
  unfoldable pub trx_agent_of : ChainConfig → ChainServer → TrxAgent E
  unfolding client_of new_cache
  trx_agent_of config srv = record {
    eth_server = srv;
    client = client_of http json (map (λ (u : UrlConfig). u.url) config.http_urls);
    fee_prices_cache = new_cache no_prices cache_expiration;
  }

  unfoldable pub start_eth : AgentFactory (InitFault E) (StartedAgent E)
  unfolding init_server
  start_eth config = do
    (chain_id, srv) ← init_server blockchains ask_chain_id config
    ok (eth_agent chain_id srv)

  -- `InitServer`.
  unfoldable pub start_trx : AgentFactory (InitFault E) (StartedAgent E)
  unfolding init_server trx_agent_of
  start_trx config = do
    (chain_id, srv) ← init_server blockchains ask_chain_id config
    ok (trx_agent chain_id (trx_agent_of config srv))

  unfoldable pub agent_factories : Text → Option (AgentFactory (InitFault E) (StartedAgent E))
  unfolding start_eth start_trx
  agent_factories k =
      if text_eq k (codes "ETH")
      then some start_eth
      else if text_eq k (codes "BNB")
      then some start_eth
      else if text_eq k (codes "TRX")
      then some start_trx
      else none
