-- ===== src/Eth/Chains/Tests.antt =====
-- A concrete Ethereum agent on a test network, for `InitServer`, `GetChain` and `ListChains`.
use agents_go.Prelude.{
  ℕ, ◌≡◌, refl, true, none, some, List, [], ◌∷◌, ◌++◌, codes, arith, Result, ok, err, map_err,
}
use agents_go.Commons.{ChainId, chain_id_to_string, string_to_chain_id}
use agents_go.Config.{UrlConfig, ChainConfig, Config, get_blockchain, get_chain_config, configured}
use agents_go.Config.Table.{eth_instance, blockchains, blockchains_named}
use agents_go.Eth.Chains.{
  Peer, ChainInfo, ChainServer, invalid_chain_id, no_peers, stream_error, init_server, get_chain,
  list_chains,
}
use agents_go.Eth.Chains.Announced.{list_chains-init_server}

abbrev node_url : UrlConfig
node_url = record { name = []; url = codes "http://node"; limit_rps = 5 }

abbrev pub sepolia : ChainConfig
sepolia = record {
  testnet = true;
  chain_type = [];
  chain_network = [];
  rpc_urls = node_url ∷ [];
  http_urls = [];
}

abbrev config : Config
config = record {
  chains =
      (
        codes "ETH",
        record { networks = (codes "SEPOLIA", sepolia) ∷ []; default_network = codes "SEPOLIA" },
      )
      ∷ [];
}

abbrev sepolia_id : ChainId
sepolia_id = record { chain_type = codes "ETH"; network = codes "SEPOLIA" }

abbrev pub ask : List Peer → Result ℕ ℕ
ask peers = ok 11155111

abbrev server : ChainServer
server = record {
  config = record sepolia { chain_type = codes "ETH"; chain_network = codes "SEPOLIA" };
  chain = eth_instance;
}

abbrev to_list : ChainInfo → List ChainInfo → Result ℕ (List ChainInfo)
to_list info sent = ok (sent ++ info ∷ [])

starts :
    init_server blockchains ask (get_chain_config config (chain_id_to_string sepolia_id))
    ≡ ok (11155111, server)
unfolding init_server get_chain_config chain_id_to_string string_to_chain_id get_blockchain
    blockchains
starts = refl

-- No entry of the configuration, no peers.
no_entry :
    init_server blockchains ask (get_chain_config config (codes "ETH:MAINNET")) ≡ err no_peers
unfolding init_server get_chain_config string_to_chain_id
no_entry = refl

other_type :
    get_chain {E = ℕ} server (record { chain_type = codes "TRX"; network = codes "MAINNET" })
    ≡ err invalid_chain_id
unfolding get_chain
other_type = refl

other_list : list_chains to_list server (some (codes "TRX")) [] ≡ ok []
unfolding list_chains
other_list = refl

list_chains-init_server_example :
    (info : ChainInfo) × (get_chain {E = ℕ} server sepolia_id ≡ ok info)
    × (list_chains to_list server (some (codes "ETH")) []
        ≡ map_err stream_error (
            to_list
              (record info { testnet = (configured config sepolia_id).testnet; bip44_id = none })
              []))
    × (list_chains to_list server none [] ≡ list_chains to_list server (some (codes "ETH")) [])
list_chains-init_server_example =
    list_chains-init_server to_list blockchains ask config sepolia_id 11155111 server []
      (ground arith, (ground arith, (ground arith, tt)))
      (
        ground arith,
        (
          ground arith,
          (ground arith, (ground arith, (ground arith, (ground arith, (ground arith, tt))))),
        ),
      )
      blockchains_named starts
