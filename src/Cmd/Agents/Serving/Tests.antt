-- ===== src/Cmd/Agents/Serving/Tests.antt =====
-- The proxy of cmd/agent-eth with an Ethereum agent and one of Tron.
use agents_go.Prelude.{
  ℕ, ◌%◌, ◌^◌, ◌≡◌, refl, Option, none, some, List, [], ◌∷◌, Text, codes, arith, ok, err,
  text_eq_iff,
}
use mathlib.Core.List.{Permᴰ}
use agents_go.Config.{ChainConfig, ChainTypeConfig, Blockchain, get_blockchain}
use agents_go.Config.Table.{eth_instance, trx_instance, blockchains}
use agents_go.Eth.Chains.{ChainInfo, init_server}
use agents_go.Eth.Chains.Tests.{sepolia, ask}
use agents_go.Proxy.{Agent, Reply, Request, agent_error}
use agents_go.Proxy as Proxy
use agents_go.Proxy.Routing.{IsPlain, handle, chain}
use agents_go.Trx.Api.{Http, Json}
use agents_go.Trx.Server.{
  StartedAgent, eth_agent, trx_agent, trx_agent_of, agent_factories, start_eth, start_trx,
}
use agents_go.Cmd.Agents.{named, server_key, init_server_proxy}
use agents_go.Cmd.Agents.Table.{named_configs}
use agents_go.Cmd.Agents.Routes.{network_id}
use agents_go.Cmd.Agents.Serving.{Wire, agent_of, serving}
use agents_go.Cmd.Agents.Serving.Answers.{get_chain-init_server_proxy}
use agents_go.Cmd.Agents.Serving.Listing.{announce, list_chains-init_server_proxy}

abbrev no_http : Http ℕ Unit Text
no_http = record {
  new_request = λ method url body. err 1;
  add_header = λ name value h. h;
  perform = λ h. err 2;
  read_all = ok;
}

abbrev no_json : Json ℕ
no_json = record {
  write_create = λ r. err 3;
  write_trigger = λ r. err 3;
  write_broadcast = λ r. err 3;
  read_create = λ t. err 4;
  read_constant = λ t. err 4;
  read_smart = λ t. err 4;
  read_broadcast = λ t. err 4;
  read_parameters = λ t. err 4;
}

abbrev refuse : Request (Option Text) → Reply ℕ ChainInfo
refuse req = Proxy.err (agent_error 8)

abbrev others : StartedAgent ℕ → Agent (Option Text) ℕ ChainInfo
others a = record {
  get_chain = refuse;
  get_block = refuse;
  list_blocks = refuse;
  get_account = refuse;
  derive_account = refuse;
  get_currency = refuse;
  create_transfer = refuse;
  combine_transaction = refuse;
  send = refuse;
  sign_transaction = refuse;
  list_chains = λ body. ([], none);
}

-- The stream takes each chain.
abbrev wire : Wire ℕ (Option Text) ℕ ChainInfo
wire = record { wrap = λ info. info; fail = λ e. 9; asked = λ body. body; accept = ok }

abbrev configs : List (Text × ChainTypeConfig)
configs =
    (
      codes "ETH",
      record { networks = (codes "SEPOLIA", sepolia) ∷ []; default_network = codes "SEPOLIA" },
    )
    ∷ (
      codes "TRX",
      record { networks = (codes "NILE", sepolia) ∷ []; default_network = codes "NILE" },
    )
    ∷ []

abbrev nile : ChainConfig
nile = named (codes "TRX") (codes "NILE") sepolia

abbrev eth_entry : Text × Agent (Option Text) ℕ ChainInfo
eth_entry = (
  codes "ETH:SEPOLIA",
  agent_of wire others (
      eth_agent 11155111
        (record { config = named (codes "ETH") (codes "SEPOLIA") sepolia; chain = eth_instance })),
)

abbrev trx_entry : Text × Agent (Option Text) ℕ ChainInfo
trx_entry = (
  codes "TRX:NILE",
  agent_of wire others (
      trx_agent 11155111
        (trx_agent_of no_http no_json ask nile (record { config = nile; chain = trx_instance }))),
)

abbrev table : List (Text × Agent (Option Text) ℕ ChainInfo)
table = eth_entry ∷ trx_entry ∷ []

started :
    init_server_proxy (λ t. serving wire others (agent_factories no_http no_json ask t)) configs
    ≡ ok table
unfolding init_server_proxy serving agent_factories start_eth start_trx init_server get_blockchain
    blockchains
started = refl

get_chain-init_server_proxy_example :
    (info : ChainInfo) × (b : Blockchain) × (get_blockchain blockchains (codes "TRX") ≡ some b)
    × (info.id ≡ network_id (codes "TRX") (codes "NILE"))
    × (info.bip44_id ≡ some (b.type_num % 2 ^ 32))
    × (handle chain table
          (record { chain_id = some (network_id (codes "TRX") (codes "NILE")); body = none })
        ≡ Proxy.ok info)
get_chain-init_server_proxy_example =
    get_chain-init_server_proxy no_http no_json ask wire others
      ((
        codes "ETH",
        record { networks = (codes "SEPOLIA", sepolia) ∷ []; default_network = codes "SEPOLIA" },
      )
        ∷ [])
      [] (codes "TRX") (codes "NILE") (codes "NILE") [] [] sepolia (start_trx no_http no_json ask)
      table none (unfold agent_factories in refl) plain tt tt started
  where
    plain : IsPlain (network_id (codes "TRX") (codes "NILE"))
    plain = (
      (ground arith, (ground arith, (ground arith, tt))),
      (ground arith, (ground arith, (ground arith, (ground arith, tt)))),
    )

-- The table, walked from its other end.
abbrev walk : List (Text × Agent (Option Text) ℕ ChainInfo)
walk = trx_entry ∷ eth_entry ∷ []

list_chains-init_server_proxy_example :
    (walked : List ChainConfig) × Permᴰ (named_configs configs) walked
    × (Proxy.list_chains walk (some (codes "TRX")) ≡ announce wire (some (codes "TRX")) walked)
unfolding server_key named
list_chains-init_server_proxy_example =
    list_chains-init_server_proxy wire no_http no_json ask others configs table walk
      (some (codes "TRX")) ((differ, tt), (tt, tt)) started (Permᴰ.swap refl refl)
  where
    differ : codes "ETH:SEPOLIA" ≡ codes "TRX:NILE" → ⊥
    differ h = let same = (text_eq_iff (codes "ETH:SEPOLIA") (codes "TRX:NILE")).1 h in cc
