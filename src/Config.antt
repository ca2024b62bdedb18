-- ===== src/Config.antt =====
-- agent/config.go: `Config` with `GetChainConfig`, and the table of blockchains of blockchain/common.go. A map is a list
-- of its entries; the request limit of the whole file, which nothing reads, is left out.
pub mod Table
use agents_go.Prelude.{
  ℕ, Bool, false, Option, none, some, List, [], ◌∷◌, Text, text_eq, if◌then◌else◌, Result, ok, err,
  ◌>>=◌, map_err, Fault, panics,
}
use agents_go.Commons.{ChainId, string_to_chain_id}

pub record UrlConfig : Type 0 where
  pub name : Text
  pub url : Text
  pub limit_rps : ℕ

pub record ChainConfig : Type 0 where
  pub testnet : Bool
  pub chain_type : Text
  pub chain_network : Text
  pub rpc_urls : List UrlConfig
  pub http_urls : List UrlConfig

pub record ChainTypeConfig : Type 0 where
  pub networks : List (Text × ChainConfig)
  pub default_network : Text

pub record Config : Type 0 where
  pub chains : List (Text × ChainTypeConfig)

-- The entry of a map, or the zero value.
unfoldable pub entry_or {ℓ} : {A : Type ℓ} → A → Text → List (Text × A) → A
entry_or missing k [] = missing
entry_or missing k ((j, a) ∷ rest) = if text_eq j k then a else entry_or missing k rest

abbrev no_chain : ChainConfig
no_chain = record {
  testnet = false;
  chain_type = [];
  chain_network = [];
  rpc_urls = [];
  http_urls = [];
}

abbrev no_type : ChainTypeConfig
no_type = record { networks = []; default_network = [] }

-- `c.Chains[chainId.Type].Networks[chainId.Network]`.
unfoldable pub configured : Config → ChainId → ChainConfig
unfolding entry_or
configured c id = entry_or no_chain id.network (entry_or no_type id.chain_type c.chains).networks

-- `GetChainConfig` with the identifier that its text stands for.
unfoldable pub config_of : Config → ChainId → ChainConfig
unfolding configured
config_of c id = record (configured c id) { chain_type = id.chain_type; chain_network = id.network }

unfoldable pub get_chain_config : Config → Text → ChainConfig
unfolding config_of
get_chain_config c str_chain_id = config_of c (string_to_chain_id str_chain_id)

-- `LoadConfig`, with `os.ReadFile` and `yaml.Unmarshal`.
unfoldable pub load_config :
    {E : Type 0}
    → (Text → Result E Text)
    → (Text → Result E Config)
    → Text
    → Result (Fault E) Config
load_config read_file unmarshal path = do
  f ← map_err (λ e. panics) (read_file path)
  map_err (λ e. panics) (unmarshal f)

-- Of `Blockchain`, without its functions.
pub record Blockchain : Type 0 where
  pub chain_type : Text
  pub type_num : ℕ
  pub decimals : ℕ
  pub signature_type : Text

-- `GetBlockchain` on the table `Blockchains`.
unfoldable pub get_blockchain : List (Text × Blockchain) → Text → Option Blockchain
get_blockchain [] t = none
get_blockchain ((j, b) ∷ rest) t = if text_eq j t then some b else get_blockchain rest t
