-- ===== src/Proxy/Tests.antt =====
-- A concrete table of agents, for the code of proxy/proxy.go. Each agent answers every request with
-- a number of its own; the second one cannot list its chains.
use agents_go.Prelude.{ℕ, ◌+◌, ◌≡◌, refl, Option, none, some, List, [], ◌∷◌, Text, codes}
use agents_go.Commons.{ChainId, chain_id_to_string}
use agents_go.Proxy.{chain_not_supported, ok, err, Agent, get_block, list_chains}
use agents_go.Proxy.Routing.{table}

abbrev pub agent : ℕ → Option ℕ → Agent ℕ ℕ ℕ
agent n failed = record {
  get_chain = λ req. ok n;
  get_block = λ req. ok (n + req.body);
  list_blocks = λ req. ok n;
  get_account = λ req. ok n;
  derive_account = λ req. ok n;
  get_currency = λ req. ok n;
  create_transfer = λ req. ok n;
  combine_transaction = λ req. ok n;
  send = λ req. ok n;
  sign_transaction = λ req. ok n;
  list_chains = λ req. (n ∷ [], failed);
}

abbrev main_chain : ChainId
main_chain = record { chain_type = codes "E"; network = codes "M" }

abbrev test_chain : ChainId
test_chain = record { chain_type = codes "E"; network = [] }

abbrev servers : List (Text × Agent ℕ ℕ ℕ)
servers = table ((main_chain, agent 100 none) ∷ (test_chain, agent 200 (some 7)) ∷ [])

routed : get_block servers (record { chain_id = some test_chain; body = 5 }) ≡ ok 205
unfolding get_block chain_id_to_string
routed = refl

not_listed :
    get_block servers
      (record { chain_id = some (record { chain_type = []; network = [] }); body = 5 })
    ≡ err chain_not_supported
unfolding get_block chain_id_to_string
not_listed = refl

stopped : list_chains servers 5 ≡ (100 ∷ 200 ∷ [], some 7)
unfolding list_chains
stopped = refl
