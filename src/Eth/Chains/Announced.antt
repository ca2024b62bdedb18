-- ===== src/Eth/Chains/Announced.antt =====
-- The chain that `ListChains` announces is the one that `GetChain` answers for, in a server that `InitServer` started.
use agents_go.Prelude.{
  ℕ, ◌%◌, ◌^◌, ◌≡◌, refl, ap, ◌∙◌, sym, true, Option, none, some, List, Text, text_eq, text_eq_iff,
  Lacks, Result, ok, ok_path, ◌>>=◌, >>=-eq-ok, map_err,
}
use agents_go.Commons.{ChainId, chain_id_to_string}
use agents_go.Commons.ChainText.{string_to_chain_id-to_string}
use agents_go.Config.{
  Config, ChainConfig, Blockchain, get_blockchain, get_chain_config, config_of, configured,
}
use agents_go.Eth.Chains.{
  Peer, ChainInfo, ChainServer, InitFault, no_chain_id, stream_error, some_peers, supported,
  peers_of, init_server, described, announced, wanted, get_chain, list_chains,
}

module _ {E : Type 0} where
  supported-ok :
      (config : ChainConfig) (o : Option Blockchain) (srv : ChainServer)
      → supported {E = E} config o ≡ ok srv
      → (srv.config ≡ config) × (o ≡ some srv.chain)
  unfolding supported
  supported-ok config none srv h = cc
  supported-ok config (some b) srv h = (
    sym (ap (λ (s : ChainServer). s.config) (ok_path h)),
    ap (λ (s : ChainServer). some s.chain) (ok_path h),
  )

  -- The configuration and the blockchain of a server that was started.
  pub init_server-ok :
      (blockchains : List (Text × Blockchain)) (ask_chain_id : List Peer → Result E ℕ)
      (config : ChainConfig) (chain_id : ℕ) (srv : ChainServer)
      → init_server blockchains ask_chain_id config ≡ ok (chain_id, srv)
      → (srv.config ≡ config) × (get_blockchain blockchains config.chain_type ≡ some srv.chain)
  unfolding init_server
  init_server-ok blockchains ask_chain_id config chain_id srv h =
      let finish : ℕ → ChainServer → Result (InitFault E) (ℕ × ChainServer) = λ n s. ok (n, s) in
      let start : ℕ → Result (InitFault E) (ℕ × ChainServer) =
        λ n. supported config (get_blockchain blockchains config.chain_type) >>= finish n in
      let asked : List Peer → Result (InitFault E) (ℕ × ChainServer) =
        λ peers. map_err no_chain_id (ask_chain_id peers) >>= start in
      let (peers, h1, h2) =
        >>=-eq-ok (some_peers (peers_of config.rpc_urls)) asked (chain_id, srv) h in
      let (n, h3, h4) =
        >>=-eq-ok (map_err no_chain_id (ask_chain_id peers)) start (chain_id, srv) h2 in
      let (s, h5, h6) =
        >>=-eq-ok (supported config (get_blockchain blockchains config.chain_type)) (finish n)
          (chain_id, srv) h4 in
      let same : s ≡ srv = ap (λ (p : ℕ × ChainServer). p.1) (ok_path h6) in
      supported-ok config (get_blockchain blockchains config.chain_type) srv (h5 ∙ ap ok same)

-- What `GetChain` answers for the server's own type.
pub get_chain_own :
    {E : Type 0} (srv : ChainServer) (id : ChainId)
    → srv.chain.chain_type ≡ id.chain_type
    → (info : ChainInfo) × (get_chain {E = E} srv id ≡ ok info)
      × (info.id ≡ id)
      × (info.bip44_id ≡ some (srv.chain.type_num % 2 ^ 32))
unfolding get_chain described
get_chain_own srv id typed =
    let asked : text_eq id.chain_type srv.chain.chain_type ≡ true =
      (text_eq_iff id.chain_type srv.chain.chain_type).1 (sym typed) in
    (described srv id, rw asked refl, refl, refl)

config-chain_id_to_string :
    (c : Config) (id : ChainId)
    → Lacks b':' id.chain_type
    → Lacks b':' id.network
    → get_chain_config c (chain_id_to_string id) ≡ config_of c id
unfolding get_chain_config
config-chain_id_to_string c id lt ln = ap (config_of c) (string_to_chain_id-to_string id lt ln).0

-- A server that is started for the text of an identifier without separators in its parts sends one chain, when it is asked
-- for the identifier's type or for any: the one that GetChain answers for the identifier, but with the testnet of the
-- configuration and without the number of the type. The table has each blockchain under its own type.
pub list_chains-init_server :
    {E S : Type 0} (send : ChainInfo → S → Result E S) (blockchains : List (Text × Blockchain))
    (ask_chain_id : List Peer → Result E ℕ) (c : Config) (id : ChainId) (chain_id : ℕ)
    (srv : ChainServer) (s : S)
    → Lacks b':' id.chain_type
    → Lacks b':' id.network
    → ((t : Text) (b : Blockchain) → get_blockchain blockchains t ≡ some b → b.chain_type ≡ t)
    → init_server blockchains ask_chain_id (get_chain_config c (chain_id_to_string id))
      ≡ ok (chain_id, srv)
    → (info : ChainInfo) × (get_chain {E = E} srv id ≡ ok info)
      × (list_chains send srv (some id.chain_type) s
          ≡ map_err stream_error
              (send (record info { testnet = (configured c id).testnet; bip44_id = none }) s))
      × (list_chains send srv none s ≡ list_chains send srv (some id.chain_type) s)
unfolding get_chain list_chains described announced wanted config_of
list_chains-init_server send blockchains ask_chain_id c id chain_id srv s lt ln named h =
    let (of_config, of_table) =
      init_server-ok blockchains ask_chain_id (get_chain_config c (chain_id_to_string id)) chain_id
        srv h in
    let config : srv.config ≡ config_of c id = of_config ∙ config-chain_id_to_string c id lt ln in
    let parsed = config-chain_id_to_string c id lt ln in
    let typed : srv.chain.chain_type ≡ id.chain_type =
      named id.chain_type srv.chain (
        ap (λ (k : ChainConfig). get_blockchain blockchains k.chain_type) (sym parsed)
        ∙ of_table) in
    let asked : text_eq id.chain_type srv.chain.chain_type ≡ true =
      (text_eq_iff id.chain_type srv.chain.chain_type).1 (sym typed) in
    (described srv id, rw asked refl, rw asked (rw config refl), rw asked refl)
