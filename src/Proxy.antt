-- ===== src/Proxy.antt =====
-- proxy/proxy.go: the server that passes each request on to the agent of its chain. A request is its
-- chain identifier, nil or not, and the rest of its fields; replies and errors of the agents are of
-- any type. The table, a map in Go, is a list.
pub mod Routing
pub mod Tests
use agents_go.Prelude.{
  ℕ, Bool, true, false, Option, none, some, List, [], ◌∷◌, ◌++◌, Text, text_eq, if◌then◌else◌,
}
use agents_go.Commons.{ChainId, chain_id_to_string}

-- `ErrChainNotSupported`, `ErrChainIdRequired`, or an error of an agent.
pub data ProxyError (E : Type 0) : Type 0 where
  chain_not_supported chain_id_required : ProxyError E
  agent_error : E → ProxyError E

pub data Reply (E R : Type 0) : Type 0 where
  ok : R → Reply E R
  err : ProxyError E → Reply E R

pub record Request (B : Type 0) : Type 0 where
  pub chain_id : Option ChainId
  pub body : B

-- `UbtAgent`: what the proxy calls of an agent. `list_chains` gives the chains that it sends to the
-- stream and its error.
pub record Agent (B E R : Type 0) : Type 0 where
  pub get_chain : Request B → Reply E R
  pub get_block : Request B → Reply E R
  pub list_blocks : Request B → Reply E R
  pub get_account : Request B → Reply E R
  pub derive_account : Request B → Reply E R
  pub get_currency : Request B → Reply E R
  pub create_transfer : Request B → Reply E R
  pub combine_transaction : Request B → Reply E R
  pub send : Request B → Reply E R
  pub sign_transaction : Request B → Reply E R
  pub list_chains : B → List R × Option E

-- `servers[chainId]`.
unfoldable pub lookup {ℓ} : {A : Type ℓ} → Text → List (Text × A) → Option A
lookup k [] = none
lookup k ((j, a) ∷ rest) = if text_eq j k then some a else lookup k rest

module _ {B E R : Type 0} where
  -- The lines that all handlers share, with the method that they call.
  dispatch :
      (Agent B E R → Request B → Reply E R) → List (Text × Agent B E R) → Request B → Reply E R
  unfolding lookup
  dispatch method servers req = elim req.chain_id [
    | none ↦ err chain_id_required
    | some c ↦ elim (lookup (chain_id_to_string c) servers) [
      | some srv ↦ method srv req
      | none ↦ err chain_not_supported
    ]
  ]

  pub get_chain : List (Text × Agent B E R) → Request B → Reply E R
  unfolding dispatch
  get_chain = dispatch (λ srv. srv.get_chain)

  pub get_block : List (Text × Agent B E R) → Request B → Reply E R
  unfolding dispatch
  get_block = dispatch (λ srv. srv.get_block)

  pub list_blocks : List (Text × Agent B E R) → Request B → Reply E R
  unfolding dispatch
  list_blocks = dispatch (λ srv. srv.list_blocks)

  pub get_account : List (Text × Agent B E R) → Request B → Reply E R
  unfolding dispatch
  get_account = dispatch (λ srv. srv.get_account)

  pub derive_account : List (Text × Agent B E R) → Request B → Reply E R
  unfolding dispatch
  derive_account = dispatch (λ srv. srv.derive_account)

  pub get_currency : List (Text × Agent B E R) → Request B → Reply E R
  unfolding dispatch
  get_currency = dispatch (λ srv. srv.get_currency)

  pub create_transfer : List (Text × Agent B E R) → Request B → Reply E R
  unfolding dispatch
  create_transfer = dispatch (λ srv. srv.create_transfer)

  pub combine_transaction : List (Text × Agent B E R) → Request B → Reply E R
  unfolding dispatch
  combine_transaction = dispatch (λ srv. srv.combine_transaction)

  pub send : List (Text × Agent B E R) → Request B → Reply E R
  unfolding dispatch
  send = dispatch (λ srv. srv.send)

  pub sign_transaction : List (Text × Agent B E R) → Request B → Reply E R
  unfolding dispatch
  sign_transaction = dispatch (λ srv. srv.sign_transaction)

  -- The chains of each agent in turn, up to the first that fails. The list is that of one walk of
  -- the map, which Go makes in an order of its own each time.
  unfoldable pub list_chains : List (Text × Agent B E R) → B → List R × Option E
  list_chains [] req = ([], none)
  list_chains ((name, srv) ∷ rest) req =
      let (later, last) = list_chains rest req in
      let (sent, failed) = srv.list_chains req in
      elim failed [ some e ↦ (sent, some e) | none ↦ (sent ++ later, last) ]
