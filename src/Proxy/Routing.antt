-- ===== src/Proxy/Routing.antt =====
-- Which agent answers a request, in proxy/proxy.go.
use agents_go.Prelude.{
  ◌≡◌, refl, ◌∙◌, none, some, List, [], ◌∷◌, ◌++◌, Text, text_eq, text_eq_iff, Lacks, All, inl, inr,
  arith, Bool-cases, ◌≢◌, append_assoc,
}
use agents_go.Commons.{ChainId, chain_id_to_string}
use agents_go.Commons.ChainText.{chain_id_to_string-injective}
use agents_go.Proxy.{
  chain_not_supported, chain_id_required, Reply, err, Request, Agent, lookup, dispatch, get_chain,
  get_block, list_blocks, get_account, derive_account, get_currency, create_transfer,
  combine_transaction, send, sign_transaction, list_chains,
}

-- The handlers that pass one request on, by name.
pub data Method : Type 0 where
  chain block blocks account derived currency transfer combine sending sign : Method

-- No part of the identifier holds the separator.
abbrev pub IsPlain : ChainId → Type 0
IsPlain c = Lacks b':' c.chain_type × Lacks b':' c.network

module _ {B E R : Type 0} where
  abbrev pub handle : Method → List (Text × Agent B E R) → Request B → Reply E R
  handle chain = get_chain
  handle block = get_block
  handle blocks = list_blocks
  handle account = get_account
  handle derived = derive_account
  handle currency = get_currency
  handle transfer = create_transfer
  handle combine = combine_transaction
  handle sending = send
  handle sign = sign_transaction

  -- The agent's method of the same name.
  abbrev pub method : Method → Agent B E R → Request B → Reply E R
  method chain srv = srv.get_chain
  method block srv = srv.get_block
  method blocks srv = srv.list_blocks
  method account srv = srv.get_account
  method derived srv = srv.derive_account
  method currency srv = srv.get_currency
  method transfer srv = srv.create_transfer
  method combine srv = srv.combine_transaction
  method sending srv = srv.send
  method sign srv = srv.sign_transaction

  handle-dispatch :
      (m : Method) (servers : List (Text × Agent B E R)) (req : Request B)
      → handle m servers req ≡ dispatch (method m) servers req
  unfolding get_chain get_block list_blocks get_account derive_account get_currency create_transfer
      combine_transaction send sign_transaction
  handle-dispatch chain servers req = refl
  handle-dispatch _ servers req = refl

  dispatch_unknown :
      (f : Agent B E R → Request B → Reply E R) (servers : List (Text × Agent B E R)) (c : ChainId)
      (body : B)
      → lookup (chain_id_to_string c) servers ≡ none
      → dispatch f servers (record { chain_id = some c; body = body }) ≡ err chain_not_supported
  unfolding dispatch
  dispatch_unknown f servers c body missing = ground (arith, missing)

  dispatch_known :
      (f : Agent B E R → Request B → Reply E R) (servers : List (Text × Agent B E R)) (c : ChainId)
      (body : B) (srv : Agent B E R)
      → lookup (chain_id_to_string c) servers ≡ some srv
      → dispatch f servers (record { chain_id = some c; body = body })
        ≡ f srv (record { chain_id = some c; body = body })
  unfolding dispatch
  dispatch_known f servers c body srv found = rw (found, dispatch)

  -- A handler passes a request for a chain on to the agent that the table holds for it.
  pub handle_known :
      (m : Method) (servers : List (Text × Agent B E R)) (c : ChainId) (body : B)
      (srv : Agent B E R)
      → lookup (chain_id_to_string c) servers ≡ some srv
      → handle m servers (record { chain_id = some c; body = body })
        ≡ method m srv (record { chain_id = some c; body = body })
  handle_known m servers c body srv found =
      handle-dispatch m servers _ ∙ dispatch_known (method m) servers c body srv found

  -- Every handler refuses a request without a chain identifier, and a request whose chain has no
  -- agent in the table, each with its own error.
  pub handle_refuses :
      (m : Method) (servers : List (Text × Agent B E R)) (c : ChainId) (body : B)
      → lookup (chain_id_to_string c) servers ≡ none
      → (handle m servers (record { chain_id = none; body = body }) ≡ err chain_id_required)
        × (handle m servers (record { chain_id = some c; body = body }) ≡ err chain_not_supported)
  handle_refuses m servers c body missing = (
    handle-dispatch m servers _ ∙ (unfold dispatch in refl),
    handle-dispatch m servers _ ∙ dispatch_unknown _ servers c body missing,
  )

  -- The table of the agents of some chains, keyed by the chains' texts.
  abbrev pub table : List (ChainId × Agent B E R) → List (Text × Agent B E R)
  table [] = []
  table ((c, srv) ∷ rest) = (chain_id_to_string c, srv) ∷ table rest

  lookup-table :
      (before after : List (ChainId × Agent B E R)) (c : ChainId) (srv : Agent B E R)
      → IsPlain c
      → All (λ r. IsPlain r.0 × (r.0 ≢ c)) before
      → lookup (chain_id_to_string c) (table (before ++ (c, srv) ∷ after)) ≡ some srv
  unfolding lookup
  lookup-table [] after c srv pc others = rw ((text_eq_iff (chain_id_to_string c) _).1 refl)
  lookup-table ((d, other) ∷ before) after c srv pc ((pd, differs), others) =
      elim (Bool-cases (text_eq (chain_id_to_string d) (chain_id_to_string c))) [
        | inl e ↦
            absurd (
              differs
                (chain_id_to_string-injective d c pd.0 pd.1 pc.0 pc.1 ((text_eq_iff _ _).0 e)))
        | inr e ↦ rw e (lookup-table before after c srv pc others)
      ]

  -- In a table keyed by chains whose parts hold no separator, every handler passes a request for a
  -- chain on to that chain's agent, the first one in the table, and returns what its method of the
  -- same name returns.
  pub handle_routes :
      (m : Method) (before after : List (ChainId × Agent B E R)) (c : ChainId) (srv : Agent B E R)
      (body : B)
      → IsPlain c
      → All (λ r. IsPlain r.0 × (r.0 ≢ c)) before
      → handle m (table (before ++ (c, srv) ∷ after)) (record { chain_id = some c; body = body })
        ≡ method m srv (record { chain_id = some c; body = body })
  handle_routes m before after c srv body pc others =
      handle_known m (table (before ++ (c, srv) ∷ after)) c body srv
        (lookup-table before after c srv pc others)

  -- What the agents of a list send, all together.
  abbrev pub sent_by : B → List (Text × Agent B E R) → List R
  sent_by req [] = []
  sent_by req ((name, srv) ∷ rest) = (srv.list_chains req).0 ++ sent_by req rest

  -- `ListChains` sends the chains of the agents before the first that fails, then what that one sent,
  -- and ends with its error; the agents behind it are not asked.
  pub list_chains_stops :
      (req : B) (before after : List (Text × Agent B E R)) (name : Text) (srv : Agent B E R) (e : E)
      → All (λ r. (r.1.list_chains req).1 ≡ none) before
      → (srv.list_chains req).1 ≡ some e
      → list_chains (before ++ (name, srv) ∷ after) req
        ≡ (sent_by req before ++ (srv.list_chains req).0, some e)
  unfolding list_chains
  list_chains_stops req [] after name srv e fine failed = rw failed
  list_chains_stops req ((n, s) ∷ before) after name srv e (here, fine) failed =
      rw (here, list_chains_stops req before after name srv e fine failed, append_assoc)
