-- ===== src/Commons/ChainText.antt =====
-- Chain identifiers and their texts, in commons/commons.go.
use agents_go.Prelude.{◌≡◌, sym, ap, ◌∙◌, [], Lacks, split_from-Lacks, split_from-append}
use agents_go.Commons.{ChainId, mainnet, chain_id_to_string, chain_id_parts, string_to_chain_id}

-- A chain identifier whose two parts hold no separator is read back from its text, and its type
-- alone stands for the chain's main network.
pub string_to_chain_id-to_string :
    (c : ChainId)
    → Lacks b':' c.chain_type
    → Lacks b':' c.network
    → (string_to_chain_id (chain_id_to_string c) ≡ c)
      × (string_to_chain_id c.chain_type ≡ record c { network = mainnet })
unfolding string_to_chain_id chain_id_to_string chain_id_parts
string_to_chain_id-to_string c ht hn = (
  rw (split_from-append b':' [] c.chain_type c.network ht, split_from-Lacks b':' [] c.network hn),
  rw (split_from-Lacks b':' [] c.chain_type ht),
)

-- The text determines the identifier, so a table keyed by it holds one entry for each chain.
pub chain_id_to_string-injective :
    (c d : ChainId)
    → Lacks b':' c.chain_type
    → Lacks b':' c.network
    → Lacks b':' d.chain_type
    → Lacks b':' d.network
    → chain_id_to_string c ≡ chain_id_to_string d
    → c ≡ d
chain_id_to_string-injective c d ct cn dt dn e =
    sym (string_to_chain_id-to_string c ct cn).0
    ∙ ap string_to_chain_id e
    ∙ (string_to_chain_id-to_string d dt dn).0
