-- ===== src/Config/Table.antt =====
-- The table `Blockchains` that the packages blockchain/eth, blockchain/bnb and blockchain/trx fill.
use agents_go.Prelude.{
  ◌≡◌, refl, sym, ap, ◌∙◌, Bool, true, false, Option, none, some, List, [], Text, codes, text_eq,
  text_eq_iff, if◌then◌else◌,
}
use agents_go.Commons.{put}
use agents_go.Config.{Blockchain, get_blockchain}

abbrev pub eth_instance : Blockchain
eth_instance = record {
  chain_type = codes "ETH";
  type_num = 60;
  decimals = 18;
  signature_type = codes "secp256k1";
}

-- A copy of Ethereum's with another type and number.
abbrev pub bnb_instance : Blockchain
bnb_instance = record eth_instance { chain_type = codes "BNB"; type_num = 714 }

abbrev pub trx_instance : Blockchain
trx_instance = record {
  chain_type = codes "TRX";
  type_num = 195;
  decimals = 6;
  signature_type = eth_instance.signature_type;
}

-- The three `init` functions; the order does not matter, since the names differ.
unfoldable pub blockchains : List (Text × Blockchain)
unfolding put
blockchains =
    put (codes "TRX") trx_instance
      (put (codes "BNB") bnb_instance (put (codes "ETH") eth_instance []))

-- The blockchain of the first entry, or one of the later entries.
named_entry :
    (t : Text) (b c : Blockchain) (o : Option Blockchain)
    → (o ≡ some c → c.chain_type ≡ t)
    → (if text_eq b.chain_type t then some b else o) ≡ some c
    → c.chain_type ≡ t
named_entry t b c o rest h = decided (text_eq b.chain_type t) refl h
  where
    decided :
        (r : Bool)
        → text_eq b.chain_type t ≡ r
        → (if r then some b else o) ≡ some c
        → c.chain_type ≡ t
    decided true e same =
        let first : b ≡ c = cc in
        ap (λ (x : Blockchain). x.chain_type) (sym first) ∙ (text_eq_iff b.chain_type t).0 e
    decided false e same = rest same

-- Each blockchain stands in the table under its own type.
pub blockchains_named :
    (t : Text) (b : Blockchain) → get_blockchain blockchains t ≡ some b → b.chain_type ≡ t
unfolding get_blockchain blockchains
blockchains_named t b =
    named_entry t eth_instance b _
      (named_entry t bnb_instance b _ (named_entry t trx_instance b none (λ h. cc)))
