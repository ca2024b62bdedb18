-- ===== src/Eth/Types/Tests.antt =====
-- A concrete transaction and block in JSON, for agents/eth/types/block.go. The decoders read an object that is written as
-- the nonce alone.
use agents_go.Prelude.{
  ◌≡◌, ◌⊎◌, refl, true, Option, none, some, [], ◌∷◌, Text, codes, All, Result, ok, err, ◌>>=◌,
  map_err, ℕ,
}
use agents_go.Fixer.{
  Json, Fields, str, other, nil, field, lookup, set, invalid_type, fix_json_fields, fixes_of,
  fixer_hex_strip_leading_zeros,
}
use agents_go.Fixer as Fixer
use agents_go.Fixer.Textual.{IsTextual, IsRefused}
use agents_go.Eth.Types.{
  Decoders, RpcTx, HeaderWithBody, json, fixing, tx_fields, block_fields, decoded_tx, unmarshal_tx,
  unmarshal_block,
}
use agents_go.Eth.Types.Blocks.{zero_fixed, IsReadAs, unmarshal_block_iff}
use agents_go.Eth.Types.Stripped.{is_padded, stripped, unmarshal_tx_lem}

abbrev nonce_of : Option Json → Result ℕ Text
nonce_of (some (str s)) = ok s
nonce_of o = err 1

abbrev object : Text → Fields
object [] = field (codes "nonce") (other 7) nil
object s = field (codes "to") (other 1) (field (codes "nonce") (str s) nil)

abbrev decoders : Decoders ℕ Text Text Text Text
decoders = record {
  unmarshal = λ input. ok (object input);
  marshal = λ m. nonce_of (lookup (codes "nonce") m);
  hash_of = λ t. ok (codes "h");
  tx_of = ok;
  extra_of = λ t. ok [];
  header_of = ok;
  elements_of = λ t. ok (none ∷ some (codes "0x00") ∷ []);
}

abbrev tx : Text → RpcTx Text Text Text
tx nonce = record { tx_hash = codes "h"; tx = nonce; extra = [] }

zeros_stripped : unmarshal_tx decoders (codes "0x0a") ≡ ok (tx (codes "0xa"))
unfolding unmarshal_tx fix_json_fields set fixer_hex_strip_leading_zeros
zeros_stripped = refl

number_refused : unmarshal_tx decoders [] ≡ err (fixing invalid_type)
unfolding unmarshal_tx fix_json_fields
number_refused = refl

null_kept :
    unmarshal_block decoders (codes "0x1")
    ≡ ok (record {
      block_hash = codes "h";
      header = codes "0x1";
      transactions = none ∷ some (tx (codes "0x0")) ∷ [];
    })
unfolding unmarshal_block fix_json_fields set fixer_hex_strip_leading_zeros
null_kept = refl

unmarshal_tx_lem_example :
    (All (λ f. IsTextual (lookup f.0 (object (codes "0x0a")))) tx_fields
      × ((m' : Fields) × (unmarshal_tx decoders (codes "0x0a") ≡ (
            map_err json (decoders.marshal m') >>= λ input'.
            map_err json (decoded_tx decoders input')))
          × ((key : Text) → lookup key m' ≡ stripped key (lookup key (object (codes "0x0a"))))))
    ⊎ ((name : Text) × (is_padded name ≡ true)
        × IsRefused (lookup name (object (codes "0x0a")))
        × (unmarshal_tx decoders (codes "0x0a") ≡ err (fixing invalid_type)))
unmarshal_tx_lem_example = unmarshal_tx_lem decoders (codes "0x0a") (object (codes "0x0a")) refl

abbrev block : HeaderWithBody Text Text Text Text
block = record {
  block_hash = codes "h";
  header = codes "0x1";
  transactions = none ∷ some (tx (codes "0x0")) ∷ [];
}

unmarshal_block_iff_example :
    IsTextual (lookup (codes "stateRoot") (object (codes "0x1")))
    × ((raw : Fields) × (fix_json_fields {E = ℕ} true (fixes_of block_fields) (object (codes "0x1"))
          ≡ Fixer.ok raw)
        × ((key : Text) → lookup key raw ≡ zero_fixed key (lookup key (object (codes "0x1"))))
        × ((text : Text) × (decoders.marshal raw ≡ ok text) × IsReadAs decoders text block))
unmarshal_block_iff_example =
    (unmarshal_block_iff decoders (codes "0x1") (object (codes "0x1")) block refl).0 null_kept
